-- ===== src/Mutation/Texts.antt =====
-- The members of the enumerations of controls.py as their texts, and the two other parsers.
use wyreplumber.Prelude.{String, Option, none, some, str_eq, if◌then◌else◌, ok, ◌≡◌, refl}
use wyreplumber.Value.{str_member}
use wyreplumber.Value.Checks.{enum}
use wyreplumber.Mutation.Kinds.{
  MutationOperation, set_parameter, set_node_mixer, set_metadata, clear_metadata, select_profile,
  select_route, create_link, remove_link, MutationStatus, confirmed, timed_out,
  MutationFailurePhase, validation, precondition, execution, confirmation, deadline, cancellation,
  MutationFailureCode, invalid_request, unsupported_operation, stale_generation, stale_sequence,
  target_not_found, target_identity_changed, target_unavailable, not_writable, ownership_conflict,
  native_rejected, confirmation_timeout, deadline_expired, generation_lost, runtime_stopped,
  caller_cancelled, internal_error, operation, failure_code,
}

unfoldable pub operation_text : MutationOperation → String
operation_text set_parameter = "set_parameter"
operation_text set_node_mixer = "set_node_mixer"
operation_text set_metadata = "set_metadata"
operation_text clear_metadata = "clear_metadata"
operation_text select_profile = "select_profile"
operation_text select_route = "select_route"
operation_text create_link = "create_link"
operation_text remove_link = "remove_link"

unfoldable pub status_text : MutationStatus → String
status_text confirmed = "confirmed"
status_text MutationStatus.rejected = "rejected"
status_text MutationStatus.failed = "failed"
status_text timed_out = "timed_out"
status_text MutationStatus.cancelled = "cancelled"

unfoldable pub phase_text : MutationFailurePhase → String
phase_text validation = "validation"
phase_text precondition = "precondition"
phase_text execution = "execution"
phase_text confirmation = "confirmation"
phase_text deadline = "deadline"
phase_text cancellation = "cancellation"

unfoldable pub code_text : MutationFailureCode → String
code_text invalid_request = "invalid_request"
code_text unsupported_operation = "unsupported_operation"
code_text stale_generation = "stale_generation"
code_text stale_sequence = "stale_sequence"
code_text target_not_found = "target_not_found"
code_text target_identity_changed = "target_identity_changed"
code_text target_unavailable = "target_unavailable"
code_text not_writable = "not_writable"
code_text ownership_conflict = "ownership_conflict"
code_text native_rejected = "native_rejected"
code_text confirmation_timeout = "confirmation_timeout"
code_text deadline_expired = "deadline_expired"
code_text generation_lost = "generation_lost"
code_text runtime_stopped = "runtime_stopped"
code_text caller_cancelled = "caller_cancelled"
code_text internal_error = "internal_error"

-- `MutationStatus(text)`
unfoldable pub mutation_status : String → Option MutationStatus
mutation_status s =
    if str_eq s "confirmed"
    then some confirmed
    else if str_eq s "rejected"
    then some MutationStatus.rejected
    else if str_eq s "failed"
    then some MutationStatus.failed
    else if str_eq s "timed_out"
    then some timed_out
    else if str_eq s "cancelled"
    then some MutationStatus.cancelled
    else none

-- `MutationFailurePhase(text)`
unfoldable pub failure_phase : String → Option MutationFailurePhase
failure_phase s =
    if str_eq s "validation"
    then some validation
    else if str_eq s "precondition"
    then some precondition
    else if str_eq s "execution"
    then some execution
    else if str_eq s "confirmation"
    then some confirmation
    else if str_eq s "deadline"
    then some deadline
    else if str_eq s "cancellation"
    then some cancellation
    else none

-- A member stands for itself.
pub operation_member :
    (op : MutationOperation) → enum operation (str_member (operation_text op)) ≡ ok op
unfolding enum operation operation_text
operation_member set_parameter = refl
operation_member set_node_mixer = refl
operation_member set_metadata = refl
operation_member clear_metadata = refl
operation_member select_profile = refl
operation_member select_route = refl
operation_member create_link = refl
operation_member remove_link = refl

pub status_member : (s : MutationStatus) → enum mutation_status (str_member (status_text s)) ≡ ok s
unfolding enum mutation_status status_text
status_member confirmed = refl
status_member MutationStatus.rejected = refl
status_member MutationStatus.failed = refl
status_member timed_out = refl
status_member MutationStatus.cancelled = refl

pub phase_member :
    (p : MutationFailurePhase) → enum failure_phase (str_member (phase_text p)) ≡ ok p
unfolding enum failure_phase phase_text
phase_member validation = refl
phase_member precondition = refl
phase_member execution = refl
phase_member confirmation = refl
phase_member deadline = refl
phase_member cancellation = refl

pub code_member : (c : MutationFailureCode) → enum failure_code (str_member (code_text c)) ≡ ok c
unfolding enum failure_code code_text
code_member invalid_request = refl
code_member unsupported_operation = refl
code_member stale_generation = refl
code_member stale_sequence = refl
code_member target_not_found = refl
code_member target_identity_changed = refl
code_member target_unavailable = refl
code_member not_writable = refl
code_member ownership_conflict = refl
code_member native_rejected = refl
code_member confirmation_timeout = refl
code_member deadline_expired = refl
code_member generation_lost = refl
code_member runtime_stopped = refl
code_member caller_cancelled = refl
code_member internal_error = refl
