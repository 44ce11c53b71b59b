-- ===== src/Mutation/Kinds.antt =====
-- The enumerations of src/wyreplumber/runtime/controls.py and its tables of failure codes.
use wyreplumber.Prelude.{String, Bool, true, false, Option, none, some, str_eq, if◌then◌else◌, ◌||◌}

pub data MutationOperation : Type 0 where
  set_parameter set_node_mixer set_metadata clear_metadata : MutationOperation
  select_profile select_route create_link remove_link : MutationOperation

pub data ConfirmationOperator : Type 0 where
  equals approximately_equals present absent : ConfirmationOperator

pub data MutationStatus : Type 0 where
  confirmed rejected failed timed_out cancelled : MutationStatus

pub data MutationDispatchDisposition : Type 0 where
  ready rejected failed cancelled : MutationDispatchDisposition

pub data MutationFailurePhase : Type 0 where
  validation precondition execution confirmation deadline cancellation : MutationFailurePhase

pub data MutationFailureCode : Type 0 where
  invalid_request unsupported_operation : MutationFailureCode
  stale_generation stale_sequence target_not_found target_identity_changed : MutationFailureCode
  target_unavailable not_writable ownership_conflict : MutationFailureCode
  native_rejected confirmation_timeout deadline_expired generation_lost : MutationFailureCode
  runtime_stopped caller_cancelled internal_error : MutationFailureCode

-- `_FAILURE_CODES_BY_PHASE[phase]`, as a test for membership.
unfoldable pub code_of_phase : MutationFailurePhase → MutationFailureCode → Bool
code_of_phase validation invalid_request = true
code_of_phase validation unsupported_operation = true
code_of_phase precondition stale_generation = true
code_of_phase precondition stale_sequence = true
code_of_phase precondition target_not_found = true
code_of_phase precondition target_identity_changed = true
code_of_phase precondition target_unavailable = true
code_of_phase precondition not_writable = true
code_of_phase precondition ownership_conflict = true
code_of_phase execution native_rejected = true
code_of_phase execution internal_error = true
code_of_phase confirmation confirmation_timeout = true
code_of_phase deadline deadline_expired = true
code_of_phase cancellation generation_lost = true
code_of_phase cancellation runtime_stopped = true
code_of_phase cancellation caller_cancelled = true
code_of_phase _ _ = false

-- `codes_by_status` of `MutationOutcome.__post_init__`; a confirmed outcome has no code.
unfoldable pub code_of_status : MutationStatus → MutationFailureCode → Bool
unfolding code_of_phase
code_of_status confirmed code = false
code_of_status MutationStatus.rejected code =
    code_of_phase validation code || code_of_phase precondition code
code_of_status MutationStatus.failed code = code_of_phase execution code
code_of_status timed_out confirmation_timeout = true
code_of_status timed_out deadline_expired = true
code_of_status timed_out _ = false
code_of_status MutationStatus.cancelled code = code_of_phase cancellation code

-- The set that a rejected dispatch ticket draws from.
unfoldable pub rejection_code : MutationFailureCode → Bool
rejection_code unsupported_operation = true
rejection_code stale_generation = true
rejection_code stale_sequence = true
rejection_code target_not_found = true
rejection_code target_identity_changed = true
rejection_code target_unavailable = true
rejection_code not_writable = true
rejection_code ownership_conflict = true
rejection_code _ = false

-- The set that a failed dispatch ticket draws from.
unfoldable pub failed_code : MutationFailureCode → Bool
failed_code native_rejected = true
failed_code internal_error = true
failed_code _ = false

-- The set that a cancelled dispatch ticket draws from.
unfoldable pub cancelled_code : MutationFailureCode → Bool
cancelled_code generation_lost = true
cancelled_code runtime_stopped = true
cancelled_code _ = false

-- `MutationOperation(text)`
unfoldable pub operation : String → Option MutationOperation
operation s =
    if str_eq s "set_parameter"
    then some set_parameter
    else if str_eq s "set_node_mixer"
    then some set_node_mixer
    else if str_eq s "set_metadata"
    then some set_metadata
    else if str_eq s "clear_metadata"
    then some clear_metadata
    else if str_eq s "select_profile"
    then some select_profile
    else if str_eq s "select_route"
    then some select_route
    else if str_eq s "create_link"
    then some create_link
    else if str_eq s "remove_link"
    then some remove_link
    else none

-- `ConfirmationOperator(text)`
unfoldable pub confirmation_operator : String → Option ConfirmationOperator
confirmation_operator s =
    if str_eq s "equals"
    then some equals
    else if str_eq s "approximately_equals"
    then some approximately_equals
    else if str_eq s "present"
    then some present
    else if str_eq s "absent"
    then some absent
    else none

-- `MutationDispatchDisposition(text)`
unfoldable pub dispatch_disposition : String → Option MutationDispatchDisposition
dispatch_disposition s =
    if str_eq s "ready"
    then some ready
    else if str_eq s "rejected"
    then some MutationDispatchDisposition.rejected
    else if str_eq s "failed"
    then some MutationDispatchDisposition.failed
    else if str_eq s "cancelled"
    then some MutationDispatchDisposition.cancelled
    else none

-- The rest of the members, in their order.
later_code : String → Option MutationFailureCode
later_code s =
    if str_eq s "native_rejected"
    then some native_rejected
    else if str_eq s "confirmation_timeout"
    then some confirmation_timeout
    else if str_eq s "deadline_expired"
    then some deadline_expired
    else if str_eq s "generation_lost"
    then some generation_lost
    else if str_eq s "runtime_stopped"
    then some runtime_stopped
    else if str_eq s "caller_cancelled"
    then some caller_cancelled
    else if str_eq s "internal_error"
    then some internal_error
    else none

-- `MutationFailureCode(text)`
unfoldable pub failure_code : String → Option MutationFailureCode
unfolding later_code
failure_code s =
    if str_eq s "invalid_request"
    then some invalid_request
    else if str_eq s "unsupported_operation"
    then some unsupported_operation
    else if str_eq s "stale_generation"
    then some stale_generation
    else if str_eq s "stale_sequence"
    then some stale_sequence
    else if str_eq s "target_not_found"
    then some target_not_found
    else if str_eq s "target_identity_changed"
    then some target_identity_changed
    else if str_eq s "target_unavailable"
    then some target_unavailable
    else if str_eq s "not_writable"
    then some not_writable
    else if str_eq s "ownership_conflict"
    then some ownership_conflict
    else later_code s
