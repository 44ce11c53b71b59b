-- ===== src/Mutation/Failures.antt =====
-- The three ways of controls.py to make an unsuccessful outcome.
use Prim.Native.String.{◌++◌ as ◌<>◌}
use wyreplumber.Prelude.{
  ℕ, pos, String, Bool, true, false, Option, none, some, List, [], ◌||◌, Result, ◌>>=◌,
  if◌then◌else◌,
}
use wyreplumber.Value.{bool, int, str, str_member, dict, datetime, aware, Fields, end, field, text}
use wyreplumber.Builtins.{Builtins}
use wyreplumber.Mutation.Kinds.{
  MutationStatus, MutationDispatchDisposition, MutationFailurePhase, MutationFailureCode,
  validation, precondition, execution, cancellation, unsupported_operation, generation_lost,
  runtime_stopped, internal_error,
}
use wyreplumber.Mutation.Texts.{operation_text, status_text, phase_text, code_text}
use wyreplumber.Mutation.Request.{Request}
use wyreplumber.Mutation.Ticket.{Ticket}
use wyreplumber.Mutation.Outcome.{mutation_failure, Confirmation, Outcome, mutation_outcome}

-- The arguments of `_failure_outcome` after the request.
pub record FailureArguments : Type 0 where
  pub status : MutationStatus
  pub phase : MutationFailurePhase
  pub code : MutationFailureCode
  pub message : String
  pub retryable : Bool
  pub details : Fields
  pub confirmations : List Confirmation

abbrev is_unsupported : MutationFailureCode → Bool
is_unsupported unsupported_operation = true
is_unsupported _ = false

abbrev is_generation_lost : MutationFailureCode → Bool
is_generation_lost generation_lost = true
is_generation_lost _ = false

-- The status and the phase that `_ticket_failure_outcome` gives a ticket.
abbrev pub classify :
    MutationDispatchDisposition → MutationFailureCode → MutationStatus × MutationFailurePhase
classify MutationDispatchDisposition.cancelled code = (MutationStatus.cancelled, cancellation)
classify MutationDispatchDisposition.failed code = (MutationStatus.failed, execution)
classify _ code =
    if is_unsupported code
    then (MutationStatus.rejected, validation)
    else (MutationStatus.rejected, precondition)

abbrev or_internal : Option MutationFailureCode → MutationFailureCode
or_internal none = internal_error
or_internal (some c) = c

-- What `_ticket_failure_outcome` makes of a ticket with the code.
abbrev pub ticket_arguments : Ticket → MutationFailureCode → FailureArguments
ticket_arguments t code = record {
  status = (classify t.disposition code).0;
  phase = (classify t.disposition code).1;
  code = code;
  message = "native mutation dispatch returned " <> code_text code;
  retryable = is_generation_lost code;
  details = field (text "dispatch_order") (int (pos t.dispatch_order)) (
      field (text "observed_generation") (int (pos t.observed_generation))
        (field (text "observed_sequence") (int (pos t.observed_sequence)) end));
  confirmations = [];
}

-- What `_runtime_unavailable_outcome` makes of a message, by whether it says that the runtime stopped.
abbrev pub unavailable_arguments :
    (stopped : Bool) (message : String) → List Confirmation → FailureArguments
unavailable_arguments stopped message confirmations = record {
  status = if stopped then MutationStatus.cancelled else MutationStatus.failed;
  phase = if stopped then cancellation else execution;
  code = if stopped then runtime_stopped else internal_error;
  message = message;
  retryable = false;
  details = end;
  confirmations = confirmations;
}

module _ (py : Builtins) where
  -- `_failure_outcome`, when the clock reads `clock`
  unfoldable pub failure_outcome : (clock : ℕ) → Request → FailureArguments → Result Outcome
  unfolding operation_text status_text phase_text code_text
  failure_outcome clock request args = do
    failure ← mutation_failure (record {
      phase = str_member (phase_text args.phase);
      code = str_member (code_text args.code);
      message = str args.message;
      retryable = bool args.retryable;
      details = dict args.details;
    })
    mutation_outcome py (record {
      request_id = str request.request_id;
      generation = int (pos request.expected_generation);
      operation = str_member (operation_text request.operation);
      status = str_member (status_text args.status);
      completed_at = datetime (aware clock);
      confirmations = args.confirmations;
      failure = some failure;
    })

  -- `_ticket_failure_outcome`
  unfoldable pub ticket_failure_outcome : (clock : ℕ) → Request → Ticket → Result Outcome
  unfolding failure_outcome
  ticket_failure_outcome clock request t =
      failure_outcome clock request (ticket_arguments t (or_internal t.failure_code))

  -- `_runtime_unavailable_outcome`
  unfoldable pub runtime_unavailable_outcome :
      (clock : ℕ) → Request → (message : String) → List Confirmation → Result Outcome
  unfolding failure_outcome
  runtime_unavailable_outcome clock request message confirmations =
      let stopped = py.mentions "stopped" message || py.mentions "not ready" message in
      failure_outcome clock request (unavailable_arguments stopped message confirmations)
