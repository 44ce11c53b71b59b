-- ===== src/Mutation/Tickets.antt =====
-- Every refused ticket becomes an outcome.
use Prim.Native.String.{◌++◌ as ◌<>◌}
use wyreplumber.Prelude.{
  ℕ, true, false, Option, none, some, List, [], ◌∷◌, All, nat_eq, ok, ◌≡◌, refl, ◌∙◌, arith, ◌≢◌,
}
use wyreplumber.Value.{str, str_member, bool, dict, Fields}
use wyreplumber.Value.Checks.{identifier, integer, required_string, boolean}
use wyreplumber.Value.Json.{mapping, freeze_json}
use wyreplumber.Builtins.{Builtins}
use wyreplumber.Mutation.Kinds.{
  MutationStatus, MutationDispatchDisposition, MutationFailureCode, ready, rejection_code,
  failed_code, cancelled_code, code_of_phase, code_of_status, confirmed, invalid_request,
  unsupported_operation, stale_generation, stale_sequence, target_not_found,
  target_identity_changed, target_unavailable, not_writable, ownership_conflict, native_rejected,
  confirmation_timeout, deadline_expired, generation_lost, runtime_stopped, caller_cancelled,
  internal_error,
}
use wyreplumber.Mutation.Texts.{
  phase_text, code_text, operation_member, status_member, phase_member, code_member,
}
use wyreplumber.Mutation.Deadline.{timestamp_aware}
use wyreplumber.Mutation.Request.{Request}
use wyreplumber.Mutation.Ticket.{Ticket, TicketFields, check_disposition, dispatch_ticket}
use wyreplumber.Mutation.Outcome.{
  Failure, Confirmation, Outcome, mutation_failure, mutation_outcome, check_status, one_generation,
}
use wyreplumber.Mutation.Failures.{
  FailureArguments, failure_outcome, ticket_failure_outcome, classify, ticket_arguments,
}

-- The status that answers a disposition.
abbrev pub status_of : MutationDispatchDisposition → MutationStatus
status_of ready = confirmed
status_of MutationDispatchDisposition.rejected = MutationStatus.rejected
status_of MutationDispatchDisposition.failed = MutationStatus.failed
status_of MutationDispatchDisposition.cancelled = MutationStatus.cancelled

-- What the constructor of a ticket lets through.
ticket_checked :
    (args : TicketFields) (t : Ticket)
    → dispatch_ticket args ≡ ok t
    → check_disposition t.disposition t.dispatch_order t.failure_code ≡ ok tt
unfolding dispatch_ticket
ticket_checked args t made = ground arith

-- A refused ticket has a code, which fits the status and the phase that it is given.
abbrev Fits : MutationDispatchDisposition → MutationFailureCode → Type 0
Fits d c =
    ((classify d c).0 ≡ status_of d)
    × (code_of_phase (classify d c).1 c ≡ true)
    × (code_of_status (status_of d) c ≡ true)

tables_agree :
    (d : MutationDispatchDisposition) (order : ℕ) (code : Option MutationFailureCode)
    → d ≢ ready
    → check_disposition d order code ≡ ok tt
    → (c : MutationFailureCode) × (code ≡ some c) × Fits d c
unfolding check_disposition rejection_code failed_code cancelled_code code_of_phase code_of_status
tables_agree d order none refused checked = ground arith
tables_agree d order (some c) refused checked =
    (c, refl, (ground arith, ground arith, ground arith))

message_fine :
    (c : MutationFailureCode)
    → required_string false (str ("native mutation dispatch returned " <> code_text c))
      ≡ ok ("native mutation dispatch returned " <> code_text c)
unfolding required_string code_text
message_fine invalid_request = refl
message_fine unsupported_operation = refl
message_fine stale_generation = refl
message_fine stale_sequence = refl
message_fine target_not_found = refl
message_fine target_identity_changed = refl
message_fine target_unavailable = refl
message_fine not_writable = refl
message_fine ownership_conflict = refl
message_fine native_rejected = refl
message_fine confirmation_timeout = refl
message_fine deadline_expired = refl
message_fine generation_lost = refl
message_fine runtime_stopped = refl
message_fine caller_cancelled = refl
message_fine internal_error = refl

status_fine :
    (s : MutationStatus) (cs : List Confirmation) (f : Failure)
    → code_of_status s f.code ≡ true
    → check_status s cs (some f) ≡ ok tt
unfolding check_status code_of_status
status_fine s cs f fits = ground arith

-- Confirmations of one generation.
pub one_generation-All :
    (g : ℕ) (cs : List Confirmation)
    → All (λ (c : Confirmation). c.generation ≡ g) cs
    → one_generation g cs ≡ true
unfolding one_generation
one_generation-All g [] h = refl
one_generation-All g (c ∷ cs) h = ground (arith, h.0, one_generation-All g cs h.1)

module _ (py : Builtins) (clock : ℕ) (r : Request) where
  failure_made :
      (args : FailureArguments) (fs : Fields)
      → required_string false (str args.message) ≡ ok args.message
      → code_of_phase args.phase args.code ≡ true
      → mapping (dict args.details) ≡ ok fs
      → mutation_failure (record {
        phase = str_member (phase_text args.phase);
        code = str_member (code_text args.code);
        message = str args.message;
        retryable = bool args.retryable;
        details = dict args.details;
      })
        ≡ ok (record {
          phase = args.phase;
          code = args.code;
          message = args.message;
          retryable = args.retryable;
          details = fs;
        })
  unfolding mutation_failure boolean
  failure_made args fs message phase details =
      rw (phase_member args.phase, code_member args.code, phase, message, details) refl

  -- `_failure_outcome` returns, with the status and the confirmations that it is given.
  pub failure_returns :
      (args : FailureArguments) (fs : Fields)
      → required_string false (str r.request_id) ≡ ok r.request_id
      → required_string false (str args.message) ≡ ok args.message
      → code_of_phase args.phase args.code ≡ true
      → code_of_status args.status args.code ≡ true
      → mapping (dict args.details) ≡ ok fs
      → one_generation r.expected_generation args.confirmations ≡ true
      → (o : Outcome) × (failure_outcome py clock r args ≡ ok o)
        × (o.status ≡ args.status)
        × (o.request_id ≡ r.request_id)
        × (o.confirmations ≡ args.confirmations)
  unfolding failure_outcome mutation_outcome identifier integer
  failure_returns args fs named message phase status details one =
      let f : Failure = record {
        phase = args.phase;
        code = args.code;
        message = args.message;
        retryable = args.retryable;
        details = fs;
      } in
      let o : Outcome = record {
        request_id = r.request_id;
        generation = r.expected_generation;
        operation = r.operation;
        status = args.status;
        completed_at = py.to_iso clock;
        confirmations = args.confirmations;
        failure = some f;
      } in
      let returns : failure_outcome py clock r args ≡ ok o =
        rw
          (
            failure_made args fs message phase details,
            named,
            operation_member r.operation,
            status_member args.status,
            timestamp_aware py clock,
            one,
            status_fine args.status args.confirmations f status,
          )
          refl in
      (o, returns, refl, refl, refl)

  -- The ticket of a refused dispatch becomes an outcome, whose request is the given one and whose
  -- status is the ticket's disposition: the table of codes for tickets agrees with the tables for
  -- failures and for outcomes. (The request has an id, which its constructor demands.)
  pub ticket_failure_outcome-returns :
      (args : TicketFields) (t : Ticket)
      → required_string false (str r.request_id) ≡ ok r.request_id
      → dispatch_ticket args ≡ ok t
      → t.disposition ≢ ready
      → (o : Outcome) × (ticket_failure_outcome py clock r t ≡ ok o)
        × (o.status ≡ status_of t.disposition)
        × (o.request_id ≡ r.request_id)
  unfolding ticket_failure_outcome mapping freeze_json one_generation
  ticket_failure_outcome-returns args t named made refused =
      let (c, has_code, fits) =
        tables_agree t.disposition t.dispatch_order t.failure_code refused
          (ticket_checked args t made) in
      let (status, phase, code) = fits in
      let (o, returns, same, id, _) =
        failure_returns (ticket_arguments t c) _ named (message_fine c) phase
          (rw (← status) at code) refl refl in
      (o, rw has_code returns, same ∙ status, id)
