-- ===== src/Tests/Mutations.antt =====
-- A mutation that waits for a node, on a connection that the tests make up.
use wyreplumber.Prelude.{
  ℕ, ◌+◌, pos, false, none, some, [], ◌∷◌, map, ◌≡◌, ◌≢◌, ◌⊎◌, refl, Result, ok, All, leb,
  if◌then◌else◌,
}
use wyreplumber.Value.{Value, null, int, float, str, dict, datetime, aware, end, field, text}
use wyreplumber.Value.Checks.{id, required_string, lookup, identifier, optional_identifier, enum}
use wyreplumber.Value.Json.{mapping, contract_value}
use wyreplumber.Builtins.{timestamp}
use wyreplumber.Model.Index.{get}
use wyreplumber.Mutation.Texts.{operation_text, status_text, mutation_status}
use wyreplumber.Mutation.Observation.{confirmations_from}
use wyreplumber.Value.Floats.{to_double, is_finite, is_negative}
use wyreplumber.Event.Kinds.{node}
use wyreplumber.Model.Snapshot.{Snapshot}
use wyreplumber.Model.Serialize.{node_value}
use wyreplumber.Mutation.Kinds.{
  set_metadata, present, confirmed, ready, MutationDispatchDisposition, stale_generation, operation,
  dispatch_disposition, failure_code, rejection_code,
}
use wyreplumber.Mutation.Predicate.{Target, Predicate, matches, resolve_path}
use wyreplumber.Mutation.Request.{
  Request, CreateFields, create, resequence, is_expired, parse_timestamp, or_else,
}
use wyreplumber.Mutation.Outcome.{
  Confirmation, Outcome, OutcomeFields, mutation_outcome, mutation_confirmation,
}
use wyreplumber.Mutation.Ticket.{Ticket, TicketFields, dispatch_ticket, ticket_from_payload}
use wyreplumber.Mutation.Failures.{ticket_failure_outcome}
use wyreplumber.Mutation.Execution.{World, execute}
use wyreplumber.Mutation.Confirmed.{Shows}
use wyreplumber.Mutation.Verdict.{Seen, execute-confirmed}
use wyreplumber.Mutation.Dispatch.{Preflight, Allowed, execute-Allowed}
use wyreplumber.Mutation.Termination.{execute-returns}
use wyreplumber.Mutation.Tickets.{status_of, ticket_failure_outcome-returns}
use wyreplumber.Mutation.Consistency.{IsConsistent, mutation_outcome-IsConsistent}
use wyreplumber.Mutation.Deadline.{create-is_expired}
use wyreplumber.Tests.Fixtures.{python, tally}
use wyreplumber.Tests.Snapshots.{speaker, bare, playing}

abbrev pub target : Target
target = record { kind = node; object_id = id 7; selector = end }

-- The node is there.
abbrev pub there : Predicate
there = record { target = target; operator = present; path = []; expected = null; tolerance = none }

-- Expects generation 1 and sequence 3, until the tenth microsecond.
abbrev pub request : Request
request = record {
  request_id = "r";
  expected_generation = 1;
  operation = set_metadata;
  target = target;
  requested_at = "";
  deadline_at = "IIIIIIIIII";
  expected_sequence = some 3;
  payload = end;
  confirmation_predicates = there ∷ [];
}

abbrev ticket_payload : Value
ticket_payload = dict (
    field (text "payload_version") (int (pos 1)) (
      field (text "request_id") (str "r") (
        field (text "operation") (str "set_metadata") (
          field (text "dispatch_order") (int (pos 1)) (
            field (text "disposition") (str "ready") (
              field (text "expected_generation") (int (pos 1)) (
                field (text "expected_sequence") (int (pos 4)) (
                  field (text "observed_generation") (int (pos 1)) (
                    field (text "observed_sequence") (int (pos 4))
                      (field (text "failure_code") null end))))))))))

-- The node shows up after the fourth step; each step takes a microsecond.
abbrev connection : World
connection = record {
  clock = λ n. n;
  capture = λ n. if leb n 4 then ok bare else ok playing;
  dispatch = λ n r. ok ticket_payload;
}

abbrev pub seen : Outcome
seen = record {
  request_id = "r";
  generation = 1;
  operation = set_metadata;
  status = confirmed;
  completed_at = "III";
  confirmations =
      record {
        generation = 1;
        sequence = 4;
        observed_at = "III";
        predicate = there;
        observation = node_value speaker;
      }
      ∷ [];
  failure = none;
}

confirmed_run : (execute python connection 2 none request).outcome ≡ some (ok seen)
unfolding execute is_expired timestamp tally confirmations_from matches resolve_path lookup get
    resequence required_string identifier optional_identifier enum operation operation_text mapping
    ticket_from_payload dispatch_disposition contract_value node_value mutation_status status_text
    mutation_confirmation mutation_outcome
confirmed_run = refl

execute-confirmed_example :
    (s : Snapshot) × Seen python connection none s
    × (s.generation ≡ 1)
    × All (Shows python s) seen.confirmations
    × (map (λ (c : Confirmation). c.predicate) seen.confirmations ≡ there ∷ [])
execute-confirmed_example =
    execute-confirmed python connection 2 none request seen confirmed_run refl

execute-Allowed_example :
    let ds = (execute python connection 2 none request).dispatched in
    (ds ≡ [])
    ⊎ ((d : Request) × (step : ℕ) × (s : Snapshot) × (ds ≡ d ∷ [])
        × Preflight python connection none step s
        × Allowed python connection step request s d)
execute-Allowed_example = execute-Allowed python connection 2 none request

deadline_parsed : parse_timestamp python (str request.deadline_at) ≡ ok 10
unfolding parse_timestamp timestamp tally
deadline_parsed = refl

execute-returns_example :
    (o : Result Outcome) × ((execute python connection 11 none request).outcome ≡ some o)
execute-returns_example =
    execute-returns python connection request 10 10 deadline_parsed (λ n late. late) none

-- A ticket that the dispatcher refuses.
abbrev refused : TicketFields
refused = record {
  request_id = str "r";
  operation = str "set_metadata";
  dispatch_order = int (pos 0);
  disposition = str "rejected";
  expected_generation = int (pos 1);
  observed_generation = int (pos 2);
  observed_sequence = int (pos 0);
  expected_sequence = null;
  failure_code = str "stale_generation";
}

abbrev refused_ticket : Ticket
refused_ticket = record {
  request_id = "r";
  operation = set_metadata;
  dispatch_order = 0;
  disposition = MutationDispatchDisposition.rejected;
  expected_generation = 1;
  observed_generation = 2;
  observed_sequence = 0;
  expected_sequence = none;
  failure_code = some stale_generation;
}

refused_made : dispatch_ticket refused ≡ ok refused_ticket
unfolding dispatch_ticket required_string enum operation dispatch_disposition identifier
    optional_identifier failure_code rejection_code
refused_made = refl

pub request_named : required_string false (str "r") ≡ ok "r"
unfolding required_string
request_named = refl

is_refused : MutationDispatchDisposition.rejected ≢ ready
is_refused h = cc

ticket_failure_outcome-returns_example :
    (o : Outcome) × (ticket_failure_outcome python 5 request refused_ticket ≡ ok o)
    × (o.status ≡ status_of MutationDispatchDisposition.rejected)
    × (o.request_id ≡ "r")
ticket_failure_outcome-returns_example =
    ticket_failure_outcome-returns python 5 request refused refused_ticket request_named
      refused_made is_refused

abbrev outcome_fields : OutcomeFields
outcome_fields = record {
  request_id = str "r";
  generation = int (pos 1);
  operation = str "set_metadata";
  status = str "confirmed";
  completed_at = datetime (aware 3);
  confirmations = seen.confirmations;
  failure = none;
}

outcome_made : mutation_outcome python outcome_fields ≡ ok seen
unfolding mutation_outcome required_string identifier enum operation mutation_status timestamp tally
outcome_made = refl

mutation_outcome-IsConsistent_example : IsConsistent seen
mutation_outcome-IsConsistent_example =
    mutation_outcome-IsConsistent python outcome_fields seen outcome_made

-- A request made at the second microsecond, for three more.
abbrev arguments : CreateFields
arguments = record {
  expected_generation = int (pos 1);
  operation = str "set_metadata";
  target = target;
  confirmation_predicates = there ∷ [];
  timeout = float 3;
  expected_sequence = null;
  payload = null;
  request_id = null;
  now = null;
}

abbrev created : Request
created = record {
  request_id = "fresh";
  expected_generation = 1;
  operation = set_metadata;
  target = target;
  requested_at = "II";
  deadline_at = "IIIII";
  expected_sequence = none;
  payload = end;
  confirmation_predicates = there ∷ [];
}

created_made : create python "fresh" 2 arguments ≡ ok created
unfolding create to_double is_finite is_negative parse_timestamp timestamp required_string
    identifier optional_identifier enum operation tally mapping
created_made = refl

create-is_expired_example :
    (timeout requested delta : ℕ) × (to_double python (float 3) ≡ ok timeout)
    × (python.microseconds timeout ≡ some delta)
    × (parse_timestamp python (or_else python null (datetime (aware 2))) ≡ ok requested)
    × ((later : ℕ) → is_expired python created later ≡ ok (leb (requested + delta) later))
create-is_expired_example = create-is_expired python "fresh" 2 arguments created created_made
