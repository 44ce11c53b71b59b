-- ===== src/Mutation/Execution.antt =====
-- `_execute_confirmed_mutation` of controls.py: preflight, dispatch, and the wait for a
-- confirmation. The connection and the clock are a `World`: what the n-th step outside answers.
use Prim.Native.String.{◌++◌ as ◌<>◌}
use wyreplumber.Prelude.{
  ℕ, zero, suc, pos, ◌+◌, String, Bool, true, false, not, Option, none, some, List, [], ◌∷◌, Result,
  ok, err, Error, runtime_error, ◌>>=◌, ◌==◌, length, if◌then◌else◌,
}
use wyreplumber.Value.{Value, int, str, str_member, Fields, end, field, text}
use wyreplumber.Builtins.{Builtins}
use wyreplumber.Model.Snapshot.{Snapshot}
use wyreplumber.Mutation.Kinds.{
  MutationStatus, MutationDispatchDisposition, confirmed, timed_out, MutationFailurePhase,
  MutationFailureCode, precondition, confirmation, deadline, cancellation, stale_generation,
  stale_sequence, confirmation_timeout, deadline_expired, generation_lost, ready,
}
use wyreplumber.Mutation.Texts.{operation_text, status_text}
use wyreplumber.Mutation.Predicate.{Predicate}
use wyreplumber.Mutation.Request.{Request, is_expired, resequence}
use wyreplumber.Mutation.Ticket.{ticket_from_payload}
use wyreplumber.Mutation.Outcome.{Confirmation, Outcome, mutation_outcome}
use wyreplumber.Mutation.Observation.{confirmations_from}
use wyreplumber.Mutation.Failures.{
  failure_outcome, ticket_failure_outcome, runtime_unavailable_outcome,
}

-- At step n: the clock's reading, the snapshot that `_capture_snapshot` returns or the exception
-- it raises, and the payload that the native dispatcher returns for a request.
pub record World : Type 0 where
  pub clock : ℕ → ℕ
  pub capture : ℕ → Result Snapshot
  pub dispatch : ℕ → Request → Result Value

-- What the code did: the requests that it dispatched, and its outcome; `none` while it still waits.
pub record Execution : Type 0 where
  pub dispatched : List Request
  pub outcome : Option (Result Outcome)

-- One round of the loop: an outcome or an exception, or the confirmations so far.
pub data Round : Type 0 where
  stops : Result Outcome → Round
  continues : List Confirmation → Round

-- Without a dispatch.
abbrev pub ends : Result Outcome → Execution
ends o = record { dispatched = []; outcome = some o }

abbrev pub detail : String → ℕ → Fields
detail key n = field (text key) (int (pos n)) end

abbrev pub is_ready : MutationDispatchDisposition → Bool
is_ready ready = true
is_ready _ = false

module _ (py : Builtins) (w : World) where
  -- A failure at the step at which the clock is read for it.
  abbrev fails :
      (step : ℕ)
      → Request
      → MutationStatus
      → MutationFailurePhase
      → MutationFailureCode
      → String
      → Fields
      → List Confirmation
      → Result Outcome
  fails step r status phase code message details confirmations =
      failure_outcome py (w.clock step) r (record {
        status = status;
        phase = phase;
        code = code;
        message = message;
        retryable = false;
        details = details;
        confirmations = confirmations;
      })

  -- `except RuntimeError`. A capture raises no other RuntimeError than those with a message; what
  -- is no RuntimeError passes.
  abbrev pub unavailable : (step : ℕ) → Request → Error → List Confirmation → Result Outcome
  unavailable step r (runtime_error message) cs =
      runtime_unavailable_outcome py (w.clock step) r message cs
  unavailable step r e cs = err e

  -- The outcome of a request that a snapshot confirms.
  unfoldable pub confirms : Request → Snapshot → List Confirmation → Result Outcome
  confirms r s confirmations = mutation_outcome py (record {
    request_id = str r.request_id;
    generation = int (pos r.expected_generation);
    operation = str_member (operation_text r.operation);
    status = str_member (status_text confirmed);
    completed_at = str s.captured_at;
    confirmations = confirmations;
    failure = none;
  })

  -- The loop's body, from its snapshot on.
  unfoldable pub after_snapshot :
      (step : ℕ) → Request → List Predicate → List Confirmation → Snapshot → Round
  unfolding confirms
  after_snapshot step r predicates confirmations s =
      if s.generation == r.expected_generation
      then elim (confirmations_from s py predicates) [
        | err e ↦ stops (err e)
        | ok found ↦
            if length found == length predicates
            then stops (confirms r s found)
            else continues found
      ]
      else stops (
          fails step r MutationStatus.cancelled cancellation generation_lost
            "connection generation changed before confirmation"
            (detail "observed_generation" s.generation) confirmations)

  -- The loop's body.
  unfoldable pub round : (step : ℕ) → Request → List Predicate → List Confirmation → Round
  unfolding after_snapshot
  round step r predicates confirmations = elim (is_expired py r (w.clock step)) [
    | err e ↦ stops (err e)
    | ok true ↦ stops (
        fails (step + 1) r timed_out confirmation confirmation_timeout
          "native mutation was accepted but state was not confirmed" end confirmations)
    | ok false ↦ elim (w.capture (step + 1)) [
      | err e ↦ stops (unavailable (step + 2) r e confirmations)
      | ok s ↦ after_snapshot (step + 2) r predicates confirmations s
    ]
  ]

  -- `while True`, for `fuel` rounds; a round takes three steps, its `sleep` included.
  unfoldable pub confirm_loop :
      (fuel step : ℕ) → Request → List Predicate → List Confirmation → Option (Result Outcome)
  unfolding round
  confirm_loop zero step r predicates confirmations = none
  confirm_loop (suc fuel) step r predicates confirmations =
      elim (round step r predicates confirmations) [
        | stops o ↦ some o
        | continues found ↦ confirm_loop fuel (step + 3) r predicates found
      ]

  -- The request that is dispatched: one with a sequence is pinned to the preflight's.
  abbrev pub pinned : Request → Snapshot → Result Request
  pinned r s = elim r.expected_sequence [ none ↦ ok r | some expected ↦ resequence py r s.sequence ]

  -- From the dispatch on.
  unfoldable pub dispatch_from : (fuel step : ℕ) → Request → Snapshot → Execution
  unfolding confirm_loop
  dispatch_from fuel step r s = elim (pinned r s) [
    | err e ↦ ends (err e)
    | ok d ↦ record {
      dispatched = d ∷ [];
      outcome = elim (w.dispatch step d >>= ticket_from_payload) [
        | err e ↦ some (err e)
        | ok t ↦
            if is_ready t.disposition
            then confirm_loop fuel (step + 1) d r.confirmation_predicates []
            else some (ticket_failure_outcome py (w.clock (step + 1)) d t)
      ];
    }
  ]

  -- Once the preflight has not confirmed the request.
  abbrev pub unless_expired : (fuel step : ℕ) → Request → Snapshot → List Confirmation → Execution
  unless_expired fuel step r s found = elim (is_expired py r (w.clock step)) [
    | err e ↦ ends (err e)
    | ok true ↦ ends (
        fails (step + 1) r timed_out deadline deadline_expired
          "mutation deadline expired during runtime preflight" end found)
    | ok false ↦ dispatch_from fuel (step + 1) r s
  ]

  abbrev pub is_stale : Request → Snapshot → Bool
  is_stale r s = elim r.expected_sequence [ none ↦ false | some e ↦ not (s.sequence == e + 1) ]

  abbrev expected_text : Option ℕ → String
  expected_text none = "None"
  expected_text (some e) = py.decimal e

  -- From the preflight's snapshot on.
  unfoldable pub execute_from : (fuel step : ℕ) → Request → Snapshot → Execution
  unfolding confirms dispatch_from
  execute_from fuel step r s =
      if not (s.generation == r.expected_generation)
      then ends (
          fails step r MutationStatus.rejected precondition stale_generation
            ("expected generation "
              <> (py.decimal r.expected_generation <> (", observed " <> py.decimal s.generation)))
            (detail "observed_generation" s.generation) [])
      else if is_stale r s
      then ends (
          fails step r MutationStatus.rejected precondition stale_sequence
            ("expected projection sequence "
              <> (expected_text r.expected_sequence
                  <> (", preflight captured sequence " <> py.decimal s.sequence)))
            (detail "observed_sequence" s.sequence) [])
      else elim (confirmations_from s py r.confirmation_predicates) [
        | err e ↦ ends (err e)
        | ok found ↦
            if length found == length r.confirmation_predicates
            then ends (confirms r s found)
            else unless_expired fuel step r s found
      ]

  -- `_execute_confirmed_mutation`, with its `preflight`
  unfoldable pub execute : (fuel : ℕ) → (preflight : Option Snapshot) → Request → Execution
  unfolding execute_from
  execute fuel preflight r = elim (is_expired py r (w.clock 0)) [
    | err e ↦ ends (err e)
    | ok true ↦ ends (
        fails 1 r timed_out deadline deadline_expired
          "mutation deadline expired before runtime preflight" end [])
    | ok false ↦ elim preflight [
      | some s ↦ execute_from fuel 1 r s
      | none ↦ elim (w.capture 1) [
        | err e ↦ ends (unavailable 2 r e [])
        | ok s ↦ execute_from fuel 2 r s
      ]
    ]
  ]
