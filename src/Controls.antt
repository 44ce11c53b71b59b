-- ===== src/Controls.antt =====
-- The typed controls of src/wyreplumber/runtime/controls.py: each validates its arguments, makes a
-- request with the predicates that confirm it, and hands it to the executor. Here: what they share.
pub mod Links
pub mod Managed
pub mod Claims
pub mod Metadata
pub mod Defaults
pub mod Pods
pub mod Parameters
pub mod Selection
pub mod Profiles
pub mod Routes
pub mod Dispatched
pub mod Creation
pub mod Removal
pub mod Bounds
pub mod Reserved
pub mod Defaulting
pub mod Streaming
pub mod Choices
pub mod RouteChoices
pub mod ActiveProfiles
pub mod Compatible
use Prim.Native.String.{◌++◌ as ◌<>◌}
use wyreplumber.Prelude.{
  ℕ, ◌+◌, pos, String, Bool, true, false, not, ◌||◌, ◌==◌, leb, Option, none, some, List, [], ◌∷◌,
  Result, ok, err, value_error, ◌>>=◌, ◌>>◌, require, if◌then◌else◌,
}
use wyreplumber.Value.{
  Value, null, int, str, str_member, tuple, dict, Items, nil, cons, Fields, end, field, Key, text,
}
use wyreplumber.Value.Checks.{identifier}
use wyreplumber.Builtins.{Builtins}
use wyreplumber.Event.Kinds.{RuntimeObjectKind, kind_text}
use wyreplumber.Model.Snapshot.{Snapshot}
use wyreplumber.Mutation.Kinds.{
  MutationStatus, MutationOperation, MutationFailureCode, precondition,
}
use wyreplumber.Mutation.Texts.{operation_text}
use wyreplumber.Mutation.Predicate.{
  Target, mutation_target, Predicate, PredicateFields, confirmation_predicate,
}
use wyreplumber.Mutation.Request.{Request, CreateFields, create}
use wyreplumber.Mutation.Outcome.{Outcome}
use wyreplumber.Mutation.Failures.{failure_outcome}
use wyreplumber.Mutation.Execution.{World, Execution, ends, execute}

-- The arguments that all controls take.
pub record Options : Type 0 where
  pub expected_generation : Value
  pub expected_sequence : Value
  pub timeout : Value
  pub request_id : Value

-- A control that raises before it executes anything.
abbrev pub attempt : Result Execution → Execution
attempt (err e) = ends (err e)
attempt (ok x) = x

-- The world from the k-th step on.
abbrev pub later : ℕ → World → World
later k w = record {
  clock = λ n. w.clock (k + n);
  capture = λ n. w.capture (k + n);
  dispatch = λ n. w.dispatch (k + n);
}

-- `_pipewire_identifier`
unfoldable pub pipewire_identifier : Value → Result ℕ
pipewire_identifier v = do n ← identifier v; require (leb n 0xFFFFFFFF) value_error; ok n

-- MutationTargetValue(object_kind=kind, object_id=object_id, selector=selector)
abbrev pub target_of : RuntimeObjectKind → (object_id : Value) → (selector : Fields) → Result Target
target_of kind object_id selector =
    mutation_target (str_member (kind_text kind)) object_id (dict selector)

module _ (py : Builtins) where
  -- An EQUALS predicate.
  abbrev pub equals_at : Target → (path : Items) → (expected : Value) → Result Predicate
  equals_at target path expected = confirmation_predicate py (record {
    target = target;
    operator = str_member "equals";
    path = tuple path;
    expected = expected;
    tolerance = null;
  })

  -- An ABSENT predicate.
  abbrev pub absent_at : Target → Result Predicate
  absent_at target = confirmation_predicate py (record {
    target = target;
    operator = str_member "absent";
    path = tuple nil;
    expected = null;
    tolerance = null;
  })

  -- `MutationRequest.create`, with the arguments that all controls pass on.
  abbrev pub request_of :
      (fresh : String)
      → (clock : ℕ) → Options
      → MutationOperation
      → Target
      → (payload : Fields) → List Predicate
      → Result Request
  request_of fresh clock options operation target payload predicates =
      create py fresh clock (record {
        expected_generation = options.expected_generation;
        operation = str_member (operation_text operation);
        target = target;
        confirmation_predicates = predicates;
        timeout = options.timeout;
        expected_sequence = options.expected_sequence;
        payload = dict payload;
        request_id = options.request_id;
        now = null;
      })

  -- `_selection_failure`, when the clock reads `clock`
  unfoldable pub selection_failure :
      (clock : ℕ)
      → Request
      → MutationFailureCode
      → (message : String) → (details : Fields) → Result Outcome
  selection_failure clock r code message details = failure_outcome py clock r (record {
    status = MutationStatus.rejected;
    phase = precondition;
    code = code;
    message = message;
    retryable = false;
    details = details;
    confirmations = [];
  })

-- `_preflight_is_stale`
unfoldable pub preflight_is_stale : Request → Snapshot → Bool
preflight_is_stale r s =
    not (s.generation == r.expected_generation)
    || (elim r.expected_sequence [ none ↦ false | some e ↦ not (s.sequence == e + 1) ])
