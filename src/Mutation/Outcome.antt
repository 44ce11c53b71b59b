-- ===== src/Mutation/Outcome.antt =====
-- `MutationFailureValue`, `MutationConfirmationValue` and `MutationOutcome` of controls.py.
use wyreplumber.Prelude.{
  ℕ, String, Bool, true, false, ◌&&◌, Option, none, some, List, [], ◌∷◌, Result, ok, err,
  value_error, ◌>>=◌, ◌>>◌, require, ◌==◌,
}
use wyreplumber.Value.{Value, Fields}
use wyreplumber.Value.Checks.{identifier, required_string, boolean, enum}
use wyreplumber.Value.Json.{mapping, contract_value}
use wyreplumber.Builtins.{Builtins, timestamp}
use wyreplumber.Mutation.Kinds.{
  MutationOperation, MutationStatus, confirmed, MutationFailurePhase, MutationFailureCode,
  operation, failure_code, code_of_phase, code_of_status,
}
use wyreplumber.Mutation.Texts.{mutation_status, failure_phase}
use wyreplumber.Mutation.Predicate.{Predicate, matches}

-- MutationFailureValue
pub record Failure : Type 0 where
  pub phase : MutationFailurePhase
  pub code : MutationFailureCode
  pub message : String
  pub retryable : Bool
  pub details : Fields

pub record FailureFields : Type 0 where
  pub phase : Value
  pub code : Value
  pub message : Value
  pub retryable : Value
  pub details : Value

-- `MutationFailureValue.__post_init__`
unfoldable pub mutation_failure : FailureFields → Result Failure
mutation_failure args = do
  phase ← enum failure_phase args.phase
  code ← enum failure_code args.code
  require (code_of_phase phase code) value_error
  message ← required_string false args.message
  retryable ← boolean args.retryable
  details ← mapping args.details
  ok (record {
    phase = phase;
    code = code;
    message = message;
    retryable = retryable;
    details = details;
  })

-- MutationConfirmationValue
pub record Confirmation : Type 0 where
  pub generation : ℕ
  pub sequence : ℕ
  pub observed_at : String
  pub predicate : Predicate
  pub observation : Value

pub record ConfirmationFields : Type 0 where
  pub generation : Value
  pub sequence : Value
  pub observed_at : Value
  pub predicate : Predicate
  pub observation : Value

-- MutationOutcome
pub record Outcome : Type 0 where
  pub request_id : String
  pub generation : ℕ
  pub operation : MutationOperation
  pub status : MutationStatus
  pub completed_at : String
  pub confirmations : List Confirmation
  pub failure : Option Failure

pub record OutcomeFields : Type 0 where
  pub request_id : Value
  pub generation : Value
  pub operation : Value
  pub status : Value
  pub completed_at : Value
  pub confirmations : List Confirmation
  pub failure : Option Failure

-- `all(item.generation == generation for item in confirmations)`
unfoldable pub one_generation : ℕ → List Confirmation → Bool
one_generation g [] = true
one_generation g (c ∷ cs) = c.generation == g && one_generation g cs

-- The checks of status, confirmations and failure against each other.
unfoldable pub check_status :
    MutationStatus → List Confirmation → Option Failure → Result (Unit {0})
unfolding code_of_status
check_status confirmed cs (some f) = err value_error
check_status confirmed [] none = err value_error
check_status confirmed (c ∷ cs) none = ok tt
check_status s cs none = err value_error
check_status s cs (some f) = require (code_of_status s f.code) value_error

module _ (py : Builtins) where
  -- `MutationConfirmationValue.__post_init__`
  unfoldable pub mutation_confirmation : ConfirmationFields → Result Confirmation
  mutation_confirmation args = do
    generation ← identifier args.generation
    sequence ← identifier args.sequence
    observed_at ← timestamp py args.observed_at
    observation ← contract_value args.observation
    matched ← matches py args.predicate observation
    require matched value_error
    ok (record {
      generation = generation;
      sequence = sequence;
      observed_at = observed_at;
      predicate = args.predicate;
      observation = observation;
    })

  -- `MutationOutcome.__post_init__`
  unfoldable pub mutation_outcome : OutcomeFields → Result Outcome
  unfolding one_generation check_status
  mutation_outcome args = do
    request_id ← required_string false args.request_id
    generation ← identifier args.generation
    op ← enum operation args.operation
    status ← enum mutation_status args.status
    completed_at ← timestamp py args.completed_at
    require (one_generation generation args.confirmations) value_error
    check_status status args.confirmations args.failure
    ok (record {
      request_id = request_id;
      generation = generation;
      operation = op;
      status = status;
      completed_at = completed_at;
      confirmations = args.confirmations;
      failure = args.failure;
    })
