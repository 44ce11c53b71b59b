-- ===== src/Mutation/Request.antt =====
-- `MutationRequest` of src/wyreplumber/runtime/controls.py.
use Prim.Native.Nat.{◌%◌, ◌^◌}
use wyreplumber.Prelude.{
  ◌==◌, ℤ, ℕ, pos, leb, String, Bool, true, false, not, ◌&&◌, Option, none, some, List, [], ◌∷◌,
  Result, ok, err, type_error, value_error, overflow_error, ◌>>=◌, ◌>>◌, require, str_eq,
  if◌then◌else◌, ◌+◌,
}
use wyreplumber.Value.{
  Value, null, bool, int, int_member, float, bytes, list, tuple, nil, str, str_member, dict, frozen,
  datetime, aware, naive, Fields, end,
}
use wyreplumber.Value.Checks.{identifier, optional_identifier, required_string, enum}
use wyreplumber.Value.Floats.{is_finite, is_negative, to_double}
use wyreplumber.Value.Json.{mapping}
use wyreplumber.Builtins.{Builtins, timestamp}
use wyreplumber.Mutation.Kinds.{MutationOperation, operation}
use wyreplumber.Mutation.Texts.{operation_text}
use wyreplumber.Mutation.Predicate.{Target, Predicate}

pub record Request : Type 0 where
  pub request_id : String
  pub expected_generation : ℕ
  pub operation : MutationOperation
  pub target : Target
  pub requested_at : String
  pub deadline_at : String
  pub expected_sequence : Option ℕ
  pub payload : Fields
  pub confirmation_predicates : List Predicate

pub record RequestFields : Type 0 where
  pub request_id : Value
  pub expected_generation : Value
  pub operation : Value
  pub target : Target
  pub requested_at : Value
  pub deadline_at : Value
  pub expected_sequence : Value
  pub payload : Value
  pub confirmation_predicates : List Predicate

pub record CreateFields : Type 0 where
  pub expected_generation : Value
  pub operation : Value
  pub target : Target
  pub confirmation_predicates : List Predicate
  pub timeout : Value
  pub expected_sequence : Value
  pub payload : Value
  pub request_id : Value
  pub now : Value

abbrev is_zero : ℤ → Bool
is_zero (pos n) = n == 0
is_zero n = false

module _ (py : Builtins) where
  open py use {from_iso, microseconds}

  -- `_parse_timestamp`, in UTC microseconds.
  unfoldable pub parse_timestamp : Value → Result ℕ
  parse_timestamp v = do
    s ← timestamp py v
    elim (from_iso s) [
      | none ↦ err value_error
      | some naive ↦ err type_error
      | some (aware t) ↦ ok t
    ]

  abbrev is_some {ℓ} : {A : Type ℓ} → List A → Bool
  is_some [] = false
  is_some (x ∷ xs) = true

  -- `MutationRequest.__post_init__`
  unfoldable pub mutation_request : RequestFields → Result Request
  mutation_request args = do
    request_id ← required_string false args.request_id
    generation ← identifier args.expected_generation
    sequence ← optional_identifier args.expected_sequence
    op ← enum operation args.operation
    requested_at ← timestamp py args.requested_at
    deadline_at ← timestamp py args.deadline_at
    deadline ← parse_timestamp (str deadline_at)
    requested ← parse_timestamp (str requested_at)
    require (leb requested deadline) value_error
    payload ← mapping args.payload
    require (is_some args.confirmation_predicates) value_error
    ok (record {
      request_id = request_id;
      expected_generation = generation;
      operation = op;
      target = args.target;
      requested_at = requested_at;
      deadline_at = deadline_at;
      expected_sequence = sequence;
      payload = payload;
      confirmation_predicates = args.confirmation_predicates;
    })

  -- `not value`
  abbrev falsy : Value → Bool
  falsy null = true
  falsy (bool b) = not b
  falsy (int n) = is_zero n
  falsy (int_member n) = is_zero n
  falsy (float x) = x % 2 ^ 63 == 0
  falsy (str s) = str_eq s ""
  falsy (str_member s) = str_eq s ""
  falsy (bytes []) = true
  falsy (list nil) = true
  falsy (tuple nil) = true
  falsy (dict end) = true
  falsy (frozen end) = true
  falsy _ = false

  -- `value or default`
  abbrev pub or_else : Value → Value → Value
  or_else v w = if falsy v then w else v

  -- `MutationRequest.create`, when `uuid4` gives `fresh` and the clock reads `clock`
  unfoldable pub create : (fresh : String) (clock : ℕ) → CreateFields → Result Request
  unfolding mutation_request
  create fresh clock args = do
    timeout ← to_double py args.timeout
    require (is_finite timeout && not (is_negative timeout)) value_error
    requested ← parse_timestamp (or_else args.now (datetime (aware clock)))
    elim (microseconds timeout) [
      | none ↦ err overflow_error
      | some delta ↦ (do
        require (leb (requested + delta) py.last_moment) overflow_error
        mutation_request (record {
          request_id = or_else args.request_id (str fresh);
          expected_generation = args.expected_generation;
          operation = args.operation;
          target = args.target;
          requested_at = datetime (aware requested);
          deadline_at = datetime (aware (requested + delta));
          expected_sequence = args.expected_sequence;
          payload = or_else args.payload (dict end);
          confirmation_predicates = args.confirmation_predicates;
        }))
    ]

  -- `MutationRequest.is_expired`, when the clock reads `clock`
  unfoldable pub is_expired : Request → (clock : ℕ) → Result Bool
  unfolding parse_timestamp
  is_expired r clock = do
    observed ← parse_timestamp (datetime (aware clock))
    deadline ← parse_timestamp (str r.deadline_at)
    ok (leb deadline observed)

  -- `replace(request, expected_sequence=sequence)`, which runs `__post_init__` again
  unfoldable pub resequence : Request → (sequence : ℕ) → Result Request
  unfolding mutation_request
  resequence r sequence = mutation_request (record {
    request_id = str r.request_id;
    expected_generation = int (pos r.expected_generation);
    operation = str_member (operation_text r.operation);
    target = r.target;
    requested_at = str r.requested_at;
    deadline_at = str r.deadline_at;
    expected_sequence = int (pos sequence);
    payload = frozen r.payload;
    confirmation_predicates = r.confirmation_predicates;
  })
