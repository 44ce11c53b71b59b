-- ===== src/Mutation/Ticket.antt =====
-- `MutationDispatchTicketValue` and its payload: what the native dispatcher answers.
use wyreplumber.Prelude.{
  ℕ, pos, String, Bool, true, false, not, ◌&&◌, ◌||◌, Option, none, some, Result, ok, err,
  type_error, value_error, ◌>>=◌, ◌>>◌, require, ◌==◌, str_eq, List, [], ◌∷◌, if◌then◌else◌,
}
use wyreplumber.Value.{
  Value, null, int, int_member, float, dict, frozen, Fields, end, field, text, number,
}
use wyreplumber.Value.Checks.{identifier, optional_identifier, required_string, enum, lookup}
use wyreplumber.Mutation.Kinds.{
  MutationOperation, MutationDispatchDisposition, MutationFailureCode, operation,
  dispatch_disposition, failure_code, ready, rejection_code, failed_code, cancelled_code,
}

pub record Ticket : Type 0 where
  pub request_id : String
  pub operation : MutationOperation
  pub dispatch_order : ℕ
  pub disposition : MutationDispatchDisposition
  pub expected_generation : ℕ
  pub observed_generation : ℕ
  pub observed_sequence : ℕ
  pub expected_sequence : Option ℕ
  pub failure_code : Option MutationFailureCode

pub record TicketFields : Type 0 where
  pub request_id : Value
  pub operation : Value
  pub dispatch_order : Value
  pub disposition : Value
  pub expected_generation : Value
  pub observed_generation : Value
  pub observed_sequence : Value
  pub expected_sequence : Value
  pub failure_code : Value

optional_code : Value → Result (Option MutationFailureCode)
optional_code null = ok none
optional_code v = do c ← enum failure_code v; ok (some c)

-- The checks on the disposition, which end `__post_init__`.
unfoldable pub check_disposition :
    MutationDispatchDisposition
    → (dispatch_order : ℕ) → Option MutationFailureCode
    → Result (Unit {0})
check_disposition ready order none = require (not (order == 0)) value_error
check_disposition ready order (some c) = err value_error
check_disposition d order none = err value_error
check_disposition MutationDispatchDisposition.rejected order (some c) =
    require (rejection_code c) value_error
check_disposition MutationDispatchDisposition.failed order (some c) =
    require (failed_code c) value_error
check_disposition MutationDispatchDisposition.cancelled order (some c) =
    require (cancelled_code c) value_error

-- `MutationDispatchTicketValue.__post_init__`
unfoldable pub dispatch_ticket : TicketFields → Result Ticket
unfolding optional_code check_disposition
dispatch_ticket args = do
  request_id ← required_string false args.request_id
  op ← enum operation args.operation
  disposition ← enum dispatch_disposition args.disposition
  order ← identifier args.dispatch_order
  expected ← identifier args.expected_generation
  after ← optional_identifier args.expected_sequence
  generation ← identifier args.observed_generation
  sequence ← identifier args.observed_sequence
  code ← optional_code args.failure_code
  check_disposition disposition order code
  ok (record {
    request_id = request_id;
    operation = op;
    dispatch_order = order;
    disposition = disposition;
    expected_generation = expected;
    observed_generation = generation;
    observed_sequence = sequence;
    expected_sequence = after;
    failure_code = code;
  })

-- The fields of a payload, which all must be there.
abbrev required : List String
required =
    "payload_version" ∷ "request_id" ∷ "operation" ∷ "dispatch_order" ∷ "disposition"
    ∷ "expected_generation" ∷ "expected_sequence" ∷ "observed_generation" ∷ "observed_sequence"
    ∷ "failure_code" ∷ []

abbrev among : String → List String → Bool
among k [] = false
among k (j ∷ js) = str_eq j k || among k js

-- `payload[key]`
abbrev entry : String → Fields → Result Value
entry k fs = elim (lookup k fs) [ none ↦ err value_error | some v ↦ ok v ]

abbrev all_there : List String → Fields → Result (Unit {0})
all_there [] fs = ok tt
all_there (k ∷ ks) fs = do v ← entry k fs; all_there ks fs

abbrev has_number : Fields → Bool
has_number end = false
has_number (field (number n) v fs) = true
has_number (field (text k) v fs) = has_number fs

abbrev all_known : Fields → Bool
all_known end = true
all_known (field (number n) v fs) = false
all_known (field (text k) v fs) = among k required && all_known fs

-- `sorted` and `join` of a key that is no text raise a TypeError.
abbrev none_unknown : Fields → Result (Unit {0})
none_unknown fs =
    if all_known fs then ok tt else if has_number fs then err type_error else err value_error

-- `version == 1`, for what is no boolean: 1.0 is such a value.
abbrev is_version : Value → Bool
is_version (int (pos n)) = n == 1
is_version (int_member (pos n)) = n == 1
is_version (float x) = x == 4607182418800017408
is_version _ = false

-- `mutation_dispatch_ticket_from_payload`
unfoldable pub ticket_from_payload : Value → Result Ticket
unfolding dispatch_ticket
ticket_from_payload payload = do
  fs ← items_of payload
  all_there required fs
  none_unknown fs
  version ← entry "payload_version" fs
  require (is_version version) value_error
  request_id ← entry "request_id" fs
  op ← entry "operation" fs
  order ← entry "dispatch_order" fs
  disposition ← entry "disposition" fs
  expected ← entry "expected_generation" fs
  after ← entry "expected_sequence" fs
  generation ← entry "observed_generation" fs
  sequence ← entry "observed_sequence" fs
  code ← entry "failure_code" fs
  dispatch_ticket (record {
    request_id = request_id;
    operation = op;
    dispatch_order = order;
    disposition = disposition;
    expected_generation = expected;
    observed_generation = generation;
    observed_sequence = sequence;
    expected_sequence = after;
    failure_code = code;
  })
  where
    items_of : Value → Result Fields
    items_of (dict fs) = ok fs
    items_of (frozen fs) = ok fs
    items_of _ = err type_error
