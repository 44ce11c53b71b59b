-- ===== src/Mutation/Predicate.antt =====
-- Mutation targets, confirmation predicates, and their evaluation on an observation.
use wyreplumber.Prelude.{
  ℕ, zero, suc, String, Bool, true, false, not, ◌&&◌, Option, none, some, List, [], ◌∷◌, Result, ok,
  err, type_error, value_error, ◌>>=◌, ◌>>◌, require, traverse, if◌then◌else◌,
}
use wyreplumber.Value.{Value, tuple, list, dict, frozen, Items, nil, cons, Fields}
use wyreplumber.Value.Checks.{
  Identity, as_text, identifier, identity, required_string, sequence, enum, lookup,
}
use wyreplumber.Value.Floats.{is_finite, is_negative, is_number, to_double}
use wyreplumber.Value.Json.{freeze_json, mapping, contract_value}
use wyreplumber.Value.Envelope.{to_dict}
use wyreplumber.Value.Equality.{json_eq}
use wyreplumber.Builtins.{Builtins}
use wyreplumber.Event.{is_null}
use wyreplumber.Event.Kinds.{RuntimeObjectKind, object_kind, connection}
use wyreplumber.Mutation.Kinds.{
  ConfirmationOperator, confirmation_operator, equals, approximately_equals, present, absent,
}

-- MutationTargetValue
pub record Target : Type 0 where
  pub kind : RuntimeObjectKind
  pub object_id : Identity
  pub selector : Fields

abbrev is_mutable : RuntimeObjectKind → Bool
is_mutable connection = false
is_mutable RuntimeObjectKind.runtime = false
is_mutable _ = true

-- `MutationTargetValue.__post_init__`
unfoldable pub mutation_target : (kind object_id selector : Value) → Result Target
mutation_target kind object_id selector = do
  k ← enum object_kind kind
  require (is_mutable k) value_error
  i ← identity object_id
  fs ← mapping selector
  ok (record { kind = k; object_id = i; selector = fs })

pub data PathStep : Type 0 where
  name : String → PathStep
  index : ℕ → PathStep

-- ConfirmationPredicateValue
pub record Predicate : Type 0 where
  pub target : Target
  pub operator : ConfirmationOperator
  pub path : List PathStep
  pub expected : Value
  pub tolerance : Option ℕ

pub record PredicateFields : Type 0 where
  pub target : Target
  pub operator : Value
  pub path : Value
  pub expected : Value
  pub tolerance : Value

path_step : Value → Result PathStep
path_step v = elim (as_text v) [
  | some s ↦ (do t ← required_string false v; ok (name t))
  | none ↦ (do n ← identifier v; ok (index n))
]

module _ (py : Builtins) where
  -- The tolerance of an approximate predicate, as a double.
  approximate : (expected tolerance : Value) → Result (Option ℕ)
  approximate expected tolerance = do
    require (is_number expected) type_error
    t ← to_double py tolerance
    require (is_finite t && not (is_negative t)) value_error
    ok (some t)

  -- What `expected` and `tolerance` may be, by the operator.
  unfoldable pub check_operator :
      ConfirmationOperator → (expected tolerance : Value) → Result (Option ℕ)
  unfolding approximate
  check_operator approximately_equals expected tolerance = approximate expected tolerance
  check_operator equals expected tolerance = do require (is_null tolerance) value_error; ok none
  check_operator _ expected tolerance = do
    require (is_null expected) value_error
    require (is_null tolerance) value_error
    ok none

  -- `ConfirmationPredicateValue.__post_init__`
  unfoldable pub confirmation_predicate : PredicateFields → Result Predicate
  unfolding path_step
  confirmation_predicate args = do
    op ← enum confirmation_operator args.operator
    steps ← sequence args.path
    path ← traverse path_step steps
    expected ← contract_value args.expected
    tolerance ← check_operator op expected args.tolerance
    ok (record {
      target = args.target;
      operator = op;
      path = path;
      expected = expected;
      tolerance = tolerance;
    })

abbrev nth : Items → ℕ → Option Value
nth nil n = none
nth (cons v vs) n = elim n [ zero ↦ some v | suc m ↦ nth vs m ]

abbrev descend : PathStep → Value → Option Value
descend (name k) (dict fs) = lookup k fs
descend (name k) (frozen fs) = lookup k fs
descend (index n) (list vs) = nth vs n
descend (index n) (tuple vs) = nth vs n
descend _ _ = none

-- `_resolve_path`; `none` is its `(False, None)`.
unfoldable pub resolve_path : Value → List PathStep → Option Value
resolve_path v [] = some v
resolve_path v (step ∷ path) = elim (descend step v) [ none ↦ none | some w ↦ resolve_path w path ]

-- `_comparable`
unfoldable pub comparable : Value → Result Value
comparable v = freeze_json (to_dict v)

abbrev is_present : Option Value → Bool
is_present none = false
is_present (some v) = not (is_null v)

module _ (py : Builtins) where
  -- `abs(x - y) <= tolerance`; `None` there is a TypeError.
  abbrev in_tolerance : (x y : ℕ) → Option ℕ → Result Bool
  in_tolerance x y none = err type_error
  in_tolerance x y (some t) = ok (py.within x y t)

  abbrev close_to : Value → (expected : Value) → Option ℕ → Result Bool
  close_to v expected t =
      if is_number v
      then (do x ← to_double py v; y ← to_double py expected; in_tolerance x y t)
      else ok false

  abbrev same : Value → (expected : Value) → Result Bool
  same v expected = do a ← comparable v; b ← comparable expected; ok (json_eq py a b)

  abbrev compare_found : Predicate → Option Value → Result Bool
  compare_found p none = ok false
  compare_found p (some v) = elim p.operator [
    | approximately_equals ↦ close_to v p.expected p.tolerance
    | _ ↦ same v p.expected
  ]

  -- `ConfirmationPredicateValue.matches`
  unfoldable pub matches : Predicate → (observation : Value) → Result Bool
  matches p observation =
      let found = resolve_path (to_dict observation) p.path in
      elim p.operator [
        | present ↦ ok (is_present found)
        | absent ↦ ok (not (is_present found))
        | _ ↦ compare_found p found
      ]
