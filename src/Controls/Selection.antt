-- ===== src/Controls/Selection.antt =====
-- What `select_device_profile` and `select_device_route` of controls.py share: their requests, their
-- failures, and the tests on a route.
use Prim.Native.String.{◌++◌ as ◌<>◌}
use wyreplumber.Prelude.{
  ℕ, pos, String, Bool, true, false, not, ◌||◌, ◌&&◌, ◌==◌, ltb, Option, none, some, List, [], ◌∷◌,
  Result, ok, err, value_error, ◌>>=◌, if◌then◌else◌, length, traverse, str_eq, nat_eq, pair_eq,
}
use wyreplumber.Value.{Value, null, bool, int, str, Items, nil, cons, Fields, end}
use wyreplumber.Value.Checks.{boolean, lookup}
use wyreplumber.Builtins.{Builtins}
use wyreplumber.Event.Kinds.{device}
use wyreplumber.Model.Objects.{Profile, Route, Availability, unavailable}
use wyreplumber.Model.Relations.{same_direction}
use wyreplumber.Model.Serialize.{◌↠◌}
use wyreplumber.Model.Snapshot.{Snapshot}
use wyreplumber.Mutation.Kinds.{
  MutationOperation, select_profile, select_route, target_not_found, target_identity_changed,
  target_unavailable,
}
use wyreplumber.Mutation.Predicate.{Target, Predicate}
use wyreplumber.Mutation.Request.{Request}
use wyreplumber.Mutation.Observation.{confirmations_from}
use wyreplumber.Mutation.Execution.{Execution, ends}
use wyreplumber.Controls.Pods.{
  Pod, Builder, AudioProperties, AudioFields, parameter_pod_bytes, audio_properties,
}
use wyreplumber.Controls.Parameters.{pod_payload}
use package.wyreplumber.Controls.{
  Options, pipewire_identifier, target_of, equals_at, request_of, selection_failure,
}

abbrev pub is_unavailable : Availability → Bool
is_unavailable unavailable = true
is_unavailable _ = false

-- `_route_spa_device`
unfoldable pub route_spa_device : Route → Result ℕ
route_spa_device r = elim (lookup "spa_device_index" r.properties) [
  | none ↦ err value_error
  | some null ↦ err value_error
  | some v ↦ pipewire_identifier v
]

-- A number among ascending numbers, once.
abbrev pub insert : ℕ → List ℕ → List ℕ
insert n [] = n ∷ []
insert n (m ∷ ms) =
    let rest = insert n ms in if n == m then m ∷ ms else if ltb n m then n ∷ m ∷ ms else m ∷ rest

-- `sorted(active_profile_ids)`
unfoldable pub active_profile_ids : (device_id : ℕ) → List Profile → List ℕ
active_profile_ids device_id [] = []
active_profile_ids device_id (p ∷ ps) =
    let rest = active_profile_ids device_id ps in
    if p.device_id == device_id && p.active then insert p.index rest else rest

abbrev pub member : ℕ → List ℕ → Bool
member n [] = false
member n (m ∷ ms) = n == m || member n ms

-- `ids.isdisjoint(others)`
unfoldable pub is_disjoint : (ids others : List ℕ) → Bool
is_disjoint [] others = true
is_disjoint (i ∷ is) others = not (member i others) && is_disjoint is others

abbrev is_some_list : List ℕ → Bool
is_some_list [] = false
is_some_list (n ∷ ns) = true

-- Whether the active profiles of the device rule the route out.
unfoldable pub is_ruled_out : (active : List ℕ) → Route → Bool
unfolding is_disjoint
is_ruled_out active current =
    is_some_list current.profile_ids
    && (is_some_list active && is_disjoint active current.profile_ids)

abbrev pub ids_value : List ℕ → Items
ids_value [] = nil
ids_value (n ∷ ns) = cons (int (pos n)) (ids_value ns)

abbrev pub same_device : Result ℕ → ℕ → Result Bool
same_device (err e) d = err e
same_device (ok c) d = ok (c == d)

abbrev pub other_device : Result ℕ → ℕ → Result Bool
other_device read d = do same ← same_device read d; ok (not same)

-- Whether the route with the index is another one: the tests stop at the first that fails.
unfoldable pub is_other_route : Route → Route → (spa_device : ℕ) → Result Bool
is_other_route current route spa_device =
    if not (str_eq current.name route.name)
      || not (same_direction current.direction route.direction)
    then ok true
    else other_device (route_spa_device current) spa_device

-- The audio properties of a route, if any of them is given.
abbrev pub given_properties : AudioProperties → Option AudioProperties
given_properties p = elim p.volume [
  | some v ↦ some p
  | none ↦ elim p.mute [
    | some b ↦ some p
    | none ↦ elim p.channel_volumes [ some vs ↦ some p | none ↦ none ]
  ]
]

module _ (py : Builtins) where
  open py use {decimal, repr}

  -- `_parameter_selection_request`
  unfoldable pub selection_request :
      Builder
      → (fresh : String) → (clock : ℕ) → Options
      → MutationOperation
      → (parameter_id : String) → (device_id : ℕ) → Pod
      → List Predicate
      → Result Request
  selection_request build fresh clock options operation parameter_id device_id value predicates = do
    raw ← parameter_pod_bytes build value null
    target ← target_of device (int (pos device_id)) (("parameter_id", str parameter_id) ↠ end)
    request_of py fresh clock options operation target (pod_payload py 0 raw) predicates

  -- EQUALS predicates on fields of an object.
  abbrev pub field_predicates : Target → List (String × Value) → Result (List Predicate)
  field_predicates target = traverse (λ e. equals_at py target (cons (str e.0) nil) e.1)

  -- Whether the predicates hold already.
  abbrev pub already : Request → Snapshot → Result Bool
  already r s = do
    found ← confirmations_from s py r.confirmation_predicates
    ok (length found == length r.confirmation_predicates)

  abbrev pub not_present : (clock : ℕ) → Request → (device_id : ℕ) → Execution
  not_present clock r device_id = ends (
      selection_failure py clock r target_not_found
        ("device " <> decimal device_id <> " is not present in the current runtime") end)

  abbrev pub not_enumerated :
      (clock : ℕ) → Request → (what : String) → (index device_id : ℕ) → Execution
  not_enumerated clock r what index device_id = ends (
      selection_failure py clock r target_not_found
        (what <> decimal index <> " is not enumerated for device " <> decimal device_id) end)

  abbrev pub changed : (clock : ℕ) → Request → (message expected observed : String) → Execution
  changed clock r message expected observed = ends (
      selection_failure py clock r target_identity_changed message
        (("expected_name", str expected) ↠ ("observed_name", str observed) ↠ end))

  abbrev pub not_available : (clock : ℕ) → Request → (message : String) → Fields → Execution
  not_available clock r message details =
      ends (selection_failure py clock r target_unavailable message details)

  -- The request of `select_device_profile`.
  unfoldable pub profile_request :
      Builder → (fresh : String) → (clock : ℕ) → Profile → Options → Result Request
  unfolding selection_request
  profile_request build fresh clock p options = do
    d ← pipewire_identifier (int (pos p.device_id))
    i ← pipewire_identifier (int (pos p.index))
    target ← target_of device (int (pos p.device_id)) (("profile_index", int (pos p.index)) ↠ end)
    predicates ← field_predicates target (("active", bool true) ∷ ("name", str p.name) ∷ [])
    selection_request build fresh clock options select_profile "Profile" p.device_id
        (Pod.profile p.index) predicates

  -- The request of `select_device_route`, with the SPA device of the route.
  unfoldable pub route_request :
      Builder
      → (fresh : String) → (clock : ℕ) → Route
      → AudioFields
      → (save : Value) → Options
      → Result (Request × ℕ)
  unfolding selection_request
  route_request build fresh clock r audio save options = do
    d ← pipewire_identifier (int (pos r.device_id))
    i ← pipewire_identifier (int (pos r.index))
    keep ← boolean save
    (properties, expected) ← audio_properties py audio
    spa_device ← route_spa_device r
    target ← target_of device (int (pos r.device_id)) (("route_index", int (pos r.index)) ↠ end)
    predicates ← field_predicates target (("active", bool true) ∷ ("name", str r.name) ∷ expected)
    request ←
        selection_request build fresh clock options select_route "Route" r.device_id
          (Pod.route (record {
            index = r.index;
            device = spa_device;
            save = keep;
            props = given_properties properties;
          }))
          predicates
    ok (request, spa_device)
