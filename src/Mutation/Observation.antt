-- ===== src/Mutation/Observation.antt =====
-- `_snapshot_observation` and `_confirmations_from_snapshot` of controls.py: what a snapshot says of
-- the target of a predicate.
use wyreplumber.Prelude.{
  ℕ, ℤ, pos, String, Bool, true, false, ◌&&◌, Option, none, some, List, [], ◌∷◌, Result, ok, ◌>>=◌,
  ◌==◌, str_eq, nat_eq, string_eq, pair_eq, if◌then◌else◌,
}
use wyreplumber.Value.{Value, null, bool, int, str, frozen}
use wyreplumber.Value.Checks.{id, name, as_int, as_text, lookup}
use wyreplumber.Builtins.{Builtins}
use wyreplumber.Event.Kinds.{RuntimeObjectKind, device, node, port, link, metadata, kind_text}
use wyreplumber.Model.Objects.{Link, MetadataEntry, Defaults}
use wyreplumber.Model.Index.{get}
use wyreplumber.Model.Serialize.{
  device_value, node_value, port_value, link_value, entry_value, metadata_value, parameter_value,
  profile_value, route_value, target_value,
}
use wyreplumber.Model.Snapshot.{Snapshot}
use wyreplumber.Mutation.Predicate.{Target, Predicate, matches}
use wyreplumber.Mutation.Outcome.{Confirmation, mutation_confirmation}

-- `selector.get(key)`, if it is a string
abbrev text_of : String → Target → Option String
text_of key t = elim (lookup key t.selector) [ none ↦ none | some v ↦ as_text v ]

-- `isinstance(value, int)`, with the number as a key of a dictionary; True and False are 1 and 0.
abbrev as_key : Value → Option ℤ
as_key (bool true) = some (pos 1)
as_key (bool false) = some (pos 0)
as_key v = as_int v

abbrev index_of : String → Target → Option ℤ
index_of key t = elim (lookup key t.selector) [ none ↦ none | some v ↦ as_key v ]

abbrev number_of : String → Target → Option ℤ
number_of key t = elim (lookup key t.selector) [ none ↦ none | some v ↦ as_int v ]

abbrev object_of : Target → Option ℕ
object_of t = elim t.object_id [ id n ↦ some n | name s ↦ none ]

abbrev both {ℓ κ} : {A : Type ℓ} {B : Type κ} → Option A → Option B → Option (A × B)
both (some a) (some b) = some (a, b)
both _ _ = none

-- `test and value`
abbrev given {ℓ} : {A : Type ℓ} → Bool → Option A → Option A
given true o = o
given false o = none

-- A value or `None`.
abbrev or_null {ℓ} : {A : Type ℓ} → (A → Value) → Option A → Value
or_null f none = null
or_null f (some a) = f a

-- `index.get((owner, key))`; no key is negative.
abbrev get_by {κ} : {V : Type κ} → ℕ → ℤ → List ((ℕ × ℕ) × V) → Option V
get_by owner (pos k) m = get (owner, k) m
get_by owner _ m = none

unfoldable pub link_of : (owner desired_id : String) → List Link → List Link
link_of owner desired [] = []
link_of owner desired (l ∷ ls) =
    let rest = link_of owner desired ls in
    if same_text owner l.owner && same_text desired l.desired_id then l ∷ rest else rest
  where
    same_text : String → Option String → Bool
    same_text s none = false
    same_text s (some t) = str_eq s t

-- `matches[0] if len(matches) == 1 else None`
abbrev only : List Link → Value
only (l ∷ []) = link_value l
only _ = null

-- The last entry of a subject with a key.
unfoldable pub last_entry : (subject : ℤ) (key : String) → List MetadataEntry → Option MetadataEntry
last_entry subject key [] = none
last_entry subject key (e ∷ es) = elim (last_entry subject key es) [
  | some later ↦ some later
  | none ↦ if same_subject subject e.subject && str_eq e.key key then some e else none
]
  where
    same_subject : ℤ → ℕ → Bool
    same_subject (pos n) m = n == m
    same_subject _ m = false

-- `getattr(defaults, field, None)`, for the fields of a DefaultsValue and its VALUE_TYPE
abbrev default_field : String → Defaults → Value
default_field field d =
    if str_eq field "audio_sink"
    then or_null target_value d.audio_sink
    else if str_eq field "audio_source"
    then or_null target_value d.audio_source
    else if str_eq field "video_source"
    then or_null target_value d.video_source
    else if str_eq field "metadata_id"
    then or_null (λ n. int (pos n)) d.metadata_id
    else if str_eq field "extra"
    then frozen d.extra
    else if str_eq field "VALUE_TYPE"
    then str "defaults"
    else null

abbrev is_link : RuntimeObjectKind → Bool
is_link link = true
is_link _ = false

abbrev is_metadata : RuntimeObjectKind → Bool
is_metadata metadata = true
is_metadata _ = false

module _ (s : Snapshot) where
  abbrev entry_observation : (metadata_id : ℕ) (subject : ℤ) (key : String) → Value
  entry_observation i subject key = elim (get i s.metadata_by_id) [
    | none ↦ null
    | some m ↦ or_null entry_value (last_entry subject key m.entries)
  ]

  -- The object itself, by its kind.
  unfoldable pub object_observation : Target → Value
  object_observation t = elim (object_of t) [
    | none ↦ null
    | some i ↦ elim t.kind [
      | device ↦ or_null device_value (get i s.devices_by_id)
      | node ↦ or_null node_value (get i s.nodes_by_id)
      | port ↦ or_null port_value (get i s.ports_by_id)
      | link ↦ or_null link_value (get i s.links_by_id)
      | metadata ↦ or_null metadata_value (get i s.metadata_by_id)
      | _ ↦ null
    ]
  ]

  -- From the `subject` and the `key` of the selector on.
  unfoldable pub metadata_observation : Target → Value
  unfolding last_entry object_observation
  metadata_observation t =
      let selected = both (object_of t) (both (number_of "subject" t) (text_of "key" t)) in
      elim (given (is_metadata t.kind) selected) [
        | some (i, (subject, key)) ↦ entry_observation i subject key
        | none ↦ object_observation t
      ]

  -- From the `parameter_id` of the selector on.
  unfoldable pub parameter_observation : Target → Value
  unfolding metadata_observation
  parameter_observation t = elim (both (text_of "parameter_id" t) (object_of t)) [
    | some (p, i) ↦ or_null parameter_value (get (kind_text t.kind, (i, p)) s.parameters_by_key)
    | none ↦ elim (text_of "defaults_field" t) [
      | some field ↦ default_field field s.defaults
      | none ↦ metadata_observation t
    ]
  ]

  -- From the `profile_index` of the selector on.
  unfoldable pub indexed_observation : Target → Value
  unfolding parameter_observation
  indexed_observation t = elim (both (index_of "profile_index" t) (object_of t)) [
    | some (k, i) ↦ or_null profile_value (get_by i k s.profiles_by_key)
    | none ↦ elim (both (index_of "route_index" t) (object_of t)) [
      | some (k, i) ↦ or_null route_value (get_by i k s.routes_by_key)
      | none ↦ parameter_observation t
    ]
  ]

  -- `_snapshot_observation`
  unfoldable pub snapshot_observation : Target → Value
  unfolding link_of indexed_observation
  snapshot_observation t =
      elim (given (is_link t.kind) (both (text_of "owner" t) (text_of "desired_id" t))) [
        | some (owner, desired) ↦ only (link_of owner desired s.links)
        | none ↦ indexed_observation t
      ]

  -- The confirmation of a predicate that holds, before those of the rest.
  abbrev pub confirm :
      Builtins → Predicate → Value → Bool → Result (List Confirmation) → Result (List Confirmation)
  confirm py p observation false rest = rest
  confirm py p observation true rest = do
    c ← mutation_confirmation py (record {
      generation = int (pos s.generation);
      sequence = int (pos s.sequence);
      observed_at = str s.captured_at;
      predicate = p;
      observation = observation;
    })
    cs ← rest
    ok (c ∷ cs)

  -- `_confirmations_from_snapshot`
  unfoldable pub confirmations_from : Builtins → List Predicate → Result (List Confirmation)
  unfolding snapshot_observation
  confirmations_from py [] = ok []
  confirmations_from py (p ∷ ps) =
      let rest = confirmations_from py ps in
      let observation = snapshot_observation p.target in
      matches py p observation >>= λ matched. confirm py p observation matched rest
