-- ===== src/Controls/Metadata.antt =====
-- Metadata controls of controls.py: single entries, default nodes and stream targets.
use package.text.Mathlib.Text.{starts_with}
use wyreplumber.Prelude.{
  ℕ, pos, String, Bool, true, false, Option, none, some, List, [], ◌∷◌, Result, ok, err,
  value_error, ◌>>=◌, if◌then◌else◌, str_eq, nat_eq,
}
use wyreplumber.Value.{Value, null, int, int_member, str, str_member, nil, cons, Fields, end, text}
use wyreplumber.Value.Checks.{required_string, as_text, lookup}
use wyreplumber.Builtins.{Builtins}
use wyreplumber.Event.Kinds.{metadata}
use wyreplumber.Model.Objects.{Node, Metadata}
use wyreplumber.Model.Index.{get}
use wyreplumber.Model.Serialize.{◌↠◌}
use wyreplumber.Model.Snapshot.{Snapshot}
use wyreplumber.Mutation.Kinds.{set_metadata, clear_metadata}
use wyreplumber.Mutation.Predicate.{Target, Predicate}
use wyreplumber.Mutation.Execution.{World, Execution, execute}
use package.wyreplumber.Controls.{
  Options, attempt, later, pipewire_identifier, target_of, equals_at, absent_at, request_of,
}

-- `_metadata_target`
unfoldable pub metadata_target : (metadata_id subject key : Value) → Result Target
metadata_target metadata_id subject key = do
  m ← pipewire_identifier metadata_id
  s ← pipewire_identifier subject
  k ← required_string false key
  target_of metadata (int (pos m)) (("subject", int (pos s)) ↠ ("key", str k) ↠ end)

-- `type_name`, which may be `None`
abbrev optional_name : Value → Result Value
optional_name null = ok null
optional_name v = do s ← required_string false v; ok (str s)

abbrev named_default : List Metadata → Option Metadata
named_default [] = none
named_default (m ∷ ms) = elim m.name [
  | none ↦ named_default ms
  | some n ↦ if str_eq n "default" then some m else named_default ms
]

abbrev or_missing : Option Metadata → Result Metadata
or_missing none = err value_error
or_missing (some m) = ok m

-- `_default_metadata`
unfoldable pub default_metadata_of : Snapshot → Result Metadata
default_metadata_of s = elim (named_default s.metadata) [
  | some m ↦ ok m
  | none ↦ elim s.defaults.metadata_id [
    | none ↦ err value_error
    | some i ↦ or_missing (get i s.metadata_by_id)
  ]
]

-- A text that is not empty.
abbrev pub non_empty : Option String → Option String
non_empty none = none
non_empty (some s) = if str_eq s "" then none else some s

-- `node.name or node.properties.get("node.name")`, if it is a text that is not empty
unfoldable pub node_name : Node → Option String
node_name n = elim (non_empty n.name) [
  | some s ↦ some s
  | none ↦ elim (lookup "node.name" n.properties) [ none ↦ none | some v ↦ non_empty (as_text v) ]
]

-- `_DEFAULT_NODE_METADATA[media_class]`: the field of the defaults and the key of the entry
unfoldable pub default_node_metadata : String → Option (String × String)
default_node_metadata c =
    if str_eq c "Audio/Sink"
    then some ("audio_sink", "default.configured.audio.sink")
    else if str_eq c "Audio/Source"
    then some ("audio_source", "default.configured.audio.source")
    else if str_eq c "Video/Source"
    then some ("video_source", "default.configured.video.source")
    else none

abbrev pub is_stream : Node → Bool
is_stream n = elim n.media_class [ none ↦ false | some c ↦ starts_with c "Stream/" ]

-- `media_class or node.media_class`
abbrev pub class_or : Option String → Option String → Option String
class_or given own = elim (non_empty given) [ some c ↦ some c | none ↦ own ]

abbrev pub same_class : Option String → String → Bool
same_class none c = false
same_class (some d) c = str_eq d c

abbrev pub or_value_error {ℓ} : {A : Type ℓ} → Option A → Result A
or_value_error none = err value_error
or_value_error (some a) = ok a

-- A node of the snapshot, or a ValueError.
abbrev pub node_of : ℕ → Snapshot → Result Node
node_of i s = or_value_error (get i s.nodes_by_id)

abbrev pub entry_payload : (value type_name : Value) → Fields
entry_payload value type_name = ("type_name", type_name) ↠ ("value", value) ↠ end

module _ (py : Builtins) where
  open py use {decimal, is_decimal, name_json}

  -- The serial number of a node, as the text of a target.
  abbrev pub serial_text : Value → Option String
  serial_text (int (pos n)) = some (decimal n)
  serial_text (int_member (pos n)) = some (decimal n)
  serial_text (str s) = if is_decimal s then some s else none
  serial_text (str_member s) = if is_decimal s then some s else none
  serial_text _ = none

  -- `node.properties.get("object.serial")`, as the text of a target
  abbrev pub serial_of : Node → Option String
  serial_of n = elim (lookup "object.serial" n.properties) [ none ↦ none | some v ↦ serial_text v ]

  -- `_stream_target_identity`: the value and the type name
  unfoldable pub stream_target_identity : Node → Result (String × String)
  unfolding node_name
  stream_target_identity n = elim (serial_of n) [
    | some serial ↦ ok (serial, "Spa:Id")
    | none ↦ elim (node_name n) [ none ↦ err value_error | some name ↦ ok (name, "Spa:String") ]
  ]

  -- The two predicates that confirm an entry.
  abbrev pub entry_predicates : Target → (value type_name : Value) → Result (List Predicate)
  entry_predicates target value type_name = do
    a ← equals_at py target (cons (str "value") nil) value
    b ← equals_at py target (cons (str "type_name") nil) type_name
    ok (a ∷ b ∷ [])

  -- `confirmation_predicates or (...)`
  abbrev given_or : List Predicate → Result (List Predicate) → Result (List Predicate)
  given_or [] own = own
  given_or (p ∷ ps) own = ok (p ∷ ps)

  abbrev pub absence : Target → Result (List Predicate)
  absence target = do p ← absent_at py target; ok (p ∷ [])

  -- `set_runtime_metadata`: the clock is read at step 0.
  unfoldable pub set_runtime_metadata :
      World
      → (fuel : ℕ) → (fresh : String) → (metadata_id subject key value type_name : Value)
      → List Predicate
      → Options
      → Execution
  unfolding metadata_target
  set_runtime_metadata w fuel fresh metadata_id subject key value type_name given options =
      attempt (do
        target ← metadata_target metadata_id subject key
        v ← required_string true value
        t ← optional_name type_name
        predicates ← given_or given (entry_predicates target (str v) t)
        r ←
            request_of py fresh (w.clock 0) options set_metadata target (entry_payload (str v) t)
              predicates
        ok (execute py (later 1 w) fuel none r))

  -- `clear_runtime_metadata`
  unfoldable pub clear_runtime_metadata :
      World
      → (fuel : ℕ) → (fresh : String) → (metadata_id subject key : Value) → List Predicate
      → Options
      → Execution
  unfolding metadata_target
  clear_runtime_metadata w fuel fresh metadata_id subject key given options = attempt (do
    target ← metadata_target metadata_id subject key
    predicates ← given_or given (absence target)
    r ← request_of py fresh (w.clock 0) options clear_metadata target end predicates
    ok (execute py (later 1 w) fuel none r))
