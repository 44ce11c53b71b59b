-- ===== src/Controls/Defaults.antt =====
-- Default nodes and stream targets: the metadata controls of controls.py that read a snapshot first.
-- The snapshot is the capture at step 0, the clock is read at step 1, and the executor goes on at 2.
use wyreplumber.Prelude.{
  ℕ, pos, String, Option, some, [], ◌∷◌, ◌++◌, Result, ok, value_error, ◌>>=◌, ◌>>◌, require,
}
use wyreplumber.Value.{Value, int, str, nil, cons, end}
use wyreplumber.Builtins.{Builtins}
use wyreplumber.Event.Kinds.{metadata}
use wyreplumber.Model.Objects.{Node}
use wyreplumber.Model.Serialize.{◌↠◌}
use wyreplumber.Model.Snapshot.{Snapshot}
use wyreplumber.Mutation.Kinds.{set_metadata, clear_metadata}
use wyreplumber.Mutation.Predicate.{Target}
use wyreplumber.Mutation.Request.{Request}
use wyreplumber.Mutation.Execution.{World, Execution, execute}
use wyreplumber.Controls.Metadata.{
  metadata_target, default_metadata_of, node_name, default_node_metadata, is_stream, class_or,
  same_class, or_value_error, node_of, stream_target_identity, entry_predicates, entry_payload,
  absence,
}
use package.wyreplumber.Controls.{
  Options, attempt, later, pipewire_identifier, target_of, equals_at, request_of,
}

-- `_default_metadata` and `_metadata_target` on its id
abbrev pub default_entry : Snapshot → (subject key : Value) → Result Target
default_entry s subject key = do
  m ← default_metadata_of s
  metadata_target (int (pos m.id)) subject key

-- What `set_default_node` reads off the snapshot: the class, the name of the node, the field of the
-- defaults and the key of the entry.
pub record DefaultNode : Type 0 where
  pub name : String
  pub defaults_field : String
  pub key : String

-- The checks of `set_default_node` on the node.
unfoldable pub default_node : Node → (media_class : Option String) → Result DefaultNode
default_node n given = do
  selected ← or_value_error (class_or given n.media_class)
  (defaults_field, key) ← or_value_error (default_node_metadata selected)
  require (same_class n.media_class selected) value_error
  name ← or_value_error (node_name n)
  ok (record { name = name; defaults_field = defaults_field; key = key })

-- The stream of a stream control.
unfoldable pub stream_of : ℕ → Snapshot → Result Node
stream_of i s = do n ← node_of i s; require (is_stream n) value_error; ok n

module _ (py : Builtins) (fresh : String) (clock : ℕ) where
  open py use {name_json}

  -- The request of `set_default_node`.
  unfoldable pub default_request :
      Snapshot → (node_id : Value) → (media_class : Option String) → Options → Result Request
  default_request s node_id media_class options = do
    i ← pipewire_identifier node_id
    n ← node_of i s
    d ← default_node n media_class
    m ← default_metadata_of s
    target ← metadata_target (int (pos m.id)) (int (pos 0)) (str d.key)
    observed ← target_of metadata (int (pos m.id)) (("defaults_field", str d.defaults_field) ↠ end)
    shown ← entry_predicates py target (str (name_json d.name)) (str "Spa:String:JSON")
    resolved ← equals_at py observed (cons (str "resolved_node_id") nil) node_id
    request_of py fresh clock options set_metadata target
        (entry_payload (str (name_json d.name)) (str "Spa:String:JSON")) (shown ++ resolved ∷ [])

  -- The request of `clear_default_node`, for the key of its media class.
  unfoldable pub cleared_default_request : Snapshot → (key : String) → Options → Result Request
  cleared_default_request s key options = do
    target ← default_entry s (int (pos 0)) (str key)
    predicates ← absence py target
    request_of py fresh clock options clear_metadata target end predicates

  -- The request of `set_stream_target`.
  unfoldable pub stream_request :
      Snapshot → (stream_node_id target_node_id : Value) → Options → Result Request
  stream_request s stream_node_id target_node_id options = do
    i ← pipewire_identifier stream_node_id
    j ← pipewire_identifier target_node_id
    stream ← stream_of i s
    n ← node_of j s
    (value, type_name) ← stream_target_identity py n
    target ← default_entry s stream_node_id (str "target.object")
    predicates ← entry_predicates py target (str value) (str type_name)
    request_of py fresh clock options set_metadata target
        (entry_payload (str value) (str type_name)) predicates

  -- The request of `clear_stream_target`.
  unfoldable pub cleared_stream_request :
      Snapshot → (stream_node_id : Value) → Options → Result Request
  cleared_stream_request s stream_node_id options = do
    i ← pipewire_identifier stream_node_id
    stream ← stream_of i s
    target ← default_entry s stream_node_id (str "target.object")
    predicates ← absence py target
    request_of py fresh clock options clear_metadata target end predicates

module _ (py : Builtins) (w : World) (fuel : ℕ) (fresh : String) where
  -- A control that captures a snapshot, makes its request from it, and executes it on it.
  unfoldable pub on_snapshot : (Snapshot → Result Request) → Execution
  on_snapshot make =
      attempt (do s ← w.capture 0; r ← make s; ok (execute py (later 2 w) fuel (some s) r))

  -- `set_default_node`
  unfoldable pub set_default_node :
      (node_id : Value) → (media_class : Option String) → Options → Execution
  unfolding on_snapshot default_request
  set_default_node node_id media_class options = attempt (do
    i ← pipewire_identifier node_id
    ok (on_snapshot (λ s. default_request py fresh (w.clock 1) s node_id media_class options)))

  -- `clear_default_node`
  unfoldable pub clear_default_node : (media_class : String) → Options → Execution
  unfolding on_snapshot cleared_default_request
  clear_default_node media_class options = attempt (do
    (defaults_field, key) ← or_value_error (default_node_metadata media_class)
    ok (on_snapshot (λ s. cleared_default_request py fresh (w.clock 1) s key options)))

  -- `set_stream_target`
  unfoldable pub set_stream_target : (stream_node_id target_node_id : Value) → Options → Execution
  unfolding on_snapshot stream_request
  set_stream_target stream_node_id target_node_id options = attempt (do
    i ← pipewire_identifier stream_node_id
    j ← pipewire_identifier target_node_id
    ok (
        on_snapshot
          (λ s. stream_request py fresh (w.clock 1) s stream_node_id target_node_id options)))

  -- `clear_stream_target`
  unfoldable pub clear_stream_target : (stream_node_id : Value) → Options → Execution
  unfolding on_snapshot cleared_stream_request
  clear_stream_target stream_node_id options = attempt (do
    i ← pipewire_identifier stream_node_id
    ok (on_snapshot (λ s. cleared_stream_request py fresh (w.clock 1) s stream_node_id options)))
