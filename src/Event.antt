-- ===== src/Event.antt =====
-- src/wyreplumber/runtime/events.py: runtime events, and the continuity test of a projection.
pub mod Kinds
pub mod Continuity
use wyreplumber.Prelude.{
  ℕ, ◌+◌, pos, String, Bool, true, false, not, ◌&&◌, ◌||◌, Option, none, some, Result, ok, err,
  value_error, continuity_error, ◌>>=◌, ◌>>◌, require, ◌==◌, if◌then◌else◌,
}
use wyreplumber.Value.{Value, null, bool, int, str, str_member, runtime, datetime, aware}
use wyreplumber.Value.Checks.{
  Identity, identifier, identity, boolean, optional_string, required_string, enum,
}
use wyreplumber.Value.Json.{contract_value}
use wyreplumber.Builtins.{Builtins, timestamp}
use Kinds.{
  RuntimeEventKind, RuntimeObjectKind, object_added, object_removed, discontinuity,
  resnapshot_required, event_kind, object_kind, is_resnapshot_kind, is_added, is_removed,
}

-- A RuntimeEvent whose constructor returned.
pub record RuntimeEvent : Type 0 where
  pub generation : ℕ
  pub sequence : ℕ
  pub occurred_at : String
  pub kind : RuntimeEventKind
  pub on : RuntimeObjectKind
  pub object_id : Identity
  pub current : Value
  pub previous : Value
  pub requires_resnapshot : Bool
  pub reason : Option String

-- The arguments of the constructor, as they are passed.
pub record EventFields : Type 0 where
  pub generation : Value
  pub sequence : Value
  pub occurred_at : Value
  pub kind : Value
  pub object_kind : Value
  pub object_id : Value
  pub current : Value
  pub previous : Value
  pub requires_resnapshot : Value
  pub reason : Value

abbrev pub is_null : Value → Bool
is_null null = true
is_null _ = false

-- `RuntimeEvent.__post_init__`
unfoldable pub runtime_event : Builtins → EventFields → Result RuntimeEvent
unfolding identifier timestamp enum event_kind object_kind identity contract_value boolean
    optional_string
runtime_event py args = do
  generation ← identifier args.generation
  sequence ← identifier args.sequence
  occurred_at ← timestamp py args.occurred_at
  kind ← enum event_kind args.kind
  on ← enum object_kind args.object_kind
  object_id ← identity args.object_id
  current ← contract_value args.current
  previous ← contract_value args.previous
  resnapshot ← boolean args.requires_resnapshot
  reason ← optional_string args.reason
  require (not (is_resnapshot_kind kind) || resnapshot) value_error
  require (not (is_added kind && is_null current)) value_error
  require (not (is_removed kind && is_null previous)) value_error
  ok (record {
    generation = generation;
    sequence = sequence;
    occurred_at = occurred_at;
    kind = kind;
    on = on;
    object_id = object_id;
    current = current;
    previous = previous;
    requires_resnapshot = resnapshot;
    reason = reason;
  })

-- `RuntimeEvent.discontinuity`
unfoldable pub discontinuity_event :
    Builtins → ℕ → ℕ → (occurred_at : Value) → (reason : String) → Result RuntimeEvent
unfolding runtime_event required_string
discontinuity_event py generation sequence occurred_at reason = do
  text ← required_string false (str reason)
  runtime_event py (record {
    generation = int (pos generation);
    sequence = int (pos sequence);
    occurred_at = occurred_at;
    kind = str_member "discontinuity";
    object_kind = str_member "runtime";
    object_id = str "runtime";
    current = null;
    previous = null;
    requires_resnapshot = bool true;
    reason = str text;
  })

-- `require_event_continuity`
unfoldable pub require_event_continuity :
    RuntimeEvent → (generation sequence : Value) → Result RuntimeEvent
unfolding identifier
require_event_continuity event generation sequence = do
  g ← identifier generation
  s ← identifier sequence
  require (event.generation == g) (continuity_error "generation_changed" g (s + 1))
  require (event.sequence == s + 1) (continuity_error "sequence_gap" g (s + 1))
  require (not event.requires_resnapshot) (continuity_error "resnapshot_required" g (s + 1))
  ok event
