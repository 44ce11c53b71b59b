-- ===== src/Queue.antt =====
-- src/wyreplumber/runtime/queue.py: the bounded queue between the native producer and a consumer.
-- Each method is one critical section of the condition's lock, a function from the queue to the
-- queue. A wait releases the lock, so `get` is given what other threads do meanwhile.
pub mod Get
pub mod Publish
pub mod Invariant
pub mod History
pub mod Sound
pub mod Delivery
pub mod Monitor
pub mod Waiting
pub mod Refinement
use Prim.Native.String.{◌++◌ as ◌<>◌}
use wyreplumber.Prelude.{
  ℕ, ◌+◌, ℤ, pos, negsuc, String, Bool, true, false, not, ◌||◌, Option, none, some, List, [], ◌∷◌,
  ◌++◌, Result, ok, err, type_error, value_error, queue_closed, ◌>>=◌, ◌>>◌, require, length, ◌==◌,
  leb, str_eq, if◌then◌else◌,
}
use wyreplumber.Value.{Value, datetime, aware}
use wyreplumber.Value.Checks.{identifier, integer}
use wyreplumber.Builtins.{Builtins}
use wyreplumber.Event.{RuntimeEvent, discontinuity_event}

pub record Queue : Type 0 where
  pub capacity : ℕ
  pub events : List RuntimeEvent
  pub generation : ℕ
  pub sequence : ℕ
  pub closed : Bool
  pub resnapshot_required : Bool
  pub discontinuity_reason : Option String

abbrev positive : ℤ → Result ℕ
positive (pos n) = if n == 0 then err value_error else ok n
positive (negsuc n) = err value_error

-- `RuntimeEventQueue.__init__`
unfoldable pub init : (capacity generation sequence : Value) → Result Queue
init capacity generation sequence = do
  n ← integer capacity
  c ← positive n
  g ← identifier generation
  s ← identifier sequence
  ok (record {
    capacity = c;
    events = [];
    generation = g;
    sequence = s;
    closed = false;
    resnapshot_required = false;
    discontinuity_reason = none;
  })

-- `a or b` on an optional text
abbrev pub text_or : Option String → String → String
text_or none b = b
text_or (some a) b = if str_eq a "" then b else a

module _ (py : Builtins) where
  -- `_invalidate`; `now` is the clock's UTC reading.
  unfoldable pub invalidate : (now : ℕ) → Queue → RuntimeEvent → String → Result Queue
  unfolding discontinuity_event
  invalidate now q event reason = do
    marker ← discontinuity_event py event.generation event.sequence (datetime (aware now)) reason
    ok (record q {
      events = marker ∷ [];
      generation = event.generation;
      sequence = event.sequence;
      resnapshot_required = true;
      discontinuity_reason = some reason;
    })

  abbrev generation_reason : Queue → RuntimeEvent → String
  generation_reason q e =
      "connection generation changed from "
      <> (py.decimal q.generation <> (" to " <> py.decimal e.generation))

  abbrev sequence_reason : Queue → RuntimeEvent → String
  sequence_reason q e =
      "expected event sequence "
      <> (py.decimal (q.sequence + 1) <> (", received " <> py.decimal e.sequence))

  abbrev capacity_reason : Queue → String
  capacity_reason q = "event queue capacity " <> (py.decimal q.capacity <> " exceeded")

  abbrev announce : Result Queue → Result (Queue × Bool)
  announce m = do q ← m; ok (q, true)

  -- `publish`
  unfoldable pub publish : (now : ℕ) → Queue → RuntimeEvent → Result (Queue × Bool)
  unfolding invalidate
  publish now q event =
      if q.closed || q.resnapshot_required
      then ok (q, false)
      else if not (event.generation == q.generation)
      then announce (invalidate now q event (generation_reason q event))
      else if not (event.sequence == q.sequence + 1)
      then announce (invalidate now q event (sequence_reason q event))
      else if event.requires_resnapshot
      then ok (
        record q {
          events = event ∷ [];
          generation = event.generation;
          sequence = event.sequence;
          resnapshot_required = true;
          discontinuity_reason = some (text_or event.reason "event requires a new snapshot");
        },
        true,
      )
      else if leb q.capacity (length q.events)
      then announce (invalidate now q event (capacity_reason q))
      else ok (record q { events = q.events ++ event ∷ []; sequence = event.sequence }, true)

-- `reset`
unfoldable pub reset : Queue → (generation sequence : Value) → Result Queue
reset q generation sequence = do
  g ← identifier generation
  s ← identifier sequence
  require (not q.closed) queue_closed
  ok (record q {
    events = [];
    generation = g;
    sequence = s;
    resnapshot_required = false;
    discontinuity_reason = none;
  })

-- `close`
unfoldable pub close : Queue → Queue
close q = record q { closed = true }
