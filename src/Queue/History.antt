-- ===== src/Queue/History.antt =====
-- A queue in use: the calls that a producer and a consumer make, in the order of the lock, with
-- what was accepted and what was received since the last snapshot.
use wyreplumber.Prelude.{ℕ, pos, Bool, true, false, List, [], ◌∷◌, ◌++◌, Result, ok, err, ◌>>=◌}
use wyreplumber.Value.{int}
use wyreplumber.Builtins.{Builtins}
use wyreplumber.Event.{RuntimeEvent, require_event_continuity}
use wyreplumber.Queue.Get.{Poll, done, get_nowait}
use package.wyreplumber.Queue.{Queue, publish, reset, close}

pub data Action : Type 0 where
  publishes : (now : ℕ) → RuntimeEvent → Action
  reads : Action
  resets : (generation sequence : ℕ) → Action
  closes : Action

pub record History : Type 0 where
  pub queue : Queue
  -- the position of the snapshot
  pub generation : ℕ
  pub sequence : ℕ
  -- what `publish` answered true to, and what `get` returned, both in order
  pub accepted : List RuntimeEvent
  pub received : List RuntimeEvent

unfoldable pub note_publish : History → RuntimeEvent → Result (Queue × Bool) → History
note_publish h e (ok (q, true)) = record h { queue = q; accepted = h.accepted ++ e ∷ [] }
note_publish h e (ok (q, false)) = record h { queue = q }
note_publish h e (err x) = h

unfoldable pub note_read : History → Result (Poll × Queue) → History
note_read h (ok (done e q, _)) = record h { queue = q; received = h.received ++ e ∷ [] }
note_read h _ = h

unfoldable pub note_reset : History → ℕ → ℕ → Result Queue → History
note_reset h g s (ok q) = record {
  queue = q;
  generation = g;
  sequence = s;
  accepted = [];
  received = [];
}
note_reset h g s (err x) = h

-- One call; one that raises changes nothing.
unfoldable pub step : Builtins → History → Action → History
unfolding note_publish note_read note_reset
step py h (publishes now e) = note_publish h e (publish py now h.queue e)
step py h reads = note_read h (get_nowait h.queue)
step py h (resets g s) = note_reset h g s (reset h.queue (int (pos g)) (int (pos s)))
step py h closes = record h { queue = close h.queue }

unfoldable pub run : Builtins → History → List Action → History
run py h [] = h
run py h (a ∷ rest) = run py (step py h a) rest

-- A history that begins at a queue as the constructor or a reset leaves it.
abbrev pub begin : Queue → History
begin q = record {
  queue = q;
  generation = q.generation;
  sequence = q.sequence;
  accepted = [];
  received = [];
}

-- A consumer that checks every event against its projection, as the contract asks.
unfoldable pub project : (generation sequence : ℕ) → List RuntimeEvent → Result ℕ
project g s [] = ok s
project g s (e ∷ es) = do
  event ← require_event_continuity e (int (pos g)) (int (pos s))
  project g event.sequence es
