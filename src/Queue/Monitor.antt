-- ===== src/Queue/Monitor.antt =====
-- The condition of `RuntimeEventQueue` (src/wyreplumber/runtime/queue.py): who waits in `get`, and
-- whom the methods wake.
use wyreplumber.Prelude.{
  ℕ, zero, suc, ◌+◌, pos, Bool, true, not, ◌||◌, List, [], ◌∷◌, Result, ok, err, length, ◌==◌, leb,
  if◌then◌else◌,
}
use wyreplumber.Value.{int}
use wyreplumber.Builtins.{Builtins}
use wyreplumber.Event.{RuntimeEvent}
use wyreplumber.Queue.Get.{Poll, done, raises, waits, poll}
use package.wyreplumber.Queue.{Queue, publish, reset, close}

-- The queue with its condition: how many threads are in `wait`, and how many have left it and have
-- not looked at the queue again.
pub record Monitor : Type 0 where
  pub queue : Queue
  pub asleep : ℕ
  pub woken : ℕ

-- What a method tells the condition: nothing, `notify()` or `notify_all()`.
pub data Notification : Type 0 where
  silent : Notification
  one : Notification
  all : Notification

-- The call of `notify` or `notify_all` on each branch of `publish`, those in `_invalidate` included.
unfoldable pub publish_notification : Queue → RuntimeEvent → Notification
publish_notification q event =
    if q.closed || q.resnapshot_required
    then silent
    else if not (event.generation == q.generation)
    then all
    else if not (event.sequence == q.sequence + 1)
    then all
    else if event.requires_resnapshot
    then all
    else if leb q.capacity (length q.events)
    then all
    else one

-- A thread leaves `wait`: it was notified, or its time has run out.
abbrev pub rouse : Monitor → Monitor
rouse m = elim m.asleep [ zero ↦ m | suc n ↦ record m { asleep = n; woken = suc m.woken } ]

abbrev pub notify : Notification → Monitor → Monitor
notify silent m = m
notify one m = rouse m
notify all m = record m { asleep = 0; woken = m.asleep + m.woken }

unfoldable pub publish_on : Monitor → RuntimeEvent → Result (Queue × Bool) → Monitor
unfolding publish_notification
publish_on m event (ok (q, accepted)) =
    notify (publish_notification m.queue event) (record m { queue = q })
publish_on m event (err e) = m

unfoldable pub reset_on : Monitor → Result Queue → Monitor
reset_on m (ok q) = notify all (record m { queue = q })
reset_on m (err e) = m

unfoldable pub close_on : Monitor → Monitor
close_on m = notify all (record m { queue = close m.queue })

-- A pass of the loop of `get`.
unfoldable pub get_on : Monitor → Poll → Monitor
get_on m (done e q) = record m { queue = q }
get_on m (raises e) = m
get_on m waits = record m { asleep = suc m.asleep }

-- One of the threads that have left `wait` goes on with the loop.
unfoldable pub resume_on : (awake : ℕ) → (expired : Bool) → Monitor → Monitor
unfolding get_on
resume_on zero expired m = m
resume_on (suc n) expired m = get_on (record m { woken = n }) (poll true expired m.queue)

-- What a thread does while it holds the lock. `expired` is as in `poll`.
pub data Turn : Type 0 where
  publishes : (now : ℕ) → RuntimeEvent → Turn
  resets : (generation sequence : ℕ) → Turn
  closes : Turn
  -- a call of `get` begins
  arrives : (block expired : Bool) → Turn
  -- a timeout ends a wait
  expires : Turn
  -- a thread that has left `wait` looks at the queue again
  resumes : (expired : Bool) → Turn

unfoldable pub turn : Builtins → Monitor → Turn → Monitor
unfolding publish_on reset_on close_on get_on resume_on
turn py m (publishes now e) = publish_on m e (publish py now m.queue e)
turn py m (resets g s) = reset_on m (reset m.queue (int (pos g)) (int (pos s)))
turn py m closes = close_on m
turn py m (arrives block expired) = get_on m (poll block expired m.queue)
turn py m expires = rouse m
turn py m (resumes expired) = resume_on m.woken expired m

unfoldable pub turns : Builtins → Monitor → List Turn → Monitor
turns py m [] = m
turns py m (t ∷ rest) = turns py (turn py m t) rest
