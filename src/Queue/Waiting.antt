-- ===== src/Queue/Waiting.antt =====
-- Who sleeps in `get` of src/wyreplumber/runtime/queue.py, and before which queue.
use wyreplumber.Prelude.{
  ℕ, zero, suc, ◌+◌, ◌≤◌, Bool, true, false, ◌||◌, List, [], ◌∷◌, ◌++◌, ◌⊎◌, inl, inr, ◌≡◌, refl,
  arith, Result, ok, err, length, length-append, ◌==◌, leb, Bool-cases, Error, ◌∙◌,
}
use wyreplumber.Builtins.{Builtins}
use wyreplumber.Event.{RuntimeEvent}
use wyreplumber.Queue.Get.{Poll, done, raises, waits, poll}
use wyreplumber.Queue.Publish.{publish_lem}
use wyreplumber.Queue.Monitor.{
  Monitor, publish_notification, rouse, publish_on, reset_on, close_on, get_on, resume_on, Turn,
  publishes, resets, closes, arrives, expires, resumes, turn, turns,
}
use package.wyreplumber.Queue.{Queue, publish}

-- Nobody sleeps, or the queue is open and streaming, and for each pending event a thread is awake that
-- has yet to look.
abbrev pub IsAttended : Monitor → Type 0
IsAttended m =
    (m.asleep ≡ 0)
    ⊎ ((m.queue.closed ≡ false)
        × (m.queue.resnapshot_required ≡ false)
        × (length m.queue.events ≤ m.woken))

-- The same, with one event more than threads that are awake.
abbrev IsOwed : Monitor → Type 0
IsOwed m =
    (m.asleep ≡ 0)
    ⊎ ((m.queue.closed ≡ false)
        × (m.queue.resnapshot_required ≡ false)
        × (length m.queue.events ≤ suc m.woken))

IsAttended-IsOwed : (m : Monitor) → IsAttended m → IsOwed m
IsAttended-IsOwed m (inl nobody) = inl nobody
IsAttended-IsOwed m (inr (open_still, streaming, few)) =
    inr (open_still, streaming, omega (arith, few))

number_cases : (n : ℕ) → (n ≡ 0) ⊎ ((k : ℕ) × (n ≡ suc k))
number_cases zero = inl refl
number_cases (suc k) = inr (k, refl)

rouse-IsAttended : (m : Monitor) → IsOwed m → IsAttended (rouse m)
rouse-IsAttended m h = elim (number_cases m.asleep) [
  | inl nobody ↦ inl (ground (arith, nobody))
  | inr (k, some_sleep) ↦ elim h [
    | inl nobody ↦ absurd (ground (arith, nobody, some_sleep))
    | inr (open_still, streaming, few) ↦ inr (
      ground (arith, some_sleep, open_still),
      ground (arith, some_sleep, streaming),
      ground (arith, some_sleep, few),
    )
  ]
]

-- An accepted delta: one event more, and one thread more that is awake, if any slept.
appended-IsOwed :
    (m : Monitor) (e : RuntimeEvent)
    → IsAttended m
    → IsOwed (record m {
      queue = record (m.queue) { events = m.queue.events ++ e ∷ []; sequence = e.sequence };
    })
appended-IsOwed m e (inl nobody) = inl nobody
appended-IsOwed m e (inr (open_still, streaming, few)) =
    inr (open_still, streaming, omega (arith, few, length-append m.queue.events (e ∷ [])))

publish-IsAttended :
    (py : Builtins) (now : ℕ) (m : Monitor) (e : RuntimeEvent)
    → IsAttended m
    → IsAttended (publish_on m e (publish py now m.queue e))
unfolding publish_on publish_notification
publish-IsAttended py now m e h =
    rw (publish_lem py now m.queue e)
      (elim (Bool-cases (m.queue.closed || m.queue.resnapshot_required)) [
        | inl shut ↦ rw shut h
        | inr live ↦ rw live (elim (Bool-cases (e.generation == m.queue.generation)) [
          | inr other ↦ rw other (inl refl)
          | inl same ↦ rw same (elim (Bool-cases (e.sequence == m.queue.sequence + 1)) [
            | inr gap ↦ rw gap (inl refl)
            | inl next ↦ rw next (elim (Bool-cases e.requires_resnapshot) [
              | inl asks ↦ rw asks (inl refl)
              | inr delta ↦
                  rw delta (elim (Bool-cases (leb m.queue.capacity (length m.queue.events))) [
                    | inl full ↦ rw full (inl refl)
                    | inr room ↦ rw room (
                        rouse-IsAttended _
                          (appended-IsOwed m (record e { requires_resnapshot = false }) h))
                  ])
            ])
          ])
        ])
      ])

reset-IsAttended : (m : Monitor) (r : Result Queue) → IsAttended m → IsAttended (reset_on m r)
unfolding reset_on
reset-IsAttended m (ok q) h = inl refl
reset-IsAttended m (err e) h = h

poll-done :
    (block expired : Bool) (q r : Queue) (e : RuntimeEvent)
    → poll block expired q ≡ done e r
    → (q.events ≡ e ∷ r.events)
      × (r.closed ≡ q.closed)
      × (r.resnapshot_required ≡ q.resnapshot_required)
unfolding poll
poll-done block expired q r e h = (ground arith, ground arith, ground arith)

poll-raises :
    (block expired : Bool) (q : Queue) (e : Error) → poll block expired q ≡ raises e → q.events ≡ []
unfolding poll
poll-raises block expired q e h = ground arith

poll-waits :
    (block expired : Bool) (q : Queue)
    → poll block expired q ≡ waits
    → (q.events ≡ []) × (q.closed ≡ false) × (q.resnapshot_required ≡ false)
unfolding poll
poll-waits block expired q h = (ground arith, ground arith, ground arith)

-- A pass of `get` takes an event, or finds none; it waits only before a queue that is empty, open and
-- streaming.
get-IsAttended :
    (m : Monitor) (block expired : Bool) (p : Poll)
    → poll block expired m.queue ≡ p
    → IsOwed m
    → IsAttended (get_on m p)
unfolding get_on
get-IsAttended m block expired (done e q) h (inl nobody) = inl nobody
get-IsAttended m block expired (done e q) h (inr (open_still, streaming, few)) =
    let (taken, same_closed, same_stream) = poll-done block expired m.queue q e h in
    inr (same_closed ∙ open_still, same_stream ∙ streaming, ground (arith, taken, few))
get-IsAttended m block expired (raises e) h (inl nobody) = inl nobody
get-IsAttended m block expired (raises e) h (inr (open_still, streaming, few)) =
    inr (open_still, streaming, ground (arith, poll-raises block expired m.queue e h))
get-IsAttended m block expired waits h owed =
    let (empty, open_still, streaming) = poll-waits block expired m.queue h in
    inr (open_still, streaming, ground (arith, empty))

resume-IsAttended :
    (m : Monitor) (awake : ℕ) (expired : Bool)
    → m.woken ≡ awake
    → IsAttended m
    → IsAttended (resume_on awake expired m)
unfolding resume_on
resume-IsAttended m zero expired h attended = attended
resume-IsAttended m (suc k) expired h (inl nobody) =
    get-IsAttended (record m { woken = k }) true expired _ refl (inl nobody)
resume-IsAttended m (suc k) expired h (inr (open_still, streaming, few)) =
    get-IsAttended (record m { woken = k }) true expired _ refl
      (inr (open_still, streaming, omega (arith, h, few)))

turn-IsAttended : (py : Builtins) (m : Monitor) (t : Turn) → IsAttended m → IsAttended (turn py m t)
unfolding turn close_on
turn-IsAttended py m (publishes now e) h = publish-IsAttended py now m e h
turn-IsAttended py m (resets g s) h = reset-IsAttended m _ h
turn-IsAttended py m closes h = inl refl
turn-IsAttended py m (arrives block expired) h =
    get-IsAttended m block expired _ refl (IsAttended-IsOwed m h)
turn-IsAttended py m expires h = rouse-IsAttended m (IsAttended-IsOwed m h)
turn-IsAttended py m (resumes expired) h = resume-IsAttended m m.woken expired refl h

-- No wake-up is lost. If nobody sleeps in `get`, or the queue is open and streaming and for each pending
-- event a thread has left `wait` that has yet to look at the queue, then that is so again after any
-- calls of `publish`, `reset`, `close` and `get`, timeouts, and passes of threads that left `wait`.
pub turns-IsAttended :
    (py : Builtins) (m : Monitor) (ts : List Turn) → IsAttended m → IsAttended (turns py m ts)
unfolding turns
turns-IsAttended py m [] h = h
turns-IsAttended py m (t ∷ ts) h = turns-IsAttended py (turn py m t) ts (turn-IsAttended py m t h)
