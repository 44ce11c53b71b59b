-- ===== src/Queue/Delivery.antt =====
-- What a consumer receives: every accepted delta in order, until an event that asks for a snapshot.
use wyreplumber.Prelude.{
  ap, ℕ, ◌+◌, true, false, List, [], ◌∷◌, ◌++◌, ◌≡◌, ◌∙◌, ok, err, continuity_error, String, arith,
  length,
}
use mathlib.Core.Path.{subst}
use wyreplumber.Value.{Value}
use wyreplumber.Builtins.{Builtins}
use wyreplumber.Event.{RuntimeEvent}
use wyreplumber.Event.Continuity.{require_event_continuity_iff, require_event_continuity_refuses}
use wyreplumber.Queue.Invariant.{init-Fresh, init-IsValid, Run}
use wyreplumber.Queue.History.{Action, run, begin, project}
use package.wyreplumber.Queue.{init, Queue}
use wyreplumber.Queue.Sound.{Flowing, Halted, Epoch, IsSound, begin-IsSound, run-IsSound}

-- A consumer accepts a run of events and stands at its end.
project-Run : (g s : ℕ) (es : List RuntimeEvent) → Run g s es → project g s es ≡ ok (s + length es)
unfolding project
project-Run g s [] r = ap ok (omega arith)
project-Run g s (e ∷ es) r =
    rw ((require_event_continuity_iff e g s).1 r.0, r.0.1)
      (project-Run g (s + 1) es r.1 ∙ ap ok (omega arith))

-- It refuses an event that asks for a snapshot, whatever its position.
project-notice :
    (g s : ℕ) (clean : List RuntimeEvent) (m : RuntimeEvent)
    → Run g s clean
    → m.requires_resnapshot ≡ true
    → (code : String) × (project g s (clean ++ m ∷ [])
        ≡ err (continuity_error code g (s + length clean + 1)))
unfolding project
project-notice g s [] m r asks =
    let (code, refused) = require_event_continuity_refuses m g s asks in
    (code, rw refused (ap err (ap (continuity_error code g) (omega arith))))
project-notice g s (e ∷ es) m r asks =
    let (code, refused) = project-notice g (s + 1) es m r.1 asks in
    (
      code,
      rw ((require_event_continuity_iff e g s).1 r.0, r.0.1)
          (refused ∙ ap err (ap (continuity_error code g) (omega arith))),
    )

used :
    (py : Builtins) (capacity g s : Value) (q : Queue) (actions : List Action)
    → init capacity g s ≡ ok q
    → IsSound (run py (begin q) actions)
used py capacity g s q actions made =
    let (_, fresh, flowing) = init-Fresh capacity g s q made in
    run-IsSound py (begin q) actions
      (begin-IsSound q (init-IsValid capacity g s q made) fresh flowing)

-- From a fresh queue, and as long as the queue asks for no snapshot: what a consumer received and
-- what is pending are together exactly what `publish` accepted since the last snapshot, in order,
-- and a consumer that checks continuity accepts all of it and ends at the queue's position.
pub delivery_lossless :
    (py : Builtins) (capacity g s : Value) (q : Queue) (actions : List Action)
    → init capacity g s ≡ ok q
    → (run py (begin q) actions).queue.resnapshot_required ≡ false
    → let h = run py (begin q) actions in
      (h.received ++ h.queue.events ≡ h.accepted)
      × (project h.generation h.sequence h.accepted ≡ ok h.queue.sequence)
delivery_lossless py capacity g s q actions made flowing =
    let h = run py (begin q) actions in
    let flow : Flowing h =
      subst (λ f. Epoch f h) flowing (used py capacity g s q actions made).epoch in
    (flow.whole, project-Run h.generation h.sequence h.accepted flow.in_order ∙ ap ok flow.position)

-- From a fresh queue, once it asks for a snapshot: what a consumer received and what is pending are
-- a first part of what `publish` accepted, followed by one event, and a consumer that checks
-- continuity accepts that part and raises RuntimeContinuityError at that event.
pub delivery_announced :
    (py : Builtins) (capacity g s : Value) (q : Queue) (actions : List Action)
    → init capacity g s ≡ ok q
    → (run py (begin q) actions).queue.resnapshot_required ≡ true
    → let h = run py (begin q) actions in
      (clean missed : List RuntimeEvent) × (notice : RuntimeEvent) × (code : String) × (h.received
          ++ h.queue.events
        ≡ clean ++ notice ∷ [])
      × (clean ++ missed ≡ h.accepted)
      × (project h.generation h.sequence clean ≡ ok (h.sequence + length clean))
      × (project h.generation h.sequence (clean ++ notice ∷ [])
          ≡ err (continuity_error code h.generation (h.sequence + length clean + 1)))
delivery_announced py capacity g s q actions made halted =
    let h = run py (begin q) actions in
    let halt : Halted h =
      subst (λ f. Epoch f h) halted (used py capacity g s q actions made).epoch in
    let (code, refused) =
      project-notice h.generation h.sequence halt.clean halt.notice halt.in_order halt.asks in
    (
      halt.clean,
      halt.missed,
      halt.notice,
      code,
      halt.delivered,
      halt.split,
      project-Run h.generation h.sequence halt.clean halt.in_order,
      refused,
    )
