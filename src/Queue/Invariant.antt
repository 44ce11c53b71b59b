-- ===== src/Queue/Invariant.antt =====
-- The invariant of the queue: its bound, and what may be pending in it.
use wyreplumber.Prelude.{
  pos, negsuc, ap, ℕ, ◌+◌, ◌≤◌, ◌<◌, ℤ, Bool, true, false, ◌||◌, List, [], ◌∷◌, ◌++◌, ◌≡◌, refl,
  ◌⊎◌, inl, inr, ok, arith, length, length-append,
}
use wyreplumber.Value.{Value}
use wyreplumber.Builtins.{Builtins}
use wyreplumber.Event.{RuntimeEvent}
use wyreplumber.Event.Continuity.{Follows}
use wyreplumber.Queue.Publish.{
  Published, rejected, appended, lost, after_publish, publish_lem, after_publish-Published,
}
use wyreplumber.Queue.Get.{poll, done}
use package.wyreplumber.Queue.{Queue, positive, init, publish, reset, close}

-- Events one after another, from a projection at `g` and `s`.
abbrev pub Run : ℕ → ℕ → List RuntimeEvent → Type 0
Run g s [] = Unit
Run g s (e ∷ es) = Follows g s e × Run g (s + 1) es

pub Run-append :
    (g s : ℕ) (es : List RuntimeEvent) (e : RuntimeEvent)
    → Run g s es
    → Follows g (s + length es) e
    → Run g s (es ++ e ∷ [])
Run-append g s [] e h k = ((k.0, omega (arith, k.1), k.2), tt)
Run-append g s (d ∷ es) e h k = (h.0, Run-append g (s + 1) es e h.1 (k.0, omega (arith, k.1), k.2))

-- While deltas flow, the pending events run on to the queue's position; once they do not, at most
-- one event is pending, and it asks for a snapshot.
abbrev pub Pending : Bool → ℕ → ℕ → List RuntimeEvent → Type 0
Pending false g position es = (s : ℕ) × Run g s es × (s + length es ≡ position)
Pending true g position es =
    (es ≡ []) ⊎ ((e : RuntimeEvent) × (es ≡ e ∷ []) × (e.requires_resnapshot ≡ true))

pub record IsValid (q : Queue) : Type 0 where
  pub positive : 0 < q.capacity
  pub bounded : length q.events ≤ q.capacity
  pub pending : Pending q.resnapshot_required q.generation q.sequence q.events

pub or_false : (a b : Bool) → (a || b) ≡ false → b ≡ false
or_false a b h = ground arith

streaming :
    {q : Queue}
    → IsValid q
    → q.resnapshot_required ≡ false
    → Pending false q.generation q.sequence q.events
streaming {q} v h = rw h at v.pending

pub Published-IsValid :
    {q : Queue} {e : RuntimeEvent} {r : Queue × Bool} → Published q e r → IsValid q → IsValid r.0
Published-IsValid (rejected shut) v = v
Published-IsValid {q} {e} (appended live f room) v =
    let flowing : q.resnapshot_required ≡ false = or_false q.closed q.resnapshot_required live in
    let (s, run, position) = streaming v flowing in
    record {
      positive = v.positive;
      bounded = omega (arith, length-append q.events (e ∷ []), v.bounded);
      pending = rw flowing (
        s,
        Run-append q.generation s q.events e run (f.0, omega (arith, f.1), f.2),
        omega (arith, length-append q.events (e ∷ []), f.1),
      );
    }
Published-IsValid (lost m reason live asks g s full) v = record {
  positive = v.positive;
  bounded = omega (arith, v.positive);
  pending = inr (m, refl, asks);
}

-- On a valid queue `publish` returns, and the queue stays valid.
pub publish-IsValid :
    (py : Builtins) (now : ℕ) (q : Queue) (e : RuntimeEvent)
    → IsValid q
    → (r : Queue × Bool) × (publish py now q e ≡ ok r) × IsValid r.0
publish-IsValid py now q e v = (
  after_publish py now q e,
  publish_lem py now q e,
  Published-IsValid (after_publish-Published py now q e v.bounded) v,
)

pub pop-Pending :
    (flag : Bool) (g position : ℕ) (e : RuntimeEvent) (es : List RuntimeEvent)
    → Pending flag g position (e ∷ es)
    → Pending flag g position es
pop-Pending false g position e es (s, run, reached) = (s + 1, run.1, omega (arith, reached))
pop-Pending true g position e es (inl none_left) = cc none_left
pop-Pending true g position e es (inr (m, one, asks)) = inl (ground (arith, one))

poll_done :
    (events : List RuntimeEvent) (block expired : Bool) (q r : Queue) (e : RuntimeEvent)
    → q.events ≡ events
    → poll block expired q ≡ done e r
    → (es : List RuntimeEvent) × (q.events ≡ e ∷ es) × (r ≡ record q { events = es })
unfolding poll
poll_done [] block expired q r e h k = absurd (ground arith)
poll_done (d ∷ es) block expired q r e h k = (es, ground arith, ground arith)

-- Taking an event keeps a queue valid.
pub poll-IsValid :
    (block expired : Bool) (q r : Queue) (e : RuntimeEvent)
    → IsValid q
    → poll block expired q ≡ done e r
    → IsValid r
poll-IsValid block expired q r e v h =
    let (es, shape, rest) = poll_done q.events block expired q r e refl h in
    rw rest (record {
      positive = v.positive;
      bounded = omega (arith, v.bounded, ap length shape);
      pending =
          pop-Pending q.resnapshot_required q.generation q.sequence e es (rw shape at v.pending);
    })

positive-pos : (n : ℤ) (c : ℕ) → positive n ≡ ok c → 0 < c
positive-pos (pos n) c h = ground arith
positive-pos (negsuc n) c h = cc

-- What a queue is when it starts, or starts again.
abbrev pub Fresh : Queue → Type 0
Fresh q = (q.events ≡ []) × (q.resnapshot_required ≡ false)

Fresh-IsValid : (q : Queue) → 0 < q.capacity → Fresh q → IsValid q
Fresh-IsValid q p (none_pending, flowing) = record {
  positive = p;
  bounded = rw none_pending (omega arith);
  pending = rw (flowing, none_pending) (q.sequence, tt, omega arith);
}

pub init-Fresh :
    (capacity generation sequence : Value) (q : Queue)
    → init capacity generation sequence ≡ ok q
    → (0 < q.capacity) × (q.events ≡ []) × (q.resnapshot_required ≡ false)
unfolding init
init-Fresh capacity generation sequence q h = ground arith

-- A queue that the constructor returns is valid.
pub init-IsValid :
    (capacity generation sequence : Value) (q : Queue)
    → init capacity generation sequence ≡ ok q
    → IsValid q
init-IsValid capacity generation sequence q h =
    let (p, e, f) = init-Fresh capacity generation sequence q h in Fresh-IsValid q p (e, f)

reset-Fresh :
    (q r : Queue) (generation sequence : Value)
    → reset q generation sequence ≡ ok r
    → (r.capacity ≡ q.capacity) × (r.events ≡ []) × (r.resnapshot_required ≡ false)
unfolding reset
reset-Fresh q r generation sequence h = ground arith

-- A reset that returns leaves a valid queue.
pub reset-IsValid :
    (q r : Queue) (generation sequence : Value)
    → IsValid q
    → reset q generation sequence ≡ ok r
    → IsValid r
reset-IsValid q r generation sequence v h =
    let (p, e, f) = reset-Fresh q r generation sequence h in
    Fresh-IsValid r (rw p v.positive) (e, f)

pub close-IsValid : (q : Queue) → IsValid q → IsValid (close q)
unfolding close
close-IsValid q v = record { positive = v.positive; bounded = v.bounded; pending = v.pending }
