-- ===== src/Queue/Refinement.antt =====
-- The queue as its consumer may think of it, without the clock, the reasons and the notices: a stream
-- that is live, with the deltas that are pending, or broken, with or without a notice pending.
use wyreplumber.Prelude.{
  ℕ, ◌+◌, Bool, true, false, not, ◌&&◌, List, [], ◌∷◌, ◌++◌, ◌≡◌, refl, inl, inr, ok, arith, length,
  ltb, ◌==◌, ◌⊎◌, if◌then◌else◌, Bool-cases,
}
use wyreplumber.Builtins.{Builtins}
use wyreplumber.Event.{RuntimeEvent}
use wyreplumber.Queue.Publish.{after_publish, publish_lem}
use wyreplumber.Queue.Get.{poll, done}
use wyreplumber.Queue.Invariant.{IsValid, Pending}
use package.wyreplumber.Queue.{Queue, publish}

pub data Stream : Type 0 where
  live : (generation position : ℕ) → (pending : List RuntimeEvent) → Stream
  broken : (generation position : ℕ) → (noticed : Bool) → Stream

abbrev is_pending : List RuntimeEvent → Bool
is_pending [] = false
is_pending (e ∷ es) = true

abbrev pub view : Queue → Stream
view q =
    if q.resnapshot_required
    then broken q.generation q.sequence (is_pending q.events)
    else live q.generation q.sequence q.events

-- The next delta of the stream.
abbrev is_next : ℕ → ℕ → RuntimeEvent → Bool
is_next g s e = e.generation == g && (e.sequence == s + 1 && not e.requires_resnapshot)

-- What the stream does with an event: a live one takes the next delta if there is room, and breaks at
-- any other event; a broken one takes none.
abbrev pub accept : (capacity : ℕ) → Stream → RuntimeEvent → Stream × Bool
accept c (broken g s noticed) e = (broken g s noticed, false)
accept c (live g s es) e =
    if is_next g s e && ltb (length es) c
    then (live g (s + 1) (es ++ e ∷ []), true)
    else (broken e.generation e.sequence true, true)

-- Publishing to an open queue returns, and does to its view what the stream does with the event.
pub publish-accept :
    (py : Builtins) (now : ℕ) (q : Queue) (e : RuntimeEvent)
    → q.closed ≡ false
    → (r : Queue × Bool) × (publish py now q e ≡ ok r)
      × ((view r.0, r.1) ≡ accept q.capacity (view q) e)
publish-accept py now q e opened =
    (after_publish py now q e, publish_lem py now q e, ground (arith, opened))

-- What a stream delivers: a live one its first pending delta, a broken one its notice, once.
pub data Delivers : Stream → RuntimeEvent → Stream → Type 0 where
  delta :
      (g s : ℕ) (e : RuntimeEvent) (es : List RuntimeEvent)
      → Delivers (live g s (e ∷ es)) e (live g s es)
  notice :
      (g s : ℕ) (e : RuntimeEvent)
      → e.requires_resnapshot ≡ true
      → Delivers (broken g s true) e (broken g s false)

split :
    (es : List RuntimeEvent)
    → (es ≡ []) ⊎ ((e : RuntimeEvent) × (rest : List RuntimeEvent) × (es ≡ e ∷ rest))
split [] = inl refl
split (e ∷ es) = inr (e, es, refl)

done-eq : (e f : RuntimeEvent) (q r : Queue) → done e q ≡ done f r → (e ≡ f) × (q ≡ r)
done-eq e f q r h = (ground (arith, h), ground (arith, h))

-- A queue with an event pending: its view delivers the event.
head-Delivers :
    (q : Queue) (e : RuntimeEvent) (es : List RuntimeEvent)
    → IsValid q
    → q.events ≡ e ∷ es
    → Delivers (view q) e (view (record q { events = es }))
head-Delivers q e es valid h = elim (Bool-cases q.resnapshot_required) [
  | inr flowing ↦ rw (flowing, h) (delta q.generation q.sequence e es)
  | inl lost ↦
      let asked : Pending true q.generation q.sequence q.events = rw lost at valid.pending in
      elim asked [
        | inl nothing ↦ absurd (ground (arith, nothing, h))
        | inr (f, only, asks) ↦
            let head : f ≡ e = ground (arith, only, h) in
            let rest : es ≡ [] = ground (arith, only, h) in
            rw (lost, h, rest) (notice q.generation q.sequence e (rw head at asks))
      ]
]

-- Taking an event from a valid queue is what its view delivers.
pub poll-Delivers :
    (block expired : Bool) (q r : Queue) (e : RuntimeEvent)
    → IsValid q
    → poll block expired q ≡ done e r
    → Delivers (view q) e (view r)
unfolding poll
poll-Delivers block expired q r e valid h = elim (split q.events) [
  | inl nothing ↦ absurd (ground (arith, nothing, h))
  | inr (f, rest, pending) ↦
      let (head, left) = done-eq f e (record q { events = rest }) r (ground (arith, pending, h)) in
      rw (← head, ← left) (head-Delivers q f rest valid pending)
]
