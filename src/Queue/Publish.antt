-- ===== src/Queue/Publish.antt =====
-- `publish` never raises, and is one of three steps.
use Prim.Native.String.{◌++◌ as ◌<>◌}
use mathlib.Core.Path.{subst}
use text.Mathlib.TextLemmas.{append-eq-nil_iff}
use wyreplumber.Prelude.{
  if_true, if_false, sym, ℕ, ◌+◌, ◌≤◌, ◌<◌, String, Bool, true, false, not, ◌||◌, some, [], ◌∷◌,
  ◌++◌, ◌≡◌, refl, inl, inr, ok, arith, length, leb, ◌==◌, if◌then◌else◌, str_eq, str_eq_iff,
  Bool-cases,
}
use wyreplumber.Value.{null}
use wyreplumber.Value.Checks.{name}
use wyreplumber.Builtins.{Builtins}
use wyreplumber.Event.{RuntimeEvent}
use wyreplumber.Event.Kinds.{discontinuity, runtime}
use wyreplumber.Event.Continuity.{Follows}
use package.wyreplumber.Queue.{
  Queue, text_or, generation_reason, sequence_reason, capacity_reason, invalidate, publish,
}

text-append-ne : (a b : String) → str_eq a "" ≡ false → str_eq (a <> b) "" ≡ false
text-append-ne a b h = elim (Bool-cases (str_eq (a <> b) "")) [
  | inl e ↦ cc (h, (str_eq_iff a "").1 ((append-eq-nil_iff.0 ((str_eq_iff (a <> b) "").0 e)).0))
  | inr e ↦ e
]

-- The discontinuity that takes the place of the queued events.
abbrev pub marker : Builtins → (now : ℕ) → RuntimeEvent → String → RuntimeEvent
marker py now e reason = record {
  generation = e.generation;
  sequence = e.sequence;
  occurred_at = py.to_iso now;
  kind = discontinuity;
  on = runtime;
  object_id = name "runtime";
  current = null;
  previous = null;
  requires_resnapshot = true;
  reason = some reason;
}

abbrev pub invalidated : Builtins → (now : ℕ) → Queue → RuntimeEvent → String → Queue
invalidated py now q e reason = record q {
  events = marker py now e reason ∷ [];
  generation = e.generation;
  sequence = e.sequence;
  resnapshot_required = true;
  discontinuity_reason = some reason;
}

pub invalidate_lem :
    (py : Builtins) (now : ℕ) (q : Queue) (e : RuntimeEvent) (reason : String)
    → str_eq reason "" ≡ false
    → invalidate py now q e reason ≡ ok (invalidated py now q e reason)
unfolding invalidate
invalidate_lem py now q e reason h = rw h

-- `publish` without its exceptions.
abbrev pub after_publish : Builtins → (now : ℕ) → Queue → RuntimeEvent → Queue × Bool
after_publish py now q e =
    if q.closed || q.resnapshot_required
    then (q, false)
    else if not (e.generation == q.generation)
    then (invalidated py now q e (generation_reason py q e), true)
    else if not (e.sequence == q.sequence + 1)
    then (invalidated py now q e (sequence_reason py q e), true)
    else if e.requires_resnapshot
    then (
      record q {
        events = e ∷ [];
        generation = e.generation;
        sequence = e.sequence;
        resnapshot_required = true;
        discontinuity_reason = some (text_or e.reason "event requires a new snapshot");
      },
      true,
    )
    else if leb q.capacity (length q.events)
    then (invalidated py now q e (capacity_reason py q), true)
    else (record q { events = q.events ++ e ∷ []; sequence = e.sequence }, true)

-- Publication never raises: the reasons that it gives for a discontinuity are not empty.
pub publish_lem :
    (py : Builtins) (now : ℕ) (q : Queue) (e : RuntimeEvent)
    → publish py now q e ≡ ok (after_publish py now q e)
unfolding publish
publish_lem py now q e =
    rw
      (
        invalidate_lem py now q e (generation_reason py q e) (text-append-ne _ _ refl),
        invalidate_lem py now q e (sequence_reason py q e) (text-append-ne _ _ refl),
        invalidate_lem py now q e (capacity_reason py q) (text-append-ne _ _ refl),
      )
      (ground arith)

-- What a publication does: it is refused, it appends the next delta, or it puts one event that
-- asks for a snapshot in the place of all that is pending.
pub data Published (q : Queue) (e : RuntimeEvent) : Queue × Bool → Type 0 where
  rejected : (q.closed || q.resnapshot_required) ≡ true → Published q e (q, false)
  appended :
      (q.closed || q.resnapshot_required) ≡ false
      → Follows q.generation q.sequence e
      → length q.events < q.capacity
      → Published q e (record q { events = q.events ++ e ∷ []; sequence = e.sequence }, true)
  lost :
      (m : RuntimeEvent) (reason : String)
      → (q.closed || q.resnapshot_required) ≡ false
      → m.requires_resnapshot ≡ true
      → m.generation ≡ e.generation
      → m.sequence ≡ e.sequence
      → (Follows q.generation q.sequence e → length q.events ≡ q.capacity)
      → Published q e (
        record q {
          events = m ∷ [];
          generation = e.generation;
          sequence = e.sequence;
          resnapshot_required = true;
          discontinuity_reason = some reason;
        },
        true,
      )

module _ (py : Builtins) (now : ℕ) (q : Queue) (e : RuntimeEvent)
    (fits : length q.events ≤ q.capacity) where
  pub after_publish-Published : Published q e (after_publish py now q e)
  after_publish-Published = elim (Bool-cases (q.closed || q.resnapshot_required)) [
    | inl shut ↦ rw shut (rejected shut)
    | inr live ↦ rw live (elim (Bool-cases (e.generation == q.generation)) [
      | inr g ↦ rw g (
          lost (marker py now e (generation_reason py q e)) (generation_reason py q e) live refl
            refl refl (λ f. ground (arith, f.0)))
      | inl g ↦ rw g (elim (Bool-cases (e.sequence == q.sequence + 1)) [
        | inr s ↦ rw s (
            lost (marker py now e (sequence_reason py q e)) (sequence_reason py q e) live refl refl
              refl (λ f. ground (arith, f.1)))
        | inl s ↦ rw s (elim (Bool-cases e.requires_resnapshot) [
          | inl r ↦ subst (Published q e) (sym (if_true e.requires_resnapshot _ _ r)) (
              lost e (text_or e.reason "event requires a new snapshot") live r refl refl
                (λ f. ground (arith, f.2)))
          | inr r ↦
              subst (Published q e) (sym (if_false e.requires_resnapshot _ _ r))
                (elim (Bool-cases (leb q.capacity (length q.events))) [
                  | inl full ↦ rw full (
                      lost (marker py now e (capacity_reason py q)) (capacity_reason py q) live refl
                        refl refl (λ f. ground arith))
                  | inr room ↦
                      rw room (appended live (ground arith, ground arith, r) (ground arith))
                ])
        ])
      ])
    ])
  ]
