-- ===== src/Event/Continuity.antt =====
-- The events that a projection at a generation and a sequence accepts.
use wyreplumber.Prelude.{
  String, true, continuity_error, Bool-cases, ◌==◌, inl, inr, ℕ, ◌+◌, pos, false, ◌≡◌, ◌↔◌, ok, err,
  arith,
}
use wyreplumber.Value.{int}
use wyreplumber.Event.{RuntimeEvent, require_event_continuity}

-- The event follows a projection at `g` and `s`, and carries on incrementally.
abbrev pub Follows : ℕ → ℕ → RuntimeEvent → Type 0
Follows g s e = (e.generation ≡ g) × (e.sequence ≡ s + 1) × (e.requires_resnapshot ≡ false)

-- The continuity test accepts an event exactly when it is of the projection's generation, its
-- sequence is the next one, and it does not ask for a new snapshot.
pub require_event_continuity_iff :
    (e : RuntimeEvent) (g s : ℕ)
    → (require_event_continuity e (int (pos g)) (int (pos s)) ≡ ok e) ↔ Follows g s e
unfolding require_event_continuity
require_event_continuity_iff e g s = (λ h. ground arith, λ h. ground arith)

-- An event that asks for a new snapshot is refused at every position.
pub require_event_continuity_refuses :
    (e : RuntimeEvent) (g s : ℕ)
    → e.requires_resnapshot ≡ true
    → (code : String) × (require_event_continuity e (int (pos g)) (int (pos s))
        ≡ err (continuity_error code g (s + 1)))
unfolding require_event_continuity
require_event_continuity_refuses e g s asks = elim (Bool-cases (e.generation == g)) [
  | inr other ↦ ("generation_changed", rw other)
  | inl same ↦ elim (Bool-cases (e.sequence == s + 1)) [
    | inr gap ↦ ("sequence_gap", rw (same, gap))
    | inl next ↦ ("resnapshot_required", rw (same, next, asks))
  ]
]
