-- ===== src/Mutation/Dispatch.antt =====
-- What stands between a request and its dispatch.
use wyreplumber.Prelude.{
  ◌≤◌, Result-cases, ℕ, ◌+◌, false, Option, none, some, List, [], ◌∷◌, ok, ◌≡◌, refl, arith, ◌⊎◌,
  inl, inr, length, ◌≢◌,
}
use wyreplumber.Builtins.{Builtins}
use wyreplumber.Model.Snapshot.{Snapshot}
use wyreplumber.Mutation.Request.{Request, is_expired}
use wyreplumber.Mutation.Outcome.{Confirmation}
use wyreplumber.Mutation.Observation.{confirmations_from}
use wyreplumber.Mutation.Execution.{World, Execution, pinned, dispatch_from, execute_from, execute}

module _ (py : Builtins) (w : World) where
  -- The preflight allowed the request r to be dispatched as d: at the snapshot s and the step.
  pub record Allowed (step : ℕ) (r : Request) (s : Snapshot) (d : Request) : Type 0 where
    pub generation : s.generation ≡ r.expected_generation
    pub current : (e : ℕ) → r.expected_sequence ≡ some e → s.sequence ≡ e + 1
    pub live : is_expired py r (w.clock step) ≡ ok false
    pub unconfirmed :
        (found : List Confirmation)
        → confirmations_from s py r.confirmation_predicates ≡ ok found
        → length found ≢ length r.confirmation_predicates
    pub pinned_to : pinned py w r s ≡ ok d

  from_Allowed :
      (fuel step : ℕ) (r : Request) (s : Snapshot) (d : Request)
      → (execute_from py w fuel step r s).dispatched ≡ d ∷ []
      → Allowed step r s d
  unfolding execute_from dispatch_from
  from_Allowed fuel step r s d h = record {
    generation = ground arith;
    current = λ e named. ground arith;
    live = ground arith;
    unconfirmed = λ found holds full. ground arith;
    pinned_to = ground arith;
  }

  not_many :
      (e : Execution)
      → (length e.dispatched ≤ 1)
      → (e.dispatched ≡ []) ⊎ ((d : Request) × (e.dispatched ≡ d ∷ []))
  not_many e few = few_of e.dispatched few
    where
      few_of : (ds : List Request) → length ds ≤ 1 → (ds ≡ []) ⊎ ((d : Request) × (ds ≡ d ∷ []))
      few_of [] h = inl refl
      few_of (d ∷ []) h = inr (d, refl)
      few_of (d ∷ e ∷ ds) h = absurd (omega (arith, h))

  at_most_one :
      (fuel : ℕ) (preflight : Option Snapshot) (r : Request)
      → length (execute py w fuel preflight r).dispatched ≤ 1
  unfolding execute execute_from dispatch_from
  at_most_one fuel preflight r = ground arith

  -- The snapshot of the preflight and the step after it: the caller's, or the first capture.
  abbrev pub Preflight : Option Snapshot → (step : ℕ) → Snapshot → Type 0
  Preflight (some given) step s = (given ≡ s) × (step ≡ 1)
  Preflight none step s = (w.capture 1 ≡ ok s) × (step ≡ 2)

  reached :
      (fuel : ℕ) (preflight : Option Snapshot) (r d : Request)
      → (execute py w fuel preflight r).dispatched ≡ d ∷ []
      → (step : ℕ) × (s : Snapshot) × (Preflight preflight step s)
        × ((execute_from py w fuel step r s).dispatched ≡ d ∷ [])
  unfolding execute
  reached fuel (some s) r d h = (1, s, (refl, refl), ground arith)
  reached fuel none r d h = elim (Result-cases (w.capture 1)) [
    | inl (s, captured) ↦ (2, s, (captured, refl), ground (arith, captured))
    | inr (e, raised) ↦ absurd (ground (arith, raised))
  ]

  -- A mutation dispatches at most one request, and only this one: the preflight's snapshot is of the
  -- generation that the request expects and, where it expects a sequence, one sequence later; not all
  -- of its predicates hold in that snapshot; its deadline has not passed when the clock is read after
  -- it; and what is dispatched is the request, its sequence the snapshot's where it expects one.
  pub execute-Allowed :
      (fuel : ℕ) (preflight : Option Snapshot) (r : Request)
      → let ds = (execute py w fuel preflight r).dispatched in
        (ds ≡ [])
        ⊎ ((d : Request) × (step : ℕ) × (s : Snapshot) × (ds ≡ d ∷ [])
            × Preflight preflight step s
            × Allowed step r s d)
  execute-Allowed fuel preflight r =
      elim (not_many (execute py w fuel preflight r) (at_most_one fuel preflight r)) [
        | inl nothing ↦ inl nothing
        | inr (d, one) ↦
            let (step, s, first, goes) = reached fuel preflight r d one in
            inr (d, step, s, one, first, from_Allowed fuel step r s d goes)
      ]
