-- ===== src/Controls/Dispatched.antt =====
-- What every control relies on: what `_execute_confirmed_mutation` dispatches from the preflight that a
-- control gives it, and that a control which raises dispatches nothing.
use wyreplumber.Prelude.{
  ℕ, false, List, [], ◌∷◌, some, Result, ok, err, ◌>>=◌, ◌≡◌, refl, sym, ◌∙◌, arith, inl, inr,
  Option-cases,
}
use wyreplumber.Builtins.{Builtins}
use wyreplumber.Model.Snapshot.{Snapshot}
use wyreplumber.Mutation.Request.{Request}
use wyreplumber.Mutation.Execution.{World, Execution, execute}
use wyreplumber.Mutation.Dispatch.{Allowed, execute-Allowed}
use package.wyreplumber.Controls.{attempt, preflight_is_stale}

-- A control that dispatched: its next statement returned, and so did the rest.
pub attempt->>= :
    {A : Type 0} (first : Result A) (rest : A → Result Execution) (d : Request) (ds : List Request)
    → (attempt (first >>= rest)).dispatched ≡ d ∷ ds
    → (a : A) × (first ≡ ok a) × ((attempt (rest a)).dispatched ≡ d ∷ ds)
attempt->>= (ok a) rest d ds h = (a, refl, h)
attempt->>= (err e) rest d ds h = absurd (ground (arith, h))

only-head : (a b : Request) (ds : List Request) → a ∷ [] ≡ b ∷ ds → (a ≡ b) × (ds ≡ [])
only-head a b ds h = (ground (arith, h), ground (arith, h))

module _ (py : Builtins) where
  -- From a control's own preflight, one request is dispatched at most, and only if it is allowed.
  pub preflight-Allowed :
      (w : World) (fuel : ℕ) (s : Snapshot) (r d : Request) (ds : List Request)
      → (execute py w fuel (some s) r).dispatched ≡ d ∷ ds
      → (ds ≡ []) × Allowed py w 1 r s d
  preflight-Allowed w fuel s r d ds h = elim (execute-Allowed py w fuel (some s) r) [
    | inl nothing ↦ absurd (ground (arith, nothing, h))
    | inr (c, step, t, one, (same, first), allowed) ↦
        let (head, rest) = only-head c d ds (sym one ∙ h) in
        (rest, rw (same, ← head, ← first) allowed)
  ]

  pub Allowed-current :
      (w : World) (step : ℕ) (r : Request) (s : Snapshot) (d : Request)
      → Allowed py w step r s d
      → preflight_is_stale r s ≡ false
  unfolding preflight_is_stale
  Allowed-current w step r s d allowed = elim (Option-cases r.expected_sequence) [
    | inl unnamed ↦ ground (arith, unnamed, allowed.generation)
    | inr (e, named) ↦ ground (arith, named, allowed.generation, allowed.current e named)
  ]
