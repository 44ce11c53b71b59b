-- ===== src/Mutation/Confirmed.antt =====
-- A confirmed outcome rests on one snapshot in which every predicate holds.
use mathlib.Core.Path.{subst}
use wyreplumber.Prelude.{
  ◌≤◌, Bool, true, false, List, [], ◌∷◌, map, ok_eq, Result, ok, >>=-eq-ok, ◌≡◌, refl, arith,
  length, sym, All,
}
use wyreplumber.Value.Checks.{identifier}
use wyreplumber.Value.Json.{contract_value}
use wyreplumber.Builtins.{Builtins}
use wyreplumber.Model.Snapshot.{Snapshot}
use wyreplumber.Mutation.Predicate.{Predicate, matches}
use wyreplumber.Mutation.Outcome.{Confirmation, ConfirmationFields, mutation_confirmation}
use wyreplumber.Mutation.Observation.{confirmations_from, snapshot_observation, confirm}

module _ (py : Builtins) (s : Snapshot) where
  -- A confirmation of a predicate that holds of the snapshot: what was observed is what the snapshot
  -- says of the predicate's target, frozen, and it satisfies the predicate.
  abbrev pub Shows : Confirmation → Type 0
  Shows c =
      (contract_value (snapshot_observation s c.predicate.target) ≡ ok c.observation)
      × (matches py c.predicate c.observation ≡ ok true)
      × (c.generation ≡ s.generation)
      × (c.sequence ≡ s.sequence)

  confirm_shows :
      (args : ConfirmationFields) (c : Confirmation)
      → mutation_confirmation py args ≡ ok c
      → (contract_value args.observation ≡ ok c.observation)
        × (matches py c.predicate c.observation ≡ ok true)
        × (c.predicate ≡ args.predicate)
        × (identifier args.generation ≡ ok c.generation)
        × (identifier args.sequence ≡ ok c.sequence)
  unfolding mutation_confirmation
  confirm_shows args c made = (ground arith, ground arith, ground arith, ground arith, ground arith)

  -- Either all of the predicates are confirmed, in order, or there are fewer confirmations.
  pub record Confirms (ps : List Predicate) (cs : List Confirmation) : Type 0 where
    pub shown : All Shows cs
    pub at_most : length cs ≤ length ps
    pub complete : length cs ≡ length ps → map (λ (c : Confirmation). c.predicate) cs ≡ ps

  extend :
      (p : Predicate) (ps : List Predicate) (c : Confirmation) (cs : List Confirmation)
      → Shows c
      → c.predicate ≡ p
      → Confirms ps cs
      → Confirms (p ∷ ps) (c ∷ cs)
  extend p ps c cs shows same tail = record {
    shown = (shows, tail.shown);
    at_most = omega (arith, tail.at_most);
    complete = λ full. rw (same, tail.complete (omega (arith, full))) refl;
  }

  skip :
      (p : Predicate) (ps : List Predicate) (cs : List Confirmation)
      → Confirms ps cs
      → Confirms (p ∷ ps) cs
  skip p ps cs tail = record {
    shown = tail.shown;
    at_most = omega (arith, tail.at_most);
    complete = λ full. absurd (omega (arith, full, tail.at_most));
  }

  one_more :
      (p : Predicate) (ps : List Predicate) (matched : Bool) (rest : Result (List Confirmation))
      (cs : List Confirmation)
      → ((found : List Confirmation) → rest ≡ ok found → Confirms ps found)
      → confirm s py p (snapshot_observation s p.target) matched rest ≡ ok cs
      → Confirms (p ∷ ps) cs
  unfolding identifier
  one_more p ps false rest cs tail h = skip p ps cs (tail cs h)
  one_more p ps true rest cs tail h =
      let (c, made, h₁) = >>=-eq-ok _ _ h in
      let (found, went, h₂) = >>=-eq-ok rest _ h₁ in
      let (observed, matched, same, g, n) = confirm_shows _ c made in
      subst (λ l. Confirms (p ∷ ps) l) (ok_eq h₂)
        (extend p ps c found
          (
            subst (λ q. contract_value (snapshot_observation s q.target) ≡ ok c.observation)
                (sym same) observed,
            matched,
            sym (ok_eq g),
            sym (ok_eq n),
          )
          same (tail found went))

  pub confirmations_from-Confirms :
      (ps : List Predicate) (cs : List Confirmation)
      → confirmations_from s py ps ≡ ok cs
      → Confirms ps cs
  unfolding confirmations_from
  confirmations_from-Confirms [] cs h =
      subst (λ l. Confirms [] l) (ok_eq h)
        (record { shown = tt; at_most = omega arith; complete = λ full. refl })
  confirmations_from-Confirms (p ∷ ps) cs h =
      let (matched, m, h₁) = >>=-eq-ok (matches py p (snapshot_observation s p.target)) _ h in
      one_more p ps matched (confirmations_from s py ps) cs
        (λ found. confirmations_from-Confirms ps found) h₁
