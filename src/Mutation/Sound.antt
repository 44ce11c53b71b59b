-- ===== src/Mutation/Sound.antt =====
-- `_execute_confirmed_mutation` says CONFIRMED only of what a snapshot shows.
use wyreplumber.Prelude.{
  ℕ, zero, suc, ◌+◌, true, false, none, some, List, Result, ok, Error, runtime_error, >>=-eq-ok,
  Result-cases, Bool-cases, ◌≡◌, refl, arith, ◌⊎◌, inl, inr, length, ◌≢◌, ◌==◌, ==_iff, ap, ◌∙◌,
  sym,
}
use wyreplumber.Builtins.{Builtins}
use wyreplumber.Model.Snapshot.{Snapshot}
use wyreplumber.Mutation.Kinds.{confirmed}
use wyreplumber.Mutation.Predicate.{Predicate}
use wyreplumber.Mutation.Request.{Request, is_expired}
use wyreplumber.Mutation.Outcome.{
  Confirmation, Outcome, OutcomeFields, mutation_outcome, mutation_failure, check_status,
}
use wyreplumber.Mutation.Observation.{confirmations_from}
use wyreplumber.Mutation.Failures.{
  FailureArguments, failure_outcome, ticket_failure_outcome, runtime_unavailable_outcome,
}
use wyreplumber.Mutation.Ticket.{Ticket}
use wyreplumber.Mutation.Execution.{
  World, Round, stops, continues, confirms, after_snapshot, round, confirm_loop, unavailable,
}

pub some_eq : {A : Type 0} {a b : A} → some a ≡ some b → a ≡ b
some_eq {A} {a} h = ap (λ o. elim o [ some x ↦ x | none ↦ a ]) h

stops_eq : {a b : Result Outcome} → stops a ≡ stops b → a ≡ b
stops_eq {a} h = ap (λ r. elim r [ stops x ↦ x | continues cs ↦ a ]) h

pub Round-cases :
    (r : Round)
    → ((o : Result Outcome) × (r ≡ stops o)) ⊎ ((cs : List Confirmation) × (r ≡ continues cs))
Round-cases (stops o) = inl (o, refl)
Round-cases (continues cs) = inr (cs, refl)

module _ (py : Builtins) where
  with_failure :
      (args : OutcomeFields) (o : Outcome)
      → mutation_outcome py args ≡ ok o
      → args.failure ≢ none
      → o.status ≢ confirmed
  unfolding mutation_outcome check_status
  with_failure args o made failing same = ground arith

  pub failure_unconfirmed :
      (clock : ℕ) (r : Request) (args : FailureArguments) (o : Outcome)
      → failure_outcome py clock r args ≡ ok o
      → o.status ≢ confirmed
  unfolding failure_outcome
  failure_unconfirmed clock r args o made =
      let (f, failed, made₁) = >>=-eq-ok (mutation_failure _) _ made in
      with_failure _ o made₁ (λ none_made. cc)

  pub unavailable_unconfirmed :
      (w : World) (step : ℕ) (r : Request) (e : Error) (cs : List Confirmation) (o : Outcome)
      → unavailable py w step r e cs ≡ ok o
      → o.status ≢ confirmed
  unfolding runtime_unavailable_outcome
  unavailable_unconfirmed w step r (runtime_error m) cs o made =
      failure_unconfirmed (w.clock step) r _ o made
  unavailable_unconfirmed w step r e cs o made = cc

  pub ticket_unconfirmed :
      (clock : ℕ) (r : Request) (t : Ticket) (o : Outcome)
      → ticket_failure_outcome py clock r t ≡ ok o
      → o.status ≢ confirmed
  unfolding ticket_failure_outcome
  ticket_unconfirmed clock r t o made = failure_unconfirmed clock r _ o made

  -- A snapshot of the expected generation in which each predicate, in order, has its confirmation.
  abbrev pub ShownBy : ℕ → List Predicate → Outcome → Snapshot → Type 0
  ShownBy generation ps o s =
      (s.generation ≡ generation)
      × (confirmations_from s py ps ≡ ok o.confirmations)
      × (length o.confirmations ≡ length ps)

  module _ (w : World) where
    confirms_lem :
        (r : Request) (s : Snapshot) (cs : List Confirmation) (o : Outcome)
        → confirms py w r s cs ≡ ok o
        → o.confirmations ≡ cs
    unfolding confirms mutation_outcome
    confirms_lem r s cs o made = ground arith

    -- Once a snapshot has confirmed all predicates, before the loop or in it.
    pub full_snapshot :
        (r : Request) (ps : List Predicate) (s : Snapshot) (found : List Confirmation) (o : Outcome)
        → (s.generation == r.expected_generation) ≡ true
        → confirmations_from s py ps ≡ ok found
        → (length found == length ps) ≡ true
        → confirms py w r s found ≡ ok o
        → ShownBy r.expected_generation ps o s
    full_snapshot r ps s found o generation shows full made =
        let same = confirms_lem r s found o made in
        (
          (==_iff s.generation r.expected_generation).0 generation,
          shows ∙ ap ok (sym same),
          ap length same ∙ (==_iff (length found) (length ps)).0 full,
        )

    snapshot_shows :
        (step : ℕ) (r : Request) (ps : List Predicate) (cs : List Confirmation) (s : Snapshot)
        (o : Outcome)
        → after_snapshot py w step r ps cs s ≡ stops (ok o)
        → o.status ≡ confirmed
        → ShownBy r.expected_generation ps o s
    unfolding after_snapshot
    snapshot_shows step r ps cs s o h done =
        elim (Bool-cases (s.generation == r.expected_generation)) [
          | inr other ↦
              absurd (failure_unconfirmed _ r _ o (stops_eq (rw (other, after_snapshot) at h)) done)
          | inl same ↦ elim (Result-cases (confirmations_from s py ps)) [
            | inr (e, raised) ↦ cc (rw (same, raised, after_snapshot) at h)
            | inl (found, shows) ↦ elim (Bool-cases (length found == length ps)) [
              | inr partial ↦ cc (rw (same, shows, partial, after_snapshot) at h)
              | inl full ↦
                  full_snapshot r ps s found o same shows full
                    (stops_eq (rw (same, shows, full, after_snapshot) at h))
            ]
          ]
        ]

    round_shows :
        (step : ℕ) (r : Request) (ps : List Predicate) (cs : List Confirmation) (o : Outcome)
        → round py w step r ps cs ≡ stops (ok o)
        → o.status ≡ confirmed
        → (s : Snapshot) × (w.capture (step + 1) ≡ ok s) × ShownBy r.expected_generation ps o s
    unfolding round
    round_shows step r ps cs o h done = elim (Result-cases (is_expired py r (w.clock step))) [
      | inr (e, raised) ↦ cc (rw (raised, round) at h)
      | inl (true, late) ↦
          absurd (failure_unconfirmed _ r _ o (stops_eq (rw (late, round) at h)) done)
      | inl (false, live) ↦ elim (Result-cases (w.capture (step + 1))) [
        | inr (e, raised) ↦ absurd (
            unavailable_unconfirmed w (step + 2) r e cs o (stops_eq (rw (live, raised, round) at h))
              done)
        | inl (s, captured) ↦ (
          s,
          captured,
          snapshot_shows (step + 2) r ps cs s o (rw (live, captured, round) at h) done,
        )
      ]
    ]

    pub loop_shows :
        (fuel step : ℕ) (r : Request) (ps : List Predicate) (cs : List Confirmation) (o : Outcome)
        → confirm_loop py w fuel step r ps cs ≡ some (ok o)
        → o.status ≡ confirmed
        → (n : ℕ) × (s : Snapshot) × (w.capture n ≡ ok s) × ShownBy r.expected_generation ps o s
    unfolding confirm_loop
    loop_shows zero step r ps cs o h done = cc
    loop_shows (suc fuel) step r ps cs o h done = elim (Round-cases (round py w step r ps cs)) [
      | inl (end, stopped) ↦
          let (s, captured, shown) =
            round_shows step r ps cs o
              (stopped ∙ ap stops (some_eq (rw (stopped, confirm_loop) at h))) done in
          (step + 1, s, captured, shown)
      | inr (found, goes) ↦
          loop_shows fuel (step + 3) r ps found o (rw (goes, confirm_loop) at h) done
    ]
