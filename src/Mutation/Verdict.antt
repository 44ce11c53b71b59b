-- ===== src/Mutation/Verdict.antt =====
-- From the loop to the whole of `_execute_confirmed_mutation`: what CONFIRMED means.
use mathlib.Core.Path.{subst}
use wyreplumber.Prelude.{
  ℕ, ◌+◌, true, false, Option, Option-cases, some, List, [], ok, ◌>>=◌, Result-cases, Bool-cases,
  ◌≡◌, refl, arith, ◌⊎◌, inl, inr, length, ◌==◌, ap, ◌∙◌, All, map,
}
use wyreplumber.Value.Checks.{identifier, integer}
use wyreplumber.Builtins.{Builtins}
use wyreplumber.Model.Snapshot.{Snapshot}
use wyreplumber.Mutation.Kinds.{confirmed}
use wyreplumber.Mutation.Request.{Request, is_expired, resequence, mutation_request}
use wyreplumber.Mutation.Outcome.{Confirmation, Outcome}
use wyreplumber.Mutation.Observation.{confirmations_from}
use wyreplumber.Mutation.Ticket.{ticket_from_payload}
use wyreplumber.Mutation.Confirmed.{Shows, confirmations_from-Confirms}
use wyreplumber.Mutation.Sound.{
  some_eq, ShownBy, full_snapshot, loop_shows, failure_unconfirmed, unavailable_unconfirmed,
  ticket_unconfirmed,
}
use wyreplumber.Mutation.Execution.{
  World, pinned, dispatch_from, execute_from, execute, is_ready, is_stale, unless_expired,
}

module _ (py : Builtins) (w : World) where
  resequence-generation :
      (r : Request) (sequence : ℕ) (d : Request)
      → resequence py r sequence ≡ ok d
      → d.expected_generation ≡ r.expected_generation
  unfolding resequence mutation_request identifier integer
  resequence-generation r sequence d h = ground arith

  pinned-generation :
      (r : Request) (s : Snapshot) (d : Request)
      → pinned py w r s ≡ ok d
      → d.expected_generation ≡ r.expected_generation
  unfolding resequence
  pinned-generation r s d h = elim (Option-cases r.expected_sequence) [
    | inl any ↦ ground (arith, any)
    | inr (e, expects) ↦ resequence-generation r s.sequence d (rw expects at h)
  ]

  -- A snapshot that the call saw.
  abbrev pub Captured : Snapshot → Type 0
  Captured s = (n : ℕ) × (w.capture n ≡ ok s)

  dispatch_shows :
      (fuel step : ℕ) (r : Request) (s : Snapshot) (o : Outcome)
      → (dispatch_from py w fuel step r s).outcome ≡ some (ok o)
      → o.status ≡ confirmed
      → (seen : Snapshot) × Captured seen
        × ShownBy py r.expected_generation r.confirmation_predicates o seen
  unfolding dispatch_from
  dispatch_shows fuel step r s o h done = elim (Result-cases (pinned py w r s)) [
    | inr (e, raised) ↦ cc (rw (raised, dispatch_from) at h)
    | inl (d, pin) ↦ elim (Result-cases (w.dispatch step d >>= ticket_from_payload)) [
      | inr (e, raised) ↦ cc (rw (pin, raised, dispatch_from) at h)
      | inl (t, answered) ↦ elim (Bool-cases (is_ready t.disposition)) [
        | inr refused ↦ absurd (
            ticket_unconfirmed py (w.clock (step + 1)) d t o
              (some_eq (rw (pin, answered, refused, dispatch_from) at h)) done)
        | inl accepted ↦
            let (n, seen, captured, shown) =
              loop_shows py w fuel (step + 1) d r.confirmation_predicates [] o
                (rw (pin, answered, accepted, dispatch_from) at h) done in
            (
              seen,
              (n, captured),
              subst (λ g. ShownBy py g r.confirmation_predicates o seen)
                  (pinned-generation r s d pin) shown,
            )
      ]
    ]
  ]

  -- The snapshot that confirms, after a preflight that took s.
  abbrev pub SeenAfter : Snapshot → Request → Outcome → Type 0
  SeenAfter s r o =
      (seen : Snapshot) × ((s ≡ seen) ⊎ Captured seen)
      × ShownBy py r.expected_generation r.confirmation_predicates o seen

  unless_expired_shows :
      (fuel step : ℕ) (r : Request) (s : Snapshot) (found : List Confirmation) (o : Outcome)
      → (unless_expired py w fuel step r s found).outcome ≡ some (ok o)
      → o.status ≡ confirmed
      → SeenAfter s r o
  unless_expired_shows fuel step r s found o h done =
      elim (Result-cases (is_expired py r (w.clock step))) [
        | inr (e, raised) ↦ cc (rw (raised, unless_expired) at h)
        | inl (true, late) ↦
            absurd (failure_unconfirmed py _ r _ o (some_eq (rw (late, unless_expired) at h)) done)
        | inl (false, live) ↦
            let (seen, captured, shown) =
              dispatch_shows fuel (step + 1) r s o (rw (live, unless_expired) at h) done in
            (seen, inr captured, shown)
      ]

  from_shows :
      (fuel step : ℕ) (r : Request) (s : Snapshot) (o : Outcome)
      → (execute_from py w fuel step r s).outcome ≡ some (ok o)
      → o.status ≡ confirmed
      → SeenAfter s r o
  unfolding execute_from
  from_shows fuel step r s o h done = elim (Bool-cases (s.generation == r.expected_generation)) [
    | inr other ↦
        absurd (failure_unconfirmed py _ r _ o (some_eq (rw (other, execute_from) at h)) done)
    | inl same ↦ elim (Bool-cases (is_stale py w r s)) [
      | inl stale ↦
          absurd
            (failure_unconfirmed py _ r _ o (some_eq (rw (same, stale, execute_from) at h)) done)
      | inr fresh ↦ elim (Result-cases (confirmations_from s py r.confirmation_predicates)) [
        | inr (e, raised) ↦ cc (rw (same, fresh, raised, execute_from) at h)
        | inl (found, shows) ↦
            elim (Bool-cases (length found == length r.confirmation_predicates)) [
              | inl full ↦ (
                s,
                inl refl,
                full_snapshot py w r r.confirmation_predicates s found o same shows full
                    (some_eq (rw (same, fresh, shows, full, execute_from) at h)),
              )
              | inr partial ↦
                  unless_expired_shows fuel step r s found o
                    (rw (same, fresh, shows, partial, execute_from) at h) done
            ]
      ]
    ]
  ]

  -- The snapshot that confirms: the caller's, or one that the call captured.
  abbrev pub Seen : Option Snapshot → Snapshot → Type 0
  Seen preflight s = (preflight ≡ some s) ⊎ Captured s

  execute_shows :
      (fuel : ℕ) (preflight : Option Snapshot) (r : Request) (o : Outcome)
      → (execute py w fuel preflight r).outcome ≡ some (ok o)
      → o.status ≡ confirmed
      → (s : Snapshot) × Seen preflight s
        × ShownBy py r.expected_generation r.confirmation_predicates o s
  unfolding execute
  execute_shows fuel preflight r o h done = elim (Result-cases (is_expired py r (w.clock 0))) [
    | inr (e, raised) ↦ cc (rw (raised, execute) at h)
    | inl (true, late) ↦
        absurd (failure_unconfirmed py _ r _ o (some_eq (rw (late, execute) at h)) done)
    | inl (false, live) ↦ elim (Option-cases preflight) [
      | inr (given, there) ↦
          let (s, seen, shown) =
            from_shows fuel 1 r given o (rw (live, there, execute) at h) done in
          (
            s,
            elim seen [ inl same ↦ inl (there ∙ ap some same) | inr captured ↦ inr captured ],
            shown,
          )
      | inl absent ↦ elim (Result-cases (w.capture 1)) [
        | inr (e, raised) ↦ absurd (
            unavailable_unconfirmed py w 2 r e [] o
              (some_eq (rw (live, absent, raised, execute) at h)) done)
        | inl (first, captured) ↦
            let (s, seen, shown) =
              from_shows fuel 2 r first o (rw (live, absent, captured, execute) at h) done in
            (
              s,
              elim seen [ inl same ↦ inr (1, captured ∙ ap ok same) | inr later ↦ inr later ],
              shown,
            )
      ]
    ]
  ]

  -- If a mutation returns a confirmed outcome, then there is one snapshot, the caller's preflight or
  -- one that the call captured, of the generation that the request expects, in which the outcome's
  -- confirmations hold: each observation is what that snapshot says of the predicate's target, frozen,
  -- and satisfies the predicate; each confirmation is of the snapshot's generation and sequence; and
  -- their predicates are the request's, all of them and in order.
  pub execute-confirmed :
      (fuel : ℕ) (preflight : Option Snapshot) (r : Request) (o : Outcome)
      → (execute py w fuel preflight r).outcome ≡ some (ok o)
      → o.status ≡ confirmed
      → (s : Snapshot) × Seen preflight s
        × (s.generation ≡ r.expected_generation)
        × All (Shows py s) o.confirmations
        × (map (λ (c : Confirmation). c.predicate) o.confirmations ≡ r.confirmation_predicates)
  execute-confirmed fuel preflight r o h done =
      let (s, seen, shown) = execute_shows fuel preflight r o h done in
      let (same, shows, full) = shown in
      let confirms =
        confirmations_from-Confirms py s r.confirmation_predicates o.confirmations shows in
      (s, seen, same, confirms.shown, confirms.complete full)
