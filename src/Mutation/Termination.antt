-- ===== src/Mutation/Termination.antt =====
-- `_execute_confirmed_mutation` ends once the clock passes the deadline.
use wyreplumber.Prelude.{
  ℕ, zero, suc, ◌+◌, ◌*◌, ◌≤◌, leb, true, Option, Option-cases, none, some, List, [], Result, ok,
  err, ◌>>=◌, Result-cases, Bool-cases, ◌≡◌, refl, arith, inl, inr, ap, ◌∙◌,
}
use wyreplumber.Value.{str}
use wyreplumber.Builtins.{Builtins}
use wyreplumber.Model.Snapshot.{Snapshot}
use wyreplumber.Mutation.Predicate.{Predicate}
use wyreplumber.Mutation.Request.{Request, parse_timestamp, is_expired, resequence}
use wyreplumber.Mutation.Deadline.{is_expired_lem, mutation_request-deadline, normalized}
use wyreplumber.Mutation.Outcome.{Confirmation, Outcome}
use wyreplumber.Mutation.Ticket.{ticket_from_payload}
use wyreplumber.Mutation.Failures.{ticket_failure_outcome}
use wyreplumber.Mutation.Sound.{Round-cases}
use wyreplumber.Mutation.Execution.{
  World, stops, round, confirm_loop, pinned, dispatch_from, execute_from, execute, is_ready,
}

leb_from_le : (a b : ℕ) → a ≤ b → leb a b ≡ true
leb_from_le a b h = ground (arith, h)

module _ (py : Builtins) (w : World) where
  -- A round that starts after the deadline is the last.
  late_round :
      (step : ℕ) (r : Request) (ps : List Predicate) (cs : List Confirmation)
      → is_expired py r (w.clock step) ≡ ok true
      → (o : Result Outcome) × (round py w step r ps cs ≡ stops o)
  unfolding round
  late_round step r ps cs late = elim (Round-cases (round py w step r ps cs)) [
    | inl stopped ↦ stopped
    | inr (found, goes) ↦ cc (rw (late, round) at goes)
  ]

  -- A loop whose last round starts after the deadline has an outcome.
  loop_returns :
      (fuel step : ℕ) (r : Request) (ps : List Predicate) (cs : List Confirmation)
      → is_expired py r (w.clock (step + 3 * fuel)) ≡ ok true
      → (o : Result Outcome) × (confirm_loop py w (suc fuel) step r ps cs ≡ some o)
  unfolding confirm_loop
  loop_returns zero step r ps cs late =
      let same : step + 3 * 0 ≡ step = omega arith in
      let (o, stopped) = late_round step r ps cs (rw same at late) in
      (o, rw (stopped, confirm_loop) refl)
  loop_returns (suc fuel) step r ps cs late = elim (Round-cases (round py w step r ps cs)) [
    | inl (o, stopped) ↦ (o, rw (stopped, confirm_loop) refl)
    | inr (found, goes) ↦
        let same : step + 3 * suc fuel ≡ step + 3 + 3 * fuel = omega arith in
        let (o, returns) = loop_returns fuel (step + 3) r ps found (rw same at late) in
        (o, rw (goes, confirm_loop) returns)
  ]

  pinned-deadline :
      (r : Request) (s : Snapshot) (d : Request) (deadline : ℕ)
      → parse_timestamp py (str r.deadline_at) ≡ ok deadline
      → pinned py w r s ≡ ok d
      → parse_timestamp py (str d.deadline_at) ≡ ok deadline
  unfolding resequence
  pinned-deadline r s d deadline parsed h = elim (Option-cases r.expected_sequence) [
    | inl any ↦ ground (arith, any)
    | inr (e, expects) ↦
        mutation_request-deadline py _ d deadline (rw expects at h)
          (normalized py (str r.deadline_at) deadline parsed)
  ]

  module _ (r : Request) (deadline last : ℕ)
      (parsed : parse_timestamp py (str r.deadline_at) ≡ ok deadline)
      (passes : (n : ℕ) → last ≤ n → deadline ≤ w.clock n) where
    late_at :
        (d : Request) (n : ℕ)
        → parse_timestamp py (str d.deadline_at) ≡ ok deadline
        → last ≤ n
        → is_expired py d (w.clock n) ≡ ok true
    late_at d n same late =
        is_expired_lem py d deadline (w.clock n) same
        ∙ ap ok (leb_from_le deadline (w.clock n) (passes n late))

    dispatch_returns :
        (step : ℕ) (s : Snapshot)
        → (o : Result Outcome) × ((dispatch_from py w (suc last) step r s).outcome ≡ some o)
    unfolding dispatch_from
    dispatch_returns step s = elim (Result-cases (pinned py w r s)) [
      | inr (e, raised) ↦ (err e, rw (raised, dispatch_from) refl)
      | inl (d, pin) ↦ elim (Result-cases (w.dispatch step d >>= ticket_from_payload)) [
        | inr (e, raised) ↦ (err e, rw (pin, raised, dispatch_from) refl)
        | inl (t, answered) ↦ elim (Bool-cases (is_ready t.disposition)) [
          | inr refused ↦ (
            ticket_failure_outcome py (w.clock (step + 1)) d t,
            rw (pin, answered, refused, dispatch_from) refl,
          )
          | inl accepted ↦
              let late =
                late_at d (step + 1 + 3 * last) (pinned-deadline r s d deadline parsed pin)
                  (omega arith) in
              let (o, returns) = loop_returns last (step + 1) d r.confirmation_predicates [] late in
              (o, rw (pin, answered, accepted, dispatch_from) returns)
        ]
      ]
    ]

    from_returns :
        (step : ℕ) (s : Snapshot)
        → (o : Result Outcome) × ((execute_from py w (suc last) step r s).outcome ≡ some o)
    unfolding execute_from
    from_returns step s = elim (Option-cases (execute_from py w (suc last) step r s).outcome) [
      | inr returns ↦ returns
      | inl waits ↦
          let (o, returns) = dispatch_returns (step + 1) s in
          absurd (ground (arith, returns, waits))
    ]

    -- Once the clock does not show a time before the request's deadline at any step from the step
    -- `last` on, a loop of one round more than that returns or raises, whatever the connection does.
    pub execute-returns :
        (preflight : Option Snapshot)
        → (o : Result Outcome) × ((execute py w (suc last) preflight r).outcome ≡ some o)
    unfolding execute
    execute-returns (some s) = elim (Option-cases (execute py w (suc last) (some s) r).outcome) [
      | inr returns ↦ returns
      | inl waits ↦ let (o, returns) = from_returns 1 s in absurd (ground (arith, returns, waits))
    ]
    execute-returns none = elim (Option-cases (execute py w (suc last) none r).outcome) [
      | inr returns ↦ returns
      | inl waits ↦ elim (Result-cases (w.capture 1)) [
        | inr (e, raised) ↦ absurd (ground (arith, raised, waits))
        | inl (s, captured) ↦
            let (o, returns) = from_returns 2 s in absurd (ground (arith, captured, returns, waits))
      ]
    ]
