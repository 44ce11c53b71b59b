-- ===== src/Mutation/Unavailable.antt =====
-- What becomes of a RuntimeError of the connection.
use wyreplumber.Prelude.{
  ℕ, String, true, false, ◌||◌, List, All, ok, err, value_error, ◌≡◌, refl, inl, inr, Bool-cases,
  str_eq, if◌then◌else◌,
}
use wyreplumber.Value.{str, end}
use wyreplumber.Value.Checks.{required_string}
use wyreplumber.Value.Json.{mapping, freeze_json}
use wyreplumber.Builtins.{Builtins}
use wyreplumber.Mutation.Kinds.{
  MutationStatus, execution, cancellation, internal_error, runtime_stopped, code_of_phase,
  code_of_status,
}
use wyreplumber.Mutation.Texts.{phase_member, code_member}
use wyreplumber.Mutation.Request.{Request}
use wyreplumber.Mutation.Outcome.{Confirmation, Outcome, mutation_failure}
use wyreplumber.Mutation.Failures.{unavailable_arguments, runtime_unavailable_outcome}
use wyreplumber.Mutation.Tickets.{failure_returns, one_generation-All}

module _ (py : Builtins) (clock : ℕ) (r : Request) where
  message_kept :
      (message : String)
      → str_eq message "" ≡ false
      → required_string false (str message) ≡ ok message
  unfolding required_string
  message_kept message some_text = rw some_text refl

  -- A RuntimeError with a message becomes an outcome, of the request: CANCELLED if the message says
  -- that the runtime is stopped or not ready, and FAILED otherwise, with the confirmations that were
  -- found before, which must be of the generation of the request. (The request has an id, which its
  -- constructor demands.)
  pub runtime_unavailable_outcome-returns :
      (message : String) (confirmations : List Confirmation)
      → required_string false (str r.request_id) ≡ ok r.request_id
      → str_eq message "" ≡ false
      → All (λ (c : Confirmation). c.generation ≡ r.expected_generation) confirmations
      → (o : Outcome) × (runtime_unavailable_outcome py clock r message confirmations ≡ ok o)
        × (o.status ≡ (
            if py.mentions "stopped" message || py.mentions "not ready" message
            then MutationStatus.cancelled
            else MutationStatus.failed))
        × (o.request_id ≡ r.request_id)
        × (o.confirmations ≡ confirmations)
  unfolding runtime_unavailable_outcome mapping freeze_json code_of_phase code_of_status
  runtime_unavailable_outcome-returns message confirmations named some_text of_request =
      let kept = message_kept message some_text in
      let one = one_generation-All r.expected_generation confirmations of_request in
      elim (Bool-cases (py.mentions "stopped" message || py.mentions "not ready" message)) [
        | inl stopped ↦ rw stopped (
            failure_returns py clock r (unavailable_arguments true message confirmations) end named
              kept refl refl refl one)
        | inr other ↦ rw other (
            failure_returns py clock r (unavailable_arguments false message confirmations) end named
              kept refl refl refl one)
      ]

  -- A RuntimeError without a message does not become an outcome: the call raises ValueError.
  pub runtime_unavailable_outcome-raises :
      (confirmations : List Confirmation)
      → runtime_unavailable_outcome py clock r "" confirmations ≡ err value_error
  unfolding runtime_unavailable_outcome mutation_failure required_string code_of_phase
  runtime_unavailable_outcome-raises confirmations =
      elim (Bool-cases (py.mentions "stopped" "" || py.mentions "not ready" "")) [
        | inl stopped ↦ rw (stopped, phase_member cancellation, code_member runtime_stopped) refl
        | inr other ↦ rw (other, phase_member execution, code_member internal_error) refl
      ]
