-- ===== src/Tests/Failures.antt =====
-- A connection that fails during a mutation.
use wyreplumber.Prelude.{◌||◌, List, [], ok, err, value_error, ◌≡◌, refl, if◌then◌else◌}
use wyreplumber.Mutation.Kinds.{MutationStatus}
use wyreplumber.Mutation.Outcome.{Outcome, Confirmation}
use wyreplumber.Mutation.Failures.{runtime_unavailable_outcome}
use wyreplumber.Mutation.Unavailable.{
  runtime_unavailable_outcome-returns, runtime_unavailable_outcome-raises,
}
use wyreplumber.Tests.Fixtures.{python}
use wyreplumber.Tests.Mutations.{request, request_named, seen}

-- What the first round found before the connection failed.
abbrev partial : List Confirmation
partial = seen.confirmations

runtime_unavailable_outcome-returns_example :
    (o : Outcome) × (runtime_unavailable_outcome python 5 request "runtime stopped" partial ≡ ok o)
    × (o.status ≡ (
        if python.mentions "stopped" "runtime stopped"
          || python.mentions "not ready" "runtime stopped"
        then MutationStatus.cancelled
        else MutationStatus.failed))
    × (o.request_id ≡ "r")
    × (o.confirmations ≡ partial)
runtime_unavailable_outcome-returns_example =
    runtime_unavailable_outcome-returns python 5 request "runtime stopped" partial request_named
      refl (refl, tt)

runtime_unavailable_outcome-raises_example :
    runtime_unavailable_outcome python 5 request "" [] ≡ err value_error
runtime_unavailable_outcome-raises_example = runtime_unavailable_outcome-raises python 5 request []
