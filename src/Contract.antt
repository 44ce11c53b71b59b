-- ===== src/Contract.antt =====
-- src/wyreplumber/runtime/contract.py: the version of the contract that a consumer can require.
use wyreplumber.Prelude.{
  ℕ, ℤ, pos, String, Option, some, Result, ok, err, value_error, contract_error, ◌>>=◌, ◌≡◌, ◌↔◌,
  ◌≤◌, ◌<◌, leb, ◌&&◌, if◌then◌else◌, arith,
}
use wyreplumber.Value.{Value, null, int}
use wyreplumber.Value.Checks.{as_int}

-- OrchestrationContractInfo
pub record OrchestrationContractInfo : Type 0 where
  pub version : ℕ
  pub runtime_value_schema_version : ℕ
  pub wireplumber_api_family : String
  pub stability : String

-- ORCHESTRATION_CONTRACT
abbrev pub contract : OrchestrationContractInfo
contract = record {
  version = 1;
  runtime_value_schema_version = 1;
  wireplumber_api_family = "0.5";
  stability = "development";
}

-- An integer of at least `least`; anything else is a ValueError.
abbrev at_least : (least : ℕ) → Option ℤ → Result ℕ
at_least least (some (pos n)) = if leb least n then ok n else err value_error
at_least least _ = err value_error

-- `maximum`, which is `minimum` if it is not given
abbrev upper : (minimum : ℕ) → (maximum : Value) → Result ℕ
upper minimum null = ok minimum
upper minimum v = at_least minimum (as_int v)

-- The test of the installed version against the range.
abbrev supported : (low high : ℕ) → Result OrchestrationContractInfo
supported low high =
    if leb low contract.version && leb contract.version high
    then ok contract
    else err (contract_error contract.version low high)

-- `require_orchestration_contract`
unfoldable pub require_orchestration_contract :
    (minimum maximum : Value) → Result OrchestrationContractInfo
require_orchestration_contract minimum maximum = do
  low ← at_least 1 (as_int minimum)
  high ← upper low maximum
  supported low high

-- A consumer that requires the versions from `low` to `high` gets the contract exactly when `low` is
-- positive and the installed version lies in that range; without an upper bound, exactly when the
-- installed version is the one that it requires.
pub require_orchestration_contract_iff :
    (low high : ℕ)
    → ((require_orchestration_contract (int (pos low)) (int (pos high)) ≡ ok contract)
        ↔ ((0 < low) × ((low ≤ contract.version) × (contract.version ≤ high))))
      × ((require_orchestration_contract (int (pos low)) null ≡ ok contract)
          ↔ (low ≡ contract.version))
unfolding require_orchestration_contract
require_orchestration_contract_iff low high =
    ((λ h. ground arith, λ h. ground arith), (λ h. ground arith, λ h. ground arith))
