-- ===== src/Tests/Contracts.antt =====
-- Ranges of contract versions.
use wyreplumber.Prelude.{pos, ok, err, contract_error, ◌≡◌, ◌↔◌, ◌≤◌, ◌<◌, refl}
use wyreplumber.Value.{int, null}
use wyreplumber.Contract.{
  contract, require_orchestration_contract, require_orchestration_contract_iff,
}

too_new : require_orchestration_contract (int (pos 2)) (int (pos 3)) ≡ err (contract_error 1 2 3)
unfolding require_orchestration_contract
too_new = refl

require_orchestration_contract_iff_example :
    ((require_orchestration_contract (int (pos 1)) (int (pos 2)) ≡ ok contract)
      ↔ ((0 < 1) × ((1 ≤ contract.version) × (contract.version ≤ 2))))
    × ((require_orchestration_contract (int (pos 1)) null ≡ ok contract) ↔ (1 ≡ contract.version))
require_orchestration_contract_iff_example = require_orchestration_contract_iff 1 2
