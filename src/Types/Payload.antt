-- ===== src/Types/Payload.antt =====
-- primus-types/src/payload.rs.
use primus_project.Base.{ℕ, Bool, true, false, Option, none, some}
use primus_project.Machine.Word.{Bytes}

-- `contract code`, `contract_call address data`.
pub data Payload : Type 0 where
  generic : Payload
  transfer : ℕ → Payload
  mining_reward : ℕ → Payload
  contract : Bytes → Payload
  contract_call : Bytes → Bytes → Payload
  unknown : Payload

unfoldable pub transfer_amount : Payload → Option ℕ
transfer_amount generic = none
transfer_amount (transfer amount) = some amount
transfer_amount (mining_reward amount) = some amount
transfer_amount (contract _) = none
transfer_amount (contract_call _ _) = none
transfer_amount unknown = none

unfoldable pub requires_signature_verification : Payload → Bool
requires_signature_verification generic = true
requires_signature_verification (transfer _) = true
requires_signature_verification (mining_reward _) = false
requires_signature_verification (contract _) = true
requires_signature_verification (contract_call _ _) = true
requires_signature_verification unknown = false
