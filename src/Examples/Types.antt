-- ===== src/Examples/Types.antt =====
-- Reactions with keys of the protocol's length.
use primus_project.Base.{ℕ, ◌≡◌, ◌↔◌, [], ◌∷◌, arith, replicate, length-replicate}
use primus_project.Base.Outcome.{ok}
use primus_project.Machine.Word.{Bytes}
use primus_project.Types.Constants.{pk_bytes}
use primus_project.Types.Payload.{Payload, transfer, transfer_amount}
use primus_project.Types.Reaction.{SignedReaction, signing_input, validate_structure}
use primus_project.Types.Reaction.Validation.{IsWellFormed, validate_structure_iff}
use primus_project.Types.Reaction.Digest.{SameSigned, signing_input_iff}
use primus_project.Examples.Data.{hashes, account}

abbrev between : Bytes → Bytes → Payload → SignedReaction
between a b payload = record {
  sender = account a 1000 3;
  receiver = account b 50 0;
  reaction_hash = 0 ∷ [];
  energy = 0x3f800000;
  timestamp = 0;
  signature = 5 ∷ [];
  payload = payload;
}

abbrev long_key : ℕ → Bytes
long_key b = replicate pk_bytes b

abbrev gift : ℕ → SignedReaction
gift amount = between (long_key 1) (long_key 2) (transfer amount)

validate_structure_iff_example :
    (validate_structure hashes (gift 10) ≡ ok tt) ↔ IsWellFormed hashes (gift 10)
validate_structure_iff_example = validate_structure_iff hashes (gift 10)

signing_input_iff_example :
    (signing_input (gift 10) ≡ signing_input (gift 11)) ↔ SameSigned (gift 10) (gift 11)
unfolding transfer_amount
signing_input_iff_example =
    signing_input_iff (gift 10) (gift 11) (length-replicate {A = ℕ} pk_bytes 1)
      (length-replicate {A = ℕ} pk_bytes 1) (length-replicate {A = ℕ} pk_bytes 2)
      (length-replicate {A = ℕ} pk_bytes 2) (omega arith) (omega arith)
