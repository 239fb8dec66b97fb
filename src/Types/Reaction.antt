-- ===== src/Types/Reaction.antt =====
-- primus-types/src/reaction.rs and error.rs: signed reactions, their digest and their validation.
pub mod Validation
pub mod Digest
use package.primus_project.Base.{ℕ, Bool, not, ◌&&◌, Option, none, some, ◌++◌, ltb, ◌==◌, length}
use package.primus_project.Base.Outcome.{Result, ok, err, ◌>>◌, reject_if}
use package.primus_project.Base.Ord.{same, bytes_ord}
use package.primus_project.Machine.Word.{Bytes, le_bytes}
use package.primus_project.Machine.Float.{F32}
use package.primus_project.Types.Constants.{
  pk_bytes, sig_bytes, protocol_min_fee, mining_reward_tag,
}
use package.primus_project.Types.Crypto.{Hashes}
use package.primus_project.Types.Atom.{Atom}
use package.primus_project.Types.Payload.{Payload, transfer_amount, requires_signature_verification}
use package.primus_project.Types.Physics.{encode}

pub record SignedReaction : Type 0 where
  pub sender : Atom
  pub receiver : Atom
  pub reaction_hash : Bytes
  pub energy : F32
  pub timestamp : ℕ
  pub signature : Bytes
  pub payload : Payload

-- The errors carry what was expected and what was found.
pub data PrimusError : Type 0 where
  invalid_public_key_length : ℕ → ℕ → PrimusError
  invalid_signature_length : ℕ → ℕ → PrimusError
  fee_below_minimum : ℕ → ℕ → PrimusError
  reaction_hash_mismatch : Bytes → Bytes → PrimusError
  deserialization_failed : PrimusError
  unknown_payload : PrimusError

abbrev pub amount_or_zero : Option ℕ → ℕ
amount_or_zero none = 0
amount_or_zero (some a) = a

-- The bytes that are hashed into the digest.
unfoldable pub signing_input : SignedReaction → Bytes
signing_input rx =
    rx.sender.public_key
    ++ (rx.receiver.public_key
        ++ (le_bytes 8 (amount_or_zero (transfer_amount rx.payload))
            ++ (le_bytes 8 (encode rx.energy) ++ rx.sender.last_reaction_hash)))

module _ (h : Hashes) where
  unfoldable pub signing_digest : SignedReaction → Bytes
  signing_digest rx = h.sha3 (signing_input rx)

  unfoldable pub compute_reaction_hash : SignedReaction → Bytes
  compute_reaction_hash rx = signing_digest rx

  unfoldable pub mining_reward_hash : ℕ → Bytes → Bytes
  mining_reward_hash crystal_index architect_pk =
      h.sha3 (mining_reward_tag ++ (le_bytes 8 crystal_index ++ architect_pk))

  unfoldable pub validate_structure : SignedReaction → Result PrimusError (Unit {0})
  validate_structure rx = do
    let sender_len = length rx.sender.public_key
    reject_if (not (sender_len == pk_bytes)) (invalid_public_key_length pk_bytes sender_len)
    let receiver_len = length rx.receiver.public_key
    reject_if (not (receiver_len == pk_bytes)) (invalid_public_key_length pk_bytes receiver_len)
    let sig_len = length rx.signature
    reject_if (requires_signature_verification rx.payload && not (sig_len == sig_bytes))
        (invalid_signature_length sig_bytes sig_len)
    let fee = encode rx.energy
    reject_if (ltb fee protocol_min_fee) (fee_below_minimum protocol_min_fee fee)
    let expected = compute_reaction_hash rx
    reject_if (not (same rx.reaction_hash expected))
        (reaction_hash_mismatch expected rx.reaction_hash)
    ok tt
