-- ===== src/Types/Reaction/Validation.antt =====
-- What `validate_structure` accepts.
use primus_project.Base.{◌≤◌, ◌≡◌, ◌↔◌, arith, true, length}
use primus_project.Base.Outcome.{ok}
use primus_project.Base.Ord.{same_iff, bytes_ord}
use primus_project.Types.Constants.{pk_bytes, sig_bytes, protocol_min_fee}
use primus_project.Types.Crypto.{Hashes}
use primus_project.Types.Payload.{requires_signature_verification}
use primus_project.Types.Physics.{encode}
use primus_project.Types.Reaction.{
  SignedReaction, validate_structure, signing_digest, compute_reaction_hash,
}

-- The five conditions that a structurally sound reaction meets.
pub record IsWellFormed (h : Hashes) (rx : SignedReaction) : Type 0 where
  pub sender_key : length rx.sender.public_key ≡ pk_bytes
  pub receiver_key : length rx.receiver.public_key ≡ pk_bytes
  pub signature_len :
      requires_signature_verification rx.payload ≡ true → length rx.signature ≡ sig_bytes
  pub fee : protocol_min_fee ≤ encode rx.energy
  pub hash : rx.reaction_hash ≡ signing_digest h rx

-- `validate_structure` accepts a reaction exactly when it is well formed: both keys and, unless
-- the payload is exempt, the signature have their lengths, the encoded fee reaches the minimum,
-- and the stored hash is the digest.
pub validate_structure_iff :
    (h : Hashes) (rx : SignedReaction) → (validate_structure h rx ≡ ok tt) ↔ IsWellFormed h rx
unfolding validate_structure compute_reaction_hash
validate_structure_iff h rx = (
  ground (arith, same_iff rx.reaction_hash (signing_digest h rx)),
  ground (arith, same_iff rx.reaction_hash (signing_digest h rx)),
)
