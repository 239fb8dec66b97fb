-- ===== src/Sdk/Transaction/Accepted.antt =====
-- Nodes accept what the builder builds.
use primus_project.Base.{ℕ, ◌+◌, ◌≤◌, ◌≡◌, refl, sym, ap, some, arith, length}
use primus_project.Base.Outcome.{ok}
use primus_project.Machine.Word.{Bytes, u64_max}
use primus_project.Machine.Float.{of_u64_f32}
use primus_project.Types.Crypto.{Hashes}
use primus_project.Types.Constants.{pk_bytes, sig_bytes, protocol_min_fee}
use primus_project.Types.Physics.{encode}
use primus_project.Types.Reaction.{
  signing_input, signing_digest, compute_reaction_hash, validate_structure,
}
use primus_project.Types.Reaction.Validation.{validate_structure_iff}
use primus_project.Sdk.Transaction.{
  TransactionBuilder, Transaction, sender_snapshot, new_receiver, make_atom, map_payload,
  to_reaction, types_rx, signed, build,
}

-- What a builder has to have.
pub record IsComplete (b : TransactionBuilder) (recipient_pk : Bytes) : Type 0 where
  pub known : b.recipient_pk ≡ some recipient_pk
  pub positive : 1 ≤ b.amount
  pub fee : 10 ≤ b.fee
  pub fits : b.amount + b.fee ≤ u64_max
  pub covered : b.amount + b.fee ≤ b.sender_mass

module _ (h : Hashes) (now : ℕ) (b : TransactionBuilder) (recipient_pk : Bytes) where
  same_digest :
      signing_digest h (to_reaction (signed h now b recipient_pk))
      ≡ signing_digest h (types_rx b recipient_pk)
  unfolding signing_digest signing_input to_reaction signed types_rx make_atom map_payload
      sender_snapshot new_receiver
  same_digest = refl

  build-IsComplete :
      IsComplete b recipient_pk → build h (some now) b ≡ ok (signed h now b recipient_pk)
  unfolding build
  build-IsComplete c = rw c.known (ground (arith, c.positive, c.fee, c.fits, c.covered))

  -- A builder with a recipient, a positive amount, the least fee and the mass for both builds a
  -- transaction whose signature is the wallet's on the digest that a node computes of it, and a node
  -- finds its structure valid. This is for a clock that can be read, keys and signatures of their lengths and a fee whose
  -- fixed-point code is not below the node's bound.
  pub build-validate_structure :
      IsComplete b recipient_pk
      → length b.wallet.public_key ≡ pk_bytes
      → length recipient_pk ≡ pk_bytes
      → ((digest : Bytes) → length (b.wallet.sign digest) ≡ sig_bytes)
      → protocol_min_fee ≤ encode (of_u64_f32 b.fee)
      → (tx : Transaction) × (build h (some now) b ≡ ok tx)
        × (tx.signature ≡ b.wallet.sign (signing_digest h (to_reaction tx)))
        × (validate_structure h (to_reaction tx) ≡ ok tt)
  unfolding signed to_reaction make_atom sender_snapshot new_receiver compute_reaction_hash
  build-validate_structure complete sender_len recipient_len sig_len fee_ok = (
    signed h now b recipient_pk,
    build-IsComplete complete,
    ap b.wallet.sign (sym same_digest),
    (validate_structure_iff h (to_reaction (signed h now b recipient_pk))).1 (record {
      sender_key = sender_len;
      receiver_key = recipient_len;
      signature_len = λ _. sig_len (signing_digest h (types_rx b recipient_pk));
      fee = fee_ok;
      hash = sym same_digest;
    }),
  )
