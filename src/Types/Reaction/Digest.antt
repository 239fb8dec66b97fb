-- ===== src/Types/Reaction/Digest.antt =====
-- What the signing digest binds, and what it leaves free.
use primus_project.Base.{
  ℕ, suc, zero, ◌/◌, ◌^◌, ◌<◌, ◌≡◌, refl, ◌↔◌, List, [], ◌∷◌, ◌++◌, arith, length,
}
use primus_project.Machine.Word.{Bytes, le_bytes, length-le_bytes}
use native.Mathlib.Nat.{pow-suc}
use primus_project.Types.Constants.{pk_bytes}
use primus_project.Types.Payload.{Payload, transfer_amount}
use primus_project.Types.Physics.{encode, encode-le-u64_max}
use primus_project.Types.Reaction.{SignedReaction, amount_or_zero, signing_input}

pub append_inj :
    {A : Type 0} (xs xs' ys ys' : List A)
    → length xs ≡ length xs'
    → xs ++ ys ≡ xs' ++ ys'
    → (xs ≡ xs') × (ys ≡ ys')
append_inj [] [] ys ys' e p = (refl, p)
append_inj [] (x ∷ xs') ys ys' e p = absurd (omega arith)
append_inj (x ∷ xs) [] ys ys' e p = absurd (omega arith)
append_inj (x ∷ xs) (x' ∷ xs') ys ys' e p = ground (arith, append_inj xs xs' ys ys')

-- `n` little-endian bytes determine a number below 256 ^ n.
le_bytes_inj : (n a b : ℕ) → a < 256 ^ n → b < 256 ^ n → le_bytes n a ≡ le_bytes n b → a ≡ b
unfolding le_bytes
le_bytes_inj zero a b ha hb e = omega arith
le_bytes_inj (suc n) a b ha hb e = ground (
  arith,
  pow-suc 256 n,
  le_bytes_inj n (a / 256) (b / 256) (omega (arith, pow-suc 256 n)) (omega (arith, pow-suc 256 n)),
)

-- The amount is a u64.
abbrev pub HasU64Amount : Payload → Type 0
HasU64Amount p = amount_or_zero (transfer_amount p) < 256 ^ 8

-- What the digest binds of a reaction.
pub record SameSigned (a b : SignedReaction) : Type 0 where
  pub sender : a.sender.public_key ≡ b.sender.public_key
  pub receiver : a.receiver.public_key ≡ b.receiver.public_key
  pub amount :
      amount_or_zero (transfer_amount a.payload) ≡ amount_or_zero (transfer_amount b.payload)
  pub fee : encode a.energy ≡ encode b.energy
  pub anchor : a.sender.last_reaction_hash ≡ b.sender.last_reaction_hash

-- The parts of the signing input behind the sender's key, the receiver's key and the amount.
abbrev after_amount : SignedReaction → Bytes
after_amount rx = le_bytes 8 (encode rx.energy) ++ rx.sender.last_reaction_hash

abbrev amount_of : SignedReaction → ℕ
amount_of rx = amount_or_zero (transfer_amount rx.payload)

abbrev after_receiver : SignedReaction → Bytes
after_receiver rx = le_bytes 8 (amount_of rx) ++ after_amount rx

abbrev after_sender : SignedReaction → Bytes
after_sender rx = rx.receiver.public_key ++ after_receiver rx

-- Two encodings of eight bytes, each with a rest.
word_inj :
    (a b : ℕ) (xs ys : Bytes)
    → a < 256 ^ 8
    → b < 256 ^ 8
    → le_bytes 8 a ++ xs ≡ le_bytes 8 b ++ ys
    → (a ≡ b) × (xs ≡ ys)
word_inj a b xs ys ha hb e =
    let p =
      append_inj (le_bytes 8 a) (le_bytes 8 b) xs ys
        (omega (arith, length-le_bytes 8 a, length-le_bytes 8 b)) e in
    (le_bytes_inj 8 a b ha hb p.0, p.1)

SameSigned-of_input :
    (a b : SignedReaction)
    → length a.sender.public_key ≡ length b.sender.public_key
    → length a.receiver.public_key ≡ length b.receiver.public_key
    → HasU64Amount a.payload
    → HasU64Amount b.payload
    → signing_input a ≡ signing_input b
    → SameSigned a b
unfolding signing_input
SameSigned-of_input a b s r ma mb e =
    let p =
      append_inj a.sender.public_key b.sender.public_key (after_sender a) (after_sender b) s e in
    let q =
      append_inj a.receiver.public_key b.receiver.public_key (after_receiver a) (after_receiver b) r
        p.1 in
    let amounts =
      word_inj (amount_of a) (amount_of b) (after_amount a) (after_amount b) ma mb q.1 in
    let fees =
      word_inj (encode a.energy) (encode b.energy) a.sender.last_reaction_hash
        b.sender.last_reaction_hash (omega (arith, encode-le-u64_max a.energy))
        (omega (arith, encode-le-u64_max b.energy)) amounts.1 in
    record { sender = p.0; receiver = q.0; amount = amounts.0; fee = fees.0; anchor = fees.1 }

input_of_SameSigned : (a b : SignedReaction) → SameSigned a b → signing_input a ≡ signing_input b
unfolding signing_input
input_of_SameSigned a b e = cc (e.sender, e.receiver, e.amount, e.fee, e.anchor)

-- Two reactions whose keys have the protocol's length have the same bytes to sign exactly when
-- they agree on both keys, the amount (0 for a payload without one), the encoded fee and the
-- sender's last reaction hash. The amounts are u64 values.
pub signing_input_iff :
    (a b : SignedReaction)
    → length a.sender.public_key ≡ pk_bytes
    → length b.sender.public_key ≡ pk_bytes
    → length a.receiver.public_key ≡ pk_bytes
    → length b.receiver.public_key ≡ pk_bytes
    → HasU64Amount a.payload
    → HasU64Amount b.payload
    → (signing_input a ≡ signing_input b) ↔ SameSigned a b
signing_input_iff a b sa sb ra rb ma mb =
    (SameSigned-of_input a b (omega arith) (omega arith) ma mb, input_of_SameSigned a b)
