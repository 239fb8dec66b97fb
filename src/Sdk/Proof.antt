-- ===== src/Sdk/Proof.antt =====
-- primus-sdk/src/proof.rs: how a light client checks a proof. A `usize` has 64 bits and wraps around,
-- as it does in a release build; a slice that is out of range panics.
pub mod Forged
pub mod Genuine
use package.primus_project.Base.{
  ℕ, ◌+◌, ◌-◌, ◌%◌, ◌^◌, Bool, true, false, not, ◌&&◌, Option, none, some, List, [], ◌∷◌, ◌++◌, ltb,
  ◌==◌, if◌then◌else◌, length, take, drop,
}
use package.primus_project.Base.Outcome.{Result, ok, err, ◌>>=◌, ◌>>◌, reject_if, ok_or}
use package.primus_project.Base.Ord.{same, bytes_ord}
use package.primus_project.Machine.Word.{Bytes, saturating_sub}
use package.primus_project.Types.Crypto.{Hashes}
use package.primus_project.Types.Atom.{Atom, zero_hash}
use package.primus_project.Types.Proof
use package.primus_project.Types.Proof.{PathStep, MerkleProof}
use package.primus_project.Storage.Mpt.{key_to_nibbles}

abbrev pub max_proof_age_blocks : ℕ
max_proof_age_blocks = 8

pub record LeafRepr : Type 0 where
  pub key_suffix : Bytes
  pub value : Bytes

pub record ExtRepr : Type 0 where
  pub prefix : Bytes
  pub child : Bytes

-- `bincode` on the two structs and on atoms.
pub record ProofCodec : Type 0 where
  pub serialize_leaf : LeafRepr → Option Bytes
  pub serialize_ext : ExtRepr → Option Bytes
  pub deserialize_atom : Bytes → Option Atom

-- How the check ends: with its answer, or with a panic.
pub data Verdict : Type 0 where
  panics : Verdict
  returned : Bool → Verdict

pub data ProofError : Type 0 where
  proof_too_old : ℕ → ℕ → ProofError
  wrong_root : ProofError
  invalid_proof : ProofError
  undecodable : ProofError
  panicked : ProofError

abbrev pub unwrap_or_default : Option Bytes → Bytes
unwrap_or_default none = []
unwrap_or_default (some b) = b

abbrev pub is_none : Option Bytes → Bool
is_none none = true
is_none (some _) = false

abbrev pub reverse {ℓ} : {A : Type ℓ} → List A → List A
reverse [] = []
reverse (x ∷ xs) = reverse xs ++ x ∷ []

-- `nibbles[start..stop]`
unfoldable pub slice : ℕ → ℕ → Bytes → Option Bytes
slice start stop nibbles =
    if ltb stop start
    then none
    else if ltb (length nibbles) stop
    then none
    else some (take (stop - start) (drop start nibbles))

abbrev pub wrapping_sub : ℕ → ℕ → ℕ
wrapping_sub a b = (a + (2 ^ 64 - b)) % 2 ^ 64

unfoldable pub consumed : PathStep → ℕ
consumed (Proof.branch nibble) = if nibble == 16 then 0 else 1
consumed (Proof.extension len) = len
consumed Proof.leaf = 0

unfoldable pub suffix_start : List PathStep → ℕ
suffix_start [] = 0
suffix_start (step ∷ path) = consumed step + suffix_start path

module _ (h : Hashes) (codec : ProofCodec) where
  -- The hash of the leaf. An early return is an error.
  unfoldable pub leaf_node_hash : PathStep → MerkleProof → Result Verdict Bytes
  leaf_node_hash (Proof.branch _) proof = err (returned false)
  leaf_node_hash (Proof.extension _) proof = err (returned false)
  leaf_node_hash Proof.leaf proof =
      let nibbles = key_to_nibbles proof.trie_key in
      ok_or (slice (suffix_start proof.path) (length nibbles) nibbles) panics >>= λ key_suffix.
      elim proof.value [
        | none ↦ err (returned true)
        | some v ↦ ok (
            h.blake3 (
              unwrap_or_default
                (codec.serialize_leaf (record { key_suffix = key_suffix; value = v }))))
      ]

  -- The walk up from the leaf, with the siblings that are left, last first.
  unfoldable pub walk : List PathStep → Bytes → ℕ → List Bytes → Bytes → Result Verdict Bytes
  walk [] nibbles nibble_pos siblings current_hash = ok current_hash
  walk (Proof.branch nibble ∷ steps) nibbles nibble_pos siblings current_hash = elim siblings [
    | [] ↦ err (returned false)
    | sibling ∷ rest ↦
        walk steps nibbles (wrapping_sub nibble_pos 1) rest
          (h.blake3 (nibble ∷ current_hash ++ sibling))
  ]
  walk (Proof.extension len ∷ steps) nibbles nibble_pos siblings current_hash =
      let start = wrapping_sub nibble_pos len in
      ok_or (slice start ((start + len) % 2 ^ 64) nibbles) panics >>= λ prefix.
      walk steps nibbles start siblings (
        h.blake3 (
          unwrap_or_default
            (codec.serialize_ext (record { prefix = prefix; child = current_hash }))))
  walk (Proof.leaf ∷ steps) nibbles nibble_pos siblings current_hash = err (returned false)

  -- From the last step of the path on.
  unfoldable pub verify_steps : List PathStep → MerkleProof → Verdict
  verify_steps [] proof = returned (same proof.root zero_hash && is_none proof.value)
  verify_steps (last ∷ steps) proof =
      let nibbles = key_to_nibbles proof.trie_key in
      let top = leaf_node_hash last proof >>= λ leaf_hash.
      walk steps nibbles (length nibbles) (reverse proof.siblings) leaf_hash in
      elim top [ err verdict ↦ verdict | ok current_hash ↦ returned (same current_hash proof.root) ]

  unfoldable pub verify_proof_pure : MerkleProof → Verdict
  verify_proof_pure proof = verify_steps (reverse proof.path) proof

  abbrev pub accepted : Verdict → Result ProofError (Unit {0})
  accepted panics = err panicked
  accepted (returned false) = err invalid_proof
  accepted (returned true) = ok tt

  abbrev pub decode_atom : Option Bytes → Result ProofError (Option Atom)
  decode_atom none = ok none
  decode_atom (some atom_bytes) = elim (codec.deserialize_atom atom_bytes) [
    | none ↦ err undecodable
    | some atom ↦ ok (some atom)
  ]

  unfoldable pub verify_balance_proof :
      MerkleProof → Bytes → ℕ → ℕ → Result ProofError (Option Atom)
  verify_balance_proof proof expected_root proof_height current_height = do
    reject_if (ltb max_proof_age_blocks (saturating_sub current_height proof_height))
        (proof_too_old proof_height current_height)
    reject_if (not (same proof.root expected_root)) wrong_root
    accepted (verify_proof_pure proof)
    decode_atom proof.value
