-- ===== src/Storage/Mpt.antt =====
-- The nodes of primus-storage/src/mpt.rs and their hashes. The crates blake3 and bincode are
-- parameters.
pub mod Trie
pub mod Valid
pub mod Lookup
pub mod Parting
pub mod Split
pub mod LeafSplit
pub mod ExtensionSplit
pub mod Insert
pub mod Roundtrip
pub mod Prove
pub mod Binding
pub mod Collect
pub mod Sled
use package.primus_project.Base.{
  ℕ, zero, suc, ◌+◌, ◌/◌, ◌%◌, Bool, Option, none, some, List, [], ◌∷◌, ◌++◌, ◌==◌, if◌then◌else◌,
  replicate,
}
use package.primus_project.Base.Outcome.{Result}
use package.primus_project.Machine.Word.{Bytes, xor_bits}
use package.primus_project.Types.Crypto.{Hashes}

abbrev pub Hash32 : Type 0
Hash32 = Bytes

pub data MptNode : Type 0 where
  leaf : Bytes → Bytes → MptNode
  extension : Bytes → Hash32 → MptNode
  branch : List (Option Hash32) → Option Bytes → MptNode

abbrev pub zero_hash : Hash32
zero_hash = replicate 32 0

-- `for (a, b) in acc.iter_mut().zip(h) { *a ^= *b; }`
unfoldable pub xor_into : Bytes → Bytes → Bytes
xor_into [] h = []
xor_into (a ∷ acc) [] = a ∷ acc
xor_into (a ∷ acc) (b ∷ h) = xor_bits 8 a b ∷ xor_into acc h

unfoldable pub xor_child : Bytes → Option Hash32 → Bytes
xor_child acc none = acc
xor_child acc (some h) = xor_into acc h

unfoldable pub xor_children : Bytes → List (Option Hash32) → Bytes
xor_children acc [] = acc
xor_children acc (c ∷ cs) = xor_children (xor_child acc c) cs

-- The bytes of "BRANCH".
abbrev pub branch_tag : Bytes
branch_tag = 66 ∷ 82 ∷ 65 ∷ 78 ∷ 67 ∷ 72 ∷ []

module _ (h : Hashes) (serialize : MptNode → Bytes) where
  unfoldable pub xor_value : Bytes → Option Bytes → Bytes
  xor_value acc none = acc
  xor_value acc (some v) = xor_into acc (h.blake3 v)

  unfoldable pub branch_hash : Bytes → Hash32
  branch_hash combined = h.blake3 (branch_tag ++ combined)

  unfoldable pub hash : MptNode → Hash32
  hash (leaf key_suffix value) = h.blake3 (serialize (leaf key_suffix value))
  hash (extension prefix child) = h.blake3 (serialize (extension prefix child))
  hash (branch children value) = branch_hash (xor_value (xor_children zero_hash children) value)

unfoldable pub key_to_nibbles : Bytes → Bytes
key_to_nibbles [] = []
key_to_nibbles (byte ∷ key) = byte / 16 ∷ byte % 16 ∷ key_to_nibbles key

unfoldable pub common_prefix : Bytes → Bytes → ℕ
common_prefix [] b = 0
common_prefix (x ∷ a) [] = 0
common_prefix (x ∷ a) (y ∷ b) = if x == y then suc (common_prefix a b) else 0

pub data TrieError : Type 0 where
  node_not_found : TrieError
  store_error : TrieError
  out_of_fuel : TrieError
  index_out_of_bounds : TrieError

-- The trait `MptStore`, for a store whose contents are an `S`.
pub record MptStore (S : Type 0) : Type 0 where
  pub get_node : Hash32 → S → Result TrieError (Option MptNode)
  pub put_node : MptNode → S → Result TrieError (Hash32 × S)
  pub delete_node : Hash32 → S → Result TrieError S
