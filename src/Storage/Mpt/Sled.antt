-- ===== src/Storage/Mpt/Sled.antt =====
-- primus-storage/src/mpt_store.rs: the nodes of a trie in a tree of sled, under their hashes.
pub mod Lawful
use primus_project.Base.{Option, none, some, List}
use primus_project.Base.Outcome.{Result, ok, err}
use primus_project.Machine.Word.{Bytes}
use primus_project.Types.Crypto.{Hashes}
use primus_project.Storage.Mpt.{Hash32, MptNode, hash, TrieError, store_error, MptStore}

-- The operations of a `sled::Tree` that the store calls.
pub record NodeTree (D E : Type 0) : Type 0 where
  pub get : Bytes → D → Result E (Option Bytes)
  pub insert : Bytes → Bytes → D → Result E (Option Bytes) × D
  pub remove : Bytes → D → Result E (Option Bytes) × D

module _ {D E : Type 0} (tree : NodeTree D E) (h : Hashes) (serialize : MptNode → Bytes)
    (deserialize : Bytes → Option MptNode) where
  -- A value that does not decode is an error.
  unfoldable pub decode_node : Option Bytes → Result TrieError (Option MptNode)
  decode_node none = ok none
  decode_node (some bytes) = elim (deserialize bytes) [
    | none ↦ err store_error
    | some node ↦ ok (some node)
  ]

  unfoldable pub get_node : Hash32 → D → Result TrieError (Option MptNode)
  get_node k d = elim (tree.get k d) [ err _ ↦ err store_error | ok found ↦ decode_node found ]

  unfoldable pub put_node : MptNode → D → Result TrieError (Hash32 × D)
  put_node node d =
      let k = hash h serialize node in
      let (written, d') = tree.insert k (serialize node) d in
      elim written [ err _ ↦ err store_error | ok _ ↦ ok (k, d') ]

  unfoldable pub delete_node : Hash32 → D → Result TrieError D
  delete_node k d =
      let (removed, d') = tree.remove k d in elim removed [ err _ ↦ err store_error | ok _ ↦ ok d' ]

  abbrev pub sled_mpt_store : MptStore D
  sled_mpt_store = record { get_node = get_node; put_node = put_node; delete_node = delete_node }
