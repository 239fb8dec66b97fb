-- ===== src/Types/Proof.antt =====
-- primus-types/src/proof.rs.
use primus_project.Base.{ℕ, Option, List}
use primus_project.Machine.Word.{Bytes}

-- `branch nibble`, `extension len`.
pub data PathStep : Type 0 where
  branch : ℕ → PathStep
  extension : ℕ → PathStep
  leaf : PathStep

pub record MerkleProof : Type 0 where
  pub trie_key : Bytes
  pub value : Option Bytes
  pub root : Bytes
  pub siblings : List Bytes
  pub path : List PathStep
