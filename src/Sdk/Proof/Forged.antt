-- ===== src/Sdk/Proof/Forged.antt =====
-- What a client takes for a proof of exclusion.
use primus_project.Base.{ℕ, ◌+◌, ◌≤◌, ◌≡◌, none, List, [], ◌∷◌, arith}
use primus_project.Base.Outcome.{ok}
use primus_project.Base.Ord.{same_refl, bytes_ord}
use primus_project.Machine.Word.{Bytes}
use primus_project.Types.Crypto.{Hashes}
use primus_project.Types.Proof
use primus_project.Types.Proof.{PathStep, MerkleProof}
use primus_project.Sdk.Proof.{
  ProofCodec, max_proof_age_blocks, slice, consumed, suffix_start, leaf_node_hash, verify_steps,
  verify_proof_pure, verify_balance_proof,
}

-- A client that is shown a leaf without a value accepts that the account of any key does not exist,
-- under whatever root it trusts, with any siblings: no hash is computed. This is for a proof that is
-- young enough.
pub verify_balance_proof-forged :
    (h : Hashes) (codec : ProofCodec) (key root : Bytes) (siblings : List Bytes)
    (proof_height current_height : ℕ)
    → current_height ≤ proof_height + max_proof_age_blocks
    → verify_balance_proof h codec
        (record {
          trie_key = key;
          value = none;
          root = root;
          siblings = siblings;
          path = Proof.leaf ∷ [];
        })
        root
        proof_height
        current_height
      ≡ ok none
unfolding verify_balance_proof verify_proof_pure verify_steps leaf_node_hash suffix_start consumed
    slice
verify_balance_proof-forged h codec key root siblings proof_height current_height young =
    ground (arith, same_refl root)
