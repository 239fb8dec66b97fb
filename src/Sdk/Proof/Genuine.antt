-- ===== src/Sdk/Proof/Genuine.antt =====
-- A node and a client check the proof of the only account of a trie.
use primus_project.Base.{
  ◌↔◌, ◌∙◌, sym, ℕ, ◌+◌, ◌≤◌, ◌≡◌, ◌≢◌, refl, ap, true, some, [], ◌∷◌, arith, length, take,
}
use primus_project.Base.Outcome.{ok, err}
use primus_project.Base.Ord.{same_iff, same_refl, bytes_ord}
use primus_project.Machine.Word.{Bytes}
use primus_project.Types.Crypto.{Hashes}
use primus_project.Types.Proof
use primus_project.Types.Proof.{PathStep, MerkleProof}
use primus_project.Storage.Mpt
use primus_project.Storage.Mpt.{MptNode, MptStore, hash, key_to_nibbles}
use primus_project.Storage.Mpt.Trie.{load}
use primus_project.Storage.Mpt.Prove as Node
use primus_project.Sdk.Proof.{
  ProofCodec, invalid_proof, unwrap_or_default, max_proof_age_blocks, slice, consumed, suffix_start,
  leaf_node_hash, walk, verify_steps, verify_proof_pure, verify_balance_proof,
}

-- The proof that a node makes where the account is alone.
abbrev pub lone_proof : Bytes → Bytes → Bytes → MerkleProof
lone_proof key value root = record {
  trie_key = key;
  value = some value;
  root = root;
  siblings = [];
  path = Proof.leaf ∷ [];
}

take_all : (b : Bytes) → take (length b) b ≡ b
take_all [] = refl
take_all (x ∷ b) = ap (λ r. x ∷ r) (take_all b)

slice_all : (b : Bytes) → slice 0 (length b) b ≡ some b
unfolding slice
slice_all b = ground (arith, take_all b)

-- The root of a trie with this account alone, and what a client computes for it.
abbrev pub lone_root : Hashes → (MptNode → Bytes) → Bytes → Bytes → Bytes
lone_root h serialize key value = hash h serialize (Mpt.leaf (key_to_nibbles key) value)

-- `bincode` of the client's struct.
abbrev pub client_bytes : ProofCodec → Bytes → Bytes → Bytes
client_bytes codec key value =
    unwrap_or_default
      (codec.serialize_leaf (record { key_suffix = key_to_nibbles key; value = value }))

abbrev pub client_hash : Hashes → ProofCodec → Bytes → Bytes → Bytes
client_hash h codec key value = h.blake3 (client_bytes codec key value)

-- `bincode` writes a variant of an enum after its number in 4 bytes, here that of the first one, and
-- the fields as it writes those of a struct.
abbrev pub tagged : Bytes → Bytes
tagged bytes = 0 ∷ 0 ∷ 0 ∷ 0 ∷ bytes

abbrev pub TagsLeaves : (MptNode → Bytes) → ProofCodec → Type 0
TagsLeaves serialize codec =
    (key_suffix value : Bytes)
    → serialize (Mpt.leaf key_suffix value)
      ≡ tagged (
          unwrap_or_default
            (codec.serialize_leaf (record { key_suffix = key_suffix; value = value })))

module _ (h : Hashes) (serialize : MptNode → Bytes) (codec : ProofCodec) (key value : Bytes) where
  prove-lone :
      {S : Type 0} (store : MptStore S) (s : S)
      → load store (lone_root h serialize key value) s ≡ ok (Mpt.leaf (key_to_nibbles key) value)
      → Node.prove h serialize store (some (lone_root h serialize key value)) key s
        ≡ ok (lone_proof key value (lone_root h serialize key value))
  unfolding Node.prove Node.get_with_proof
  prove-lone store s found = ground (arith, found, same_refl (key_to_nibbles key))

  verify_proof-lone :
      Node.verify_proof h serialize (lone_proof key value (lone_root h serialize key value)) ≡ true
  unfolding Node.verify_proof Node.verify_from Node.terminal Node.walk_up Node.consumed_by
      Node.consumed
  verify_proof-lone = ground (arith, same_refl (lone_root h serialize key value))

  verify_balance_proof-lone :
      (proof_height current_height : ℕ)
      → (client_hash h codec key value) ≢ (lone_root h serialize key value)
      → current_height ≤ proof_height + max_proof_age_blocks
      → verify_balance_proof h codec
          (lone_proof key value (lone_root h serialize key value))
          (lone_root h serialize key value)
          proof_height
          current_height
        ≡ err invalid_proof
  unfolding verify_balance_proof verify_proof_pure verify_steps leaf_node_hash suffix_start consumed
      walk
  verify_balance_proof-lone proof_height current_height apart young = ground (
    arith,
    slice_all (key_to_nibbles key),
    same_refl (lone_root h serialize key value),
    (same_iff (client_hash h codec key value) (lone_root h serialize key value)).0,
  )

  verify_balance_proof-collision :
      (proof_height current_height : ℕ)
      → client_hash h codec key value ≡ lone_root h serialize key value
      → current_height ≤ proof_height + max_proof_age_blocks
      → verify_balance_proof h codec
          (lone_proof key value (lone_root h serialize key value))
          (lone_root h serialize key value)
          proof_height
          current_height
        ≢ err invalid_proof
  unfolding verify_balance_proof verify_proof_pure verify_steps leaf_node_hash suffix_start consumed
      walk
  verify_balance_proof-collision proof_height current_height alike young = ground (
    arith,
    slice_all (key_to_nibbles key),
    same_refl (lone_root h serialize key value),
    (same_iff (client_hash h codec key value) (lone_root h serialize key value)).1,
  )

  lone_root-tagged :
      TagsLeaves serialize codec
      → lone_root h serialize key value ≡ h.blake3 (tagged (client_bytes codec key value))
  unfolding hash
  lone_root-tagged tags = ap h.blake3 (tags (key_to_nibbles key) value)

  -- Where a trie has one account, a node makes a proof of it that the node's own check accepts. A
  -- client rejects it as invalid exactly when BLAKE3 tells the bytes of a leaf from the same bytes
  -- after a tag of 4 zeros: the node hashes a variant of an enum, the client a struct. This is for
  -- bincode's encoding of the two, a store that has the leaf and a proof that is young enough.
  pub verify_balance_proof-genuine :
      {S : Type 0} (store : MptStore S) (s : S) (proof_height current_height : ℕ)
      → TagsLeaves serialize codec
      → load store (lone_root h serialize key value) s ≡ ok (Mpt.leaf (key_to_nibbles key) value)
      → current_height ≤ proof_height + max_proof_age_blocks
      → (proof : MerkleProof) × (Node.prove h serialize store
            (some (lone_root h serialize key value))
            key
            s
          ≡ ok proof)
        × (Node.verify_proof h serialize proof ≡ true)
        × ((verify_balance_proof h codec proof
                (lone_root h serialize key value)
                proof_height
                current_height
              ≡ err invalid_proof)
            ↔ (h.blake3 (client_bytes codec key value)
                ≢ h.blake3 (tagged (client_bytes codec key value))))
  verify_balance_proof-genuine store s proof_height current_height tags found young = (
    lone_proof key value (lone_root h serialize key value),
    prove-lone store s found,
    verify_proof-lone,
    (
      λ rejected alike.
          verify_balance_proof-collision proof_height current_height
            (alike ∙ sym (lone_root-tagged tags)) young rejected,
      λ apart.
          verify_balance_proof-lone proof_height current_height
            (λ alike. apart (alike ∙ lone_root-tagged tags)) young,
    ),
  )
