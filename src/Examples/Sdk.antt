-- ===== src/Examples/Sdk.antt =====
-- A transfer that a wallet builds, and the proofs that a client checks.
use primus_project.Base.{
  ◌↔◌, ℕ, ◌≢◌, ◌++◌, ◌∷◌, [], true, none, if◌then◌else◌, ◌≡◌, ◌≤◌, refl, some, arith, replicate,
  length-replicate,
}
use primus_project.Base.Ord.{same, same_refl, bytes_ord}
use primus_project.Types.Crypto.{Hashes}
use primus_project.Machine.Word.{Bytes}
use primus_project.Base.Outcome.{ok, err}
use primus_project.Machine.Float.{
  of_u64_f32, f32_to_f64, mul_f64, max_f64, ge_f64, of_u64_f64, to_u64_f64,
}
use primus_project.Types.Constants.{pk_bytes, sig_bytes, protocol_min_fee}
use primus_project.Types.Physics.{encode}
use primus_project.Types.Reaction.{signing_digest, validate_structure}
use primus_project.Types.Proof
use primus_project.Types.Proof.{MerkleProof}
use primus_project.Storage.Mpt
use primus_project.Storage.Mpt.{MptNode, MptStore, hash, key_to_nibbles, store_error}
use primus_project.Storage.Mpt.Trie.{load}
use primus_project.Storage.Mpt.Prove.{prove, verify_proof}
use primus_project.Sdk.Proof.{ProofCodec, invalid_proof, verify_balance_proof}
use primus_project.Sdk.Proof.Forged.{verify_balance_proof-forged}
use primus_project.Sdk.Proof.Genuine.{lone_root, client_bytes, tagged, verify_balance_proof-genuine}
use primus_project.Sdk.Transaction.{
  Wallet, TransactionBuilder, BuildError, Transaction, new_builder, recipient, with_amount,
  with_sender_mass, to_reaction, build,
}
use primus_project.Sdk.Transaction.Accepted.{IsComplete, build-validate_structure}
use primus_project.Examples.Data.{hashes, account, alice}

abbrev wallet : Wallet
wallet = record { public_key = replicate pk_bytes 1; sign = λ _. replicate sig_bytes 5 }

abbrev builder : TransactionBuilder
builder =
    with_sender_mass 1000 (with_amount 10 (recipient (replicate pk_bytes 2) (new_builder wallet)))

IsComplete_example : IsComplete builder (replicate pk_bytes 2)
unfolding recipient with_amount with_sender_mass
IsComplete_example = record {
  known = refl;
  positive = omega arith;
  fee = omega arith;
  fits = omega arith;
  covered = omega arith;
}

encode_example : encode (of_u64_f32 10) ≡ 10000000000
unfolding encode of_u64_f32 f32_to_f64 mul_f64 max_f64 ge_f64 of_u64_f64 to_u64_f64
encode_example = refl

fee_example : protocol_min_fee ≤ encode (of_u64_f32 10)
fee_example = rw encode_example (omega arith)

build_poor :
    build hashes (some 0) (with_sender_mass 5 builder) ≡ err (BuildError.insufficient_mass 5 20)
unfolding build with_sender_mass recipient with_amount
build_poor = refl

build-validate_structure_example :
    (tx : Transaction) × (build hashes (some 7) builder ≡ ok tx)
    × (tx.signature ≡ wallet.sign (signing_digest hashes (to_reaction tx)))
    × (validate_structure hashes (to_reaction tx) ≡ ok tt)
unfolding recipient with_amount with_sender_mass
build-validate_structure_example =
    build-validate_structure hashes 7 builder (replicate pk_bytes 2) IsComplete_example
      (length-replicate {A = ℕ} pk_bytes 1) (length-replicate {A = ℕ} pk_bytes 2)
      (λ _. length-replicate {A = ℕ} sig_bytes 5) fee_example

abbrev codec : ProofCodec
codec = record {
  serialize_leaf = λ leaf. some (leaf.key_suffix ++ leaf.value);
  serialize_ext = λ ext. some (ext.prefix ++ ext.child);
  deserialize_atom = λ b. some (account b 100 0);
}

verify_balance_proof-forged_example :
    verify_balance_proof hashes codec
      (record {
        trie_key = alice;
        value = none;
        root = 5 ∷ [];
        siblings = [];
        path = Proof.leaf ∷ [];
      })
      (5 ∷ [])
      100
      103
    ≡ ok none
verify_balance_proof-forged_example =
    verify_balance_proof-forged hashes codec alice (5 ∷ []) [] 100 103 (omega arith)

-- A node is the number of its variant in 4 bytes and its fields.
abbrev serialize : MptNode → Bytes
serialize (Mpt.leaf key_suffix value) = 0 ∷ 0 ∷ 0 ∷ 0 ∷ key_suffix ++ value
serialize (Mpt.extension prefix child) = 1 ∷ 0 ∷ 0 ∷ 0 ∷ prefix ++ child
serialize (Mpt.branch children value) = 2 ∷ 0 ∷ 0 ∷ 0 ∷ []

-- A hash that keeps the whole string.
abbrev own : Hashes
own = record { sha3 = λ b. b; blake3 = λ b. b }

-- A store of one node.
abbrev one_store : MptStore MptNode
one_store = record {
  get_node = λ h node. ok (if same h (hash own serialize node) then some node else none);
  put_node = λ node s. ok (hash own serialize node, node);
  delete_node = λ h s. err store_error;
}

abbrev only : MptNode
only = Mpt.leaf (0 ∷ 1 ∷ []) (9 ∷ [])

found_example : load one_store (lone_root own serialize alice (9 ∷ [])) only ≡ ok only
unfolding load key_to_nibbles hash
found_example = ground (arith, same_refl (hash own serialize only))

verify_balance_proof-genuine_example :
    (proof : MerkleProof) × (prove own serialize one_store
        (some (lone_root own serialize alice (9 ∷ [])))
        alice
        only
      ≡ ok proof)
    × (verify_proof own serialize proof ≡ true)
    × ((verify_balance_proof own codec proof (lone_root own serialize alice (9 ∷ [])) 100 103
          ≡ err invalid_proof)
        ↔ (own.blake3 (client_bytes codec alice (9 ∷ []))
            ≢ own.blake3 (tagged (client_bytes codec alice (9 ∷ [])))))
unfolding key_to_nibbles
verify_balance_proof-genuine_example =
    verify_balance_proof-genuine own serialize codec alice (9 ∷ []) one_store only 100 103
      (λ key_suffix value. refl) found_example (omega arith)

-- The two strings differ, so the client rejects the proof.
apart_test : client_bytes codec alice (9 ∷ []) ≢ tagged (client_bytes codec alice (9 ∷ []))
unfolding key_to_nibbles
apart_test = ground arith
