-- ===== src/Storage/Mpt/Prove.antt =====
-- `prove` and `verify_proof` of primus-storage/src/mpt.rs.
use primus_project.Base.{
  ℕ, zero, suc, ◌+◌, ◌%◌, Bool, true, false, not, ◌&&◌, Option, none, some, List, [], ◌∷◌, ◌++◌,
  ltb, ◌==◌, if◌then◌else◌, length, take, drop, get_elem?,
}
use primus_project.Base.Outcome.{Result, ok, err, ◌>>=◌, ok_or}
use primus_project.Base.Ord.{same, bytes_ord}
use primus_project.Machine.Word.{Bytes}
use primus_project.Types.Crypto.{Hashes}
use primus_project.Types.Proof
use primus_project.Types.Proof.{PathStep, MerkleProof}
use primus_project.Storage.Mpt.{
  Hash32, MptNode, leaf, extension, branch, zero_hash, hash, branch_hash, xor_into, xor_value,
  xor_children, key_to_nibbles, TrieError, out_of_fuel, index_out_of_bounds, MptStore,
}
use primus_project.Storage.Mpt.Trie.{load, starts_with, fuel_for}

-- The siblings and the path of a proof, in the order of the pushes.
pub record Trail : Type 0 where
  pub siblings : List Hash32
  pub path : List PathStep

abbrev pub no_trail : Trail
no_trail = record { siblings = []; path = [] }

abbrev pub push_step : PathStep → Trail → Trail
push_step step t = record t { path = t.path ++ step ∷ [] }

abbrev pub push_sibling : Hash32 → Trail → Trail
push_sibling h t = record t { siblings = t.siblings ++ h ∷ [] }

module _ (h : Hashes) (serialize : MptNode → Bytes) where
  -- The children but the one at `skip_nibble`.
  unfoldable pub without : ℕ → List (Option Hash32) → List (Option Hash32)
  without skip_nibble [] = []
  without zero (_ ∷ children) = children
  without (suc n) (c ∷ children) = c ∷ without n children

  unfoldable pub branch_sibling_hash : List (Option Hash32) → Option Bytes → ℕ → Hash32
  branch_sibling_hash children value skip_nibble =
      xor_value h serialize (xor_children zero_hash (without skip_nibble children)) value

  unfoldable pub get_with_proof :
      {S : Type 0}
      → MptStore S
      → ℕ
      → Option Hash32
      → Bytes
      → Trail
      → S
      → Result TrieError (Option Bytes × Trail)
  get_with_proof store fuel none nibbles t s = ok (none, t)
  get_with_proof store zero (some root) nibbles t s = err out_of_fuel
  get_with_proof store (suc fuel) (some root) nibbles t s = load store root s >>= λ node.
      elim node [
        | leaf key_suffix value ↦
            let t' = push_step Proof.leaf t in
            ok (
              if same key_suffix nibbles
              then (some value, t')
              else (none, push_sibling (hash h serialize (leaf key_suffix value)) t'))
        | extension prefix child ↦
            let t' = push_step (Proof.extension (length prefix % 256)) t in
            if starts_with nibbles prefix
            then get_with_proof store fuel (some child) (drop (length prefix) nibbles) t' s
            else ok (none, push_sibling (hash h serialize (extension prefix child)) t')
        | branch children value ↦ elim nibbles [
          | [] ↦ ok (
            value,
            push_sibling (xor_children zero_hash children) (push_step (Proof.branch 16) t),
          )
          | nibble ∷ rest ↦ ok_or (get_elem? children nibble) index_out_of_bounds >>= λ child.
              get_with_proof store fuel child rest
                (push_step (Proof.branch nibble)
                  (push_sibling (branch_sibling_hash children value nibble) t))
                s
        ]
      ]

  unfoldable pub prove :
      {S : Type 0} → MptStore S → Option Hash32 → Bytes → S → Result TrieError MerkleProof
  prove store root key s =
      let nibbles = key_to_nibbles key in
      get_with_proof store (fuel_for store nibbles) root nibbles no_trail s >>= λ found.
      ok (record {
        trie_key = key;
        value = found.0;
        root = elim root [ none ↦ zero_hash | some r ↦ r ];
        siblings = found.1.siblings;
        path = found.1.path;
      })

  -- The nibbles that the steps consume.
  unfoldable pub consumed : PathStep → ℕ
  consumed (Proof.branch nibble) = if ltb nibble 16 then 1 else 0
  consumed (Proof.extension len) = len
  consumed Proof.leaf = 0

  unfoldable pub consumed_by : List PathStep → ℕ
  consumed_by [] = 0
  consumed_by (step ∷ path) = consumed step + consumed_by path

  abbrev pub steps_equal : PathStep → PathStep → Bool
  steps_equal (Proof.branch m) (Proof.branch n) = m == n
  steps_equal (Proof.extension m) (Proof.extension n) = m == n
  steps_equal Proof.leaf Proof.leaf = true
  steps_equal _ _ = false

  -- The nibbles before the first step of the path that equals `step`.
  unfoldable pub prefix_start : PathStep → List PathStep → ℕ
  prefix_start step [] = 0
  prefix_start step (s ∷ path) =
      let rest = prefix_start step path in if steps_equal s step then 0 else consumed s + rest

  abbrev pub is_some {ℓ} : {A : Type ℓ} → Option A → Bool
  is_some none = false
  is_some (some _) = true

  -- The hash of the terminal node, with the siblings that are left, last first; none where the
  -- source returns false.
  unfoldable pub terminal : PathStep → MerkleProof → List Hash32 → Option (Hash32 × List Hash32)
  terminal Proof.leaf p siblings = elim p.value [
    | some v ↦
        let nibbles = key_to_nibbles p.trie_key in
        let suffix_start = consumed_by p.path in
        if ltb (length nibbles) suffix_start
        then none
        else some (hash h serialize (leaf (drop suffix_start nibbles) v), siblings)
    | none ↦ elim siblings [ [] ↦ none | sibling ∷ rest ↦ some (sibling, rest) ]
  ]
  terminal (Proof.extension _) p siblings =
      if is_some p.value
      then none
      else elim siblings [ [] ↦ none | sibling ∷ rest ↦ some (sibling, rest) ]
  terminal (Proof.branch nibble) p siblings = elim siblings [
    | [] ↦ none
    | sibling ∷ rest ↦
        if nibble == 16
        then some (branch_hash h serialize (xor_value h serialize sibling p.value), rest)
        else if is_some p.value
        then none
        else some (branch_hash h serialize sibling, rest)
  ]

  -- The walk up the path, from the step above the terminal node.
  unfoldable pub walk_up : List PathStep → MerkleProof → Hash32 → List Hash32 → Option Hash32
  walk_up [] p current siblings = some current
  walk_up (Proof.branch _ ∷ steps) p current siblings = elim siblings [
    | [] ↦ none
    | sibling ∷ rest ↦ walk_up steps p (branch_hash h serialize (xor_into sibling current)) rest
  ]
  walk_up (Proof.extension len ∷ steps) p current siblings =
      let nibbles = key_to_nibbles p.trie_key in
      let start = prefix_start (Proof.extension len) p.path in
      let prefix = take len (drop start nibbles) in
      let rest = walk_up steps p (hash h serialize (extension prefix current)) siblings in
      if ltb (length nibbles) (start + len) then none else rest
  walk_up (Proof.leaf ∷ steps) p current siblings = none

  abbrev pub reverse {ℓ} : {A : Type ℓ} → List A → List A
  reverse [] = []
  reverse (x ∷ xs) = reverse xs ++ x ∷ []

  unfoldable pub verify_from : List PathStep → MerkleProof → Bool
  verify_from [] p = same p.root zero_hash && not (is_some p.value)
  verify_from (last ∷ steps) p = elim (terminal last p (reverse p.siblings)) [
    | none ↦ false
    | some (current, siblings) ↦ elim (walk_up steps p current siblings) [
      | none ↦ false
      | some top ↦ same top p.root
    ]
  ]

  unfoldable pub verify_proof : MerkleProof → Bool
  verify_proof p = verify_from (reverse p.path) p
