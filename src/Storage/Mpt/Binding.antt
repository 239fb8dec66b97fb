-- ===== src/Storage/Mpt/Binding.antt =====
-- What a state root and a proof do not bind.
use primus_project.Base.{
  ℕ, suc, length, get_elem?, ◌≡◌, ◌∙◌, refl, ap, true, Option, none, some, List, [], ◌∷◌, arith,
}
use primus_project.Base.Ord.{same_refl, bytes_ord}
use primus_project.Machine.Word.{Bytes, xor_bits_swap}
use primus_project.Types.Crypto.{Hashes}
use primus_project.Types.Proof
use primus_project.Types.Proof.{PathStep, MerkleProof}
use primus_project.Storage.Mpt.{
  Hash32, MptNode, branch, zero_hash, xor_into, xor_child, xor_children, xor_value, branch_hash,
  hash, leaf, key_to_nibbles, MptStore,
}
use primus_project.Base.Outcome.{ok}
use primus_project.Storage.Mpt.Trie.{load, get, get_recursive, fuel_for}
use primus_project.Storage.Mpt.Prove.{terminal, walk_up, verify_from, verify_proof}
use mathlib.Core.List.{Permᴰ}

xor_into_swap : (acc a b : Bytes) → xor_into (xor_into acc a) b ≡ xor_into (xor_into acc b) a
unfolding xor_into
xor_into_swap [] a b = refl
xor_into_swap (x ∷ acc) [] [] = refl
xor_into_swap (x ∷ acc) [] (z ∷ b) = refl
xor_into_swap (x ∷ acc) (y ∷ a) [] = refl
xor_into_swap (x ∷ acc) (y ∷ a) (z ∷ b) = cc (xor_bits_swap 8 x y z, xor_into_swap acc a b)

xor_child_swap :
    (acc : Bytes) (a b : Option Hash32)
    → xor_child (xor_child acc a) b ≡ xor_child (xor_child acc b) a
unfolding xor_child
xor_child_swap acc none b = refl
xor_child_swap acc (some a) none = refl
xor_child_swap acc (some a) (some b) = xor_into_swap acc a b

xor_children-Perm :
    {xs ys : List (Option Hash32)}
    → Permᴰ xs ys
    → (acc : Bytes) → xor_children acc xs ≡ xor_children acc ys
unfolding xor_children
xor_children-Perm Permᴰ.nil acc = refl
xor_children-Perm (Permᴰ.cons {a} {b} {l₁ = xs} e p) acc =
    ap (λ c. xor_children (xor_child acc c) xs) e ∙ xor_children-Perm p (xor_child acc b)
xor_children-Perm (Permᴰ.swap {a} {b} {a' = c} {l = l} e f) acc =
    ap (λ r. xor_children r l)
      (xor_child_swap acc a b
        ∙ (ap (λ x. xor_child (xor_child acc x) a) f ∙ ap (λ x. xor_child (xor_child acc c) x) e))
xor_children-Perm (Permᴰ.trans p q) acc = xor_children-Perm p acc ∙ xor_children-Perm q acc

-- The hash of a branch is the same for any permutation of its children.
hash-Perm :
    (h : Hashes) (serialize : MptNode → Bytes) (value : Option Bytes) {xs ys : List (Option Hash32)}
    → Permᴰ xs ys
    → hash h serialize (branch xs value) ≡ hash h serialize (branch ys value)
unfolding hash
hash-Perm h serialize value p =
    ap (λ c. branch_hash h serialize (xor_value h serialize c value))
      (xor_children-Perm p zero_hash)

module _ {S : Type 0} (store : MptStore S) (s : S) where
  get_recursive-leaf :
      (fuel : ℕ) (a : Hash32) (rest v : Bytes)
      → load store a s ≡ ok (leaf rest v)
      → get_recursive store (suc fuel) (some a) rest s ≡ ok (some v)
  unfolding get_recursive
  get_recursive-leaf fuel a rest v found = ground (arith, found, same_refl rest)

  get_recursive-branch :
      (fuel : ℕ) (root a : Hash32) (children : List (Option Hash32)) (value : Option Bytes)
      (nibble : ℕ) (rest : Bytes)
      → load store root s ≡ ok (branch children value)
      → get_elem? children nibble ≡ some (some a)
      → get_recursive store (suc fuel) (some root) (nibble ∷ rest) s
        ≡ get_recursive store fuel (some a) rest s
  unfolding get_recursive
  get_recursive-branch fuel root a children value nibble rest at_root at =
      rw (at_root, get_recursive) (rw at refl)

  -- A value in a leaf just below the root.
  get-leaf :
      (root : Hash32) (children : List (Option Hash32)) (value : Option Bytes) (key : Bytes)
      (nibble : ℕ) (rest : Bytes) (a : Hash32) (v : Bytes)
      → key_to_nibbles key ≡ nibble ∷ rest
      → load store root s ≡ ok (branch children value)
      → get_elem? children nibble ≡ some (some a)
      → load store a s ≡ ok (leaf rest v)
      → get store (some root) key s ≡ ok (some v)
  unfolding get
  get-leaf root children value key nibble rest a v path at_root at found =
      ap (λ ns. get_recursive store (fuel_for store ns) (some root) ns s) path
      ∙ get_recursive-branch (suc (length rest)) root a children value nibble rest at_root at
      ∙ get_recursive-leaf (length rest) a rest v found

-- The hash of a branch forgets which nibble each of its children stands at. Two stores whose roots
-- are branches with the same children in another order have one root hash, and a key whose child is
-- one leaf here and another leaf there has two values under it. This is for stores that have these
-- nodes.
pub get-Perm :
    {S : Type 0} (h : Hashes) (serialize : MptNode → Bytes) (store : MptStore S) (s s' : S)
    {xs ys : List (Option Hash32)} (value : Option Bytes) (key : Bytes) (nibble : ℕ) (rest : Bytes)
    (a b : Hash32) (v w : Bytes)
    → Permᴰ xs ys
    → key_to_nibbles key ≡ nibble ∷ rest
    → load store (hash h serialize (branch xs value)) s ≡ ok (branch xs value)
    → load store (hash h serialize (branch ys value)) s' ≡ ok (branch ys value)
    → get_elem? xs nibble ≡ some (some a)
    → get_elem? ys nibble ≡ some (some b)
    → load store a s ≡ ok (leaf rest v)
    → load store b s' ≡ ok (leaf rest w)
    → (hash h serialize (branch xs value) ≡ hash h serialize (branch ys value))
      × (get store (some (hash h serialize (branch xs value))) key s ≡ ok (some v))
      × (get store (some (hash h serialize (branch ys value))) key s' ≡ ok (some w))
get-Perm h serialize store s s' value key nibble rest a b v w p path root root' at at' found
      found' =
    (
      hash-Perm h serialize value p,
      get-leaf store s _ _ value key nibble rest a v path root at found,
      get-leaf store s' _ _ value key nibble rest b w path root' at' found',
    )

-- A proof of exclusion that `verify_proof` accepts, for any key and any root, from neither the trie
-- nor any hash: a leaf for the terminal node, and the root for its hash.
abbrev pub forged_exclusion : Bytes → Hash32 → MerkleProof
forged_exclusion key root = record {
  trie_key = key;
  value = none;
  root = root;
  siblings = root ∷ [];
  path = Proof.leaf ∷ [];
}

pub verify_proof-forged_exclusion :
    (h : Hashes) (serialize : MptNode → Bytes) (key : Bytes) (root : Hash32)
    → verify_proof h serialize (forged_exclusion key root) ≡ true
unfolding verify_proof verify_from terminal walk_up
verify_proof-forged_exclusion h serialize key root = ground (arith, same_refl root)
