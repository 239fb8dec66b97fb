-- ===== src/Storage/Mpt/Trie.antt =====
-- `MerklePatriciaTrie` of primus-storage/src/mpt.rs. The recursions follow hashes through the store,
-- so they run on fuel. One unit for each nibble that is left and one more is enough where every
-- extension has a prefix.
use primus_project.Base.{
  ℕ, zero, suc, Bool, ◌&&◌, Option, none, some, List, [], ◌∷◌, ◌++◌, ltb, ◌==◌, if◌then◌else◌,
  length, take, drop, set, get_elem?, replicate,
}
use primus_project.Base.Outcome.{Result, ok, err, ◌>>=◌, ok_or}
use primus_project.Base.Ord.{same, bytes_ord}
use primus_project.Machine.Word.{Bytes}
use primus_project.Storage.Mpt.{
  Hash32, MptNode, leaf, extension, branch, key_to_nibbles, common_prefix, TrieError,
  node_not_found, out_of_fuel, index_out_of_bounds, MptStore,
}

unfoldable pub starts_with : Bytes → Bytes → Bool
starts_with nibbles prefix = same (take (length prefix) nibbles) prefix

abbrev pub empty_children : List (Option Hash32)
empty_children = replicate 16 none

-- `children[nibble] = Some(child)`, whose index is checked.
unfoldable pub assign :
    List (Option Hash32) → ℕ → Option Hash32 → Result TrieError (List (Option Hash32))
assign children nibble child =
    if ltb nibble (length children) then ok (set children nibble child) else err index_out_of_bounds

module _ {S : Type 0} (store : MptStore S) where
  -- `get_node(..)?.ok_or_else(..)?`
  unfoldable pub load : Hash32 → S → Result TrieError MptNode
  load h s = store.get_node h s >>= λ found. ok_or found node_not_found

  unfoldable pub get_recursive : ℕ → Option Hash32 → Bytes → S → Result TrieError (Option Bytes)
  get_recursive fuel none nibbles s = ok none
  get_recursive zero (some h) nibbles s = err out_of_fuel
  get_recursive (suc fuel) (some h) nibbles s = load h s >>= λ node. elim node [
    | leaf key_suffix value ↦ ok (if same key_suffix nibbles then some value else none)
    | extension prefix child ↦
        if starts_with nibbles prefix
        then get_recursive fuel (some child) (drop (length prefix) nibbles) s
        else ok none
    | branch children value ↦ elim nibbles [
      | [] ↦ ok value
      | nibble ∷ rest ↦ ok_or (get_elem? children nibble) index_out_of_bounds >>= λ child.
          get_recursive fuel child rest s
    ]
  ]

  abbrev pub fuel_for : Bytes → ℕ
  fuel_for nibbles = suc (length nibbles)

  unfoldable pub get : Option Hash32 → Bytes → S → Result TrieError (Option Bytes)
  get root key s =
      let nibbles = key_to_nibbles key in get_recursive (fuel_for nibbles) root nibbles s

  -- A leaf for what `key` has after its first `at` nibbles and the next, in `children`, or the value
  -- of the branch where the key ends.
  unfoldable pub place_leaf :
      Bytes
      → ℕ
      → Bytes
      → List (Option Hash32) × Option Bytes
      → S
      → Result TrieError ((List (Option Hash32) × Option Bytes) × S)
  place_leaf key at value (children, branch_value) s = elim (drop at key) [
    | [] ↦ ok ((children, some value), s)
    | nibble ∷ suffix ↦ do
      put ← store.put_node (leaf suffix value) s
      placed ← assign children nibble (some put.0)
      ok ((placed, branch_value), put.1)
  ]

  -- The new branch, under an extension for the nibbles before it.
  unfoldable pub put_branch :
      Bytes → ℕ → List (Option Hash32) × Option Bytes → S → Result TrieError (Hash32 × S)
  put_branch nibbles match_len (children, branch_value) s = do
    put ← store.put_node (branch children branch_value) s
    if ltb 0 match_len
        then store.put_node (extension (take match_len nibbles) put.0) put.1
        else ok put

  -- What an extension leaves of its prefix after the first `match_len` nibbles and the next.
  unfoldable pub shorten : Bytes → ℕ → Hash32 → S → Result TrieError (Hash32 × S)
  shorten prefix match_len child s =
      if suc match_len == length prefix
      then ok (child, s)
      else store.put_node (extension (drop (suc match_len) prefix) child) s

  unfoldable pub insert_at_leaf : Bytes → Bytes → Bytes → Bytes → S → Result TrieError (Hash32 × S)
  insert_at_leaf key_suffix old_value nibbles value s =
      let match_len = common_prefix key_suffix nibbles in
      if match_len == length key_suffix && match_len == length nibbles
      then store.put_node (leaf key_suffix value) s
      else place_leaf key_suffix match_len old_value (empty_children, none) s >>= λ old.
          place_leaf nibbles match_len value old.0 old.1 >>= λ new.
          put_branch nibbles match_len new.0 new.1

  unfoldable pub split_extension :
      Bytes → Hash32 → Bytes → ℕ → Bytes → S → Result TrieError (Hash32 × S)
  split_extension prefix child nibbles match_len value s = do
    nibble ← ok_or (get_elem? prefix match_len) index_out_of_bounds
    old ← shorten prefix match_len child s
    placed ← assign empty_children nibble (some old.0)
    new ← place_leaf nibbles match_len value (placed, none) old.1
    put_branch nibbles match_len new.0 new.1

  unfoldable pub insert_recursive :
      ℕ → Option Hash32 → Bytes → Bytes → S → Result TrieError (Hash32 × S)
  insert_recursive fuel none nibbles value s = store.put_node (leaf nibbles value) s
  insert_recursive zero (some h) nibbles value s = err out_of_fuel
  insert_recursive (suc fuel) (some h) nibbles value s = load h s >>= λ node. elim node [
    | leaf key_suffix old_value ↦ insert_at_leaf key_suffix old_value nibbles value s
    | extension prefix child ↦
        let match_len = common_prefix prefix nibbles in
        if match_len == length prefix
        then (insert_recursive fuel (some child) (drop match_len nibbles) value s >>= λ new.
            store.put_node (extension prefix new.0) new.1)
        else split_extension prefix child nibbles match_len value s
    | branch children old_value ↦ elim nibbles [
      | [] ↦ store.put_node (branch children (some value)) s
      | nibble ∷ rest ↦ ok_or (get_elem? children nibble) index_out_of_bounds >>= λ child.
          insert_recursive fuel child rest value s >>= λ new.
          assign children nibble (some new.0) >>= λ placed.
          store.put_node (branch placed old_value) new.1
    ]
  ]

  -- The new root, which the trie keeps.
  unfoldable pub insert : Option Hash32 → Bytes → Bytes → S → Result TrieError (Hash32 × S)
  insert root key value s =
      let nibbles = key_to_nibbles key in insert_recursive (fuel_for nibbles) root nibbles value s

  -- The children that are left, with their nibbles, counted from `at`.
  unfoldable pub remaining : ℕ → List (Option Hash32) → List (ℕ × Hash32)
  remaining at [] = []
  remaining at (none ∷ children) = remaining (suc at) children
  remaining at (some h ∷ children) = (at, h) ∷ remaining (suc at) children

  -- A node for the child `h` under `prefix`: a leaf or an extension takes the prefix in.
  unfoldable pub merge : Bytes → Hash32 → S → Result TrieError (Option Hash32 × S)
  merge prefix h s = do
    child_node ← store.get_node h s
    put ←
        store.put_node
          (elim child_node [
            | none ↦ extension prefix h
            | some node ↦ elim node [
              | leaf key_suffix value ↦ leaf (prefix ++ key_suffix) value
              | extension child_prefix grandchild ↦ extension (prefix ++ child_prefix) grandchild
              | branch _ _ ↦ extension prefix h
            ]
          ])
          s
    ok (some put.0, put.1)

  -- What stands for a branch after a removal.
  unfoldable pub collapse :
      List (ℕ × Hash32)
      → List (Option Hash32)
      → Option Bytes
      → S
      → Result TrieError (Option Hash32 × S)
  collapse [] children none s = ok (none, s)
  collapse [] children (some value) s = do
    put ← store.put_node (leaf [] value) s
    ok (some put.0, put.1)
  collapse ((nibble, h) ∷ []) children none s = merge (nibble ∷ []) h s
  collapse _ children value s = do
    put ← store.put_node (branch children value) s
    ok (some put.0, put.1)

  unfoldable pub delete_recursive :
      ℕ → Option Hash32 → Bytes → S → Result TrieError (Option Hash32 × S)
  delete_recursive fuel none nibbles s = ok (none, s)
  delete_recursive zero (some h) nibbles s = err out_of_fuel
  delete_recursive (suc fuel) (some h) nibbles s = load h s >>= λ node. elim node [
    | leaf key_suffix _ ↦ ok (if same key_suffix nibbles then none else some h, s)
    | extension prefix child ↦
        if starts_with nibbles prefix
        then (delete_recursive fuel (some child) (drop (length prefix) nibbles) s >>= λ new.
            elim new.0 [ none ↦ ok (none, new.1) | some c ↦ merge prefix c new.1 ])
        else ok (some h, s)
    | branch children value ↦ elim nibbles [
      | [] ↦ collapse (remaining 0 children) children none s
      | nibble ∷ rest ↦ ok_or (get_elem? children nibble) index_out_of_bounds >>= λ child.
          delete_recursive fuel child rest s >>= λ new. assign children nibble new.0 >>= λ placed.
          collapse (remaining 0 placed) placed value new.1
    ]
  ]

  -- The root that the trie keeps; `delete` returns it, or the zero hash.
  unfoldable pub delete : Option Hash32 → Bytes → S → Result TrieError (Option Hash32 × S)
  delete root key s =
      let nibbles = key_to_nibbles key in delete_recursive (fuel_for nibbles) root nibbles s
