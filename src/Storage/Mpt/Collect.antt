-- ===== src/Storage/Mpt/Collect.antt =====
-- `gc_since` of primus-storage/src/mpt.rs: the nodes below an old root that the current one does not
-- reach are deleted. The recursion follows hashes, so it runs on fuel, for the depth of the trie.
use primus_project.Base.{
  ℕ, zero, suc, ◌+◌, Bool, false, ◌||◌, Option, none, some, List, [], ◌∷◌, if◌then◌else◌,
}
use primus_project.Base.Outcome.{Result, ok, err, ◌>>=◌}
use primus_project.Base.Ord.{same, bytes_ord}
use primus_project.Storage.Mpt.{
  Hash32, MptNode, leaf, extension, branch, MptStore, TrieError, out_of_fuel,
}

-- `live`: a `HashSet`, of which only membership is read.
abbrev pub contains : Hash32 → List Hash32 → Bool
contains h [] = false
contains h (l ∷ live) = same h l || contains h live

module _ {A : Type 0} where
  -- `for child in children.iter().flatten()`
  abbrev pub each_child :
      (Hash32 → A → Result TrieError A) → List (Option Hash32) → A → Result TrieError A
  each_child visit [] a = ok a
  each_child visit (none ∷ children) a = each_child visit children a
  each_child visit (some h ∷ children) a = visit h a >>= each_child visit children

  abbrev pub below : (Hash32 → A → Result TrieError A) → MptNode → A → Result TrieError A
  below visit (leaf _ _) a = ok a
  below visit (extension _ child) a = visit child a
  below visit (branch children _) a = each_child visit children a

module _ {S : Type 0} (store : MptStore S) where
  unfoldable pub collect_reachable : ℕ → S → Hash32 → List Hash32 → Result TrieError (List Hash32)
  collect_reachable zero s h live = err out_of_fuel
  collect_reachable (suc fuel) s h live =
      let deeper = below (collect_reachable fuel s) in
      if contains h live then ok live else (do
        node ← store.get_node h s
        elim node [ none ↦ ok (h ∷ live) | some n ↦ deeper n (h ∷ live) ])

  -- Deletes below `h` first, and counts. Returns the store and the count.
  unfoldable pub delete_unreachable : ℕ → List Hash32 → Hash32 → S × ℕ → Result TrieError (S × ℕ)
  delete_unreachable zero live h (s, deleted) = err out_of_fuel
  delete_unreachable (suc fuel) live h (s, deleted) =
      let deeper = below (delete_unreachable fuel live) in
      if contains h live then ok (s, deleted) else (do
        node ← store.get_node h s
        elim node [
          | none ↦ ok (s, deleted)
          | some n ↦
              deeper n (s, deleted) >>= λ r. (do s' ← store.delete_node h r.0; ok (s', r.1 + 1))
        ])

  unfoldable pub gc_since : ℕ → Option Hash32 → Hash32 → S → Result TrieError (S × ℕ)
  gc_since fuel none old_root s = ok (s, 0)
  gc_since fuel (some current_root) old_root s = do
    live ← collect_reachable fuel s current_root []
    delete_unreachable fuel live old_root (s, 0)
