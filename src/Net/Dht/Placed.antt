-- ===== src/Net/Dht/Placed.antt =====
-- The buckets of the routing table, whatever its users do at the same time.
use primus_project.Base.{
  ℕ, zero, suc, ◌≤◌, ◌≡◌, ◌≢◌, ◌⊎◌, refl, sym, ap, subst, inl, inr, false, Bool-cases, Option, none,
  some, List, [], ◌∷◌, ◌++◌, arith, ltb, ◌==◌, ==_iff, length, replicate, set, get_elem?,
  get_elem?-set_ne,
}
use primus_project.Base.Ord.{same, bytes_ord}
use primus_project.Machine.Word.{Bytes}
use primus_project.Types.Crypto.{Hashes}
use primus_project.Types.Peer.{PrimusNr, node_id}
use primus_project.Net.Dht.{
  bucket_size, nbuckets, drop_tail, replace_tail, RoutingTable, new_table, bucket, set_bucket,
  take_out, insert_node, remove_node, index_of, try_insert, evict, remove,
}

module _ (h : Hashes) where
  -- The table, and the nodes whose insertion waits for the answer of a tail.
  abbrev pub Shared : Type 0
  Shared = RoutingTable × List PrimusNr

  abbrev pub waiting_after : PrimusNr → Option PrimusNr → List PrimusNr → List PrimusNr
  waiting_after nr none waiting = waiting
  waiting_after nr (some _) waiting = nr ∷ waiting

  -- What the tasks that share a table can do next: an insertion starts, its tail answers, its tail
  -- does not, or a node is removed.
  pub data Step : Shared → Shared → Type 0 where
    starts :
        (nr : PrimusNr) (t : RoutingTable) (waiting : List PrimusNr)
        → Step (t, waiting) ((try_insert h nr t).0, waiting_after nr (try_insert h nr t).1 waiting)
    answers :
        (nr : PrimusNr) (t : RoutingTable) (before after : List PrimusNr)
        → Step (t, before ++ nr ∷ after) (t, before ++ after)
    fails :
        (nr : PrimusNr) (t : RoutingTable) (before after : List PrimusNr)
        → Step (t, before ++ nr ∷ after) (evict h nr t, before ++ after)
    removes :
        (id : Bytes) (t : RoutingTable) (waiting : List PrimusNr)
        → Step (t, waiting) (remove h id t, waiting)

  pub data Steps : Shared → Shared → Type 0 where
    done : (s : Shared) → Steps s s
    next : {s s' s'' : Shared} → Steps s s' → Step s' s'' → Steps s s''

  -- The node is not the local one, and this is its bucket.
  abbrev Belongs : Bytes → ℕ → PrimusNr → Type 0
  Belongs local_id i n =
      (same (node_id h n) local_id ≡ false) × (index_of h (new_table local_id) (node_id h n) ≡ i)

  abbrev pub AllBelong : Bytes → ℕ → List PrimusNr → Type 0
  AllBelong local_id i [] = Unit
  AllBelong local_id i (n ∷ nodes) = Belongs local_id i n × AllBelong local_id i nodes

  abbrev IsGood : Bytes → ℕ → List PrimusNr → Type 0
  IsGood local_id i nodes = (length nodes ≤ bucket_size) × AllBelong local_id i nodes

  -- Every bucket has at most 20 nodes, all of them in their place and none of them the local one.
  abbrev pub IsPlaced : RoutingTable → Type 0
  IsPlaced t = (i : ℕ) → IsGood t.local_id i (bucket i t)

  abbrev AllForeign : Bytes → List PrimusNr → Type 0
  AllForeign local_id [] = Unit
  AllForeign local_id (n ∷ nodes) =
      (same (node_id h n) local_id ≡ false) × AllForeign local_id nodes

  get_elem?-set_cases :
      (xs : List (List PrimusNr)) (i : ℕ) (v : List PrimusNr)
      → (get_elem? (set xs i v) i ≡ some v) ⊎ (get_elem? (set xs i v) i ≡ none)
  get_elem?-set_cases [] i v = inr refl
  get_elem?-set_cases (x ∷ xs) zero v = inl refl
  get_elem?-set_cases (x ∷ xs) (suc i) v = get_elem?-set_cases xs i v

  abbrev or_empty : Option (List PrimusNr) → List PrimusNr
  or_empty none = []
  or_empty (some nodes) = nodes

  bucket-set_bucket :
      (t : RoutingTable) (j : ℕ) (nodes : List PrimusNr)
      → (bucket j (set_bucket j nodes t) ≡ nodes) ⊎ (bucket j (set_bucket j nodes t) ≡ [])
  unfolding set_bucket bucket
  bucket-set_bucket t j nodes = elim (get_elem?-set_cases t.buckets j nodes) [
    | inl found ↦ inl (ap or_empty found)
    | inr missing ↦ inr (ap or_empty missing)
  ]

  bucket-set_bucket_ne :
      (t : RoutingTable) (j i : ℕ) (nodes : List PrimusNr)
      → j ≢ i
      → bucket i (set_bucket j nodes t) ≡ bucket i t
  unfolding set_bucket bucket
  bucket-set_bucket_ne t j i nodes differ =
      ap or_empty (get_elem?-set_ne t.buckets j i nodes differ)

  not_equal : (j i : ℕ) → (j == i) ≡ false → j ≢ i
  not_equal j i e same_index = ground (arith, e, same_index)

  set_bucket-IsPlaced :
      (t : RoutingTable) (j : ℕ) (nodes : List PrimusNr)
      → IsPlaced t
      → IsGood t.local_id j nodes
      → IsPlaced (set_bucket j nodes t)
  unfolding set_bucket
  set_bucket-IsPlaced t j nodes placed good i = elim (Bool-cases (j == i)) [
    | inl equal ↦
        subst (λ k. IsGood t.local_id k (bucket k (set_bucket j nodes t))) ((==_iff j i).0 equal)
          (elim (bucket-set_bucket t j nodes) [
            | inl found ↦ subst (IsGood t.local_id j) (sym found) good
            | inr missing ↦ subst (IsGood t.local_id j) (sym missing) (omega arith, tt)
          ])
    | inr other ↦
        subst (IsGood t.local_id i) (sym (bucket-set_bucket_ne t j i nodes (not_equal j i other)))
          (placed i)
  ]

  drop_tail-IsGood :
      (local_id : Bytes) (i : ℕ) (n : PrimusNr) (nodes : List PrimusNr)
      → AllBelong local_id i (n ∷ nodes)
      → (length (drop_tail (n ∷ nodes)) ≡ length nodes)
        × AllBelong local_id i (drop_tail (n ∷ nodes))
  unfolding drop_tail
  drop_tail-IsGood local_id i n [] all = (refl, tt)
  drop_tail-IsGood local_id i n (m ∷ nodes) all =
      let rest = drop_tail-IsGood local_id i m nodes all.1 in (ap suc rest.0, (all.0, rest.1))

  remove_node-IsGood :
      (local_id : Bytes) (i : ℕ) (id : Bytes) (nodes : List PrimusNr)
      → AllBelong local_id i nodes
      → (length (remove_node h id nodes) ≤ length nodes)
        × AllBelong local_id i (remove_node h id nodes)
  unfolding remove_node
  remove_node-IsGood local_id i id [] all = (omega arith, tt)
  remove_node-IsGood local_id i id (n ∷ nodes) all =
      let rest = remove_node-IsGood local_id i id nodes all.1 in
      elim (Bool-cases (same (node_id h n) id)) [
        | inl gone ↦ rw gone (omega (arith, rest.0), rest.1)
        | inr kept ↦ rw kept (omega (arith, rest.0), (all.0, rest.1))
      ]

  -- What is taken out of a bucket, and what is left.
  abbrev FoundGood : Bytes → ℕ → List PrimusNr → Option (PrimusNr × List PrimusNr) → Type 0
  FoundGood local_id i nodes none = Unit
  FoundGood local_id i nodes (some found) =
      (suc (length found.1) ≡ length nodes) × AllBelong local_id i (found.0 ∷ found.1)

  FoundGood-later :
      (local_id : Bytes) (i : ℕ) (n : PrimusNr) (nodes : List PrimusNr)
      (o : Option (PrimusNr × List PrimusNr))
      → Belongs local_id i n
      → FoundGood local_id i nodes o
      → FoundGood local_id i
          (n ∷ nodes)
          (elim o [ none ↦ none | some found ↦ some (found.0, n ∷ found.1) ])
  FoundGood-later local_id i n nodes none here good = tt
  FoundGood-later local_id i n nodes (some found) here good =
      (ap suc good.0, (good.1.0, (here, good.1.1)))

  take_out-FoundGood :
      (local_id : Bytes) (i : ℕ) (id : Bytes) (nodes : List PrimusNr)
      → AllBelong local_id i nodes
      → FoundGood local_id i nodes (take_out h id nodes)
  unfolding take_out
  take_out-FoundGood local_id i id [] all = tt
  take_out-FoundGood local_id i id (n ∷ nodes) all = elim (Bool-cases (same (node_id h n) id)) [
    | inl here ↦ rw here (refl, all)
    | inr elsewhere ↦ rw elsewhere (
        FoundGood-later local_id i n nodes (take_out h id nodes) all.0
          (take_out-FoundGood local_id i id nodes all.1))
  ]

  insert_from :
      (local_id : Bytes) (i : ℕ) (nr : PrimusNr) (nodes : List PrimusNr)
      (o : Option (PrimusNr × List PrimusNr))
      → take_out h (node_id h nr) nodes ≡ o
      → FoundGood local_id i nodes o
      → Belongs local_id i nr
      → IsGood local_id i nodes
      → IsGood local_id i (insert_node h nr nodes).0
  unfolding insert_node
  insert_from local_id i nr nodes (some found) e good here old =
      rw (e, insert_node) (omega (arith, good.0, old.0), good.1)
  insert_from local_id i nr nodes none e good here old =
      elim (Bool-cases (ltb (length nodes) bucket_size)) [
        | inl room ↦ rw (e, insert_node) (rw room (ground (arith, room), (here, old.1)))
        | inr full ↦ rw (e, insert_node) (rw full old)
      ]

  insert_node-IsGood :
      (local_id : Bytes) (i : ℕ) (nr : PrimusNr) (nodes : List PrimusNr)
      → Belongs local_id i nr
      → IsGood local_id i nodes
      → IsGood local_id i (insert_node h nr nodes).0
  insert_node-IsGood local_id i nr nodes here old =
      insert_from local_id i nr nodes (take_out h (node_id h nr) nodes) refl
        (take_out-FoundGood local_id i (node_id h nr) nodes old.1) here old

  replace_tail-IsGood :
      (local_id : Bytes) (i : ℕ) (nr : PrimusNr) (nodes : List PrimusNr)
      → Belongs local_id i nr
      → IsGood local_id i nodes
      → IsGood local_id i (replace_tail nr nodes)
  unfolding replace_tail
  replace_tail-IsGood local_id i nr [] here old = old
  replace_tail-IsGood local_id i nr (n ∷ nodes) here old =
      let rest = drop_tail-IsGood local_id i n nodes old.1 in
      (omega (arith, rest.0, old.0), (here, rest.1))

  try_insert-IsPlaced :
      (nr : PrimusNr) (t : RoutingTable) → IsPlaced t → IsPlaced (try_insert h nr t).0
  unfolding try_insert index_of
  try_insert-IsPlaced nr t placed = elim (Bool-cases (same (node_id h nr) t.local_id)) [
    | inl local ↦ rw local placed
    | inr foreign ↦ rw foreign (
        set_bucket-IsPlaced t (index_of h t (node_id h nr)) _ placed (
          insert_node-IsGood t.local_id (index_of h t (node_id h nr)) nr _ (foreign, refl)
            (placed (index_of h t (node_id h nr)))))
  ]

  evict-IsPlaced :
      (nr : PrimusNr) (t : RoutingTable)
      → same (node_id h nr) t.local_id ≡ false
      → IsPlaced t
      → IsPlaced (evict h nr t)
  unfolding evict index_of
  evict-IsPlaced nr t foreign placed =
      set_bucket-IsPlaced t (index_of h t (node_id h nr)) _ placed (
        replace_tail-IsGood t.local_id (index_of h t (node_id h nr)) nr _ (foreign, refl)
          (placed (index_of h t (node_id h nr))))

  remove-IsPlaced : (id : Bytes) (t : RoutingTable) → IsPlaced t → IsPlaced (remove h id t)
  unfolding remove
  remove-IsPlaced id t placed =
      let old = placed (index_of h t id) in
      let rest = remove_node-IsGood t.local_id (index_of h t id) id _ old.1 in
      set_bucket-IsPlaced t (index_of h t id) _ placed (omega (arith, rest.0, old.0), rest.1)

  AllForeign-split :
      (local_id : Bytes) (nr : PrimusNr) (before after : List PrimusNr)
      → AllForeign local_id (before ++ nr ∷ after)
      → (same (node_id h nr) local_id ≡ false) × AllForeign local_id (before ++ after)
  AllForeign-split local_id nr [] after all = all
  AllForeign-split local_id nr (n ∷ before) after all =
      let rest = AllForeign-split local_id nr before after all.1 in (rest.0, (all.0, rest.1))

  waiting_foreign :
      (local_id : Bytes) (nr : PrimusNr) (o : Option PrimusNr) (waiting : List PrimusNr)
      → same (node_id h nr) local_id ≡ false
      → AllForeign local_id waiting
      → AllForeign local_id (waiting_after nr o waiting)
  waiting_foreign local_id nr none waiting foreign all = all
  waiting_foreign local_id nr (some _) waiting foreign all = (foreign, all)

  try_insert_foreign :
      (nr : PrimusNr) (t : RoutingTable) (waiting : List PrimusNr)
      → AllForeign t.local_id waiting
      → AllForeign (try_insert h nr t).0.local_id (waiting_after nr (try_insert h nr t).1 waiting)
  unfolding try_insert set_bucket
  try_insert_foreign nr t waiting all = elim (Bool-cases (same (node_id h nr) t.local_id)) [
    | inl local ↦ rw local all
    | inr foreign ↦ rw foreign (
        waiting_foreign t.local_id nr (insert_node h nr (bucket (index_of h t (node_id h nr)) t)).1
          waiting foreign all)
  ]

  -- A table whose waiting nodes are not the local one either.
  abbrev IsSafe : Shared → Type 0
  IsSafe (t, waiting) = IsPlaced t × AllForeign t.local_id waiting

  Step-IsSafe : (s s' : Shared) → Step s s' → IsSafe s → IsSafe s'
  unfolding evict remove set_bucket
  Step-IsSafe _ _ (starts nr t waiting) safe =
      (try_insert-IsPlaced nr t safe.0, try_insert_foreign nr t waiting safe.1)
  Step-IsSafe _ _ (answers nr t before after) safe =
      (safe.0, (AllForeign-split t.local_id nr before after safe.1).1)
  Step-IsSafe _ _ (fails nr t before after) safe =
      let rest = AllForeign-split t.local_id nr before after safe.1 in
      (evict-IsPlaced nr t rest.0 safe.0, rest.1)
  Step-IsSafe _ _ (removes id t waiting) safe = (remove-IsPlaced id t safe.0, safe.1)

  Steps-IsSafe : (s s' : Shared) → Steps s s' → IsSafe s → IsSafe s'
  Steps-IsSafe _ _ (done s) safe = safe
  Steps-IsSafe _ _ (next {s} {s'} {s''} steps step) safe =
      Step-IsSafe s' s'' step (Steps-IsSafe s s' steps safe)

  empty_bucket : (n i : ℕ) → or_empty (get_elem? (replicate n []) i) ≡ []
  empty_bucket zero i = refl
  empty_bucket (suc n) zero = refl
  empty_bucket (suc n) (suc i) = empty_bucket n i

  new_table-IsPlaced : (local_id : Bytes) → IsPlaced (new_table local_id)
  unfolding bucket
  new_table-IsPlaced local_id i =
      subst (IsGood local_id i) (sym (empty_bucket nbuckets i)) (omega arith, tt)

  -- Whatever insertions and removals run on a new table at the same time, in any order of their
  -- steps, every bucket has at most 20 nodes, each in the bucket of its distance, and the local node
  -- is in none.
  pub Steps-IsPlaced :
      (local_id : Bytes) (s : Shared) → Steps (new_table local_id, []) s → IsPlaced s.0
  Steps-IsPlaced local_id s steps =
      (Steps-IsSafe (new_table local_id, []) s steps (new_table-IsPlaced local_id, tt)).0
