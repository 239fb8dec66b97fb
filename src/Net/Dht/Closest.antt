-- ===== src/Net/Dht/Closest.antt =====
-- The nodes that a lookup returns.
use primus_project.Base.{
  ℕ, zero, suc, ◌≡◌, ◌≢◌, ◌∙◌, refl, sym, ap, subst, List, [], ◌∷◌, ◌++◌, arith, length, take, drop,
  min, ◌⊎◌, inl, inr, take-append-drop, length-take,
}
use primus_project.Base.Ord.{
  bytes_ord, compare_bytes, compare_bytes_only_self, compare_bytes_reversed, compare_bytes_chained,
}
use primus_project.Machine.Word.{Bytes}
use primus_project.Types.Crypto.{Hashes}
use primus_project.Types.Peer.{PrimusNr, node_id}
use primus_project.Net.Dht.{
  xor_distance, RoutingTable, all_peers, insert_by_distance, sort_by_distance, get_closest,
}
use Prim.Native.Nat.{Ordering}
use Prim.Native.Nat.Ordering.{lt, eq, gt}
use mathlib.Core.List.Perm
use mathlib.Core.List.{Perm}

abbrev NotAfter : Bytes → Bytes → Type 0
NotAfter a b = compare_bytes a b ≢ gt

-- Out of the reverse order.
not_after : (a b : Bytes) → compare_bytes b a ≡ gt → NotAfter a b
not_after a b e after = ground (arith, compare_bytes_reversed a b)

lt-ne-gt : lt ≢ gt
lt-ne-gt e = cc

eq-ne-gt : eq ≢ gt
eq-ne-gt e = cc

compared_from :
    (a b c : Bytes) (p q : Ordering)
    → compare_bytes a b ≡ p
    → compare_bytes b c ≡ q
    → NotAfter a b
    → NotAfter b c
    → NotAfter a c
compared_from a b c eq q e f ab bc =
    subst (λ x. NotAfter x c) (sym (compare_bytes_only_self a b e)) bc
compared_from a b c gt q e f ab bc = absurd (ab e)
compared_from a b c lt eq e f ab bc = subst (NotAfter a) (compare_bytes_only_self b c f) ab
compared_from a b c lt gt e f ab bc = absurd (bc f)
compared_from a b c lt lt e f ab bc =
    λ after. lt-ne-gt (sym (compare_bytes_chained a b c e f) ∙ after)

NotAfter-trans : (a b c : Bytes) → NotAfter a b → NotAfter b c → NotAfter a c
NotAfter-trans a b c ab bc =
    compared_from a b c (compare_bytes a b) (compare_bytes b c) refl refl ab bc

module _ (h : Hashes) (target : Bytes) where
  -- The first is no farther from the target than the second.
  abbrev pub IsNearer : PrimusNr → PrimusNr → Type 0
  IsNearer n m = NotAfter (xor_distance (node_id h n) target) (xor_distance (node_id h m) target)

  abbrev NearerThan : PrimusNr → List PrimusNr → Type 0
  NearerThan n [] = Unit
  NearerThan n (m ∷ nodes) = IsNearer n m × NearerThan n nodes

  abbrev IsSorted : List PrimusNr → Type 0
  IsSorted [] = Unit
  IsSorted (n ∷ nodes) = NearerThan n nodes × IsSorted nodes

  -- None of the first is farther from the target than one of the second.
  abbrev pub AllNearer : List PrimusNr → List PrimusNr → Type 0
  AllNearer [] rest = Unit
  AllNearer (n ∷ nodes) rest = NearerThan n rest × AllNearer nodes rest

  NearerThan-trans :
      (n m : PrimusNr) (nodes : List PrimusNr)
      → IsNearer n m
      → NearerThan m nodes
      → NearerThan n nodes
  NearerThan-trans n m [] near all = tt
  NearerThan-trans n m (k ∷ nodes) near all =
      (NotAfter-trans _ _ _ near all.0, NearerThan-trans n m nodes near all.1)

  insert_far :
      (nr n : PrimusNr) (nodes : List PrimusNr)
      → compare_bytes (xor_distance (node_id h nr) target) (xor_distance (node_id h n) target) ≡ gt
      → insert_by_distance h target nr (n ∷ nodes) ≡ n ∷ insert_by_distance h target nr nodes
  unfolding insert_by_distance
  insert_far nr n nodes e = rw (e, insert_by_distance) refl

  insert_near :
      (nr n : PrimusNr) (nodes : List PrimusNr) (o : Ordering)
      → compare_bytes (xor_distance (node_id h nr) target) (xor_distance (node_id h n) target) ≡ o
      → o ≢ gt
      → insert_by_distance h target nr (n ∷ nodes) ≡ nr ∷ n ∷ nodes
  unfolding insert_by_distance
  insert_near nr n nodes lt e near = rw (e, insert_by_distance) refl
  insert_near nr n nodes eq e near = rw (e, insert_by_distance) refl
  insert_near nr n nodes gt e near = absurd (near refl)

  near_from :
      (n m : PrimusNr) (o : Ordering)
      → compare_bytes (xor_distance (node_id h n) target) (xor_distance (node_id h m) target) ≡ o
      → IsNearer n m
        ⊎ (compare_bytes (xor_distance (node_id h n) target) (xor_distance (node_id h m) target)
            ≡ gt)
  near_from n m lt e = inl (λ after. lt-ne-gt (sym e ∙ after))
  near_from n m eq e = inl (λ after. eq-ne-gt (sym e ∙ after))
  near_from n m gt e = inr e

  near_or_far :
      (n m : PrimusNr)
      → IsNearer n m
        ⊎ (compare_bytes (xor_distance (node_id h n) target) (xor_distance (node_id h m) target)
            ≡ gt)
  near_or_far n m =
      near_from n m
        (compare_bytes (xor_distance (node_id h n) target) (xor_distance (node_id h m) target)) refl

  insert_by_distance-NearerThan :
      (m nr : PrimusNr) (nodes : List PrimusNr)
      → IsNearer m nr
      → NearerThan m nodes
      → NearerThan m (insert_by_distance h target nr nodes)
  unfolding insert_by_distance
  insert_by_distance-NearerThan m nr [] near all = (near, tt)
  insert_by_distance-NearerThan m nr (n ∷ nodes) near all = elim (near_or_far nr n) [
    | inl first ↦ subst (NearerThan m) (sym (insert_near nr n nodes _ refl first)) (near, all)
    | inr later ↦
        subst (NearerThan m) (sym (insert_far nr n nodes later))
          (all.0, insert_by_distance-NearerThan m nr nodes near all.1)
  ]

  insert_by_distance-IsSorted :
      (nr : PrimusNr) (nodes : List PrimusNr)
      → IsSorted nodes
      → IsSorted (insert_by_distance h target nr nodes)
  unfolding insert_by_distance
  insert_by_distance-IsSorted nr [] sorted = (tt, tt)
  insert_by_distance-IsSorted nr (n ∷ nodes) sorted = elim (near_or_far nr n) [
    | inl first ↦
        subst IsSorted (sym (insert_near nr n nodes _ refl first))
          ((first, NearerThan-trans nr n nodes first sorted.0), sorted)
    | inr later ↦ subst IsSorted (sym (insert_far nr n nodes later)) (
      insert_by_distance-NearerThan n nr nodes (not_after _ _ later) sorted.0,
      insert_by_distance-IsSorted nr nodes sorted.1,
    )
  ]

  insert_by_distance-perm :
      (nr : PrimusNr) (nodes : List PrimusNr)
      → Perm (insert_by_distance h target nr nodes) (nr ∷ nodes)
  unfolding insert_by_distance
  insert_by_distance-perm nr [] = Perm.refl (nr ∷ [])
  insert_by_distance-perm nr (n ∷ nodes) = elim (near_or_far nr n) [
    | inl first ↦
        subst (λ l. Perm l (nr ∷ n ∷ nodes)) (sym (insert_near nr n nodes _ refl first))
          (Perm.refl (nr ∷ n ∷ nodes))
    | inr later ↦
        subst (λ l. Perm l (nr ∷ n ∷ nodes)) (sym (insert_far nr n nodes later))
          (Perm.trans (Perm.cons n (insert_by_distance-perm nr nodes)) (Perm.swap nr n nodes))
  ]

  sort_by_distance-IsSorted : (nodes : List PrimusNr) → IsSorted (sort_by_distance h target nodes)
  unfolding sort_by_distance
  sort_by_distance-IsSorted [] = tt
  sort_by_distance-IsSorted (n ∷ nodes) =
      insert_by_distance-IsSorted n (sort_by_distance h target nodes)
        (sort_by_distance-IsSorted nodes)

  sort_by_distance-perm : (nodes : List PrimusNr) → Perm (sort_by_distance h target nodes) nodes
  unfolding sort_by_distance
  sort_by_distance-perm [] = Perm.refl []
  sort_by_distance-perm (n ∷ nodes) =
      Perm.trans (insert_by_distance-perm n (sort_by_distance h target nodes))
        (Perm.cons n (sort_by_distance-perm nodes))

  length-insert_by_distance :
      (nr : PrimusNr) (nodes : List PrimusNr)
      → length (insert_by_distance h target nr nodes) ≡ suc (length nodes)
  unfolding insert_by_distance
  length-insert_by_distance nr [] = refl
  length-insert_by_distance nr (n ∷ nodes) = elim (near_or_far nr n) [
    | inl first ↦ ap length (insert_near nr n nodes _ refl first)
    | inr later ↦
        ap length (insert_far nr n nodes later) ∙ ap suc (length-insert_by_distance nr nodes)
  ]

  length-sort_by_distance :
      (nodes : List PrimusNr) → length (sort_by_distance h target nodes) ≡ length nodes
  unfolding sort_by_distance
  length-sort_by_distance [] = refl
  length-sort_by_distance (n ∷ nodes) =
      length-insert_by_distance n (sort_by_distance h target nodes)
      ∙ ap suc (length-sort_by_distance nodes)

  NearerThan-drop :
      (n : PrimusNr) (k : ℕ) (nodes : List PrimusNr)
      → NearerThan n nodes
      → NearerThan n (drop k nodes)
  NearerThan-drop n zero nodes all = all
  NearerThan-drop n (suc k) [] all = tt
  NearerThan-drop n (suc k) (m ∷ nodes) all = NearerThan-drop n k nodes all.1

  take-AllNearer :
      (k : ℕ) (nodes : List PrimusNr) → IsSorted nodes → AllNearer (take k nodes) (drop k nodes)
  take-AllNearer zero nodes sorted = tt
  take-AllNearer (suc k) [] sorted = tt
  take-AllNearer (suc k) (n ∷ nodes) sorted =
      (NearerThan-drop n k nodes sorted.0, take-AllNearer k nodes sorted.1)

  -- A lookup returns as many nodes as it was asked for, or all of them if the table has fewer. They
  -- and the rest are the nodes of the table, and none of them is farther from the target than one of
  -- the rest.
  pub get_closest_lem :
      (k : ℕ) (t : RoutingTable)
      → (rest : List PrimusNr) × Perm (get_closest h target k t ++ rest) (all_peers t)
        × AllNearer (get_closest h target k t) rest
        × (length (get_closest h target k t) ≡ min k (length (all_peers t)))
  unfolding get_closest
  get_closest_lem k t =
      let sorted = sort_by_distance h target (all_peers t) in
      (
        drop k sorted,
        subst (λ l. Perm l (all_peers t)) (sym (take-append-drop k sorted))
            (sort_by_distance-perm (all_peers t)),
        take-AllNearer k sorted (sort_by_distance-IsSorted (all_peers t)),
        length-take k sorted ∙ ap (min k) (length-sort_by_distance (all_peers t)),
      )
