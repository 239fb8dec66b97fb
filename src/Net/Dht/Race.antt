-- ===== src/Net/Dht/Race.antt =====
-- Two insertions of one node at the same time.
use primus_project.Base.{
  ℕ, ◌<◌, ◌≡◌, ◌∙◌, refl, sym, ap, subst, false, none, some, List, [], ◌∷◌, arith, ltb, length,
  get_elem?-set_self, length-set,
}
use primus_project.Base.Ord.{same, bytes_ord}
use primus_project.Types.Crypto.{Hashes}
use primus_project.Types.Peer.{PrimusNr, node_id}
use primus_project.Net.Dht.{
  bucket_size, tail_of, drop_tail, replace_tail, RoutingTable, bucket, set_bucket, take_out,
  insert_node, index_of, try_insert, evict,
}
use primus_project.Net.Dht.Placed.{Step, starts, fails, Steps, done, next, waiting_after}

has_tail : (n : PrimusNr) (nodes : List PrimusNr) → (z : PrimusNr) × (tail_of (n ∷ nodes) ≡ some z)
unfolding tail_of
has_tail n [] = (n, refl)
has_tail n (m ∷ nodes) = has_tail m nodes

tail_of_full :
    (nodes : List PrimusNr) → length nodes ≡ 20 → (z : PrimusNr) × (tail_of nodes ≡ some z)
tail_of_full [] e = absurd (omega arith)
tail_of_full (n ∷ nodes) e = has_tail n nodes

replace_tail-twice :
    (nr : PrimusNr) (nodes : List PrimusNr)
    → length nodes ≡ 20
    → (rest : List PrimusNr) × (replace_tail nr (replace_tail nr nodes) ≡ nr ∷ nr ∷ rest)
unfolding replace_tail drop_tail
replace_tail-twice nr [] e = absurd (omega arith)
replace_tail-twice nr (n ∷ []) e = absurd (omega arith)
replace_tail-twice nr (n ∷ m ∷ nodes) e = (drop_tail (n ∷ drop_tail (m ∷ nodes)), refl)

module _ (h : Hashes) (nr : PrimusNr) where
  abbrev pub place : RoutingTable → ℕ
  place t = index_of h t (node_id h nr)

  -- The bucket of the node is one of the table's and full, and the node is neither in it nor local.
  pub record IsFull (t : RoutingTable) : Type 0 where
    pub in_range : place t < length t.buckets
    pub full : length (bucket (place t) t) ≡ 20
    pub absent : take_out h (node_id h nr) (bucket (place t) t) ≡ none
    pub foreign : same (node_id h nr) t.local_id ≡ false

  bucket-set_bucket_self :
      (t : RoutingTable) (nodes : List PrimusNr)
      → place t < length t.buckets
      → bucket (place t) (set_bucket (place t) nodes t) ≡ nodes
  unfolding bucket set_bucket
  bucket-set_bucket_self t nodes small =
      ap (λ o. elim o [ none ↦ [] | some found ↦ found ])
        (get_elem?-set_self t.buckets (place t) nodes small)

  -- What an insertion into a full bucket leaves: the same nodes.
  abbrev touched : RoutingTable → RoutingTable
  touched t = set_bucket (place t) (bucket (place t) t) t

  insert_node_full :
      (nodes : List PrimusNr)
      → take_out h (node_id h nr) nodes ≡ none
      → length nodes ≡ 20
      → insert_node h nr nodes ≡ (nodes, tail_of nodes)
  unfolding insert_node
  insert_node_full nodes absent full =
      let no_room : ltb (length nodes) bucket_size ≡ false = ground (arith, full) in
      rw (absent, insert_node) (rw no_room refl)

  start_full :
      (t : RoutingTable) → IsFull t → (z : PrimusNr) × (try_insert h nr t ≡ (touched t, some z))
  unfolding try_insert
  start_full t full =
      let found = tail_of_full (bucket (place t) t) full.full in
      (
        found.0,
        rw full.foreign (
            ap (λ r. (set_bucket (place t) r.0 t, r.1))
              (insert_node_full (bucket (place t) t) full.absent full.full
                ∙ ap (λ o. (bucket (place t) t, o)) found.1)),
      )

  start_step :
      (t : RoutingTable) (waiting : List PrimusNr)
      → IsFull t
      → Step h (t, waiting) (touched t, nr ∷ waiting)
  start_step t waiting full =
      let started = start_full t full in
      subst (λ r. Step h (t, waiting) (r.0, waiting_after h nr r.1 waiting)) started.1
        (starts nr t waiting)

  touched-IsFull : (t : RoutingTable) → IsFull t → IsFull (touched t)
  unfolding set_bucket index_of
  touched-IsFull t full =
      let same_bucket = bucket-set_bucket_self t (bucket (place t) t) full.in_range in
      record {
        in_range = subst (λ n. place t < n) (sym (length-set t.buckets (place t) _)) full.in_range;
        full = ap length same_bucket ∙ full.full;
        absent = ap (take_out h (node_id h nr)) same_bucket ∙ full.absent;
        foreign = full.foreign;
      }

  evict-bucket :
      (t : RoutingTable)
      → place t < length t.buckets
      → bucket (place t) (evict h nr t) ≡ replace_tail nr (bucket (place t) t)
  unfolding evict
  evict-bucket t small = bucket-set_bucket_self t (replace_tail nr (bucket (place t) t)) small

  -- Two insertions of one node that find its bucket full and its tail silent can leave the node in
  -- the bucket twice.
  pub Steps-twice :
      (t : RoutingTable)
      → IsFull t
      → (s : RoutingTable × List PrimusNr) × Steps h (t, []) s
        × (rest : List PrimusNr) × (bucket (place t) s.0 ≡ nr ∷ nr ∷ rest)
  unfolding evict set_bucket index_of
  Steps-twice t full =
      let once = touched-IsFull t full in
      let both = touched-IsFull (touched t) once in
      let crowded = touched (touched t) in
      let first = evict h nr crowded in
      let pair = replace_tail-twice nr (bucket (place t) crowded) both.full in
      (
        (evict h nr first, []),
        next
            (next
              (next (next (done (t, [])) (start_step t [] full))
                (start_step (touched t) (nr ∷ []) once))
              (fails nr crowded [] (nr ∷ [])))
            (fails nr first [] []),
        pair.0,
        evict-bucket first (
              subst (λ n. place t < n) (sym (length-set crowded.buckets (place t) _)) both.in_range)
            ∙ ap (replace_tail nr) (evict-bucket crowded both.in_range)
            ∙ pair.1,
      )
