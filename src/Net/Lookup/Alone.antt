-- ===== src/Net/Lookup/Alone.antt =====
-- A lookup whose peers know nobody else.
use primus_project.Base.{
  ℕ, zero, suc, ◌≡◌, refl, sym, ap, subst, Bool, true, false, Bool-cases, inl, inr, Option, none,
  some, List, [], ◌∷◌, ◌++◌, arith, if◌then◌else◌,
}
use primus_project.Base.Ord.{same, bytes_ord}
use primus_project.Machine.Word.{Bytes}
use primus_project.Types.Crypto.{Hashes, Verifier}
use primus_project.Types.Peer.{PrimusNr, node_id}
use primus_project.Net.Dht.{RoutingTable}
use primus_project.Net.Lookup.{
  alpha, is_visited, Peers, Lookup, batch_of, visit, answers, learn, ask_batch, rounds, find_node,
  handle_new_peer, is_empty,
}

module _ (h : Hashes) (verifier : Verifier) (peers : Peers) (target : Bytes) where
  abbrev AllLocal : Bytes → List PrimusNr → Type 0
  AllLocal id [] = Unit
  AllLocal id (n ∷ nodes) = (same id (node_id h n) ≡ true) × AllLocal id nodes

  abbrev AnswersLocal : Bytes → Option (List PrimusNr) → Type 0
  AnswersLocal id none = Unit
  AnswersLocal id (some nodes) = AllLocal id nodes

  -- A peer that answers knows no node but the local one.
  abbrev pub KnowsOnly : Bytes → Type 0
  KnowsOnly id = (n : PrimusNr) → AnswersLocal id (peers.ask n)

  AllLocal-append :
      (id : Bytes) (xs ys : List PrimusNr)
      → AllLocal id xs
      → AllLocal id ys
      → AllLocal id (xs ++ ys)
  AllLocal-append id [] ys a b = b
  AllLocal-append id (x ∷ xs) ys a b = (a.0, AllLocal-append id xs ys a.1 b)

  answers_from :
      (id : Bytes) (o : Option (List PrimusNr)) (rest : List PrimusNr)
      → AnswersLocal id o
      → AllLocal id rest
      → AllLocal id (elim o [ none ↦ rest | some nodes ↦ nodes ++ rest ])
  answers_from id none rest a b = b
  answers_from id (some nodes) rest a b = AllLocal-append id nodes rest a b

  answers-AllLocal :
      (id : Bytes) (batch : List PrimusNr)
      → KnowsOnly id
      → AllLocal id (answers h verifier peers target batch)
  unfolding answers
  answers-AllLocal id [] alone = tt
  answers-AllLocal id (n ∷ batch) alone =
      answers_from id (peers.ask n) _ (alone n) (answers-AllLocal id batch alone)

  visit-keeps :
      (id : Bytes) (batch : List PrimusNr) (visited : List Bytes)
      → ((k : Bytes) → same id k ≡ true → is_visited k visited ≡ true)
      → (k : Bytes) → same id k ≡ true
      → is_visited k (visit h verifier peers target batch visited) ≡ true
  unfolding visit
  visit-keeps id [] visited known = known
  visit-keeps id (n ∷ batch) visited known =
      visit-keeps id batch (node_id h n ∷ visited) (λ k e. ground (arith, known k e))

  learn_known :
      (n : PrimusNr) (nodes : List PrimusNr) (found : Bool) (l : Lookup)
      → is_visited (node_id h n) l.visited ≡ true
      → learn h verifier peers target (n ∷ nodes) (found, l)
        ≡ learn h verifier peers target nodes
            (found, record l { table = handle_new_peer h verifier peers target n l.table })
  unfolding learn
  learn_known n nodes found l e =
      let known = record l { table = handle_new_peer h verifier peers target n l.table } in
      ap
        (λ b.
          learn h verifier peers target nodes
            (if b then (found, known) else (true, record known { queue = l.queue ++ n ∷ [] })))
        e

  -- Nothing is found, and the closest nodes stay.
  learn-AllLocal :
      (id : Bytes) (nodes : List PrimusNr) (l : Lookup)
      → AllLocal id nodes
      → ((k : Bytes) → same id k ≡ true → is_visited k l.visited ≡ true)
      → ((learn h verifier peers target nodes (false, l)).0 ≡ false)
        × ((learn h verifier peers target nodes (false, l)).1.closest ≡ l.closest)
  unfolding learn
  learn-AllLocal id [] l all known = (refl, refl)
  learn-AllLocal id (n ∷ nodes) l all known =
      subst (λ r. (r.0 ≡ false) × (r.1.closest ≡ l.closest))
        (sym (learn_known n nodes false l (known (node_id h n) all.0)))
        (learn-AllLocal id nodes _ all.1 known)

  ask_batch-AllLocal :
      (id : Bytes) (batch : List PrimusNr) (l : Lookup)
      → KnowsOnly id
      → ((k : Bytes) → same id k ≡ true → is_visited k l.visited ≡ true)
      → ((ask_batch h verifier peers target batch l).0 ≡ false)
        × ((ask_batch h verifier peers target batch l).1.closest ≡ l.closest)
  unfolding ask_batch
  ask_batch-AllLocal id batch l alone known =
      learn-AllLocal id (answers h verifier peers target batch) _ (answers-AllLocal id batch alone)
        (visit-keeps id batch l.visited known)

  rounds_alone :
      (fuel : ℕ) (l : Lookup) (id : Bytes)
      → KnowsOnly id
      → ((k : Bytes) → same id k ≡ true → is_visited k l.visited ≡ true)
      → (rounds h verifier peers target fuel l).closest ≡ l.closest
  unfolding rounds
  rounds_alone zero l id alone known = refl
  rounds_alone (suc fuel) l id alone known =
      let batch = batch_of h verifier peers target alpha l.visited l.queue in
      let asked = ask_batch-AllLocal id batch l alone known in
      elim (Bool-cases (is_empty h verifier peers target batch)) [
        | inl none_left ↦ rw (none_left, rounds) refl
        | inr some_left ↦ rw (some_left, rounds) (rw asked.0 asked.1)
      ]

  -- When every peer that answers knows only the node that asks, a lookup finds nothing, however many
  -- nodes its table holds: the nodes that it starts from are not among its results.
  find_node-alone :
      (fuel : ℕ) (t : RoutingTable)
      → KnowsOnly t.local_id
      → (find_node h verifier peers target fuel t).0 ≡ []
  unfolding find_node
  find_node-alone fuel t alone = rounds_alone fuel _ t.local_id alone (λ k e. ground (arith, e))
