-- ===== src/Net/Lookup.antt =====
-- `find_node` of primus-net-opt/src/lib.rs. The answers of the peers are a parameter, and the
-- requests of one round are made one after the other.
pub mod Alone
use package.primus_project.Base.{
  ℕ, zero, suc, Bool, true, false, not, ◌&&◌, ◌||◌, Option, none, some, List, [], ◌∷◌, ◌++◌, take,
  length, leb, if◌then◌else◌,
}
use package.primus_project.Base.Ord.{same, bytes_ord}
use package.primus_project.Machine.Word.{Bytes}
use package.primus_project.Types.Crypto.{Hashes, Verifier}
use package.primus_project.Types.Peer.{PrimusNr, node_id, verify}
use package.primus_project.Net.Dht.{
  bucket_size, RoutingTable, insert, remove, get_closest, sort_by_distance,
}

abbrev pub alpha : ℕ
alpha = 3

abbrev pub is_visited : Bytes → List Bytes → Bool
is_visited id [] = false
is_visited id (v ∷ visited) = same v id || is_visited id visited

-- What the rest of the network does: the answer of a node to a request, if one comes, and whether
-- a node answers a ping.
pub record Peers : Type 0 where
  pub ask : PrimusNr → Option (List PrimusNr)
  pub ping : PrimusNr → Bool

pub record Lookup : Type 0 where
  pub table : RoutingTable
  pub queue : List PrimusNr
  pub closest : List PrimusNr
  pub visited : List Bytes

module _ (h : Hashes) (verifier : Verifier) (peers : Peers) (target : Bytes) where
  unfoldable pub handle_new_peer : PrimusNr → RoutingTable → RoutingTable
  handle_new_peer nr t = if verify verifier nr then insert h peers.ping nr t else t

  -- The first nodes of the queue that are not visited, at most `room` of them.
  unfoldable pub batch_of : ℕ → List Bytes → List PrimusNr → List PrimusNr
  batch_of room visited [] = []
  batch_of zero visited (n ∷ queue) = []
  batch_of (suc room) visited (n ∷ queue) =
      let skipped = batch_of (suc room) visited queue in
      let taken = batch_of room visited queue in
      if is_visited (node_id h n) visited then skipped else n ∷ taken

  unfoldable pub visit : List PrimusNr → List Bytes → List Bytes
  visit [] visited = visited
  visit (n ∷ batch) visited = visit batch (node_id h n ∷ visited)

  -- `mark_failed` for every node that does not answer.
  unfoldable pub drop_silent : List PrimusNr → RoutingTable → RoutingTable
  drop_silent [] t = t
  drop_silent (n ∷ batch) t =
      drop_silent batch (elim (peers.ask n) [ none ↦ remove h (node_id h n) t | some _ ↦ t ])

  -- The answers, without the errors.
  unfoldable pub answers : List PrimusNr → List PrimusNr
  answers [] = []
  answers (n ∷ batch) =
      let rest = answers batch in elim (peers.ask n) [ none ↦ rest | some nodes ↦ nodes ++ rest ]

  -- The loop over the answers, which says whether one of them is new.
  unfoldable pub learn : List PrimusNr → Bool × Lookup → Bool × Lookup
  learn [] s = s
  learn (n ∷ nodes) (found, l) =
      let known = record l { table = handle_new_peer n l.table } in
      learn nodes (
        if is_visited (node_id h n) l.visited
        then (found, known)
        else (true, record known { queue = l.queue ++ n ∷ [] }))

  -- `dedup_by_key`: a node goes when the one before it has its id.
  unfoldable pub dedup_after : Bytes → List PrimusNr → List PrimusNr
  dedup_after id [] = []
  dedup_after id (n ∷ nodes) =
      let dropped = dedup_after id nodes in
      let kept = n ∷ dedup_after (node_id h n) nodes in
      if same id (node_id h n) then dropped else kept

  abbrev dedup : List PrimusNr → List PrimusNr
  dedup [] = []
  dedup (n ∷ nodes) = n ∷ dedup_after (node_id h n) nodes

  unfoldable pub unvisited : List Bytes → List PrimusNr → List PrimusNr
  unvisited visited [] = []
  unvisited visited (n ∷ nodes) =
      let rest = unvisited visited nodes in
      if is_visited (node_id h n) visited then rest else n ∷ rest

  -- The closest nodes and the next queue.
  unfoldable pub narrow : Lookup → Lookup
  narrow l =
      let closest = take bucket_size (dedup (sort_by_distance h target (l.closest ++ l.queue))) in
      record l { closest = closest; queue = unvisited l.visited closest }

  -- The requests of one round and what is learnt from them.
  unfoldable pub ask_batch : List PrimusNr → Lookup → Bool × Lookup
  ask_batch batch l =
      learn (answers batch)
        (false, record l { visited = visit batch l.visited; table = drop_silent batch l.table })

  abbrev pub is_empty : List PrimusNr → Bool
  is_empty [] = true
  is_empty (_ ∷ _) = false

  -- The loop. Fuel is for the rounds.
  unfoldable pub rounds : ℕ → Lookup → Lookup
  rounds zero l = l
  rounds (suc fuel) l =
      let batch = batch_of alpha l.visited l.queue in
      let (found, asked) = ask_batch batch l in
      let narrowed = narrow asked in
      let later = rounds fuel narrowed in
      if is_empty batch
      then l
      else (if not found then asked else if is_empty narrowed.queue then narrowed else later)

  -- The nodes found, and the table.
  unfoldable pub find_node : ℕ → RoutingTable → List PrimusNr × RoutingTable
  find_node fuel t =
      let start : Lookup = record {
        table = t;
        queue = get_closest h target bucket_size t;
        closest = [];
        visited = t.local_id ∷ [];
      } in
      let l = rounds fuel start in (l.closest, l.table)
