-- ===== src/Net/Dht.antt =====
-- primus-net-opt/src/dht.rs: the routing table.
pub mod Placed
pub mod Closest
pub mod Race
use package.primus_project.Base.{
  ℕ, zero, suc, ◌+◌, ◌*◌, ◌/◌, Bool, true, false, not, Option, none, some, List, [], ◌∷◌, ◌++◌, ltb,
  ◌==◌, if◌then◌else◌, length, replicate, take, set, get_elem?,
}
use package.primus_project.Base.Ord.{same, bytes_ord, compare_bytes}
use package.primus_project.Machine.Word.{Bytes, xor_bits}
use package.primus_project.Types.Crypto.{Hashes, Verifier}
use package.primus_project.Types.Peer.{PrimusNr, node_id, verify}
use Prim.Native.Nat.Ordering.{gt}

abbrev pub bucket_size : ℕ
bucket_size = 20

abbrev pub nbuckets : ℕ
nbuckets = 256

unfoldable pub xor_distance : Bytes → Bytes → Bytes
xor_distance [] b = []
xor_distance (x ∷ a) [] = []
xor_distance (x ∷ a) (y ∷ b) = xor_bits 8 x y ∷ xor_distance a b

-- `leading_zeros` of a word of `w` bits.
unfoldable pub leading_zeros : ℕ → ℕ → ℕ
leading_zeros zero x = 0
leading_zeros (suc w) x = let below = leading_zeros w (x / 2) in if x == 0 then suc w else below

-- The loop over the bytes, from the `i`th on.
unfoldable pub first_bit : ℕ → Bytes → ℕ
first_bit i [] = 255
first_bit i (byte ∷ dist) =
    let later = first_bit (suc i) dist in if byte == 0 then later else i * 8 + leading_zeros 8 byte

unfoldable pub bucket_index : Bytes → ℕ
bucket_index dist = first_bit 0 dist

-- `last`
unfoldable pub tail_of : List PrimusNr → Option PrimusNr
tail_of [] = none
tail_of (n ∷ []) = some n
tail_of (n ∷ m ∷ nodes) = tail_of (m ∷ nodes)

-- `pop`
unfoldable pub drop_tail : List PrimusNr → List PrimusNr
drop_tail [] = []
drop_tail (n ∷ []) = []
drop_tail (n ∷ m ∷ nodes) = n ∷ drop_tail (m ∷ nodes)

-- A bucket is its nodes, the most recently seen first.
unfoldable pub replace_tail : PrimusNr → List PrimusNr → List PrimusNr
replace_tail nr [] = []
replace_tail nr (n ∷ nodes) = nr ∷ drop_tail (n ∷ nodes)

pub record RoutingTable : Type 0 where
  pub local_id : Bytes
  pub buckets : List (List PrimusNr)

abbrev pub new_table : Bytes → RoutingTable
new_table local_id = record { local_id = local_id; buckets = replicate nbuckets [] }

-- `self.buckets[idx]`, whose index is always below 256.
unfoldable pub bucket : ℕ → RoutingTable → List PrimusNr
bucket idx t = elim (get_elem? t.buckets idx) [ none ↦ [] | some nodes ↦ nodes ]

unfoldable pub set_bucket : ℕ → List PrimusNr → RoutingTable → RoutingTable
set_bucket idx nodes t = record t { buckets = set t.buckets idx nodes }

abbrev pub flatten : List (List PrimusNr) → List PrimusNr
flatten [] = []
flatten (b ∷ bs) = b ++ flatten bs

unfoldable pub all_peers : RoutingTable → List PrimusNr
all_peers t = flatten t.buckets

unfoldable pub len : RoutingTable → ℕ
len t = length (all_peers t)

unfoldable pub is_empty : RoutingTable → Bool
is_empty t = len t == 0

module _ (h : Hashes) where
  -- `position` and `remove`: the first node with this id, and the others.
  unfoldable pub take_out : Bytes → List PrimusNr → Option (PrimusNr × List PrimusNr)
  take_out id [] = none
  take_out id (n ∷ nodes) =
      let later = take_out id nodes in
      if same (node_id h n) id
      then some (n, nodes)
      else elim later [ none ↦ none | some found ↦ some (found.0, n ∷ found.1) ]

  -- `KBucket::insert`: the nodes after it, and the tail of a full bucket.
  unfoldable pub insert_node : PrimusNr → List PrimusNr → List PrimusNr × Option PrimusNr
  insert_node nr nodes = elim (take_out (node_id h nr) nodes) [
    | some found ↦ (found.0 ∷ found.1, none)
    | none ↦ if ltb (length nodes) bucket_size then (nr ∷ nodes, none) else (nodes, tail_of nodes)
  ]

  unfoldable pub remove_node : Bytes → List PrimusNr → List PrimusNr
  remove_node id [] = []
  remove_node id (n ∷ nodes) =
      let rest = remove_node id nodes in if same (node_id h n) id then rest else n ∷ rest

  unfoldable pub index_of : RoutingTable → Bytes → ℕ
  index_of t id = bucket_index (xor_distance t.local_id id)

  -- The first critical section of `insert`: the table, and the tail that is to be pinged.
  unfoldable pub try_insert : PrimusNr → RoutingTable → RoutingTable × Option PrimusNr
  try_insert nr t =
      let idx = index_of t (node_id h nr) in
      let (nodes, candidate) = insert_node nr (bucket idx t) in
      if same (node_id h nr) t.local_id then (t, none) else (set_bucket idx nodes t, candidate)

  -- The second one, when the tail did not answer.
  unfoldable pub evict : PrimusNr → RoutingTable → RoutingTable
  evict nr t =
      let idx = index_of t (node_id h nr) in set_bucket idx (replace_tail nr (bucket idx t)) t

  -- `insert` and `insert_arc`, where nothing else happens between the two.
  unfoldable pub insert : (PrimusNr → Bool) → PrimusNr → RoutingTable → RoutingTable
  insert ping nr t =
      let (t', candidate) = try_insert nr t in
      elim candidate [ none ↦ t' | some oldest ↦ if ping oldest then t' else evict nr t' ]

  unfoldable pub remove : Bytes → RoutingTable → RoutingTable
  remove id t = let idx = index_of t id in set_bucket idx (remove_node id (bucket idx t)) t

  -- `sort_unstable_by` on the distance. Nodes at one distance have one id.
  unfoldable pub insert_by_distance : Bytes → PrimusNr → List PrimusNr → List PrimusNr
  insert_by_distance target nr [] = nr ∷ []
  insert_by_distance target nr (n ∷ nodes) =
      let later = insert_by_distance target nr nodes in
      elim (compare_bytes (xor_distance (node_id h nr) target)
        (xor_distance (node_id h n) target)) [ gt ↦ n ∷ later | _ ↦ nr ∷ n ∷ nodes ]

  unfoldable pub sort_by_distance : Bytes → List PrimusNr → List PrimusNr
  sort_by_distance target [] = []
  sort_by_distance target (n ∷ nodes) = insert_by_distance target n (sort_by_distance target nodes)

  unfoldable pub get_closest : Bytes → ℕ → RoutingTable → List PrimusNr
  get_closest target k t = take k (sort_by_distance target (all_peers t))
