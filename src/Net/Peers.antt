-- ===== src/Net/Peers.antt =====
-- `PrimusDHT` of primus-net-opt/src/dht.rs: the routing table with the addresses of peers that have
-- no record yet. The texts of addresses are byte strings.
use package.primus_project.Base.{ℕ, Bool, false, List, [], ◌∷◌, ◌++◌, ◌||◌, if◌then◌else◌, map}
use package.primus_project.Base.Ord.{same, bytes_ord}
use package.primus_project.Machine.Word.{Bytes}
use package.primus_project.Types.Crypto.{Hashes, Verifier}
use package.primus_project.Types.Peer.{PrimusNr, node_id, verify}
use package.primus_project.Net.Dht
use package.primus_project.Net.Dht.{RoutingTable, new_table, all_peers, get_closest, len}

pub record PrimusDht : Type 0 where
  pub table : RoutingTable
  pub addr_peers : List Bytes

abbrev pub new_dht : Hashes → PrimusNr → PrimusDht
new_dht h local_nr = record { table = new_table (node_id h local_nr); addr_peers = [] }

unfoldable pub insert : Hashes → Verifier → (PrimusNr → Bool) → PrimusNr → PrimusDht → PrimusDht
insert h verifier ping nr d =
    if verify verifier nr then record d { table = Dht.insert h ping nr d.table } else d

unfoldable pub remove : Hashes → Bytes → PrimusDht → PrimusDht
remove h id d = record d { table = Dht.remove h id d.table }

abbrev pub has_addr : Bytes → List Bytes → Bool
has_addr addr [] = false
has_addr addr (a ∷ addrs) = same a addr || has_addr addr addrs

unfoldable pub register_peer_addr : Bytes → PrimusDht → PrimusDht
register_peer_addr addr d =
    if has_addr addr d.addr_peers then d else record d { addr_peers = d.addr_peers ++ addr ∷ [] }

abbrev pub without_addr : Bytes → List Bytes → List Bytes
without_addr addr [] = []
without_addr addr (a ∷ addrs) =
    let rest = without_addr addr addrs in if same a addr then rest else a ∷ rest

unfoldable pub remove_peer_addr : Bytes → PrimusDht → PrimusDht
remove_peer_addr addr d = record d { addr_peers = without_addr addr d.addr_peers }

-- The loop over the second list.
unfoldable pub merge_addrs : List Bytes → List Bytes → List Bytes
merge_addrs merged [] = merged
merge_addrs merged (a ∷ addrs) =
    merge_addrs (if has_addr a merged then merged else merged ++ a ∷ []) addrs

-- `addr_text` is the text of a record's address.
unfoldable pub get_peer_list : (PrimusNr → Bytes) → PrimusDht → List Bytes
get_peer_list addr_text d = merge_addrs (map addr_text (all_peers d.table)) d.addr_peers

unfoldable pub find_closest : Hashes → Bytes → ℕ → PrimusDht → List PrimusNr
find_closest h target k d = get_closest h target k d.table

unfoldable pub peer_count : PrimusDht → ℕ
peer_count d = len d.table
