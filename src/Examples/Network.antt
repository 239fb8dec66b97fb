-- ===== src/Examples/Network.antt =====
-- Routing tables, gossip and the handling of messages.
use primus_project.Base.{
  ℕ, suc, ◌≡◌, ◌≢◌, refl, ap, true, false, Option, none, some, List, [], ◌∷◌, ◌++◌, arith,
  replicate, length, min,
}
use primus_project.Base.Outcome.{ok, err}
use primus_project.Base.Ord.{bytes_ord, compare_bytes}
use primus_project.Machine.Word.{Bytes, xor_bits}
use primus_project.Types.Peer.{PrimusNr, node_id}
use primus_project.Types.Payload.{transfer}
use primus_project.Types.Reaction.{SignedReaction}
use primus_project.Net.Dht.{
  RoutingTable, new_table, try_insert, remove, bucket, all_peers, index_of, bucket_index, first_bit,
  leading_zeros, xor_distance, take_out, get_closest,
}
use primus_project.Net.Dht.Placed.{IsPlaced, Steps-IsPlaced, Steps, starts, removes, done, next}
use primus_project.Net.Dht.Closest.{AllNearer, get_closest_lem}
use primus_project.Net.Dht.Race.{IsFull, place, Steps-twice}
use primus_project.Net.Message.{PrimusMessage, handshake, new_reaction}
use primus_project.Net.Gossip.{Encoding, push_bytes, nothing, spread}
use primus_project.Net.Gossip.Relay.{AllRelays, spread-AllRelays}
use primus_project.Net.Gossip.Once.{spread-twice}
use primus_project.Net.Peers.{has_addr}
use primus_project.Net.Handler.{CoreHandle, Node, Texts, handle_peer_logic}
use primus_project.Net.Handler.Stale.{handle_peer_logic-stale}
use primus_project.Examples.Data.{hashes, reaction}
use mathlib.Core.List.{Perm}

abbrev peer : ℕ → PrimusNr
peer key = record {
  public_key = key ∷ [];
  addr_ip = key;
  addr_port = 9000;
  signature = [];
  timestamp = 0;
}

abbrev home : Bytes
home = 0 ∷ []

Steps-IsPlaced_example :
    IsPlaced hashes (remove hashes (7 ∷ []) (try_insert hashes (peer 200) (new_table home)).0)
Steps-IsPlaced_example =
    Steps-IsPlaced hashes home _
      (next (next (done _) (starts (peer 200) (new_table home) [])) (removes (7 ∷ []) _ _))

-- A table whose first bucket has 20 nodes.
abbrev crowd : List PrimusNr
crowd =
    peer 128
    ∷ peer 129
    ∷ peer 130
    ∷ peer 131
    ∷ peer 132
    ∷ peer 133
    ∷ peer 134
    ∷ peer 135
    ∷ peer 136
    ∷ peer 137
    ∷ peer 138
    ∷ peer 139
    ∷ peer 140
    ∷ peer 141
    ∷ peer 142
    ∷ peer 143
    ∷ peer 144
    ∷ peer 145
    ∷ peer 146
    ∷ peer 147
    ∷ []

abbrev crowded : RoutingTable
crowded = record { local_id = home; buckets = crowd ∷ replicate 255 [] }

get_closest_lem_example :
    (rest : List PrimusNr) × Perm
      (get_closest hashes (130 ∷ []) 3 crowded ++ rest)
      (all_peers crowded)
    × AllNearer hashes (130 ∷ []) (get_closest hashes (130 ∷ []) 3 crowded) rest
    × (length (get_closest hashes (130 ∷ []) 3 crowded) ≡ min 3 (length (all_peers crowded)))
get_closest_lem_example = get_closest_lem hashes (130 ∷ []) 3 crowded

place_200 : place hashes (peer 200) crowded ≡ 0
unfolding index_of bucket_index first_bit leading_zeros xor_distance xor_bits node_id
place_200 = refl

crowded-IsFull : IsFull hashes (peer 200) crowded
unfolding index_of bucket_index first_bit leading_zeros xor_distance xor_bits node_id bucket
    take_out bytes_ord compare_bytes
crowded-IsFull = record { in_range = omega arith; full = refl; absent = refl; foreign = refl }

Steps-twice_example :
    (s : RoutingTable × List PrimusNr) × Steps hashes (crowded, []) s
    × (rest : List PrimusNr) × (bucket (place hashes (peer 200) crowded) s.0
        ≡ peer 200 ∷ peer 200 ∷ rest)
Steps-twice_example = Steps-twice hashes (peer 200) crowded crowded-IsFull

abbrev text : PrimusMessage → Bytes
text (new_reaction bytes ttl) = ttl ∷ bytes
text _ = []

abbrev encoding : Encoding
encoding = record { serialize = λ m. some (text m); debug = λ m. []; iter = λ s. s }

abbrev addresses : List Bytes
addresses = (1 ∷ []) ∷ (2 ∷ []) ∷ []

spread-AllRelays_example :
    AllRelays
      (some (1 ∷ []))
      (new_reaction (5 ∷ []) 3)
      (spread hashes encoding (new_reaction (5 ∷ []) 3) (some (1 ∷ [])) addresses []).sends
spread-AllRelays_example =
    spread-AllRelays hashes encoding (new_reaction (5 ∷ []) 3) (some (1 ∷ [])) addresses []

spread-twice_example :
    spread hashes encoding
      (new_reaction (5 ∷ []) 3)
      (some (2 ∷ []))
      addresses
      (spread hashes encoding (new_reaction (5 ∷ []) 3) none addresses []).seen
    ≡ nothing (spread hashes encoding (new_reaction (5 ∷ []) 3) none addresses []).seen
spread-twice_example =
    spread-twice hashes encoding (new_reaction (5 ∷ []) 3) none (some (2 ∷ [])) addresses addresses
      [] (omega arith)

abbrev decode : Bytes → Option SignedReaction
decode [] = none
decode (_ ∷ _) = some (reaction (transfer 10))

-- A core that counts the crystals it gets.
abbrev core : CoreHandle ℕ
core = record {
  on_crystal = λ bytes c. (ok tt, suc c);
  local_state = λ c. (c, 0, 0);
  get_crystal_bytes = λ index c. none;
  set_sync_target = λ target c. c;
  is_syncing = λ c. false;
  finish_sync = λ c. c;
  get_atom_state = λ address c. err [];
  push_bytes = λ bytes c. (ok tt, c);
  on_get_proof = λ address c. err [];
}

abbrev texts : Texts
texts = record {
  decode = decode;
  addr_text = λ nr. nr.public_key;
  stable_addr = λ ip port. ip ++ 58 ∷ port ∷ [];
  shield_error = [];
}

abbrev node : Node ℕ
node = record {
  core = 0;
  dht = record { table = crowded; addr_peers = [] };
  frame_drops = 0;
  connects = [];
  spreads = [];
}

three-ne-one : ◌≢◌ {A = ℕ} 3 1
three-ne-one = omega arith

longer : ◌≢◌ {A = Bytes} (9 ∷ 58 ∷ 80 ∷ []) (9 ∷ [])
longer e = absurd (three-ne-one (ap length e))

handle_peer_logic-stale_example :
    has_addr
      (9 ∷ 58 ∷ 80 ∷ [])
      (handle_peer_logic hashes texts core
        (9 ∷ [])
        (some (handshake [] [] 4 0 80) ∷ some (new_reaction (5 ∷ []) 3) ∷ [])
        node).0.dht.addr_peers
    ≡ true
handle_peer_logic-stale_example =
    handle_peer_logic-stale hashes texts core (9 ∷ []) [] [] 4 0 80
      (some (new_reaction (5 ∷ []) 3) ∷ []) node longer
