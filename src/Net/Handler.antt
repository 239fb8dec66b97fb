-- ===== src/Net/Handler.antt =====
-- What a node does with a message of a peer: `handle_peer_logic` of primus-net-opt/src/network.rs,
-- one message at a time. Sending back succeeds, a request to the core is answered in time, and the
-- tasks that are spawned are listed.
pub mod Stale
use package.primus_project.Base.{
  ℕ, suc, ◌+◌, ◌-◌, ◌%◌, ◌^◌, Bool, true, false, ◌||◌, Option, none, some, List, [], ◌∷◌, ◌++◌, ltb,
  leb, if◌then◌else◌, zero,
}
use package.primus_project.Base.Outcome.{Result, ok, err}
use package.primus_project.Machine.Word.{Bytes}
use package.primus_project.Machine.Float.{F32, lt_f32}
use package.primus_project.Types.Crypto.{Hashes}
use package.primus_project.Types.Peer.{PrimusNr}
use package.primus_project.Types.Proof.{MerkleProof}
use package.primus_project.Types.Galactic
use package.primus_project.Types.Galactic.{
  GalacticStatus, from_engine, is_more_dominant_than, request_crystals, inventory_response,
}
use package.primus_project.Types.Reaction.{SignedReaction}
use package.primus_project.Net.Message.{
  PrimusMessage, ping, pong, handshake, get_peers, peers_response, new_reaction, new_crystal,
  get_crystal, crystal_response, sync, fetch_state, state_response, submit_reaction, reaction_ack,
  node_error, get_proof, proof_response,
}
use package.primus_project.Net.Peers.{
  PrimusDht, register_peer_addr, remove_peer_addr, get_peer_list,
}
use package.primus_project.Net.Shield.{filter_bytes}

-- The trait `CoreHandle`, on states of type `C`. An error is its text.
pub record CoreHandle (C : Type 0) : Type 0 where
  pub on_crystal : Bytes → C → Result Bytes (Unit {0}) × C
  pub local_state : C → ℕ × F32 × F32
  pub get_crystal_bytes : ℕ → C → Option Bytes
  pub set_sync_target : ℕ → C → C
  pub is_syncing : C → Bool
  pub finish_sync : C → C
  pub get_atom_state : Bytes → C → Result Bytes (ℕ × ℕ × Bytes × Bytes)
  pub push_bytes : Bytes → C → Result Bytes (Unit {0}) × C
  pub on_get_proof : Bytes → C → Result Bytes MerkleProof

-- A node with what it has handed to other tasks: connections to open, messages to spread.
pub record Node (C : Type 0) : Type 0 where
  pub core : C
  pub dht : PrimusDht
  pub frame_drops : ℕ
  pub connects : List Bytes
  pub spreads : List (PrimusMessage × Option Bytes)

-- The crates and the texts: the decoder of reactions, the text of a record's address and of "ip:port",
-- and the text of the shield's error.
pub record Texts : Type 0 where
  pub decode : Bytes → Option SignedReaction
  pub addr_text : PrimusNr → Bytes
  pub stable_addr : Bytes → ℕ → Bytes
  pub shield_error : Bytes

-- The crystals from `index` on, `count` of them, that the core has.
unfoldable pub crystals_from : {C : Type 0} → CoreHandle C → C → ℕ → ℕ → List PrimusMessage
crystals_from core c zero index = []
crystals_from core c (suc count) index =
    let rest = crystals_from core c count (suc index) in
    elim (core.get_crystal_bytes index c) [ none ↦ rest | some b ↦ crystal_response b ∷ rest ]

unfoldable pub receive_crystals : {C : Type 0} → CoreHandle C → List Bytes → C → C
receive_crystals core [] c = c
receive_crystals core (b ∷ crystals) c = receive_crystals core crystals (core.on_crystal b c).1

module _ {C : Type 0} (h : Hashes) (texts : Texts) (core : CoreHandle C) (peer_ip : Bytes) where
  -- The node after a message, and the messages sent back.
  abbrev pub Reply : Type 0
  Reply = Node C × List PrimusMessage

  abbrev pub set_core : C → Node C → Node C
  set_core c n = record n { core = c }

  -- Whether the peer is ahead, and what is asked of it. A height is a u64.
  unfoldable pub on_handshake : ℕ → F32 → ℕ → Node C → Reply
  on_handshake chain_height total_energy listener_port n =
      let known = record n {
        dht = register_peer_addr (texts.stable_addr peer_ip listener_port) n.dht;
      } in
      let (height, entropy, energy) = core.local_state n.core in
      let behind =
        if ltb ((height + 5) % 2 ^ 64) chain_height
        then set_core (core.set_sync_target chain_height n.core) known
        else known in
      if lt_f32 entropy total_energy || ltb height chain_height
      then (
        behind,
        sync (Galactic.handshake (from_engine height entropy energy))
            ∷ sync (request_crystals ((height + 1) % 2 ^ 64) chain_height)
            ∷ [],
      )
      else (known, [])

  -- The core takes the bytes first, then the message is spread with the address of its sender, which
  -- has no port.
  unfoldable pub on_new_reaction : Bytes → PrimusMessage → Node C → Reply
  on_new_reaction bytes m n =
      let (result, c) = core.push_bytes bytes n.core in
      elim result [
        | err _ ↦ (set_core c n, [])
        | ok _ ↦ (record (set_core c n) { spreads = n.spreads ++ (m, some peer_ip) ∷ [] }, [])
      ]

  unfoldable pub on_new_crystal : Bytes → PrimusMessage → Node C → Reply
  on_new_crystal bytes m n =
      let (result, c) = core.on_crystal bytes n.core in
      elim result [
        | err _ ↦ (set_core c n, [])
        | ok _ ↦ (record (set_core c n) { spreads = n.spreads ++ (m, some peer_ip) ∷ [] }, [])
      ]

  unfoldable pub on_sync_handshake : GalacticStatus → Node C → Reply
  on_sync_handshake their_status n =
      let (height, entropy, energy) = core.local_state n.core in
      if is_more_dominant_than their_status (from_engine height entropy energy)
      then (
        set_core (core.set_sync_target their_status.crystal_index n.core) n,
        sync (request_crystals ((height + 1) % 2 ^ 64) their_status.crystal_index) ∷ [],
      )
      else (n, [])

  unfoldable pub on_inventory : List Bytes → Node C → Reply
  on_inventory crystals n =
      let c = receive_crystals core crystals n.core in
      (set_core (if core.is_syncing c then c else core.finish_sync c) n, [])

  unfoldable pub on_fetch_state : Bytes → Node C → Reply
  on_fetch_state address n = elim (core.get_atom_state address n.core) [
    | ok (mass, nonce, last_hash, element) ↦ (n, state_response mass nonce last_hash element ∷ [])
    | err reason ↦ (n, node_error reason ∷ [])
  ]

  -- The shield, then the core. The acknowledgement has the hash of the bytes.
  unfoldable pub on_submit : Bytes → Node C → Reply
  on_submit reaction_bytes n = elim (filter_bytes h texts.decode reaction_bytes 0).0 [
    | err _ ↦ (
      record n { frame_drops = (n.frame_drops + 1) % 2 ^ 64 },
      node_error texts.shield_error ∷ [],
    )
    | ok _ ↦
        let (result, c) = core.push_bytes reaction_bytes n.core in
        elim result [
          | ok _ ↦ (set_core c n, reaction_ack (h.blake3 reaction_bytes) ∷ [])
          | err reason ↦ (set_core c n, node_error reason ∷ [])
        ]
  ]

  unfoldable pub on_get_proof : Bytes → Node C → Reply
  on_get_proof address n = elim (core.on_get_proof address n.core) [
    | ok proof ↦ (n, proof_response proof ∷ [])
    | err reason ↦ (n, node_error reason ∷ [])
  ]

  unfoldable pub handle : PrimusMessage → Node C → Reply
  handle ping n = (n, pong ∷ [])
  handle get_peers n = (n, peers_response (get_peer_list texts.addr_text n.dht) ∷ [])
  handle (peers_response peers) n = (record n { connects = n.connects ++ peers }, [])
  handle (handshake _ _ chain_height total_energy listener_port) n =
      on_handshake chain_height total_energy listener_port n
  handle (new_reaction bytes ttl) n = on_new_reaction bytes (new_reaction bytes ttl) n
  handle (new_crystal bytes ttl) n = on_new_crystal bytes (new_crystal bytes ttl) n
  handle (get_crystal index) n = (n, crystals_from core n.core 1 index)
  handle (crystal_response bytes) n = (set_core (core.on_crystal bytes n.core).1 n, [])
  handle (sync (Galactic.handshake status)) n = on_sync_handshake status n
  handle (sync (request_crystals start end)) n =
      (n, crystals_from core n.core (suc end - start) start)
  handle (sync (inventory_response crystals)) n = on_inventory crystals n
  handle (fetch_state address) n = on_fetch_state address n
  handle (submit_reaction reaction_bytes) n = on_submit reaction_bytes n
  handle (get_proof address) n = on_get_proof address n
  handle _ n = (n, [])

  -- What follows the last frame.
  unfoldable pub close : Node C → Node C
  close n = record n { dht = remove_peer_addr peer_ip n.dht }

  -- The loop over the frames of a connection. A frame that does not decode is an error, which skips
  -- what follows the last frame.
  unfoldable pub handle_peer_logic :
      List (Option PrimusMessage) → Node C → Node C × List PrimusMessage
  handle_peer_logic [] n = (close n, [])
  handle_peer_logic (none ∷ frames) n = (n, [])
  handle_peer_logic (some m ∷ frames) n =
      let (n', replies) = handle m n in
      let (closed, later) = handle_peer_logic frames n' in (closed, replies ++ later)
