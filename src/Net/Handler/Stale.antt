-- ===== src/Net/Handler/Stale.antt =====
-- The address of a peer after its connection.
use primus_project.Base.{
  ℕ, ◌≡◌, ◌≢◌, ◌∙◌, sym, ap, true, Bool-cases, inl, inr, Option, none, some, List, [], ◌∷◌, ◌++◌,
  arith,
}
use primus_project.Base.Ord.{same, same_iff, same_refl, bytes_ord}
use primus_project.Machine.Word.{Bytes}
use primus_project.Machine.Float.{F32}
use primus_project.Types.Crypto.{Hashes}
use primus_project.Types.Galactic.{
  GalacticStatus, handshake as sync_handshake, request_crystals, inventory_response,
}
use primus_project.Net.Message.{
  PrimusMessage, ping, pong, handshake, get_peers, peers_response, new_reaction, new_crystal,
  get_crystal, crystal_response, sync, fetch_state, state_response, submit_reaction, reaction_ack,
  node_error, get_proof, proof_response,
}
use primus_project.Net.Peers.{
  PrimusDht, has_addr, without_addr, register_peer_addr, remove_peer_addr,
}
use primus_project.Net.Handler.{
  CoreHandle, Node, Texts, on_handshake, on_new_reaction, on_new_crystal, on_sync_handshake,
  on_inventory, on_fetch_state, on_submit, on_get_proof, handle, close, handle_peer_logic,
}

has_addr-append :
    (a b : Bytes) (addrs : List Bytes)
    → has_addr a addrs ≡ true
    → has_addr a (addrs ++ b ∷ []) ≡ true
has_addr-append a b [] e = cc
has_addr-append a b (x ∷ addrs) e = ground (arith, e, has_addr-append a b addrs)

has_addr-last : (a : Bytes) (addrs : List Bytes) → has_addr a (addrs ++ a ∷ []) ≡ true
has_addr-last a [] = ground (arith, same_refl a)
has_addr-last a (x ∷ addrs) = ground (arith, has_addr-last a addrs)

has_addr-without :
    (a b : Bytes) (addrs : List Bytes)
    → a ≢ b
    → has_addr a addrs ≡ true
    → has_addr a (without_addr b addrs) ≡ true
has_addr-without a b [] differ e = e
has_addr-without a b (x ∷ addrs) differ e = elim (Bool-cases (same x b)) [
  | inl gone ↦ elim (Bool-cases (same x a)) [
    | inl first ↦ absurd (differ (sym ((same_iff x a).0 first) ∙ (same_iff x b).0 gone))
    | inr later ↦ rw gone (has_addr-without a b addrs differ (ground (arith, e, later)))
  ]
  | inr kept ↦ elim (Bool-cases (same x a)) [
    | inl first ↦ rw kept (ground (arith, first))
    | inr later ↦
        rw kept
          (ground (arith, later, has_addr-without a b addrs differ (ground (arith, e, later))))
  ]
]

register_keeps :
    (a b : Bytes) (d : PrimusDht)
    → has_addr a d.addr_peers ≡ true
    → has_addr a (register_peer_addr b d).addr_peers ≡ true
unfolding register_peer_addr
register_keeps a b d e = ground (arith, e, has_addr-append a b d.addr_peers)

registered : (a : Bytes) (d : PrimusDht) → has_addr a (register_peer_addr a d).addr_peers ≡ true
unfolding register_peer_addr
registered a d = ground (arith, has_addr-last a d.addr_peers)

module _ {C : Type 0} (h : Hashes) (texts : Texts) (core : CoreHandle C) (peer_ip : Bytes) where
  abbrev Knows : Bytes → Node C → Type 0
  Knows a n = has_addr a n.dht.addr_peers ≡ true

  on_handshake-dht :
      (height : ℕ) (energy : F32) (port : ℕ) (n : Node C)
      → (on_handshake h texts core peer_ip height energy port n).0.dht
        ≡ register_peer_addr (texts.stable_addr peer_ip port) n.dht
  unfolding on_handshake
  on_handshake-dht height energy port n = ground arith

  on_submit-dht : (b : Bytes) (n : Node C) → (on_submit h texts core peer_ip b n).0.dht ≡ n.dht
  unfolding on_submit
  on_submit-dht b n = ground arith

  on_new_reaction-dht :
      (b : Bytes) (m : PrimusMessage) (n : Node C)
      → (on_new_reaction h texts core peer_ip b m n).0.dht ≡ n.dht
  unfolding on_new_reaction
  on_new_reaction-dht b m n = ground arith

  on_new_crystal-dht :
      (b : Bytes) (m : PrimusMessage) (n : Node C)
      → (on_new_crystal h texts core peer_ip b m n).0.dht ≡ n.dht
  unfolding on_new_crystal
  on_new_crystal-dht b m n = ground arith

  on_sync_handshake-dht :
      (s : GalacticStatus) (n : Node C) → (on_sync_handshake h texts core peer_ip s n).0.dht ≡ n.dht
  unfolding on_sync_handshake
  on_sync_handshake-dht s n = ground arith

  on_fetch_state-dht :
      (b : Bytes) (n : Node C) → (on_fetch_state h texts core peer_ip b n).0.dht ≡ n.dht
  unfolding on_fetch_state
  on_fetch_state-dht b n = ground arith

  on_get_proof-dht :
      (b : Bytes) (n : Node C) → (on_get_proof h texts core peer_ip b n).0.dht ≡ n.dht
  unfolding on_get_proof
  on_get_proof-dht b n = ground arith

  kept_by :
      (a : Bytes) (d d' : PrimusDht)
      → d' ≡ d
      → has_addr a d.addr_peers ≡ true
      → has_addr a d'.addr_peers ≡ true
  kept_by a d d' e known = ap (λ x. has_addr a x.addr_peers) e ∙ known

  handle-Knows :
      (a : Bytes) (m : PrimusMessage) (n : Node C)
      → Knows a n
      → Knows a (handle h texts core peer_ip m n).0
  unfolding handle on_inventory
  handle-Knows a (handshake _ _ height energy port) n known =
      kept_by a _ _ (on_handshake-dht height energy port n)
        (register_keeps a (texts.stable_addr peer_ip port) n.dht known)
  handle-Knows a (new_reaction b ttl) n known =
      kept_by a _ _ (on_new_reaction-dht b (new_reaction b ttl) n) known
  handle-Knows a (new_crystal b ttl) n known =
      kept_by a _ _ (on_new_crystal-dht b (new_crystal b ttl) n) known
  handle-Knows a (sync (sync_handshake s)) n known = kept_by a _ _ (on_sync_handshake-dht s n) known
  handle-Knows a (sync (request_crystals _ _)) n known = known
  handle-Knows a (sync (inventory_response _)) n known = known
  handle-Knows a (fetch_state b) n known = kept_by a _ _ (on_fetch_state-dht b n) known
  handle-Knows a (submit_reaction b) n known = kept_by a _ _ (on_submit-dht b n) known
  handle-Knows a (get_proof b) n known = kept_by a _ _ (on_get_proof-dht b n) known
  handle-Knows a ping n known = known
  handle-Knows a pong n known = known
  handle-Knows a get_peers n known = known
  handle-Knows a (peers_response _) n known = known
  handle-Knows a (get_crystal _) n known = known
  handle-Knows a (crystal_response _) n known = known
  handle-Knows a (state_response _ _ _ _) n known = known
  handle-Knows a (reaction_ack _) n known = known
  handle-Knows a (node_error _) n known = known
  handle-Knows a (proof_response _) n known = known

  handle_peer_logic-Knows :
      (a : Bytes) (frames : List (Option PrimusMessage)) (n : Node C)
      → a ≢ peer_ip
      → Knows a n
      → Knows a (handle_peer_logic h texts core peer_ip frames n).0
  unfolding handle_peer_logic close remove_peer_addr
  handle_peer_logic-Knows a [] n differ known =
      has_addr-without a peer_ip n.dht.addr_peers differ known
  handle_peer_logic-Knows a (none ∷ frames) n differ known = known
  handle_peer_logic-Knows a (some m ∷ frames) n differ known =
      handle_peer_logic-Knows a frames _ differ (handle-Knows a m n known)

  -- The address that a peer registers with its handshake is still listed when the connection is over,
  -- however it goes on and ends: what is removed is the address without the port. This is for an
  -- address that is not the one without the port.
  pub handle_peer_logic-stale :
      (version node_id : Bytes) (height : ℕ) (energy : F32) (port : ℕ)
      (frames : List (Option PrimusMessage)) (n : Node C)
      → texts.stable_addr peer_ip port ≢ peer_ip
      → has_addr
          (texts.stable_addr peer_ip port)
          (handle_peer_logic h texts core peer_ip
            (some (handshake version node_id height energy port) ∷ frames)
            n).0.dht.addr_peers
        ≡ true
  unfolding handle_peer_logic handle
  handle_peer_logic-stale version node_id height energy port frames n differ =
      handle_peer_logic-Knows (texts.stable_addr peer_ip port) frames _ differ (
        ap (λ d. has_addr (texts.stable_addr peer_ip port) d.addr_peers)
          (on_handshake-dht height energy port n)
        ∙ registered (texts.stable_addr peer_ip port) n.dht)
