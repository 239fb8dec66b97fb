-- ===== src/Net/Gossip/Relay.antt =====
-- What is sent on.
use primus_project.Base.{
  ℕ, zero, suc, ◌≤◌, ◌<◌, ◌≡◌, refl, Bool, true, false, ◌||◌, Bool-cases, inl, inr, Option, none,
  some, List, [], ◌∷◌, arith, ◌==◌,
}
use primus_project.Base.Ord.{bytes_ord}
use primus_project.Machine.Word.{Bytes}
use primus_project.Types.Crypto.{Hashes}
use primus_project.Net.Message.{
  PrimusMessage, ping, pong, handshake, get_peers, peers_response, new_reaction, new_crystal,
  get_crystal, crystal_response, sync, fetch_state, state_response, submit_reaction, reaction_ack,
  node_error, get_proof, proof_response,
}
use primus_project.Net.Gossip.{
  Encoding, ttl_of, next_ttl, with_ttl, forwarded, is_source, propagate, is_seen, message_id,
  deliver, spread,
}

-- A reaction goes on with less time to live, but some. A crystal goes on as it is.
abbrev pub IsRelay : PrimusMessage → PrimusMessage → Type 0
IsRelay (new_reaction bytes ttl) m = (t : ℕ) × (m ≡ new_reaction bytes t) × (1 ≤ t) × (t < ttl)
IsRelay (new_crystal bytes ttl) m = m ≡ new_crystal bytes ttl
IsRelay _ m = ⊥

-- Every message sent is such a one, and goes to an address that is not the source's.
abbrev pub AllRelays : Option Bytes → PrimusMessage → List (Bytes × PrimusMessage) → Type 0
AllRelays source m [] = Unit
AllRelays source m ((addr, m') ∷ sends) =
    (is_source source addr ≡ false) × IsRelay m m' × AllRelays source m sends

abbrev RelayIfAny : PrimusMessage → Option PrimusMessage → Type 0
RelayIfAny m none = Unit
RelayIfAny m (some m') = IsRelay m m'

propagate-AllRelays :
    (source : Option Bytes) (m : PrimusMessage) (o : Option PrimusMessage) (peers : List Bytes)
    → RelayIfAny m o
    → AllRelays source m (propagate source o peers)
unfolding propagate
propagate-AllRelays source m o [] relay = tt
propagate-AllRelays source m none (addr ∷ peers) relay = tt
propagate-AllRelays source m (some m') (addr ∷ peers) relay =
    let rest = propagate-AllRelays source m (some m') peers relay in
    elim (Bool-cases (is_source source addr)) [
      | inl back ↦ rw back rest
      | inr away ↦ rw away (away, relay, rest)
    ]

reaction-relayed :
    (bytes : Bytes) (ttl : ℕ)
    → RelayIfAny (new_reaction bytes ttl) (forwarded true ttl (new_reaction bytes ttl))
unfolding next_ttl with_ttl
reaction-relayed bytes zero = tt
reaction-relayed bytes (suc zero) = tt
reaction-relayed bytes (suc (suc t)) = (suc t, refl, omega arith, omega arith)

module _ (h : Hashes) (encoding : Encoding) where
  deliver-AllRelays :
      (m : PrimusMessage) (ttl : ℕ) (decays : Bool) (source : Option Bytes)
      (peers seen : List Bytes)
      → RelayIfAny m (forwarded decays ttl m)
      → AllRelays source m (deliver h encoding m ttl decays source peers seen).sends
  unfolding deliver
  deliver-AllRelays m ttl decays source peers seen relay =
      elim (Bool-cases ((ttl == 0) || is_seen (message_id h encoding m) seen)) [
        | inl spent ↦ rw spent tt
        | inr fresh ↦ rw fresh (propagate-AllRelays source m (forwarded decays ttl m) peers relay)
      ]

  -- A reaction goes on with less time to live than it came with, but at least 1, and a crystal with
  -- the time it came with. Neither goes back to its source, and nothing else goes on, not even a
  -- message of the synchronisation.
  pub spread-AllRelays :
      (m : PrimusMessage) (source : Option Bytes) (peers seen : List Bytes)
      → AllRelays source m (spread h encoding m source peers seen).sends
  unfolding spread ttl_of next_ttl with_ttl
  spread-AllRelays (new_reaction bytes ttl) source peers seen =
      deliver-AllRelays (new_reaction bytes ttl) ttl true source peers seen
        (reaction-relayed bytes ttl)
  spread-AllRelays (new_crystal bytes ttl) source peers seen =
      deliver-AllRelays (new_crystal bytes ttl) ttl false source peers seen refl
  spread-AllRelays (sync s) source peers seen =
      deliver-AllRelays (sync s) 1 true source peers seen tt
  spread-AllRelays ping source peers seen = tt
  spread-AllRelays pong source peers seen = tt
  spread-AllRelays (handshake _ _ _ _ _) source peers seen = tt
  spread-AllRelays get_peers source peers seen = tt
  spread-AllRelays (peers_response _) source peers seen = tt
  spread-AllRelays (get_crystal _) source peers seen = tt
  spread-AllRelays (crystal_response _) source peers seen = tt
  spread-AllRelays (fetch_state _) source peers seen = tt
  spread-AllRelays (state_response _ _ _ _) source peers seen = tt
  spread-AllRelays (submit_reaction _) source peers seen = tt
  spread-AllRelays (reaction_ack _) source peers seen = tt
  spread-AllRelays (node_error _) source peers seen = tt
  spread-AllRelays (get_proof _) source peers seen = tt
  spread-AllRelays (proof_response _) source peers seen = tt
