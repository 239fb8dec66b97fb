-- ===== src/Net/Message.antt =====
-- The messages of primus-net-opt/src/network.rs. Texts are byte strings.
use package.primus_project.Base.{ℕ, List}
use package.primus_project.Machine.Word.{Bytes}
use package.primus_project.Machine.Float.{F32}
use package.primus_project.Types.Proof.{MerkleProof}
use package.primus_project.Types.Galactic.{SyncMessage}

pub data PrimusMessage : Type 0 where
  ping : PrimusMessage
  pong : PrimusMessage
  handshake :
      (version node_id : Bytes) (chain_height : ℕ) (total_energy : F32) (listener_port : ℕ)
      → PrimusMessage
  get_peers : PrimusMessage
  peers_response : List Bytes → PrimusMessage
  new_reaction : (bytes : Bytes) (ttl : ℕ) → PrimusMessage
  new_crystal : (bytes : Bytes) (ttl : ℕ) → PrimusMessage
  get_crystal : ℕ → PrimusMessage
  crystal_response : Bytes → PrimusMessage
  sync : SyncMessage → PrimusMessage
  fetch_state : (address : Bytes) → PrimusMessage
  state_response : (mass nonce : ℕ) (last_hash element : Bytes) → PrimusMessage
  submit_reaction : (reaction_bytes : Bytes) → PrimusMessage
  reaction_ack : (reaction_hash : Bytes) → PrimusMessage
  node_error : (reason : Bytes) → PrimusMessage
  get_proof : (address : Bytes) → PrimusMessage
  proof_response : MerkleProof → PrimusMessage
