-- ===== src/Types/Peer.antt =====
-- primus-types/src/peer.rs: node records.
use package.primus_project.Base.{ℕ, ◌++◌, Bool}
use package.primus_project.Machine.Word.{Bytes, le_bytes, be_bytes}
use package.primus_project.Types.Crypto.{Hashes, Verifier}

pub record PrimusNr : Type 0 where
  pub public_key : Bytes
  pub addr_ip : ℕ
  pub addr_port : ℕ
  pub signature : Bytes
  pub timestamp : ℕ

unfoldable pub node_id : Hashes → PrimusNr → Bytes
node_id h nr = h.sha3 nr.public_key

unfoldable pub signed_message : PrimusNr → Bytes
signed_message nr =
    nr.public_key
    ++ (be_bytes 16 nr.addr_ip ++ (be_bytes 2 nr.addr_port ++ le_bytes 8 nr.timestamp))

-- A key or a signature that does not decode is part of the verifier.
unfoldable pub verify : Verifier → PrimusNr → Bool
verify verifier nr = verifier nr.public_key (signed_message nr) nr.signature
