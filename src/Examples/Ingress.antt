-- ===== src/Examples/Ingress.antt =====
-- Bytes that a node gets, from an account and from nobody.
use primus_project.Base.{arith, ℕ, ◌≡◌, ◌<◌, ◌⊎◌, refl, true, List, Option, none, some, [], ◌∷◌}
use primus_project.Base.Outcome.{ok}
use primus_project.Base.Ord.{bytes_ord, nat_ord, compare_bytes}
use primus_project.Machine.Word.{Bytes, le_bytes, be_bytes}
use primus_project.Machine.Float.{ge_f64, max_f64, mul_f64, f32_to_f64, of_u64_f64, to_u64_f64}
use primus_project.Collections.BTreeMap
use primus_project.Collections.BTreeMap.{BTreeMap}
use primus_project.Types.Payload.{transfer_amount, requires_signature_verification}
use primus_project.Types.Physics.{encode}
use primus_project.Types.Reaction.{
  signing_input, signing_digest, compute_reaction_hash, validate_structure,
}
use primus_project.Storage.Mpt.{MptNode}
use primus_project.Storage.Mempool.{
  push, push_sector, push_trees, push_new, push_data, push_weight, weight_key, sector_of,
}
use primus_project.Core.Storage.{load_atom, read, db_get, atom_key}
use primus_project.Core.Engine.{Platform}
use primus_project.Core.Framing.{app_max_message}
use primus_project.Net.Message.{new_reaction}
use primus_project.Core.Ingress.{
  CoreHandleImpl, Wire, Clock, bytes_to_process, is_solvent, enter, count_drop, admit_reaction,
  admit, process_message, push_bytes, ingress_push_bytes,
}
use primus_project.Core.Ingress.Admitted.{IsSolvent, IsProcessed, push_bytes-IsAdmitted}
use primus_project.Core.Ingress.Phantom.{ingress_push_bytes-phantom}
use primus_project.Examples.Mempool.{tail_hashes, list_tree, claim, codec, pool}
use primus_project.Examples.Chain.{platform, node_at}

abbrev wire : Wire
wire = record {
  reaction = λ b. some (claim 7);
  envelope = λ b. none;
  crystal = λ b. none;
  element_text = λ e. [];
}

abbrev busy : Platform (Bytes → Option Bytes) (List MptNode) ℕ
busy = record platform { hashes = tail_hashes }

abbrev clock : Clock
clock = record { instant = 0; seconds = some 100 }

abbrev node : CoreHandleImpl (Bytes → Option Bytes) (List MptNode) (BTreeMap Bytes Bytes)
node = record {
  engine = node_at 7;
  mempool = pool;
  streams = [];
  frame_drops = 0;
  connected = true;
  broadcasts = [];
}

-- A node whose storage has no account.
abbrev barren : CoreHandleImpl (Bytes → Option Bytes) (List MptNode) (BTreeMap Bytes Bytes)
barren = record node {
  engine = record (node_at 7) { storage = record (node_at 7).storage { db = λ k. none } };
}

funded_test :
    (push_bytes busy list_tree codec wire clock (7 ∷ []) node).1.broadcasts
    ≡ new_reaction (7 ∷ []) 8 ∷ []
unfolding push_bytes bytes_to_process process_message admit admit_reaction is_solvent load_atom read
    db_get atom_key enter validate_structure compute_reaction_hash signing_digest signing_input
    transfer_amount requires_signature_verification le_bytes bytes_ord compare_bytes encode ge_f64
    max_f64 mul_f64 f32_to_f64 of_u64_f64 to_u64_f64 push push_sector push_trees push_new push_data
    push_weight weight_key sector_of be_bytes BTreeMap.get BTreeMap.insert nat_ord
funded_test = refl

phantom_test : (push_bytes busy list_tree codec wire clock (7 ∷ []) barren).1.frame_drops ≡ 1
unfolding push_bytes bytes_to_process process_message admit admit_reaction is_solvent load_atom read
    db_get atom_key count_drop bytes_ord compare_bytes
phantom_test = refl

-- The other entry takes the reaction of nobody.
phantom_ingress_test :
    (ingress_push_bytes busy list_tree codec wire clock (7 ∷ []) barren).0 ≡ ok true
unfolding ingress_push_bytes enter validate_structure compute_reaction_hash signing_digest
    signing_input transfer_amount requires_signature_verification le_bytes bytes_ord compare_bytes
    encode ge_f64 max_f64 mul_f64 f32_to_f64 of_u64_f64 to_u64_f64 push push_sector push_trees
    push_new push_data push_weight weight_key sector_of be_bytes BTreeMap.get BTreeMap.insert
    nat_ord
phantom_ingress_test = refl

push_bytes-IsAdmitted_example :
    (((push_bytes busy list_tree codec wire clock (7 ∷ []) node).1.mempool ≡ pool)
      ⊎ IsProcessed busy list_tree codec wire clock
          (bytes_to_process busy list_tree codec wire clock (7 ∷ []) node).0
          node
          (push_bytes busy list_tree codec wire clock (7 ∷ []) node).1)
    × (app_max_message < 1
        → (push_bytes busy list_tree codec wire clock (7 ∷ []) node).1.mempool ≡ pool)
push_bytes-IsAdmitted_example = push_bytes-IsAdmitted busy list_tree codec wire clock (7 ∷ []) node

barren-phantom : ¬ IsSolvent busy list_tree codec wire (claim 7).sender.public_key barren.engine
unfolding load_atom read db_get atom_key
barren-phantom = ground arith

ingress_push_bytes-phantom_example :
    ((push_bytes busy list_tree codec wire clock (7 ∷ []) barren).1.mempool ≡ pool)
    × ((ingress_push_bytes busy list_tree codec wire clock (7 ∷ []) barren).1.mempool
        ≡ (push list_tree codec tail_hashes (some 100) (claim 7) pool).1)
ingress_push_bytes-phantom_example =
    ingress_push_bytes-phantom busy list_tree codec wire clock (7 ∷ []) (claim 7) barren
      (omega arith) refl barren-phantom
