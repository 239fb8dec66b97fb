-- ===== src/Examples/Mempool.antt =====
-- Two reactions of one sender in one second.
use primus_project.Base.{
  arith, ℕ, ◌≡◌, refl, Bool, true, false, Option, none, some, [], ◌∷◌, map, length, drop, replicate,
}
use primus_project.Base.Outcome.{ok}
use primus_project.Base.Ord.{nat_ord, bytes_ord, compare_bytes}
use primus_project.Machine.Word.{Bytes, be_bytes, le_bytes}
use primus_project.Collections.BTreeMap
use primus_project.Collections.BTreeMap.{BTreeMap}
use primus_project.Types.Crypto.{Hashes}
use primus_project.Types.Constants.{pk_bytes}
use primus_project.Types.Payload.{mining_reward, transfer_amount, requires_signature_verification}
use primus_project.Types.Physics.{encode}
use primus_project.Machine.Float.{ge_f64, max_f64, mul_f64, f32_to_f64, of_u64_f64, to_u64_f64}
use primus_project.Types.Reaction.{
  SignedReaction, signing_input, signing_digest, compute_reaction_hash, validate_structure,
}
use primus_project.Storage.Mempool.{
  SledTree, ReactionCodec, SectoralMempool, sector_of, weight_key, push_weight, push_data, push_new,
  push_trees, push_sector, push,
}
use primus_project.Storage.Mempool.Priority.{then_with, weight_key-order}
use Prim.Native.Nat.{compare}
use primus_project.Storage.Mempool.Weights.{IsMap}
use primus_project.Storage.Mempool.Stranded.{IsListed, IsStranded, push-IsStranded}
use primus_project.Examples.Data.{account}

-- A hash that keeps the end of what it reads: here the last reaction's hash.
abbrev pub tail_hashes : Hashes
tail_hashes = record { sha3 = drop 5200; blake3 = λ b. b }

abbrev is_some : Option Bytes → Bool
is_some none = false
is_some (some _) = true

abbrev pub list_tree : SledTree (BTreeMap Bytes Bytes) ℕ
list_tree = record {
  len = length;
  contains_key = λ k t. ok (is_some (BTreeMap.get k t));
  insert = λ k v t. (ok (BTreeMap.get k t), BTreeMap.insert k v t);
  remove = λ k t. (ok (BTreeMap.get k t), BTreeMap.remove k t);
  iter = map ok;
}

list_tree-IsMap : IsMap list_tree (λ t. t)
list_tree-IsMap = record { inserted = λ k v t done. refl }

abbrev pub claim : ℕ → SignedReaction
claim last = record {
  sender = record (account (replicate pk_bytes 1) 1000 3) { last_reaction_hash = last ∷ [] };
  receiver = account (replicate pk_bytes 2) 50 0;
  reaction_hash = last ∷ [];
  energy = 0x3f800000;
  timestamp = 0;
  signature = [];
  payload = mining_reward 10;
}

abbrev pub codec : ReactionCodec
codec = record { serialize = λ rx. some rx.reaction_hash; deserialize = λ b. some (claim 1) }

abbrev pub pool : SectoralMempool (BTreeMap Bytes Bytes)
pool = record { sectors = (1, ([], [])) ∷ []; max_sector_capacity = 1_000_000 }

first_test : (push list_tree codec tail_hashes (some 100) (claim 7) pool).0 ≡ ok true
unfolding validate_structure compute_reaction_hash signing_digest signing_input transfer_amount
    requires_signature_verification le_bytes bytes_ord compare_bytes encode ge_f64 max_f64 mul_f64
    f32_to_f64 of_u64_f64 to_u64_f64 push push_sector push_trees push_new push_data push_weight
    weight_key sector_of be_bytes BTreeMap.get BTreeMap.insert nat_ord
first_test = refl

abbrev after_first : SectoralMempool (BTreeMap Bytes Bytes)
after_first = (push list_tree codec tail_hashes (some 100) (claim 7) pool).1

second_test : (push list_tree codec tail_hashes (some 100) (claim 8) after_first).0 ≡ ok true
unfolding validate_structure compute_reaction_hash signing_digest signing_input transfer_amount
    requires_signature_verification le_bytes bytes_ord compare_bytes encode ge_f64 max_f64 mul_f64
    f32_to_f64 of_u64_f64 to_u64_f64 push push_sector push_trees push_new push_data push_weight
    weight_key sector_of be_bytes BTreeMap.get BTreeMap.insert nat_ord
second_test = refl

unlisted : (hash : Bytes) → ¬ IsListed hash []
unfolding BTreeMap.get
unlisted hash (_, found) = cc

same_sector : sector_of (claim 7) ≡ sector_of (claim 8)
unfolding sector_of
same_sector = refl

in_pool : BTreeMap.get (sector_of (claim 7)) pool.sectors ≡ some ([], [])
unfolding BTreeMap.get sector_of nat_ord
in_pool = refl

claims_differ : ¬ ((claim 7).reaction_hash ≡ (claim 8).reaction_hash)
claims_differ e = cc

push-IsStranded_example :
    IsStranded list_tree
      (λ t. t)
      list_tree-IsMap
      codec
      (claim 7)
      (push list_tree codec tail_hashes
        (some 100)
        (claim 8)
        (push list_tree codec tail_hashes (some 100) (claim 7) pool).1).1
push-IsStranded_example =
    push-IsStranded list_tree (λ t. t) list_tree-IsMap codec tail_hashes 100 (claim 7) (claim 8)
      pool ([], []) in_pool (unlisted (7 ∷ [])) same_sector refl claims_differ first_test
      second_test

weight_key-order_example :
    compare_bytes (weight_key (claim 7) 100) (weight_key (claim 8) 90)
    ≡ then_with (compare (claim 7).energy (claim 8).energy) (compare 90 100)
weight_key-order_example =
    weight_key-order (claim 7) (claim 8) 100 90 (omega arith) (omega arith) (omega arith)
      (omega arith)
