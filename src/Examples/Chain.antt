-- ===== src/Examples/Chain.antt =====
-- A node on a database that is a function, and what it does with crystals.
use primus_project.Base.{
  ℕ, ◌≡◌, ◌≢◌, refl, ap, true, false, Option, none, some, List, [], ◌∷◌, arith, if◌then◌else◌,
  length, replicate, drop,
}
use primus_project.Base.Outcome.{Result, ok, err}
use primus_project.Base.Ord.{same, compare_bytes, bytes_ord}
use primus_project.Machine.Word.{Bytes, le_bytes}
use primus_project.Types.Physics.{encode}
use primus_project.Types.Atom.{first_or_zero}
use primus_project.Storage.Changeset
use primus_project.Storage.Changeset.{Changeset, UndoLog}
use primus_project.Storage.Mpt.{MptNode, leaf, common_prefix, key_to_nibbles}
use primus_project.Storage.Mpt.Trie
use primus_project.Core.Run.{then_run}
use primus_project.Core.Run.Post.{Post}
use primus_project.Core.Crystal.{
  Crystal, new_crystal, zero_root, density_input, calculate_density, calculate_target,
  check_proof_of_work, search_nonce, meets, leading_zeros, base_difficulty_at,
}
use primus_project.Core.Gravity.{vm_temperature, to_vm_thermal}
use primus_project.Machine.Float.{
  add_f32, sub_f32, mul_f32, div_f32, max_f32, to_u64_f32, of_u64_f32, f32_to_f64, f64_to_f32,
  mul_f64, div_f64, lt_f32, add_f64, max_f64, min_f64, to_u64_f64, of_u64_f64,
}
use primus_project.Core.State.{new_state, get_atom, roll_back}
use primus_project.Core.Chamber.{new_chamber}
use primus_project.Core.Storage.{
  SledDb, CoreError, Codecs, PrimusStorage, latest_index_key, crystal_key, undo_key, to_index,
  of_le_bytes, decimal, state_root_mismatch, pow_invalid, current_root, db_get, db_insert,
  gc_insert, save_contract, db_transaction, db_flush, read, write, get_crystal, get_crystal_latest,
  get_undo_log,
}
use primus_project.Core.Storage.Commit.{
  commit_changeset, commit_trie, updates, insert_updates, mpt_insert, persist, log_old_root,
  save_atoms, save_contracts,
}
use primus_project.Core.Engine.{
  PrimusEngine, Platform, set_index, on_storage, make_execution_context, state_view,
  execute_payload, finalize_solidification,
}
use primus_project.Vm.Pvm
use primus_project.Collections.BTreeMap
use primus_project.Types.Payload.{transfer, transfer_amount}
use primus_project.Types.Reaction.{signing_digest, signing_input}
use primus_project.Vm.Context.{lookup_atom}
use primus_project.Vm.Evolution.{apply_decay, evolve, decay_amount}
use primus_project.Vm.Physics.{
  get_galactic_drift, calculate_orbital_resonance, calculate_gravity_assist_from_iter, gravity_pull,
  get_spacetime_curvature, calculate_macro_shift, calculate_entropy_tax,
}
use primus_project.Vm.Pvm.{
  execute_from, execute_single, run_by_payload, run_signed, assess, settle, is_authorised,
  curvature, quantum_complexity, scale_complexity, nonce_ok, run_payload, run_transfer,
  charge_sender, pay_receiver, debited, aged, credited,
}
use primus_project.Core.Engine.Solidify.{KeepsAtoms, IsAccepted, finalize_solidification-Post}
use primus_project.Core.Engine.{run_crystal, check_root, record_crystal, save_undo, save_metrics}
use primus_project.Core.Storage.{save_undo_log, save_crystal, save_global_metrics, db_remove}
use primus_project.Core.Storage.Commit.{prune_undo_window}
use primus_project.Core.State.{apply_changeset, undo_log_of}
use primus_project.Core.Mining.{max_nonce_attempts, solve}
use primus_project.Core.Mining.Work.{NoClaim, IsWorked, solve-IsWorked}
use primus_project.Core.Engine.Refusal.{finalize_solidification-mismatch}
use primus_project.Core.Processor.{
  image_writes, atom_writes, collect_undo_logs, undo_crystals, apply_chain, cool, reorganise,
  extend, process_network_crystal,
}
use primus_project.Core.Processor.Reorg.{reorganise-past_finality}
use primus_project.Core.Processor.Lost.{process_network_crystal-unworked}
use primus_project.Core.Processor.Orphan.{
  written, IsMap, with_index, process_network_crystal-orphan,
}
use primus_project.Examples.Data.{hashes, alice, bob, account, architect, reaction}
use primus_project.Examples.Trie.{list_store}

-- Every operation succeeds.
abbrev sled : SledDb (Bytes → Option Bytes) ℕ
sled = record {
  get = λ k d. ok (d k);
  insert = λ k v d. (ok (d k), λ j. if same j k then some v else d j);
  remove = λ k d. (ok (d k), λ j. if same j k then none else d j);
  transaction = λ batch d. (ok tt, λ k. written batch k (d k));
  flush = λ d. (ok tt, d);
  scan_prefix = λ prefix d. [];
}

abbrev view : (Bytes → Option Bytes) → Bytes → Option Bytes
view d k = d k

sled-IsMap : IsMap sled view
sled-IsMap = record { got = λ k d. refl; applied = λ batch d k done. refl; flushed = λ d k. refl }

abbrev codecs : Codecs
codecs = record {
  atom = record { serialize = λ a. some (9 ∷ []); deserialize = λ b. some (account alice 1000 3) };
  crystal = record {
    serialize = λ c. some (c.index ∷ []);
    deserialize = λ b. some (new_crystal (first_or_zero b) (9 ∷ []));
  };
  undo = record {
    serialize = λ u. some (u.crystal_index ∷ []);
    deserialize = λ b. some (record (Changeset.new_undo (first_or_zero b) []) {
      pre_images = (alice, some (account alice 1000 3)) ∷ [];
    });
  };
  metrics = record { serialize = λ m. some []; deserialize = λ b. none };
}

abbrev pub platform : Platform (Bytes → Option Bytes) (List MptNode) ℕ
platform = record {
  hashes = hashes;
  verify = λ pk digest signature. same signature (5 ∷ []);
  libm = record { sqrt = λ x. x; ln_1p = λ x. x };
  sled = sled;
  store = list_store;
  codecs = codecs;
  gc_fuel = 10;
}

-- The database of a node at this height: all crystals and undo logs are there.
abbrev db_at : ℕ → Bytes → Option Bytes
db_at tip k = if same k latest_index_key then some (le_bytes 8 tip) else some (tip ∷ [])

abbrev pub node_at : ℕ → PrimusEngine (Bytes → Option Bytes) (List MptNode)
node_at tip = record {
  storage = record {
    db = db_at tip;
    mpt_store = [];
    mpt_root = none;
    root = none;
    gc_log = λ k. none;
  };
  state = record new_state {
    atoms = (alice, account alice 900 4) ∷ [];
    current_crystal_index = tip;
  };
  chamber = new_chamber;
  target_block_time = 10;
  architect_pk = architect;
  is_syncing = false;
  sync_target = 0;
  epoch_difficulty = 0x3f800000;
}

-- A crystal at the height 8, whose parent is nowhere.
abbrev stranger : Crystal
stranger = new_crystal 8 (77 ∷ [])

abbrev image : UndoLog
image = record (Changeset.new_undo 7 []) { pre_images = (alice, some (account alice 1000 3)) ∷ [] }

abbrev seven_logs : List (ℕ × UndoLog)
seven_logs =
    (7, image) ∷ (6, image) ∷ (5, image) ∷ (4, image) ∷ (3, image) ∷ (2, image) ∷ (1, image) ∷ []

reorganise-past_finality_example :
    (reorganise platform stranger (stranger ∷ []) (node_at 7)
      ≡ then_run (undo_crystals platform seven_logs 0 (node_at 7)) (λ _ e1.
        then_run (apply_chain platform (stranger ∷ []) e1) (λ _ e2. (ok tt, cool platform e2))))
    × (length seven_logs ≡ 7)
unfolding get_crystal get_undo_log read db_get crystal_key undo_key decimal compare_bytes bytes_ord
    collect_undo_logs calculate_density density_input le_bytes encode
reorganise-past_finality_example =
    reorganise-past_finality platform (node_at 7) stranger seven_logs refl
      (refl, (refl, (refl, (refl, (refl, (refl, (refl, refl))))))) refl

abbrev rolled : PrimusEngine (Bytes → Option Bytes) (List MptNode)
rolled = (undo_crystals platform seven_logs 0 (node_at 7)).1

rolls : undo_crystals platform seven_logs 0 (node_at 7) ≡ (ok tt, rolled)
unfolding undo_crystals on_storage db_transaction db_flush atom_writes image_writes
rolls = refl

-- The same crystal with a claim of energy 2.
abbrev greedy : Crystal
greedy = record stranger { cumulative_energy = 0x40000000 }

unworked : check_proof_of_work hashes greedy (vm_temperature 0) 0x3f800000 ≡ false
unfolding check_proof_of_work meets calculate_density density_input calculate_target le_bytes encode
    leading_zeros base_difficulty_at vm_temperature to_vm_thermal add_f32 sub_f32 mul_f32 div_f32
    max_f32 to_u64_f32 of_u64_f32 f32_to_f64 f64_to_f32 mul_f64 div_f64
unworked = refl

-- Every crystal is undone, and the crystal that asked for it has no proof of work.
process_network_crystal-unworked_example :
    (process_network_crystal platform greedy (node_at 7) ≡ (err (pow_invalid 8), rolled))
    × (rolled.state ≡ with_index 0 (roll_back seven_logs (node_at 7).state))
    × (length seven_logs ≡ 7)
unfolding get_crystal get_crystal_latest get_undo_log read db_get crystal_key undo_key decimal
    compare_bytes bytes_ord collect_undo_logs calculate_density density_input le_bytes to_index
    of_le_bytes encode add_f32 lt_f32 undo_crystals atom_writes image_writes on_storage
    db_transaction db_flush
process_network_crystal-unworked_example =
    process_network_crystal-unworked platform view sled-IsMap (node_at 7) rolled
      (new_crystal 7 (9 ∷ [])) greedy image (drop 1 seven_logs) (le_bytes 8 7) refl refl refl
      (omega arith) refl refl (refl, (refl, (refl, (refl, (refl, (refl, (refl, refl))))))) refl refl
      refl rolls unworked

process_network_crystal-orphan_example :
    (process_network_crystal platform stranger rolled ≡ extend platform stranger rolled)
    × (rolled.state ≡ with_index 0 (roll_back seven_logs (node_at 7).state))
unfolding le_bytes to_index of_le_bytes bytes_ord
process_network_crystal-orphan_example =
    process_network_crystal-orphan platform view sled-IsMap (node_at 7) rolled stranger 7 0 image _
      (le_bytes 8 7) rolls refl refl

-- A node with two accounts and a trie of one leaf.
abbrev planted : PrimusEngine (Bytes → Option Bytes) (List MptNode)
planted = record (node_at 7) {
  storage = record (node_at 7).storage {
    mpt_store = leaf (key_to_nibbles (3 ∷ [])) [] ∷ [];
    mpt_root = some (0 ∷ []);
  };
  state = record new_state {
    atoms = (alice, account alice 1000 3) ∷ (bob, account bob 50 0) ∷ [];
    current_crystal_index = 7;
  };
}

-- A crystal with a transfer, which claims the root 4.
abbrev claimed : Crystal
claimed = record stranger { reactions_data = reaction (transfer 10) ∷ []; state_root = 4 ∷ [] }

abbrev transferred : Changeset × ℕ
transferred = (
  record { inner = (alice, account alice 989 4) ∷ (bob, account bob 60 0) ∷ []; contracts = [] },
  0x3f800000,
)

transfers : execute_payload platform (set_index 8 planted) claimed.reactions_data ≡ ok transferred
unfolding execute_payload make_execution_context state_view get_atom vm_temperature to_vm_thermal
    Pvm.execute_payload execute_from execute_single run_by_payload run_signed assess settle
    is_authorised signing_digest signing_input transfer_amount le_bytes encode curvature
    quantum_complexity scale_complexity nonce_ok run_payload run_transfer charge_sender pay_receiver
    debited aged credited lookup_atom apply_decay evolve decay_amount Changeset.insert Changeset.get
    BTreeMap.insert BTreeMap.get get_galactic_drift calculate_orbital_resonance
    calculate_gravity_assist_from_iter gravity_pull get_spacetime_curvature calculate_macro_shift
    calculate_entropy_tax lt_f32 add_f32 sub_f32 mul_f32 div_f32 max_f32 to_u64_f32 of_u64_f32
    f32_to_f64 f64_to_f32 add_f64 mul_f64 div_f64 max_f64 min_f64 to_u64_f64 of_u64_f64 bytes_ord
transfers = refl

abbrev committed : Result (CoreError ℕ) Bytes × PrimusStorage (Bytes → Option Bytes) (List MptNode)
committed = commit_changeset sled hashes codecs.atom list_store transferred.0 8 planted.storage

commits :
    commit_changeset sled hashes codecs.atom list_store transferred.0 8 planted.storage
    ≡ (ok (7 ∷ []), committed.1)
unfolding commit_changeset commit_trie updates insert_updates mpt_insert persist log_old_root
    save_atoms save_contracts write save_contract db_insert gc_insert Trie.insert
    Trie.insert_recursive Trie.load Trie.insert_at_leaf Trie.put_branch Trie.place_leaf Trie.assign
    common_prefix key_to_nibbles
commits = refl

four-ne-zero : ◌≢◌ {A = ℕ} 4 0
four-ne-zero = omega arith

four-ne-seven : ◌≢◌ {A = ℕ} 4 7
four-ne-seven = omega arith

finalize_solidification-mismatch_example :
    (finalize_solidification platform claimed planted
      ≡ (err (state_root_mismatch 8), record planted { storage = committed.1 }))
    × (current_root committed.1 ≡ 7 ∷ [])
finalize_solidification-mismatch_example =
    finalize_solidification-mismatch platform planted claimed transferred (7 ∷ []) committed.1
      transfers commits (λ e. four-ne-zero (ap first_or_zero e))
      (λ e. four-ne-seven (ap first_or_zero e))

-- The same crystal without a root.
abbrev unrooted : Crystal
unrooted = record claimed { state_root = zero_root }

finalize_solidification-Post_example :
    Post
      (KeepsAtoms platform planted unrooted)
      (IsAccepted platform planted unrooted)
      (finalize_solidification platform unrooted planted)
finalize_solidification-Post_example = finalize_solidification-Post platform planted unrooted

-- A node whose hashes meet every target.
abbrev lucky : Platform (Bytes → Option Bytes) (List MptNode) ℕ
lucky = record platform { hashes = record hashes { blake3 = λ b. replicate 32 0 } }

solved_test :
    (search_nonce lucky.hashes
      (vm_temperature planted.chamber.temperature)
      planted.epoch_difficulty
      max_nonce_attempts
      stranger).0
    ≡ true
unfolding search_nonce check_proof_of_work meets calculate_density density_input calculate_target
    le_bytes encode leading_zeros base_difficulty_at vm_temperature to_vm_thermal add_f32 sub_f32
    mul_f32 div_f32 max_f32 to_u64_f32 of_u64_f32 f32_to_f64 f64_to_f32 mul_f64 div_f64
solved_test = refl

mined_test : (rooted : Crystal) × ((solve lucky stranger planted).0 ≡ ok (some rooted))
unfolding solve search_nonce check_proof_of_work meets calculate_density density_input
    calculate_target le_bytes encode leading_zeros base_difficulty_at vm_temperature to_vm_thermal
    add_f32 sub_f32 mul_f32 div_f32 max_f32 to_u64_f32 of_u64_f32 f32_to_f64 f64_to_f32 mul_f64
    div_f64 finalize_solidification commit_changeset commit_trie updates insert_updates mpt_insert
    persist log_old_root save_atoms save_contracts write save_contract db_insert gc_insert
    on_storage db_flush execute_payload make_execution_context state_view Pvm.execute_payload
    execute_from bytes_ord run_crystal check_root record_crystal save_undo save_undo_log undo_key
    decimal apply_changeset undo_log_of save_crystal save_global_metrics crystal_key
    prune_undo_window db_remove save_metrics
mined_test = (_, refl)

solve-IsWorked_example :
    Post (NoClaim lucky) (IsWorked lucky planted stranger) (solve lucky stranger planted)
solve-IsWorked_example = solve-IsWorked lucky stranger planted refl
