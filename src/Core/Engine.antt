-- ===== src/Core/Engine.antt =====
-- The state of primus-core/src/engine.rs, the bridge of primus-core/src/pvm.rs, and
-- `finalize_solidification` of primus-core/src/processor.rs.
pub mod Solidify
pub mod Refusal
use package.primus_project.Base.{
  ℕ, Bool, true, false, not, ◌||◌, Option, none, some, List, [], ◌∷◌, if◌then◌else◌,
}
use package.primus_project.Base.Outcome.{Result, ok, err}
use package.primus_project.Base.Ord.{same, bytes_ord}
use package.primus_project.Machine.Word.{Bytes}
use package.primus_project.Machine.Float.{F32, add_f32}
use package.primus_project.Collections.BTreeMap.{BTreeMap}
use package.primus_project.Types.Crypto.{Hashes, Verifier}
use package.primus_project.Types.Atom.{Atom}
use package.primus_project.Types.Reaction.{SignedReaction}
use package.primus_project.Storage.Changeset
use package.primus_project.Storage.Changeset.{Changeset, UndoLog}
use package.primus_project.Storage.Mpt.{Hash32, MptStore}
use package.primus_project.Vm.Error.{PvmError}
use package.primus_project.Vm.Context.{StateView, ExecutionContext}
use package.primus_project.Vm.Pvm
use package.primus_project.Core.Run.{Run, ◌>>=◌, ◌>>◌, return, throw, current, modify}
use package.primus_project.Core.Crystal.{Crystal, zero_root}
use package.primus_project.Core.State.{StateTree, get_atom, apply_changeset, undo_log_of}
use package.primus_project.Core.Gravity.{vm_temperature}
use package.primus_project.Core.Chamber.{Libm, ReactionChamber, inherit_history}
use package.primus_project.Core.Storage.{
  SledDb, Codecs, CoreError, pvm_failed, state_root_mismatch, PrimusStorage, Io, current_root,
  load_contract, save_undo_log, save_global_metrics, save_crystal,
}
use package.primus_project.Core.Storage.Commit.{commit_changeset, prune_undo_window}

pub record PrimusEngine (D S : Type 0) : Type 0 where
  pub storage : PrimusStorage D S
  pub state : StateTree
  pub chamber : ReactionChamber
  pub target_block_time : ℕ
  pub architect_pk : Bytes
  pub is_syncing : Bool
  pub sync_target : ℕ
  pub epoch_difficulty : F32

-- What the engine runs on: the crates, the platform, and the fuel of the trie's collector.
pub record Platform (D S E : Type 0) : Type 0 where
  pub hashes : Hashes
  pub verify : Verifier
  pub libm : Libm
  pub sled : SledDb D E
  pub store : MptStore S
  pub codecs : Codecs
  pub gc_fuel : ℕ

abbrev pub Step : Type 0 → Type 0 → Type 0 → Type 0 → Type 0
Step D S E A = Run (CoreError E) (PrimusEngine D S) A

abbrev pub flatten_ok : {E A : Type 0} → Result E (Option A) → Option A
flatten_ok (err _) = none
flatten_ok (ok found) = found

-- `is_none_or_zero`: whether a crystal has no root yet.
abbrev pub has_no_root : Crystal → Bool
has_no_root c = same c.state_root zero_root

abbrev pub set_index : {D S : Type 0} → ℕ → PrimusEngine D S → PrimusEngine D S
set_index index e = record e { state = record e.state { current_crystal_index = index } }

unfoldable pub contains_hash : List Bytes → Bytes → Bool
contains_hash [] hash = false
contains_hash (r ∷ reactions) hash = same hash r || contains_hash reactions hash

-- `volatile_reactions.retain(|r| !crystal.reactions.contains(&r.reaction_hash))`
unfoldable pub retain_unconfirmed : List Bytes → List SignedReaction → List SignedReaction
retain_unconfirmed reactions [] = []
retain_unconfirmed reactions (rx ∷ rxs) =
    let rest = retain_unconfirmed reactions rxs in
    if contains_hash reactions rx.reaction_hash then rest else rx ∷ rest

module _ {D S E : Type 0} (p : Platform D S E) where
  -- A call on the storage of the engine.
  unfoldable pub on_storage : {A : Type 0} → Io D S E A → Step D S E A
  on_storage io e = let (r, storage') = io e.storage in (r, record e { storage = storage' })

  -- `CoreStateView`
  unfoldable pub state_view : StateTree → PrimusStorage D S → StateView
  state_view tree storage = record {
    get_atom = λ pk. get_atom pk tree;
    load_contract = λ hash. flatten_ok (load_contract p.sled hash storage).0;
  }

  unfoldable pub make_execution_context : PrimusEngine D S → ExecutionContext
  make_execution_context e = record {
    state = state_view e.state e.storage;
    architect_pk = e.architect_pk;
    current_temp = vm_temperature e.chamber.temperature;
    crystal_index = e.state.current_crystal_index;
    verify = p.verify;
  }

  unfoldable pub execute_payload :
      PrimusEngine D S → List SignedReaction → Result PvmError (Changeset × F32)
  execute_payload e payload =
      Pvm.execute_payload p.hashes (make_execution_context e) payload e.state.atoms

  -- The execution, under the index of the crystal, which a failure takes back.
  unfoldable pub run_crystal : Crystal → Step D S E (Changeset × F32)
  run_crystal crystal e =
      let old_index = e.state.current_crystal_index in
      let entered = set_index crystal.index e in
      elim (execute_payload entered crystal.reactions_data) [
        | err reason ↦ (err (pvm_failed reason), set_index old_index entered)
        | ok done ↦ (ok done, entered)
      ]

  -- The root that the crystal is stored with. A mismatch takes the index back.
  unfoldable pub check_root : ℕ → Crystal → Hash32 → Step D S E Crystal
  check_root old_index crystal calculated_root e =
      if has_no_root crystal
      then (ok (record crystal { state_root = calculated_root }), e)
      else (if same crystal.state_root calculated_root
          then (ok crystal, e)
          else (err (state_root_mismatch crystal.index), set_index old_index e))

  unfoldable pub save_undo : ℕ → Hash32 → Changeset → Step D S E (Unit {0})
  save_undo index pre_state_root changeset = do
    e ← current
    on_storage
        (save_undo_log p.sled p.codecs.undo (undo_log_of index pre_state_root changeset e.state))
    return tt

  -- The metrics, taken from the chamber with the entropy that the execution consumed.
  unfoldable pub take_metrics : F32 → PrimusEngine D S → PrimusEngine D S
  take_metrics consumed_entropy e =
      let entropy = add_f32 e.chamber.entropy consumed_entropy in
      record e {
        chamber = record e.chamber { entropy = entropy };
        state = record e.state {
          global_metrics = record { temperature = e.chamber.temperature; entropy = entropy };
        };
      }

  unfoldable pub save_metrics : Step D S E (Unit {0})
  save_metrics = do
    e ← current
    on_storage (save_global_metrics p.sled p.codecs.metrics e.state.global_metrics)
    return tt

  -- What follows in memory once everything is on disk.
  unfoldable pub settle : Crystal → Changeset → PrimusEngine D S → PrimusEngine D S
  settle crystal changeset e =
      let applied = apply_changeset changeset e.state in
      let volatile = retain_unconfirmed crystal.reactions e.chamber.volatile_reactions in
      record e {
        state = applied;
        chamber = inherit_history crystal (record e.chamber { volatile_reactions = volatile });
        storage =
            prune_undo_window p.sled p.gc_fuel p.store applied.current_crystal_index e.storage;
      }

  -- From the undo log on.
  unfoldable pub record_crystal : Crystal → Hash32 → Changeset → F32 → Step D S E (Unit {0})
  record_crystal crystal pre_state_root changeset consumed_entropy = do
    save_undo crystal.index pre_state_root changeset
    modify (take_metrics consumed_entropy)
    save_metrics
    on_storage (save_crystal p.sled p.codecs.crystal crystal)
    modify (settle crystal changeset)

  -- Returns the crystal with its root.
  unfoldable pub finalize_solidification : Crystal → Step D S E Crystal
  finalize_solidification crystal = do
    before ← current
    executed ← run_crystal crystal
    calculated_root ←
        on_storage (commit_changeset p.sled p.hashes p.codecs.atom p.store executed.0 crystal.index)
    rooted ← check_root before.state.current_crystal_index crystal calculated_root
    record_crystal rooted (current_root before.storage) executed.0 executed.1
    return rooted
