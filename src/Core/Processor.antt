-- ===== src/Core/Processor.antt =====
-- primus-core/src/processor.rs: what arrives from the network, and the reorganisation.
pub mod Reorg
pub mod Orphan
pub mod Lost
use package.primus_project.Base.{
  ℕ, zero, suc, ◌+◌, ◌-◌, Bool, true, false, not, ◌&&◌, Option, none, some, List, [], ◌∷◌, ◌++◌,
  ltb, leb, ◌==◌, if◌then◌else◌,
}
use package.primus_project.Base.Outcome.{Result, ok, err}
use package.primus_project.Base.Ord.{same, bytes_ord}
use package.primus_project.Machine.Word.{Bytes}
use package.primus_project.Machine.Float.{F32, add_f32, mul_f32, lt_f32, f32_to_f64}
use package.primus_project.Collections.BTreeMap.{BTreeMap}
use package.primus_project.Types.Atom.{Atom}
use package.primus_project.Types.Reaction.{SignedReaction}
use package.primus_project.Storage.Changeset.{UndoLog}
use package.primus_project.Core.Run.{Run, ◌>>=◌, ◌>>◌, return, throw, current, modify, of_result}
use package.primus_project.Core.Crystal.{
  Crystal, calculate_density, check_proof_of_work, wrapping_suc,
}
use package.primus_project.Core.State.{StateTree, get_atom, roll_back}
use package.primus_project.Core.Gravity.{vm_temperature, should_engage_gravity_shield}
use package.primus_project.Core.Chamber.{ReactionChamber, inject_reaction}
use package.primus_project.Core.Storage.{
  Codec, CoreError, serialization_failed, parent_mismatch, gap_detected, pow_invalid, empty_chain,
  past_finality, undo_log_missing, phantom_sender, chamber_overheat, PrimusStorage, finality_depth,
  atom_key, crystal_key, undo_key, db_transaction, db_flush, get_crystal, get_crystal_latest,
  get_undo_log,
}
use package.primus_project.Core.Engine.{
  PrimusEngine, Platform, Step, on_storage, set_index, finalize_solidification,
}

abbrev is_known : Option Atom → Bool
is_known none = false
is_known (some _) = true

-- `sort_by_key(|c| c.index)`, which is stable.
unfoldable pub insert_by_index : Crystal → List Crystal → List Crystal
insert_by_index c [] = c ∷ []
insert_by_index c (d ∷ ds) = if leb c.index d.index then c ∷ d ∷ ds else d ∷ insert_by_index c ds

unfoldable pub sort_by_index : List Crystal → List Crystal
sort_by_index [] = []
sort_by_index (c ∷ cs) = insert_by_index c (sort_by_index cs)

-- The value of an image: a removal, or the bytes of the atom, if it serialises.
abbrev pub encode_image : Codec Atom → Option Atom → Option (Option Bytes)
encode_image codec none = some none
encode_image codec (some atom) = elim (codec.serialize atom) [
  | none ↦ none
  | some b ↦ some (some b)
]

-- The images of one log, as entries of a batch.
unfoldable pub image_writes :
    {E : Type 0}
    → Codec Atom
    → BTreeMap Bytes (Option Atom)
    → Result (CoreError E) (List (Bytes × Option Bytes))
image_writes codec [] = ok []
image_writes codec ((pk, before) ∷ images) =
    let rest = image_writes codec images in
    let write = encode_image codec before in
    elim write [
      | none ↦ err serialization_failed
      | some value ↦ elim rest [ err e ↦ err e | ok writes ↦ ok ((atom_key pk, value) ∷ writes) ]
    ]

abbrev pub join_writes :
    {E : Type 0}
    → Result (CoreError E) (List (Bytes × Option Bytes))
    → Result (CoreError E) (List (Bytes × Option Bytes))
    → Result (CoreError E) (List (Bytes × Option Bytes))
join_writes (err e) rest = err e
join_writes (ok writes) (err e) = err e
join_writes (ok writes) (ok later) = ok (writes ++ later)

unfoldable pub atom_writes :
    {E : Type 0}
    → Codec Atom
    → List (ℕ × UndoLog)
    → Result (CoreError E) (List (Bytes × Option Bytes))
atom_writes codec [] = ok []
atom_writes codec ((_, u) ∷ logs) =
    join_writes (image_writes codec u.pre_images) (atom_writes codec logs)

unfoldable pub deletions : List (ℕ × UndoLog) → List (Bytes × Option Bytes)
deletions [] = []
deletions ((h, _) ∷ logs) = (crystal_key h, none) ∷ (undo_key h, none) ∷ deletions logs

module _ {D S E : Type 0} (p : Platform D S E) where
  unfoldable pub verify_pow : Crystal → Step D S E (Unit {0})
  verify_pow crystal e =
      if check_proof_of_work p.hashes crystal (vm_temperature e.chamber.temperature)
        e.epoch_difficulty
      then (ok tt, e)
      else (err (pow_invalid crystal.index), e)

  unfoldable pub process_network_reaction : SignedReaction → Step D S E (Unit {0})
  process_network_reaction rx e =
      if not (is_known (get_atom rx.sender.public_key e.state))
        && not (same rx.sender.public_key e.architect_pk)
      then (err phantom_sender, e)
      else (if should_engage_gravity_shield (f32_to_f64 e.chamber.temperature)
          then (err chamber_overheat, e)
          else (ok tt, record e { chamber = inject_reaction rx e.chamber }))

  -- Step 1 of the reorganisation, from `candidate` downwards. `fallback` is for a storage error.
  unfoldable pub find_ancestor : PrimusStorage D S → Bytes → ℕ → ℕ → ℕ
  find_ancestor s prev_hash fallback zero = elim (get_crystal p.sled p.codecs.crystal 0 s).0 [
    | err _ ↦ fallback
    | ok _ ↦ 0
  ]
  find_ancestor s prev_hash fallback (suc candidate) =
      let deeper = find_ancestor s prev_hash fallback candidate in
      elim (get_crystal p.sled p.codecs.crystal (suc candidate) s).0 [
        | err _ ↦ fallback
        | ok none ↦ deeper
        | ok (some local_block) ↦
            if same prev_hash (calculate_density p.hashes local_block)
            then suc candidate
            else deeper
      ]

  -- Step 2: the logs of `rounds` heights from `h` downwards.
  unfoldable pub collect_undo_logs :
      PrimusStorage D S → ℕ → ℕ → Result (CoreError E) (List (ℕ × UndoLog))
  collect_undo_logs s zero h = ok []
  collect_undo_logs s (suc rounds) h =
      let deeper = collect_undo_logs s rounds (h - 1) in
      elim (get_undo_log p.sled p.codecs.undo h s).0 [
        | err e ↦ err e
        | ok none ↦ err (undo_log_missing h)
        | ok (some u) ↦ elim deeper [ err e ↦ err e | ok logs ↦ ok ((h, u) ∷ logs) ]
      ]

  abbrev pub set_state : StateTree → PrimusEngine D S → PrimusEngine D S
  set_state t e = record e { state = t }

  -- Steps 3 and 4: in memory, then on disk.
  unfoldable pub undo_crystals : List (ℕ × UndoLog) → ℕ → Step D S E (Unit {0})
  undo_crystals logs ancestor = do
    modify (λ e. set_state (roll_back logs e.state) e)
    writes ← of_result (atom_writes p.codecs.atom logs)
    on_storage p (db_transaction p.sled (writes ++ deletions logs))
    on_storage p (db_flush p.sled)
    modify (set_index ancestor)

  -- Step 5.
  unfoldable pub apply_chain : List Crystal → Step D S E (Unit {0})
  apply_chain [] = return tt
  apply_chain (c ∷ cs) =
      let rest = apply_chain cs in do verify_pow c; finalize_solidification p c; rest

  -- 0.85 and 0.90.
  unfoldable pub cool : PrimusEngine D S → PrimusEngine D S
  cool e = record e {
    chamber = record e.chamber {
      temperature = mul_f32 e.chamber.temperature 0x3f59999a;
      entropy = mul_f32 e.chamber.entropy 0x3f666666;
    };
  }

  unfoldable pub rollback_depth : ℕ → ℕ → ℕ
  rollback_depth local_tip base = local_tip - (base - 1)

  -- From the logs on.
  unfoldable pub replace_chain : ℕ → List Crystal → Step D S E (Unit {0})
  replace_chain ancestor chain e =
      let local_tip = e.state.current_crystal_index in
      elim (collect_undo_logs e.storage (local_tip - ancestor) local_tip) [
        | err x ↦ (err x, e)
        | ok logs ↦ (do undo_crystals logs ancestor; apply_chain chain; modify cool) e
      ]

  unfoldable pub test_depth : ℕ → ℕ → List Crystal → Step D S E (Unit {0})
  test_depth depth ancestor chain e =
      if ltb finality_depth depth
      then (err (past_finality depth), e)
      else replace_chain ancestor chain e

  -- From the test of the depth on, for a chain in order.
  unfoldable pub reorganise : Crystal → List Crystal → Step D S E (Unit {0})
  reorganise fork_base chain e =
      let start = fork_base.index - 1 in
      test_depth (rollback_depth e.state.current_crystal_index fork_base.index)
        (find_ancestor e.storage fork_base.prev_hash start start) chain e

  abbrev reorganise_all : List Crystal → Step D S E (Unit {0})
  reorganise_all [] e = (err empty_chain, e)
  reorganise_all (c ∷ cs) e = reorganise c (c ∷ cs) e

  unfoldable pub perform_reorg : List Crystal → Step D S E (Unit {0})
  perform_reorg new_chain = reorganise_all (sort_by_index new_chain)

  unfoldable pub extend : Crystal → Step D S E (Unit {0})
  extend incoming = do verify_pow incoming; finalize_solidification p incoming; return tt

  -- 1.0.
  unfoldable pub process_after : Crystal → Crystal → Step D S E (Unit {0})
  process_after last_local incoming =
      if incoming.index == wrapping_suc last_local.index
      then (if same incoming.prev_hash (calculate_density p.hashes last_local)
          then extend incoming
          else (if lt_f32 (add_f32 last_local.cumulative_energy 0x3f800000)
                incoming.cumulative_energy
              then perform_reorg (incoming ∷ [])
              else throw (parent_mismatch incoming.index)))
      else (if (incoming.index == last_local.index)
            && lt_f32 last_local.cumulative_energy incoming.cumulative_energy
          then perform_reorg (incoming ∷ [])
          else (if ltb (wrapping_suc last_local.index) incoming.index
              then throw (gap_detected last_local.index incoming.index)
              else return tt))

  unfoldable pub process_network_crystal : Crystal → Step D S E (Unit {0})
  process_network_crystal incoming = do
    latest ← on_storage p (get_crystal_latest p.sled p.codecs.crystal)
    elim latest [ some last_local ↦ process_after last_local incoming | none ↦ extend incoming ]
