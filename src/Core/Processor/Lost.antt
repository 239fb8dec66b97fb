-- ===== src/Core/Processor/Lost.antt =====
-- A crystal from the network that costs a node its chain.
use primus_project.Base.{
  ℕ, suc, ◌+◌, ◌<◌, ◌^◌, ◌≡◌, ◌∙◌, refl, ap, true, false, Option, some, List, [], ◌∷◌, arith,
  length, ==_iff,
}
use primus_project.Base.Outcome.{ok, err}
use primus_project.Base.Ord.{same, bytes_ord}
use primus_project.Machine.Word.{Bytes}
use primus_project.Machine.Float.{add_f32, lt_f32}
use primus_project.Storage.Changeset.{UndoLog}
use primus_project.Core.Run.{then_run}
use primus_project.Core.Crystal.{Crystal, calculate_density, check_proof_of_work, wrapping_suc}
use primus_project.Core.Gravity.{vm_temperature}
use primus_project.Core.State.{roll_back}
use primus_project.Core.Storage.{pow_invalid, get_crystal_latest, latest_index_key, to_index}
use primus_project.Core.Engine.{PrimusEngine, Platform, on_storage}
use primus_project.Core.Processor.{
  collect_undo_logs, undo_crystals, apply_chain, cool, reorganise, perform_reorg, insert_by_index,
  sort_by_index, process_after, process_network_crystal,
}
use primus_project.Core.Processor.Reorg.{
  HasNoParent, reorganise-past_finality, apply_chain-unworked,
}
use primus_project.Core.Processor.Orphan.{IsMap, with_index, process_network_crystal-orphan}

module _ {D S E : Type 0} (p : Platform D S E) where
  perform_reorg-one :
      (c : Crystal) (e : PrimusEngine D S) → perform_reorg p (c ∷ []) e ≡ reorganise p c (c ∷ []) e
  unfolding perform_reorg sort_by_index insert_by_index
  perform_reorg-one c e = refl

  process_after-claim :
      (last c : Crystal) (e : PrimusEngine D S)
      → c.index ≡ wrapping_suc last.index
      → same c.prev_hash (calculate_density p.hashes last) ≡ false
      → lt_f32 (add_f32 last.cumulative_energy 0x3f800000) c.cumulative_energy ≡ true
      → process_after p last c e ≡ perform_reorg p (c ∷ []) e
  unfolding process_after
  process_after-claim last c e next other claim =
      rw ((==_iff c.index (wrapping_suc last.index)).1 next, process_after)
        (rw other (rw claim refl))

  process_network_crystal-after :
      (last c : Crystal) (e : PrimusEngine D S)
      → get_crystal_latest p.sled p.codecs.crystal e.storage ≡ (ok (some last), e.storage)
      → process_network_crystal p c e ≡ process_after p last c e
  unfolding process_network_crystal on_storage
  process_network_crystal-after last c e latest = rw latest refl

  -- A crystal without proof of work that claims the height after the tip and more energy, and whose
  -- parent is stored nowhere, is refused; but the node has undone its whole chain by then, as many
  -- crystals as the height of its tip, and the state is the one at the height 0. This is for a storage
  -- that keeps what is written, an undo log for every height and a rollback that can be written.
  pub process_network_crystal-unworked :
      (view : D → Bytes → Option Bytes) (m : IsMap p.sled view) (e e1 : PrimusEngine D S)
      (last incoming : Crystal) (u : UndoLog) (logs : List (ℕ × UndoLog)) (b : Bytes)
      → get_crystal_latest p.sled p.codecs.crystal e.storage ≡ (ok (some last), e.storage)
      → last.index ≡ e.state.current_crystal_index
      → incoming.index ≡ e.state.current_crystal_index + 1
      → incoming.index < 2 ^ 64
      → same incoming.prev_hash (calculate_density p.hashes last) ≡ false
      → lt_f32 (add_f32 last.cumulative_energy 0x3f800000) incoming.cumulative_energy ≡ true
      → HasNoParent p e.storage incoming.prev_hash e.state.current_crystal_index
      → view e.storage.db latest_index_key ≡ some b
      → to_index b ≡ some e.state.current_crystal_index
      → collect_undo_logs p e.storage e.state.current_crystal_index e.state.current_crystal_index
        ≡ ok ((e.state.current_crystal_index, u) ∷ logs)
      → undo_crystals p ((e.state.current_crystal_index, u) ∷ logs) 0 e ≡ (ok tt, e1)
      → check_proof_of_work p.hashes incoming
          (vm_temperature e1.chamber.temperature)
          e1.epoch_difficulty
        ≡ false
      → (process_network_crystal p incoming e ≡ (err (pow_invalid incoming.index), e1))
        × (e1.state ≡ with_index 0 (roll_back ((e.state.current_crystal_index, u) ∷ logs) e.state))
        × (suc (length logs) ≡ e.state.current_crystal_index)
  process_network_crystal-unworked view m e e1 last incoming u logs b latest at_tip next small other
        claim orphan stored decoded collected undone unworked =
      let tip = e.state.current_crystal_index in
      let (reorganised, all) =
        reorganise-past_finality p e incoming ((tip, u) ∷ logs) next orphan collected in
      let after : incoming.index ≡ wrapping_suc last.index = ground (arith, at_tip, next, small) in
      (
        process_network_crystal-after last incoming e latest
            ∙ process_after-claim last incoming e after other claim
            ∙ perform_reorg-one incoming e
            ∙ reorganised
            ∙ ap
                (λ r. then_run r (λ _ e1.
                  then_run (apply_chain p (incoming ∷ []) e1) (λ _ e2. (ok tt, cool p e2))))
                undone
            ∙ ap (λ r. then_run r (λ _ e2. (ok tt, cool p e2)))
                (apply_chain-unworked p e1 incoming [] unworked),
        (process_network_crystal-orphan p view m e e1 incoming tip 0 u logs b undone stored
            decoded).1,
        all,
      )
