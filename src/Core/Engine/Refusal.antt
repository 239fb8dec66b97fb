-- ===== src/Core/Engine/Refusal.antt =====
-- A crystal that is refused for its state root.
use primus_project.Base.{ℕ, ◌≡◌, ◌≢◌, refl, false, Bool-cases, inl, inr}
use primus_project.Base.Outcome.{ok, err}
use primus_project.Base.Ord.{same, same_iff, bytes_ord}
use primus_project.Machine.Word.{Bytes}
use primus_project.Machine.Float.{F32}
use primus_project.Storage.Changeset.{Changeset}
use primus_project.Storage.Mpt.{Hash32}
use primus_project.Core.Crystal.{Crystal, zero_root}
use primus_project.Core.Storage.{PrimusStorage, state_root_mismatch, current_root}
use primus_project.Core.Storage.Commit.{commit_changeset}
use primus_project.Core.Storage.Root.{current_root-commit_changeset}
use primus_project.Core.Engine.{
  PrimusEngine, Platform, on_storage, set_index, execute_payload, run_crystal, check_root,
  finalize_solidification,
}

not_same : (a b : Bytes) → a ≢ b → same a b ≡ false
not_same a b differ = elim (Bool-cases (same a b)) [
  | inl equal ↦ absurd (differ ((same_iff a b).0 equal))
  | inr other ↦ other
]

module _ {D S E : Type 0} (p : Platform D S E) (e : PrimusEngine D S) (crystal : Crystal) where
  abbrev entered : PrimusEngine D S
  entered = set_index crystal.index e

  run_crystal-ok :
      (done : Changeset × F32)
      → execute_payload p entered crystal.reactions_data ≡ ok done
      → run_crystal p crystal e ≡ (ok done, entered)
  unfolding run_crystal
  run_crystal-ok done ran = rw (ran, run_crystal) refl

  check_root-other :
      (old_index : ℕ) (root : Hash32) (s : PrimusEngine D S)
      → crystal.state_root ≢ zero_root
      → crystal.state_root ≢ root
      → check_root p old_index crystal root s
        ≡ (err (state_root_mismatch crystal.index), set_index old_index s)
  unfolding check_root
  check_root-other old_index root s given other =
      rw (not_same crystal.state_root zero_root given, not_same crystal.state_root root other) refl

  -- A crystal whose reactions execute and whose root is neither absent nor the one calculated is
  -- refused, and the height and the accounts in memory stay. But the commit stays too: the root that
  -- readers see is the calculated one, of a crystal that is not part of the chain.
  pub finalize_solidification-mismatch :
      (done : Changeset × F32) (root : Hash32) (after : PrimusStorage D S)
      → execute_payload p entered crystal.reactions_data ≡ ok done
      → commit_changeset p.sled p.hashes p.codecs.atom p.store done.0 crystal.index e.storage
        ≡ (ok root, after)
      → crystal.state_root ≢ zero_root
      → crystal.state_root ≢ root
      → (finalize_solidification p crystal e
          ≡ (err (state_root_mismatch crystal.index), record e { storage = after }))
        × (current_root after ≡ root)
  unfolding finalize_solidification on_storage
  finalize_solidification-mismatch done root after ran committed given other = (
    rw (run_crystal-ok done ran, finalize_solidification)
        (rw committed (
          rw
            (check_root-other e.state.current_crystal_index root
              (record entered { storage = after }) given other)
            refl)),
    current_root-commit_changeset p.sled p.hashes p.codecs.atom p.store done.0 crystal.index
        e.storage after root committed,
  )
