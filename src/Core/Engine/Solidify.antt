-- ===== src/Core/Engine/Solidify.antt =====
-- What a crystal that is solidified changes, and what one that is refused leaves.
use primus_project.Base.{ℕ, ◌≡◌, ◌∙◌, refl, sym, ap, Bool-cases, inl, inr}
use primus_project.Base.Outcome.{Result, ok, err}
use primus_project.Base.Ord.{same, same_iff, bytes_ord}
use primus_project.Machine.Float.{F32}
use primus_project.Storage.Changeset.{Changeset}
use primus_project.Storage.Mpt.{Hash32}
use primus_project.Vm.Error.{PvmError}
use primus_project.Core.Run.{then_run}
use primus_project.Core.Run.Post.{Post, Post-weaken, then_run-Post}
use primus_project.Core.Crystal.{Crystal}
use primus_project.Core.State.{insert_all, apply_changeset}
use primus_project.Core.Storage.{CoreError, Io, PrimusStorage}
use primus_project.Core.Storage.Commit.{commit_changeset}
use primus_project.Core.Engine.{
  PrimusEngine, Platform, has_no_root, on_storage, set_index, execute_payload, run_crystal,
  check_root, save_undo, take_metrics, save_metrics, settle, record_crystal,
  finalize_solidification,
}

module _ {D S E : Type 0} (p : Platform D S E) (e : PrimusEngine D S) (crystal : Crystal) where
  abbrev entered : PrimusEngine D S
  entered = set_index crystal.index e

  -- An error leaves the accounts as they were.
  abbrev pub KeepsAtoms : PrimusEngine D S → Type 0
  KeepsAtoms s = s.state.atoms ≡ e.state.atoms

  abbrev Executed : Changeset × F32 → PrimusEngine D S → Type 0
  Executed done s = (s ≡ entered) × (execute_payload p entered crystal.reactions_data ≡ ok done)

  run_from :
      (r : Result PvmError (Changeset × F32))
      → execute_payload p entered crystal.reactions_data ≡ r
      → Post KeepsAtoms Executed (run_crystal p crystal e)
  unfolding run_crystal
  run_from (err reason) known = rw (known, run_crystal) refl
  run_from (ok done) known = rw (known, run_crystal) (refl, known)

  run_crystal-Post : Post KeepsAtoms Executed (run_crystal p crystal e)
  run_crystal-Post = run_from (execute_payload p entered crystal.reactions_data) refl

  -- A call on the storage leaves the state.
  abbrev Stored : {A : Type 0} → Io D S E A → PrimusEngine D S → A → PrimusEngine D S → Type 0
  Stored io s a s' = (s'.state ≡ s.state) × (io s.storage ≡ (ok a, s'.storage))

  on_storage-from :
      {A : Type 0} (io : Io D S E A) (s : PrimusEngine D S)
      (r : Result (CoreError E) A × PrimusStorage D S)
      → io s.storage ≡ r
      → s.state.atoms ≡ e.state.atoms
      → Post KeepsAtoms (Stored io s) (r.0, record s { storage = r.1 })
  on_storage-from io s (err x, st) known kept = kept
  on_storage-from io s (ok a, st) known kept = (refl, known)

  on_storage-Post :
      {A : Type 0} (io : Io D S E A) (s : PrimusEngine D S)
      → s.state.atoms ≡ e.state.atoms
      → Post KeepsAtoms (Stored io s) (on_storage p io s)
  unfolding on_storage
  on_storage-Post io s kept = on_storage-from io s (io s.storage) refl kept

  -- The crystal that is recorded has the root that was calculated.
  abbrev Rooted : Hash32 → PrimusEngine D S → Crystal → PrimusEngine D S → Type 0
  Rooted calculated s c s' =
      (s' ≡ s)
      × (c.state_root ≡ calculated)
      × (record c { state_root = crystal.state_root } ≡ crystal)

  check_root-Post :
      (old_index : ℕ) (calculated : Hash32) (s : PrimusEngine D S)
      → s.state.atoms ≡ e.state.atoms
      → Post KeepsAtoms (Rooted calculated s) (check_root p old_index crystal calculated s)
  unfolding check_root
  check_root-Post old_index calculated s kept = elim (Bool-cases (has_no_root crystal)) [
    | inl empty ↦ rw empty (refl, refl, refl)
    | inr given ↦ elim (Bool-cases (same crystal.state_root calculated)) [
      | inl equal ↦ rw (given, equal) (refl, (same_iff crystal.state_root calculated).0 equal, refl)
      | inr other ↦ rw (given, other) kept
    ]
  ]

  -- The index of the crystal is taken, and the accounts are as before.
  abbrev HasEntered : {A : Type 0} → A → PrimusEngine D S → Type 0
  HasEntered _ s = (s.state.atoms ≡ e.state.atoms) × (s.state.current_crystal_index ≡ crystal.index)

  on_storage-HasEntered :
      {A : Type 0} (io : Io D S E A) (s : PrimusEngine D S)
      → HasEntered tt s
      → Post KeepsAtoms HasEntered (on_storage p io s)
  on_storage-HasEntered io s entry =
      Post-weaken KeepsAtoms KeepsAtoms (Stored io s) HasEntered (on_storage p io s)
        (on_storage-Post io s entry.0) (λ s' kept. kept)
        (λ a s' stored. (
          ap (λ t. t.atoms) stored.0 ∙ entry.0,
          ap (λ t. t.current_crystal_index) stored.0 ∙ entry.1,
        ))

  -- The accounts have what the changeset writes, and the index is that of the crystal.
  abbrev pub IsSolidified : Changeset → PrimusEngine D S → Type 0
  IsSolidified changeset s =
      (s.state.atoms ≡ insert_all changeset.inner e.state.atoms)
      × (s.state.current_crystal_index ≡ crystal.index)

  save_undo-HasEntered :
      (root : Hash32) (changeset : Changeset) (index : ℕ) (s : PrimusEngine D S)
      → HasEntered tt s
      → Post KeepsAtoms HasEntered (save_undo p index root changeset s)
  unfolding save_undo
  save_undo-HasEntered root changeset index s entry =
      then_run-Post KeepsAtoms HasEntered HasEntered (on_storage p _ s) _
        (on_storage-HasEntered _ s entry) (λ a s' entered'. entered')

  save_metrics-HasEntered :
      (s : PrimusEngine D S) → HasEntered tt s → Post KeepsAtoms HasEntered (save_metrics p s)
  unfolding save_metrics
  save_metrics-HasEntered s entry =
      then_run-Post KeepsAtoms HasEntered HasEntered (on_storage p _ s) _
        (on_storage-HasEntered _ s entry) (λ a s' entered'. entered')

  take_metrics-HasEntered :
      (consumed : F32) (s : PrimusEngine D S)
      → HasEntered tt s
      → HasEntered tt (take_metrics p consumed s)
  unfolding take_metrics
  take_metrics-HasEntered consumed s entry = entry

  settle-IsSolidified :
      (c : Crystal) (changeset : Changeset) (s : PrimusEngine D S)
      → HasEntered tt s
      → IsSolidified changeset (settle p c changeset s)
  unfolding settle apply_changeset
  settle-IsSolidified c changeset s entry = (ap (insert_all changeset.inner) entry.0, entry.1)

  record_crystal-Post :
      (c : Crystal) (root : Hash32) (changeset : Changeset) (consumed : F32) (s : PrimusEngine D S)
      → HasEntered tt s
      → Post KeepsAtoms (λ _. IsSolidified changeset) (record_crystal p c root changeset consumed s)
  unfolding record_crystal
  record_crystal-Post c root changeset consumed s entry =
      then_run-Post KeepsAtoms HasEntered (λ _. IsSolidified changeset)
        (save_undo p c.index root changeset s) _
        (save_undo-HasEntered root changeset c.index s entry)
        (λ _ s1 e1.
          then_run-Post KeepsAtoms HasEntered (λ _. IsSolidified changeset)
            (save_metrics p (take_metrics p consumed s1)) _
            (save_metrics-HasEntered (take_metrics p consumed s1)
              (take_metrics-HasEntered consumed s1 e1))
            (λ _ s2 e2.
              then_run-Post KeepsAtoms HasEntered (λ _. IsSolidified changeset) (on_storage p _ s2)
                _ (on_storage-HasEntered _ s2 e2)
                (λ _ s3 e3. settle-IsSolidified c changeset s3 e3)))

  commit : Changeset → Io D S E Hash32
  commit changeset = commit_changeset p.sled p.hashes p.codecs.atom p.store changeset crystal.index

  -- What a crystal that is accepted says: its reactions execute, its root is the one that the trie
  -- has after the commit, it differs from the crystal in its root at most, and the accounts and the
  -- index follow.
  abbrev pub IsAccepted : Crystal → PrimusEngine D S → Type 0
  IsAccepted c s =
      (done : Changeset × F32) × (after : PrimusStorage D S) × (execute_payload p entered
          crystal.reactions_data
        ≡ ok done)
      × (commit_changeset p.sled p.hashes p.codecs.atom p.store done.0 crystal.index e.storage
          ≡ (ok c.state_root, after))
      × IsSolidified done.0 s
      × (record c { state_root = crystal.state_root } ≡ crystal)

  record_rooted :
      (done : Changeset × F32) (s1 s2 : PrimusEngine D S) (root : Hash32) (old_index : ℕ)
      (pre_root : Hash32)
      → execute_payload p entered crystal.reactions_data ≡ ok done
      → s1 ≡ entered
      → Stored (commit done.0) s1 root s2
      → Post KeepsAtoms IsAccepted (
          then_run (check_root p old_index crystal root s2) (λ rooted s3.
            then_run (record_crystal p rooted pre_root done.0 done.1 s3) (λ _ s4. (ok rooted, s4))))
  unfolding commit
  record_rooted done s1 s2 root old_index pre_root ran same1 stored =
      then_run-Post KeepsAtoms (Rooted root s2) IsAccepted (check_root p old_index crystal root s2)
        _
        (check_root-Post old_index root s2
          (ap (λ t. t.atoms) stored.0 ∙ ap (λ t. t.state.atoms) same1))
        (λ rooted s3 r.
          then_run-Post KeepsAtoms (λ _. IsSolidified done.0) IsAccepted
            (record_crystal p rooted pre_root done.0 done.1 s3) _
            (record_crystal-Post rooted pre_root done.0 done.1 s3 (
              ap (λ t. t.state.atoms) r.0
                  ∙ ap (λ t. t.atoms) stored.0
                  ∙ ap (λ t. t.state.atoms) same1,
              ap (λ t. t.state.current_crystal_index) r.0
                  ∙ ap (λ t. t.current_crystal_index) stored.0
                  ∙ ap (λ t. t.state.current_crystal_index) same1,
            ))
            (λ _ s4 solid. (
              done,
              s2.storage,
              ran,
              ap
                    (λ t.
                      commit_changeset p.sled p.hashes p.codecs.atom p.store done.0 crystal.index
                        t.storage)
                    (sym same1)
                  ∙ stored.1
                  ∙ ap (λ x. (ok x, s2.storage)) (sym r.1),
              solid,
              r.2,
            )))

  -- A crystal that is refused leaves the accounts in memory as they were. One that is accepted has
  -- reactions that execute and is changed in its root at most, which is the one that the trie has
  -- after their writes, and its writes are the accounts' and its index the state's.
  pub finalize_solidification-Post :
      Post KeepsAtoms IsAccepted (finalize_solidification p crystal e)
  unfolding finalize_solidification commit
  finalize_solidification-Post =
      then_run-Post KeepsAtoms Executed IsAccepted (run_crystal p crystal e) _ run_crystal-Post
        (λ done s1 ran.
          then_run-Post KeepsAtoms (Stored (commit done.0) s1) IsAccepted
            (on_storage p (commit done.0) s1) _
            (on_storage-Post (commit done.0) s1 (ap (λ t. t.state.atoms) ran.0))
            (λ root s2 stored.
              record_rooted done s1 s2 root e.state.current_crystal_index _ ran.1 ran.0 stored))
