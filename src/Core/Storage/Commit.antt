-- ===== src/Core/Storage/Commit.antt =====
-- `commit_changeset` and `prune_undo_window` of primus-core/src/storage.rs.
use primus_project.Base.{ℕ, zero, suc, ◌-◌, Option, none, some, List, [], ◌∷◌, leb, if◌then◌else◌}
use primus_project.Base.Outcome.{Result, ok, err}
use primus_project.Machine.Word.{Bytes, le_bytes}
use primus_project.Collections.BTreeMap.{BTreeMap}
use primus_project.Types.Crypto.{Hashes}
use primus_project.Types.Atom.{Atom}
use primus_project.Storage.Changeset.{Changeset}
use primus_project.Storage.Mpt.{Hash32, MptStore, TrieError}
use primus_project.Storage.Mpt.Trie
use primus_project.Storage.Mpt.Collect.{gc_since}
use primus_project.Core.Run.{◌>>=◌, ◌>>◌, return, current, modify, of_option}
use primus_project.Core.Crystal.{zero_root}
use primus_project.Core.Storage.{
  SledDb, Codec, CoreError, serialization_failed, trie_failed, PrimusStorage, Io, db_insert,
  db_remove, gc_insert, write, atom_key, save_contract, mpt_root_key, history_key, undo_key,
  undo_window, to_hash,
}

-- One entry of `updates`: the key in the trie, the value, the public key and the atom.
pub record Update : Type 0 where
  pub trie_key : Bytes
  pub value : Bytes
  pub public_key : Bytes
  pub atom : Atom

module _ {D S E : Type 0} (h : Hashes) (codec : Codec Atom) where
  unfoldable pub updates : BTreeMap Bytes Atom → Io D S E (List Update)
  updates [] = return []
  updates ((pk, atom) ∷ writes) =
      let rest = updates writes in
      do
        value ← of_option serialization_failed (codec.serialize atom)
        later ← rest
        return
            (record { trie_key = h.sha3 pk; value = value; public_key = pk; atom = atom } ∷ later)

-- `mpt.insert`: an insertion that fails leaves the nodes and the root as before it.
abbrev inserted :
    {D S E : Type 0}
    → Result TrieError (Hash32 × S)
    → PrimusStorage D S
    → Result (CoreError E) (Unit {0}) × PrimusStorage D S
inserted (err e) s = (err (trie_failed e), s)
inserted (ok (root, nodes)) s = (ok tt, record s { mpt_store = nodes; mpt_root = some root })

unfoldable pub mpt_insert : {D S E : Type 0} → MptStore S → Bytes → Bytes → Io D S E (Unit {0})
mpt_insert store key value s = inserted (Trie.insert store s.mpt_root key value s.mpt_store) s

unfoldable pub insert_updates : {D S E : Type 0} → MptStore S → List Update → Io D S E (Unit {0})
insert_updates store [] = return tt
insert_updates store (u ∷ us) =
    let rest = insert_updates store us in do mpt_insert store u.trie_key u.value; rest

abbrev root_or_zero : Option Hash32 → Hash32
root_or_zero none = zero_root
root_or_zero (some r) = r

module _ {D S E : Type 0} (sled : SledDb D E) where
  unfoldable pub log_old_root : ℕ → Option Hash32 → Io D S E (Unit {0})
  log_old_root crystal_index none = return tt
  log_old_root crystal_index (some old) = do
    gc_insert sled (le_bytes 8 crystal_index) old
    return tt

  unfoldable pub save_atoms : Codec Atom → List Update → Io D S E (Unit {0})
  save_atoms codec [] = return tt
  save_atoms codec (u ∷ us) =
      let rest = save_atoms codec us in do write sled codec (atom_key u.public_key) u.atom; rest

  unfoldable pub save_contracts : BTreeMap Bytes Bytes → Io D S E (Unit {0})
  save_contracts [] = return tt
  save_contracts ((hash, code) ∷ contracts) =
      let rest = save_contracts contracts in do save_contract sled hash code; rest

  -- Steps 1 and 2: the trie, and the root that readers see.
  unfoldable pub commit_trie :
      Hashes → Codec Atom → MptStore S → Changeset → ℕ → Io D S E (List Update × Hash32)
  commit_trie h codec store changeset crystal_index = do
    us ← updates h codec changeset.inner
    before ← current
    insert_updates store us
    after ← current
    let new_root = root_or_zero after.mpt_root
    log_old_root crystal_index before.mpt_root
    modify (λ s. record s { root = some new_root })
    return (us, new_root)

  -- Step 3: the atoms, the contracts and the root on disk.
  unfoldable pub persist : Codec Atom → Changeset → ℕ → List Update × Hash32 → Io D S E Hash32
  persist codec changeset crystal_index (us, new_root) = do
    save_atoms codec us
    save_contracts changeset.contracts
    db_insert sled mpt_root_key new_root
    db_insert sled (history_key crystal_index) new_root
    return new_root

  unfoldable pub commit_changeset :
      Hashes → Codec Atom → MptStore S → Changeset → ℕ → Io D S E Hash32
  commit_changeset h codec store changeset crystal_index = do
    committed ← commit_trie h codec store changeset crystal_index
    persist codec changeset crystal_index committed

  -- The nodes of the root that is logged for a crystal. A collection that fails is only reported.
  unfoldable pub collect_logged : ℕ → MptStore S → Bytes → PrimusStorage D S → PrimusStorage D S
  collect_logged fuel store old_root s = elim (to_hash old_root) [
    | none ↦ s
    | some old ↦ elim (gc_since store fuel s.mpt_root old s.mpt_store) [
      | err _ ↦ s
      | ok collected ↦ record s { mpt_store = collected.0 }
    ]
  ]

  unfoldable pub prune_one : ℕ → MptStore S → ℕ → PrimusStorage D S → PrimusStorage D S
  prune_one fuel store idx s =
      let s1 = (db_remove sled (undo_key idx) s).1 in
      let gc_key = le_bytes 8 idx in
      elim (sled.get gc_key s1.gc_log) [
        | err _ ↦ s1
        | ok none ↦ s1
        | ok (some old_root) ↦
            (let s2 = collect_logged fuel store old_root s1 in
              record s2 { gc_log = (sled.remove gc_key s2.gc_log).1 })
      ]

  -- `for idx in 0..cutoff`
  unfoldable pub prune_from : ℕ → MptStore S → ℕ → ℕ → PrimusStorage D S → PrimusStorage D S
  prune_from fuel store zero idx s = s
  prune_from fuel store (suc rounds) idx s =
      prune_from fuel store rounds (suc idx) (prune_one fuel store idx s)

  unfoldable pub prune_undo_window : ℕ → MptStore S → ℕ → PrimusStorage D S → PrimusStorage D S
  prune_undo_window fuel store current_height s =
      if leb current_height undo_window
      then s
      else prune_from fuel store (current_height - undo_window) 0 s
