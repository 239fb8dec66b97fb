-- ===== src/Core/Processor/Orphan.antt =====
-- What the storage says after a rollback.
use primus_project.Base.{
  ℕ, ◌≡◌, ◌∙◌, refl, sym, ap, subst, false, Option, none, some, List, [], ◌∷◌, ◌++◌, arith,
  if◌then◌else◌,
}
use primus_project.Base.Outcome.{Result, ok, err}
use primus_project.Base.Ord.{same, same_refl, bytes_ord, compare_bytes}
use primus_project.Machine.Word.{Bytes}
use primus_project.Collections.BTreeMap.{BTreeMap}
use primus_project.Types.Atom.{Atom}
use primus_project.Storage.Changeset.{UndoLog}
use primus_project.Core.Run.{of_result}
use primus_project.Core.Run.Post.{Post, then_run-Post}
use primus_project.Core.Crystal.{Crystal}
use primus_project.Core.State.{StateTree, roll_back}
use primus_project.Core.Storage.{
  SledDb, Codec, CoreError, PrimusStorage, of_sled, latest_index_key, atom_key, crystal_key,
  undo_key, to_index, db_get, db_transaction, db_flush, read, get_crystal, get_crystal_latest,
}
use primus_project.Core.Engine.{PrimusEngine, Platform, on_storage}
use primus_project.Core.Processor.{
  image_writes, atom_writes, join_writes, deletions, set_state, undo_crystals, extend,
  process_network_crystal,
}

-- What a batch leaves under a key that held `old`.
abbrev pub written : List (Bytes × Option Bytes) → Bytes → Option Bytes → Option Bytes
written [] k old = old
written ((j, value) ∷ batch) k old = written batch k (if same k j then value else old)

-- A `sled` database is a map, a batch that succeeds is written in order, and a flush changes nothing.
pub record IsMap {D E : Type 0} (sled : SledDb D E) (view : D → Bytes → Option Bytes) : Type 0 where
  pub got : (k : Bytes) (d : D) → sled.get k d ≡ ok (view d k)
  pub applied :
      (batch : List (Bytes × Option Bytes)) (d : D) (k : Bytes)
      → (sled.transaction batch d).0 ≡ ok tt
      → view (sled.transaction batch d).1 k ≡ written batch k (view d k)
  pub flushed : (d : D) (k : Bytes) → view (sled.flush d).1 k ≡ view d k

-- The batch does not have the key.
abbrev Avoids : Bytes → List (Bytes × Option Bytes) → Type 0
Avoids k [] = Unit
Avoids k ((j, _) ∷ batch) = (same k j ≡ false) × Avoids k batch

written-Avoids :
    (k : Bytes) (batch : List (Bytes × Option Bytes)) (old : Option Bytes)
    → Avoids k batch
    → written batch k old ≡ old
written-Avoids k [] old away = refl
written-Avoids k ((j, v) ∷ batch) old away = rw away.0 (written-Avoids k batch old away.1)

written-append :
    (k : Bytes) (xs ys : List (Bytes × Option Bytes)) (old : Option Bytes)
    → written (xs ++ ys) k old ≡ written ys k (written xs k old)
written-append k [] ys old = refl
written-append k ((j, v) ∷ xs) ys old = written-append k xs ys (if same k j then v else old)

Avoids-append :
    (k : Bytes) (xs ys : List (Bytes × Option Bytes))
    → Avoids k xs
    → Avoids k ys
    → Avoids k (xs ++ ys)
Avoids-append k [] ys a b = b
Avoids-append k (x ∷ xs) ys a b = (a.0, Avoids-append k xs ys a.1 b)

abbrev AvoidsIfOk :
    {E : Type 0} → Bytes → Result (CoreError E) (List (Bytes × Option Bytes)) → Type 0
AvoidsIfOk k (err _) = Unit
AvoidsIfOk k (ok batch) = Avoids k batch

latest-ne-atom : (pk : Bytes) → same latest_index_key (atom_key pk) ≡ false
unfolding atom_key compare_bytes bytes_ord
latest-ne-atom pk = refl

latest-ne-crystal : (h : ℕ) → same latest_index_key (crystal_key h) ≡ false
unfolding crystal_key compare_bytes bytes_ord
latest-ne-crystal h = refl

latest-ne-undo : (h : ℕ) → same latest_index_key (undo_key h) ≡ false
unfolding undo_key compare_bytes bytes_ord
latest-ne-undo h = refl

module _ (E : Type 0) (codec : Codec Atom) where
  image_writes-avoid :
      (images : BTreeMap Bytes (Option Atom))
      → AvoidsIfOk {E = E} latest_index_key (image_writes codec images)
  unfolding image_writes
  image_writes-avoid [] = tt
  image_writes-avoid ((pk, before) ∷ images) =
      ground (arith, image_writes-avoid images, latest-ne-atom pk)

  join_writes-avoid :
      (a b : Result (CoreError E) (List (Bytes × Option Bytes)))
      → AvoidsIfOk latest_index_key a
      → AvoidsIfOk latest_index_key b
      → AvoidsIfOk latest_index_key (join_writes a b)
  join_writes-avoid (err e) b ha hb = tt
  join_writes-avoid (ok writes) (err e) ha hb = tt
  join_writes-avoid (ok writes) (ok later) ha hb = Avoids-append latest_index_key writes later ha hb

  atom_writes-avoid :
      (logs : List (ℕ × UndoLog)) → AvoidsIfOk {E = E} latest_index_key (atom_writes codec logs)
  unfolding atom_writes
  atom_writes-avoid [] = tt
  atom_writes-avoid ((_, u) ∷ logs) =
      join_writes-avoid (image_writes codec u.pre_images) (atom_writes codec logs)
        (image_writes-avoid u.pre_images) (atom_writes-avoid logs)

deletions-avoid : (logs : List (ℕ × UndoLog)) → Avoids latest_index_key (deletions logs)
unfolding deletions
deletions-avoid [] = tt
deletions-avoid ((h, _) ∷ logs) = (latest-ne-crystal h, (latest-ne-undo h, deletions-avoid logs))

-- What the deletions find missing stays missing.
written-deletions : (k : Bytes) (logs : List (ℕ × UndoLog)) → written (deletions logs) k none ≡ none
unfolding deletions
written-deletions k [] = refl
written-deletions k ((h, _) ∷ logs) = ground (arith, written-deletions k logs)

-- The tip, whose log is the first, is gone.
written-tip :
    (tip : ℕ) (u : UndoLog) (logs : List (ℕ × UndoLog)) (old : Option Bytes)
    → written (deletions ((tip, u) ∷ logs)) (crystal_key tip) old ≡ none
unfolding deletions
written-tip tip u logs old =
    ground (arith, same_refl (crystal_key tip), written-deletions (crystal_key tip) logs)

abbrev pub with_index : ℕ → StateTree → StateTree
with_index index t = record t { current_crystal_index = index }

module _ {D S E : Type 0} (p : Platform D S E) (view : D → Bytes → Option Bytes)
    (m : IsMap p.sled view) where
  -- The state is the one at the ancestor. The index of the tip is still stored, and its crystal is not.
  abbrev IsUndone : PrimusEngine D S → ℕ → ℕ → List (ℕ × UndoLog) → PrimusEngine D S → Type 0
  IsUndone e ancestor tip logs e1 =
      (e1.state ≡ with_index ancestor (roll_back logs e.state))
      × (view e1.storage.db latest_index_key ≡ view e.storage.db latest_index_key)
      × (view e1.storage.db (crystal_key tip) ≡ none)

  -- After the batch.
  abbrev IsDeleted : PrimusEngine D S → ℕ → List (ℕ × UndoLog) → PrimusEngine D S → Type 0
  IsDeleted e tip logs e1 =
      (e1.state ≡ roll_back logs e.state)
      × (view e1.storage.db latest_index_key ≡ view e.storage.db latest_index_key)
      × (view e1.storage.db (crystal_key tip) ≡ none)

  abbrev NoClaim : PrimusEngine D S → Type 0
  NoClaim e = Unit

  view-transaction :
      (batch : List (Bytes × Option Bytes)) (d d' : D) (k : Bytes)
      → p.sled.transaction batch d ≡ (ok tt, d')
      → view d' k ≡ written batch k (view d k)
  view-transaction batch d d' k done =
      ap (λ r. view r.1 k) (sym done) ∙ m.applied batch d k (ap (λ r. r.0) done)

  batch-from :
      (e s : PrimusEngine D S) (tip : ℕ) (u : UndoLog) (logs : List (ℕ × UndoLog))
      (writes : List (Bytes × Option Bytes)) (r : Result E (Unit {0}) × D)
      → p.sled.transaction (writes ++ deletions ((tip, u) ∷ logs)) s.storage.db ≡ r
      → s.state ≡ roll_back ((tip, u) ∷ logs) e.state
      → s.storage ≡ e.storage
      → Avoids latest_index_key writes
      → Post NoClaim
          (λ _. IsDeleted e tip ((tip, u) ∷ logs))
          (of_sled r.0, record s { storage = record s.storage { db = r.1 } })
  batch-from e s tip u logs writes (err x, d) known same_state same_storage away = tt
  batch-from e s tip u logs writes (ok tt', d) known same_state same_storage away = (
    same_state,
    view-transaction (writes ++ deletions ((tip, u) ∷ logs)) s.storage.db d latest_index_key known
        ∙ written-Avoids latest_index_key (writes ++ deletions ((tip, u) ∷ logs)) _ (
            Avoids-append latest_index_key writes (deletions ((tip, u) ∷ logs)) away
              (deletions-avoid ((tip, u) ∷ logs)))
        ∙ ap (λ st. view st.db latest_index_key) same_storage,
    view-transaction (writes ++ deletions ((tip, u) ∷ logs)) s.storage.db d (crystal_key tip) known
        ∙ written-append (crystal_key tip) writes (deletions ((tip, u) ∷ logs)) _
        ∙ written-tip tip u logs _,
  )

  batch-IsDeleted :
      (e s : PrimusEngine D S) (tip : ℕ) (u : UndoLog) (logs : List (ℕ × UndoLog))
      (writes : List (Bytes × Option Bytes))
      → s.state ≡ roll_back ((tip, u) ∷ logs) e.state
      → s.storage ≡ e.storage
      → Avoids latest_index_key writes
      → Post NoClaim
          (λ _. IsDeleted e tip ((tip, u) ∷ logs))
          (on_storage p (db_transaction p.sled (writes ++ deletions ((tip, u) ∷ logs))) s)
  unfolding on_storage db_transaction
  batch-IsDeleted e s tip u logs writes same_state same_storage away =
      batch-from e s tip u logs writes
        (p.sled.transaction (writes ++ deletions ((tip, u) ∷ logs)) s.storage.db) refl same_state
        same_storage away

  flush-from :
      (e s : PrimusEngine D S) (tip : ℕ) (logs : List (ℕ × UndoLog)) (r : Result E (Unit {0}) × D)
      → p.sled.flush s.storage.db ≡ r
      → IsDeleted e tip logs s
      → Post NoClaim
          (λ _. IsDeleted e tip logs)
          (of_sled r.0, record s { storage = record s.storage { db = r.1 } })
  flush-from e s tip logs (err x, d) known gone = tt
  flush-from e s tip logs (ok tt', d) known gone = (
    gone.0,
    ap (λ r. view r.1 latest_index_key) (sym known)
        ∙ m.flushed s.storage.db latest_index_key
        ∙ gone.1,
    ap (λ r. view r.1 (crystal_key tip)) (sym known)
        ∙ m.flushed s.storage.db (crystal_key tip)
        ∙ gone.2,
  )

  flush-IsDeleted :
      (e s : PrimusEngine D S) (tip : ℕ) (logs : List (ℕ × UndoLog))
      → IsDeleted e tip logs s
      → Post NoClaim (λ _. IsDeleted e tip logs) (on_storage p (db_flush p.sled) s)
  unfolding on_storage db_flush
  flush-IsDeleted e s tip logs gone = flush-from e s tip logs (p.sled.flush s.storage.db) refl gone

  writes-Post :
      (e : PrimusEngine D S) (r : Result (CoreError E) (List (Bytes × Option Bytes)))
      → AvoidsIfOk latest_index_key r
      → Post NoClaim (λ writes s. (s ≡ e) × Avoids latest_index_key writes) (of_result r e)
  writes-Post e (err x) away = tt
  writes-Post e (ok writes) away = (refl, away)

  undo_crystals-Post :
      (e : PrimusEngine D S) (tip ancestor : ℕ) (u : UndoLog) (logs : List (ℕ × UndoLog))
      → Post NoClaim
          (λ _. IsUndone e ancestor tip ((tip, u) ∷ logs))
          (undo_crystals p ((tip, u) ∷ logs) ancestor e)
  unfolding undo_crystals
  undo_crystals-Post e tip ancestor u logs =
      let all = (tip, u) ∷ logs in
      let rolled = set_state p (roll_back all e.state) e in
      then_run-Post NoClaim (λ writes s. (s ≡ rolled) × Avoids latest_index_key writes)
        (λ _. IsUndone e ancestor tip all) (of_result (atom_writes p.codecs.atom all) rolled) _
        (writes-Post rolled (atom_writes p.codecs.atom all) (atom_writes-avoid E p.codecs.atom all))
        (λ writes s1 ready.
          then_run-Post NoClaim (λ _. IsDeleted e tip all) (λ _. IsUndone e ancestor tip all)
            (on_storage p (db_transaction p.sled (writes ++ deletions all)) s1) _
            (batch-IsDeleted e s1 tip u logs writes (ap (λ s. s.state) ready.0)
              (ap (λ s. s.storage) ready.0) ready.1)
            (λ _ s2 gone.
              then_run-Post NoClaim (λ _. IsDeleted e tip all) (λ _. IsUndone e ancestor tip all)
                (on_storage p (db_flush p.sled) s2) _ (flush-IsDeleted e s2 tip all gone)
                (λ _ s3 gone'. (ap (with_index ancestor) gone'.0, gone'.1, gone'.2))))

  get_crystal_latest-none :
      (s : PrimusStorage D S) (tip : ℕ) (b : Bytes)
      → view s.db latest_index_key ≡ some b
      → to_index b ≡ some tip
      → view s.db (crystal_key tip) ≡ none
      → get_crystal_latest p.sled p.codecs.crystal s ≡ (ok none, s)
  unfolding get_crystal_latest get_crystal read db_get
  get_crystal_latest-none s tip b stored decoded gone =
      rw (m.got latest_index_key s.db ∙ ap ok stored)
        (rw decoded (rw (m.got (crystal_key tip) s.db ∙ ap ok gone) refl))

  -- After a rollback whose new chain was not applied, the index of the old tip is still stored but
  -- its crystal is not, so the node takes itself for a new one: whatever crystal comes next, at any
  -- height and with any parent, goes on to the check of its work and to solidification. The state is
  -- the one at the ancestor.
  pub process_network_crystal-orphan :
      (e e1 : PrimusEngine D S) (incoming : Crystal) (tip ancestor : ℕ) (u : UndoLog)
      (logs : List (ℕ × UndoLog)) (b : Bytes)
      → undo_crystals p ((tip, u) ∷ logs) ancestor e ≡ (ok tt, e1)
      → view e.storage.db latest_index_key ≡ some b
      → to_index b ≡ some tip
      → (process_network_crystal p incoming e1 ≡ extend p incoming e1)
        × (e1.state ≡ with_index ancestor (roll_back ((tip, u) ∷ logs) e.state))
  unfolding process_network_crystal on_storage
  process_network_crystal-orphan e e1 incoming tip ancestor u logs b undone stored decoded =
      let is_undone : IsUndone e ancestor tip ((tip, u) ∷ logs) e1 =
        subst (Post NoClaim (λ _. IsUndone e ancestor tip ((tip, u) ∷ logs))) undone
          (undo_crystals-Post e tip ancestor u logs) in
      (
        rw (get_crystal_latest-none e1.storage tip b (is_undone.1 ∙ stored) decoded is_undone.2)
            refl,
        is_undone.0,
      )
