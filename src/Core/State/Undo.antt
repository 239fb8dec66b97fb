-- ===== src/Core/State/Undo.antt =====
-- Undo logs put the atoms back as they were.
use primus_project.Base.{
  ℕ, suc, ◌≡◌, ◌∙◌, refl, ap, Bool, true, false, Option, none, some, List, [], ◌∷◌, ◌++◌, arith,
  if◌then◌else◌, ◌||◌,
}
use primus_project.Base.Ord.{same, same_iff, bytes_ord}
use primus_project.Machine.Word.{Bytes}
use primus_project.Collections.BTreeMap
use primus_project.Collections.BTreeMap.{BTreeMap}
use primus_project.Collections.BTreeMap.Laws.{get-insert, get-remove}
use primus_project.Collections.BTreeMap.Order.{Above, IsSorted, insert-IsSorted}
use primus_project.Types.Atom.{Atom}
use primus_project.Storage.Changeset
use primus_project.Storage.Changeset.{Changeset, UndoLog}
use primus_project.Core.State.{
  StateTree, get_atom, insert_all, apply_changeset, record_keys, undo_log_of, restore_atom,
  restore_images, roll_back,
}

abbrev has : Bytes → List Bytes → Bool
has k [] = false
has k (j ∷ ks) = same k j || has k ks

-- What the images say of a key.
abbrev image_or : Option (Option Atom) → Option Atom → Option Atom
image_or none now = now
image_or (some before) now = before

get-restore_atom :
    (k pk : Bytes) (before : Option Atom) (atoms : BTreeMap Bytes Atom)
    → BTreeMap.get k (restore_atom pk before atoms)
      ≡ (if same k pk then before else BTreeMap.get k atoms)
unfolding restore_atom
get-restore_atom k pk none atoms = get-remove k pk atoms
get-restore_atom k pk (some atom) atoms = get-insert k pk atom atoms

-- A key that the writes do not have is left alone.
get-insert_all :
    (k : Bytes) (writes atoms : BTreeMap Bytes Atom)
    → has k (BTreeMap.keys writes) ≡ false
    → BTreeMap.get k (insert_all writes atoms) ≡ BTreeMap.get k atoms
get-insert_all k [] atoms out = refl
get-insert_all k ((j, a) ∷ writes) atoms out =
    ground (arith, get-insert_all k writes (BTreeMap.insert j a atoms), get-insert k j a atoms)

get-Above :
    (k j : Bytes) (images : BTreeMap Bytes (Option Atom))
    → Above j images
    → same k j ≡ true
    → BTreeMap.get k images ≡ none
unfolding BTreeMap.get
get-Above k j [] above e = refl
get-Above k j ((i, _) ∷ images) above e =
    ground (arith, get-Above k j images above.1 e, same_iff k j, above.0, bytes_ord.self k)

get-restore_images :
    (k : Bytes) (images : BTreeMap Bytes (Option Atom)) (atoms : BTreeMap Bytes Atom)
    → IsSorted images
    → BTreeMap.get k (restore_images images atoms)
      ≡ image_or (BTreeMap.get k images) (BTreeMap.get k atoms)
unfolding restore_images BTreeMap.get
get-restore_images k [] atoms sorted = refl
get-restore_images k ((j, before) ∷ images) atoms sorted = ground (
  arith,
  get-restore_images k images (restore_atom j before atoms) sorted.1,
  get-restore_atom k j before atoms,
  get-Above k j images sorted.0,
)

record_image-IsSorted :
    (pk : Bytes) (before : Option Atom) (u : UndoLog)
    → IsSorted u.pre_images
    → IsSorted (Changeset.record_image pk before u).pre_images
unfolding Changeset.record_image
record_image-IsSorted pk before u sorted =
    ground (arith, insert-IsSorted pk before u.pre_images sorted)

record_keys-IsSorted :
    (ks : List Bytes) (s : StateTree) (u : UndoLog)
    → IsSorted u.pre_images
    → IsSorted (record_keys ks s u).pre_images
unfolding record_keys
record_keys-IsSorted [] s u sorted = sorted
record_keys-IsSorted (k ∷ ks) s u sorted =
    record_keys-IsSorted ks s (Changeset.record_image k (get_atom k s) u)
      (record_image-IsSorted k (get_atom k s) u sorted)

get-record_image :
    (k pk : Bytes) (before : Option Atom) (u : UndoLog)
    → BTreeMap.get k (Changeset.record_image pk before u).pre_images
      ≡ elim (BTreeMap.get k u.pre_images) [
        | some b ↦ some b
        | none ↦ if same k pk then some before else none
      ]
unfolding Changeset.record_image
get-record_image k pk before u = ground (arith, get-insert k pk before u.pre_images, same_iff k pk)

get-record_keys :
    (k : Bytes) (ks : List Bytes) (s : StateTree) (u : UndoLog)
    → BTreeMap.get k (record_keys ks s u).pre_images ≡ elim (BTreeMap.get k u.pre_images) [
      | some b ↦ some b
      | none ↦ if has k ks then some (get_atom k s) else none
    ]
unfolding record_keys
get-record_keys k [] s u = ground arith
get-record_keys k (j ∷ ks) s u = ground (
  arith,
  get-record_keys k ks s (Changeset.record_image j (get_atom j s) u),
  get-record_image k j (get_atom j s) u,
  same_iff k j,
)

-- One crystal undone: every key reads as it did before the crystal.
get-undo :
    (k root : Bytes) (index : ℕ) (c : Changeset) (s : StateTree)
    → image_or
        (BTreeMap.get k (undo_log_of index root c s).pre_images)
        (BTreeMap.get k (insert_all c.inner s.atoms))
      ≡ BTreeMap.get k s.atoms
unfolding undo_log_of Changeset.sorted_keys get_atom BTreeMap.get
get-undo k root index c s = ground (
  arith,
  get-record_keys k (BTreeMap.keys c.inner) s (Changeset.new_undo index root),
  get-insert_all k c.inner s.atoms,
)

undo_log_of-IsSorted :
    (root : Bytes) (index : ℕ) (c : Changeset) (s : StateTree)
    → IsSorted (undo_log_of index root c s).pre_images
unfolding undo_log_of
undo_log_of-IsSorted root index c s =
    record_keys-IsSorted (Changeset.sorted_keys c) s (Changeset.new_undo index root) tt

-- The states after crystals that write `cs`, each with the root that stood before it.
abbrev pub advance : List (Bytes × Changeset) → StateTree → StateTree
advance [] s = s
advance ((_, c) ∷ cs) s = advance cs (apply_changeset c s)

-- Their undo logs from the height `index` on, newest first.
abbrev pub history : ℕ → List (Bytes × Changeset) → StateTree → List (ℕ × UndoLog)
history index [] s = []
history index ((root, c) ∷ cs) s =
    history (suc index) cs (apply_changeset c s) ++ (index, undo_log_of index root c s) ∷ []

roll_back-snoc :
    (logs : List (ℕ × UndoLog)) (i : ℕ) (u : UndoLog) (s : StateTree)
    → (roll_back (logs ++ (i, u) ∷ []) s).atoms
      ≡ restore_images u.pre_images (roll_back logs s).atoms
unfolding roll_back
roll_back-snoc [] i u s = refl
roll_back-snoc ((_, v) ∷ logs) i u s =
    roll_back-snoc logs i u (record s { atoms = restore_images v.pre_images s.atoms })

-- However many crystals write whatever changesets, rolling back by the undo logs that were taken
-- before each of them, newest first, leaves every account as it was before the first.
pub get_atom-roll_back :
    (k : Bytes) (index : ℕ) (cs : List (Bytes × Changeset)) (s : StateTree)
    → get_atom k (roll_back (history index cs s) (advance cs s)) ≡ get_atom k s
unfolding roll_back get_atom apply_changeset
get_atom-roll_back k index [] s = refl
get_atom-roll_back k index ((root, c) ∷ cs) s =
    ap (BTreeMap.get k) (
      roll_back-snoc (history (suc index) cs (apply_changeset c s)) index
        (undo_log_of index root c s) (advance cs (apply_changeset c s)))
    ∙ get-restore_images k (undo_log_of index root c s).pre_images
        (roll_back (history (suc index) cs (apply_changeset c s))
          (advance cs (apply_changeset c s))).atoms
        (undo_log_of-IsSorted root index c s)
    ∙ ap (image_or (BTreeMap.get k (undo_log_of index root c s).pre_images))
        (get_atom-roll_back k (suc index) cs (apply_changeset c s))
    ∙ get-undo k root index c s
