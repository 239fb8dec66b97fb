-- ===== src/Core/State.antt =====
-- primus-core/src/state.rs: the atoms of the chain in memory.
pub mod Undo
use package.primus_project.Base.{ℕ, ◌+◌, ◌%◌, ◌^◌, Option, none, some, List, [], ◌∷◌, ◌++◌}
use package.primus_project.Base.Ord.{bytes_ord}
use package.primus_project.Machine.Word.{Bytes, le_bytes}
use package.primus_project.Collections.BTreeMap
use package.primus_project.Collections.BTreeMap.{BTreeMap}
use package.primus_project.Types.Crypto.{Hashes}
use package.primus_project.Types.Atom.{Atom}
use package.primus_project.Storage.Changeset
use package.primus_project.Storage.Changeset.{Changeset, GlobalMetrics, UndoLog, canonical}

pub record StateTree : Type 0 where
  pub atoms : BTreeMap Bytes Atom
  pub current_crystal_index : ℕ
  pub global_metrics : GlobalMetrics

abbrev pub new_state : StateTree
new_state = record {
  atoms = [];
  current_crystal_index = 0;
  global_metrics = record { temperature = 0; entropy = 0 };
}

unfoldable pub load_state : BTreeMap Bytes Atom → GlobalMetrics → StateTree → StateTree
load_state atoms metrics s = record s { atoms = atoms; global_metrics = metrics }

unfoldable pub get_atom : Bytes → StateTree → Option Atom
get_atom pk s = BTreeMap.get pk s.atoms

abbrev pub insert_all : BTreeMap Bytes Atom → BTreeMap Bytes Atom → BTreeMap Bytes Atom
insert_all [] atoms = atoms
insert_all ((pk, atom) ∷ writes) atoms = insert_all writes (BTreeMap.insert pk atom atoms)

unfoldable pub apply_changeset : Changeset → StateTree → StateTree
apply_changeset c s = record s { atoms = insert_all c.inner s.atoms }

unfoldable pub increment_index : StateTree → StateTree
increment_index s = record s { current_crystal_index = (s.current_crystal_index + 1) % 2 ^ 64 }

-- The bytes of the atoms, which are left out if they do not serialise.
abbrev pub atom_bytes : Option Bytes → Bytes
atom_bytes none = []
atom_bytes (some b) = b

unfoldable pub atoms_input : (Atom → Option Bytes) → BTreeMap Bytes Atom → Bytes
atoms_input serialize [] = []
atoms_input serialize ((pk, atom) ∷ atoms) =
    pk ++ (atom_bytes (serialize atom) ++ atoms_input serialize atoms)

unfoldable pub calculate_root_hash : Hashes → (Atom → Option Bytes) → StateTree → Bytes
calculate_root_hash h serialize s =
    let (temp_fixed, entropy_fixed) = canonical s.global_metrics in
    h.blake3 (
      le_bytes 8 s.current_crystal_index
      ++ (le_bytes 8 temp_fixed ++ (le_bytes 8 entropy_fixed ++ atoms_input serialize s.atoms)))

-- The loop of `finalize_solidification` over the keys that a changeset writes.
unfoldable pub record_keys : List Bytes → StateTree → UndoLog → UndoLog
record_keys [] s u = u
record_keys (pk ∷ pks) s u = record_keys pks s (Changeset.record_image pk (get_atom pk s) u)

unfoldable pub undo_log_of : ℕ → Bytes → Changeset → StateTree → UndoLog
undo_log_of index root c s = record_keys (Changeset.sorted_keys c) s (Changeset.new_undo index root)

-- One pre-image is put back.
unfoldable pub restore_atom : Bytes → Option Atom → BTreeMap Bytes Atom → BTreeMap Bytes Atom
restore_atom pk (some atom) atoms = BTreeMap.insert pk atom atoms
restore_atom pk none atoms = BTreeMap.remove pk atoms

unfoldable pub restore_images :
    BTreeMap Bytes (Option Atom) → BTreeMap Bytes Atom → BTreeMap Bytes Atom
restore_images [] atoms = atoms
restore_images ((pk, before) ∷ images) atoms = restore_images images (restore_atom pk before atoms)

-- Step 3 of `perform_reorg`: the logs with their heights, newest first.
unfoldable pub roll_back : List (ℕ × UndoLog) → StateTree → StateTree
roll_back [] s = s
roll_back ((_, u) ∷ logs) s =
    roll_back logs (record s { atoms = restore_images u.pre_images s.atoms })
