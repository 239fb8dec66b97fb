-- ===== src/Storage/Changeset.antt =====
-- primus-storage/src/changeset.rs and types.rs.
use primus_project.Base.{ℕ, Bool, true, false, ◌&&◌, Option, none, some, List, [], ◌∷◌, length}
use primus_project.Base.Ord.{bytes_ord}
use primus_project.Machine.Word.{Bytes}
use primus_project.Machine.Float.{F32}
use primus_project.Collections.BTreeMap
use primus_project.Collections.BTreeMap.{BTreeMap}
use primus_project.Types.Atom.{Atom}
use primus_project.Types.Physics.{encode}

pub record Changeset : Type 0 where
  pub inner : BTreeMap Bytes Atom
  pub contracts : BTreeMap Bytes Bytes

abbrev pub new : Changeset
new = record { inner = []; contracts = [] }

unfoldable pub insert : Bytes → Atom → Changeset → Changeset
insert pk atom c = record c { inner = BTreeMap.insert pk atom c.inner }

unfoldable pub insert_contract : Bytes → Bytes → Changeset → Changeset
insert_contract hash code c = record c { contracts = BTreeMap.insert hash code c.contracts }

unfoldable pub get : Bytes → Changeset → Option Atom
get pk c = BTreeMap.get pk c.inner

unfoldable pub sorted_keys : Changeset → List Bytes
sorted_keys c = BTreeMap.keys c.inner

abbrev is_nil {ℓ} : {A : Type ℓ} → List A → Bool
is_nil [] = true
is_nil (_ ∷ _) = false

unfoldable pub is_empty : Changeset → Bool
is_empty c = is_nil c.inner && is_nil c.contracts

unfoldable pub len : Changeset → ℕ
len c = length c.inner

pub record GlobalMetrics : Type 0 where
  pub temperature : F32
  pub entropy : F32

unfoldable pub canonical : GlobalMetrics → ℕ × ℕ
canonical m = (encode m.temperature, encode m.entropy)

pub record UndoLog : Type 0 where
  pub crystal_index : ℕ
  pub pre_state_root : Bytes
  pub pre_images : BTreeMap Bytes (Option Atom)

abbrev pub new_undo : ℕ → Bytes → UndoLog
new_undo crystal_index root = record {
  crystal_index = crystal_index;
  pre_state_root = root;
  pre_images = [];
}

-- `entry(pk).or_insert(before)`: the first image of a key stays.
unfoldable pub record_image : Bytes → Option Atom → UndoLog → UndoLog
record_image pk before u = elim (BTreeMap.get pk u.pre_images) [
  | none ↦ record u { pre_images = BTreeMap.insert pk before u.pre_images }
  | some _ ↦ u
]
