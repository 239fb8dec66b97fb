-- ===== src/Vm/Context.antt =====
-- primus-vm/src/context.rs and changeset lookups. The state behind `StateView` is a parameter.
use primus_project.Base.{ℕ, Option, none, some}
use primus_project.Machine.Word.{Bytes}
use primus_project.Machine.Float.{F32}
use primus_project.Types.Crypto.{Verifier}
use primus_project.Types.Atom.{Atom}
use primus_project.Storage.Changeset
use primus_project.Storage.Changeset.{Changeset}

-- The trait `StateView`.
pub record StateView : Type 0 where
  pub get_atom : Bytes → Option Atom
  pub load_contract : Bytes → Option Bytes

pub record ExecutionContext : Type 0 where
  pub state : StateView
  pub architect_pk : Bytes
  pub current_temp : F32
  pub crystal_index : ℕ
  pub verify : Verifier

unfoldable pub lookup_atom : Changeset → StateView → Bytes → Option Atom
lookup_atom changeset state pk = elim (Changeset.get pk changeset) [
  | none ↦ state.get_atom pk
  | some a ↦ some a
]
