-- ===== src/Vm/Pvm/Ledger.antt =====
-- Masses under transfers, contracts and rewards.
use primus_project.Base.{
  ℕ, ◌+◌, ◌≡◌, refl, subst, Bool, true, false, ◌||◌, Option, none, some, List, [], ◌∷◌, arith,
  if◌then◌else◌,
}
use primus_project.Base.Ord.{same, same_iff, bytes_ord}
use primus_project.Machine.Word.{Bytes}
use primus_project.Types.Atom.{Atom}
use primus_project.Storage.Changeset
use primus_project.Storage.Changeset.{Changeset}
use primus_project.Vm.Context.{StateView}
use primus_project.Vm.Pvm.View.{View, view, lookup_atom-insert}

-- A missing account has no mass.
abbrev pub mass_or_zero : Option Atom → ℕ
mass_or_zero none = 0
mass_or_zero (some a) = a.mass

abbrev pub mass_at : View → Bytes → ℕ
mass_at f k = mass_or_zero (f k)

abbrev pub contains : Bytes → List Bytes → Bool
contains k [] = false
contains k (j ∷ ks) = same j k || contains k ks

abbrev pub IsDistinct : List Bytes → Type 0
IsDistinct [] = Unit
IsDistinct (k ∷ ks) = (contains k ks ≡ false) × IsDistinct ks

abbrev pub total : View → List Bytes → ℕ
total f [] = 0
total f (k ∷ ks) = mass_at f k + total f ks

module _ (state : StateView) (cs : Changeset) (k : Bytes) (a : Atom) where
  abbrev old : View
  old = view state cs

  abbrev new : View
  new = view state (Changeset.insert k a cs)

  new_at : (j : Bytes) → mass_at new j ≡ (if same j k then a.mass else mass_at old j)
  new_at j = ground (arith, lookup_atom-insert state cs j k a)

  old_at : (j : Bytes) → same j k ≡ true → mass_at old j ≡ mass_at old k
  old_at j e = subst (λ i. mass_at old j ≡ mass_at old i) ((same_iff j k).0 e) refl

  pub total-insert_out : (ks : List Bytes) → contains k ks ≡ false → total new ks ≡ total old ks
  total-insert_out [] out = refl
  total-insert_out (j ∷ ks) out = ground (arith, total-insert_out ks, new_at j)

  contains-same :
      (j : Bytes) (ks : List Bytes)
      → same j k ≡ true
      → contains j ks ≡ false
      → contains k ks ≡ false
  contains-same j ks e out = subst (λ i. contains i ks ≡ false) ((same_iff j k).0 e) out

  -- Writing an account that the list holds moves the total by the change of its mass.
  pub total-insert_in :
      (ks : List Bytes)
      → IsDistinct ks
      → contains k ks ≡ true
      → total new ks + mass_at old k ≡ total old ks + a.mass
  total-insert_in [] distinct here = cc
  total-insert_in (j ∷ ks) distinct here = ground (
    arith,
    new_at j,
    old_at j,
    contains-same j ks,
    total-insert_out ks,
    total-insert_in ks distinct.1,
  )
