-- ===== src/Vm/Pvm/View.antt =====
-- The atoms that a reaction sees: the changeset over the state.
use primus_project.Base.{◌≤◌, ◌≡◌, refl, Option, some, arith, if◌then◌else◌, Bool-cases, inl, inr}
use primus_project.Base.Ord.{same, same_iff, bytes_ord}
use primus_project.Machine.Word.{Bytes, u64_max}
use primus_project.Collections.BTreeMap
use primus_project.Collections.BTreeMap.Laws.{get-insert}
use primus_project.Types.Atom.{Atom}
use primus_project.Storage.Changeset
use primus_project.Storage.Changeset.{Changeset}
use primus_project.Vm.Context.{StateView, lookup_atom}

abbrev pub View : Type 0
View = Bytes → Option Atom

abbrev pub view : StateView → Changeset → View
view state cs k = lookup_atom cs state k

pub lookup_atom-insert :
    (state : StateView) (cs : Changeset) (j k : Bytes) (a : Atom)
    → lookup_atom (Changeset.insert k a cs) state j
      ≡ (if same j k then some a else lookup_atom cs state j)
unfolding lookup_atom Changeset.insert Changeset.get
lookup_atom-insert state cs j k a = ground (arith, get-insert j k a cs.inner)

-- Every atom stands under its own key, and its nonce is a u64.
abbrev pub IsKeyed : View → Type 0
IsKeyed f = (k : Bytes) (a : Atom) → f k ≡ some a → (a.public_key ≡ k) × (a.nonce ≤ u64_max)

-- No atom is lost, and no nonce falls.
abbrev pub NoncesGrow : View → View → Type 0
NoncesGrow f g =
    (k : Bytes) (a : Atom) → f k ≡ some a → (b : Atom) × (g k ≡ some b) × (a.nonce ≤ b.nonce)

pub NoncesGrow-refl : (f : View) → NoncesGrow f f
NoncesGrow-refl f k a e = (a, e, omega arith)

pub NoncesGrow-trans : (f g h : View) → NoncesGrow f g → NoncesGrow g h → NoncesGrow f h
NoncesGrow-trans f g h p q k a e =
    let (b, eb, lb) = p k a e in let (c, ec, lc) = q k b eb in (c, ec, omega arith)

-- A step that keeps atoms under their keys and lowers no nonce.
pub record Keeps (f g : View) : Type 0 where
  pub keyed : IsKeyed g
  pub grow : NoncesGrow f g

module _ (state : StateView) (cs : Changeset) (k : Bytes) (a : Atom)
    (keyed : IsKeyed (view state cs)) (own : a.public_key ≡ k) (word : a.nonce ≤ u64_max)
    (fresh : (b : Atom) → lookup_atom cs state k ≡ some b → b.nonce ≤ a.nonce) where
  insert-IsKeyed : IsKeyed (view state (Changeset.insert k a cs))
  insert-IsKeyed j b e = ground (arith, lookup_atom-insert state cs j k a, keyed j b, same_iff j k)

  insert-NoncesGrow : NoncesGrow (view state cs) (view state (Changeset.insert k a cs))
  insert-NoncesGrow j b e = elim (Bool-cases (same j k)) [
    | inl hit ↦
        let j_is_k = (same_iff j k).0 hit in
        (a, ground (arith, lookup_atom-insert state cs j k a), fresh b (rw j_is_k at e))
    | inr miss ↦ (b, ground (arith, lookup_atom-insert state cs j k a), omega arith)
  ]

  pub insert-Keeps : Keeps (view state cs) (view state (Changeset.insert k a cs))
  insert-Keeps = record { keyed = insert-IsKeyed; grow = insert-NoncesGrow }

pub Keeps-trans : (f g h : View) → Keeps f g → Keeps g h → Keeps f h
Keeps-trans f g h p q = record { keyed = q.keyed; grow = NoncesGrow-trans f g h p.grow q.grow }

pub Keeps-refl : (f : View) → IsKeyed f → Keeps f f
Keeps-refl f keyed = record { keyed = keyed; grow = NoncesGrow-refl f }

-- Contracts are kept apart from the atoms.
pub view-insert_contract :
    (state : StateView) (cs : Changeset) (hash code : Bytes)
    → view state (Changeset.insert_contract hash code cs) ≡ view state cs
unfolding lookup_atom Changeset.get Changeset.insert_contract
view-insert_contract state cs hash code = refl

pub lookup_atom-new :
    (state : StateView) (k : Bytes) → lookup_atom Changeset.new state k ≡ state.get_atom k
unfolding lookup_atom Changeset.get BTreeMap.get
lookup_atom-new state k = refl
