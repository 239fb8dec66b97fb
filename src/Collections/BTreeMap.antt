-- ===== src/Collections/BTreeMap.antt =====
-- `BTreeMap<K, V>` as the list of its entries in the order that its iterators visit them.
pub mod Laws
pub mod Order
use package.primus_project.Base.{Option, none, some, List, [], ◌∷◌, map}
use Prim.Native.Nat.Ordering.{lt, eq, gt}
use package.primus_project.Base.Ord.{Ord}

abbrev pub BTreeMap {ℓ κ} : Type ℓ → Type κ → Type (ℓ ⊔ κ)
BTreeMap K V = List (K × V)

module _ {ℓ κ} {K : Type ℓ} {V : Type κ} ⦃o : Ord K⦄ where
  unfoldable pub get : K → BTreeMap K V → Option V
  get k [] = none
  get k ((j, v) ∷ m) = elim (o.cmp k j) [ lt ↦ get k m | eq ↦ some v | gt ↦ get k m ]

  unfoldable pub insert : K → V → BTreeMap K V → BTreeMap K V
  insert k v [] = (k, v) ∷ []
  insert k v ((j, w) ∷ m) = elim (o.cmp k j) [
    | lt ↦ (k, v) ∷ (j, w) ∷ m
    | eq ↦ (k, v) ∷ m
    | gt ↦ (j, w) ∷ insert k v m
  ]

  unfoldable pub remove : K → BTreeMap K V → BTreeMap K V
  remove k [] = []
  remove k ((j, w) ∷ m) = elim (o.cmp k j) [
    | lt ↦ (j, w) ∷ remove k m
    | eq ↦ remove k m
    | gt ↦ (j, w) ∷ remove k m
  ]

abbrev pub keys {ℓ κ} : {K : Type ℓ} {V : Type κ} → BTreeMap K V → List K
keys [] = []
keys ((k, _) ∷ m) = k ∷ keys m
