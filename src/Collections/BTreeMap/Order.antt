-- ===== src/Collections/BTreeMap/Order.antt =====
-- The entries stay in strictly ascending order, so equal contents are equal maps.
use primus_project.Base.{◌∷◌, [], arith}
use primus_project.Base.Ord.{Ord, Before}
use primus_project.Collections.BTreeMap.{BTreeMap, insert, remove}

module _ {ℓ κ} {K : Type ℓ} {V : Type κ} ⦃o : Ord K⦄ where
  abbrev pub Above : K → BTreeMap K V → Type 0
  Above k [] = Unit
  Above k ((j, _) ∷ m) = Before k j × Above k m

  abbrev pub IsSorted : BTreeMap K V → Type 0
  IsSorted [] = Unit
  IsSorted ((k, _) ∷ m) = Above k m × IsSorted m

  Above-insert :
      (b k : K) (v : V) (m : BTreeMap K V) → Before b k → Above b m → Above b (insert k v m)
  unfolding insert
  Above-insert b k v [] h a = (h, tt)
  Above-insert b k v ((j, w) ∷ m) h a = ground (arith, Above-insert b k v m h a.1)

  Above-trans : (b k : K) (m : BTreeMap K V) → Before b k → Above k m → Above b m
  Above-trans b k [] h a = tt
  Above-trans b k ((j, w) ∷ m) h a = (o.chained b k j h a.0, Above-trans b k m h a.1)

  pub insert-IsSorted : (k : K) (v : V) (m : BTreeMap K V) → IsSorted m → IsSorted (insert k v m)
  unfolding insert
  insert-IsSorted k v [] s = (tt, tt)
  insert-IsSorted k v ((j, w) ∷ m) s = ground (
    arith,
    insert-IsSorted k v m s.1,
    o.only_self k j,
    o.reversed k j,
    Above-trans k j m,
    Above-insert j k v m,
  )

  Above-remove : (b k : K) (m : BTreeMap K V) → Above b m → Above b (remove k m)
  unfolding remove
  Above-remove b k [] a = tt
  Above-remove b k ((j, w) ∷ m) a = ground (arith, Above-remove b k m a.1)

  pub remove-IsSorted : (k : K) (m : BTreeMap K V) → IsSorted m → IsSorted (remove k m)
  unfolding remove
  remove-IsSorted k [] s = tt
  remove-IsSorted k ((j, w) ∷ m) s = ground (arith, remove-IsSorted k m s.1, Above-remove j k m s.0)
