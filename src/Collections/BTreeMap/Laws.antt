-- ===== src/Collections/BTreeMap/Laws.antt =====
-- What `get` reads after an insertion or a removal.
use primus_project.Base.{◌≡◌, none, some, [], ◌∷◌, arith, if◌then◌else◌}
use primus_project.Base.Ord.{Ord, same, same_refl}
use primus_project.Collections.BTreeMap.{BTreeMap, get, insert, remove}

module _ {ℓ κ} {K : Type ℓ} {V : Type κ} ⦃o : Ord K⦄ where
  pub get-insert :
      (j k : K) (v : V) (m : BTreeMap K V)
      → get j (insert k v m) ≡ (if same j k then some v else get j m)
  unfolding get insert
  get-insert j k v [] = ground arith
  get-insert j k v ((i, w) ∷ m) = ground (
    arith,
    get-insert j k v m,
    o.only_self j k,
    o.only_self k i,
    o.only_self j i,
    o.self j,
    o.self k,
    o.self i,
  )

  pub get-remove :
      (j k : K) (m : BTreeMap K V) → get j (remove k m) ≡ (if same j k then none else get j m)
  unfolding get remove
  get-remove j k [] = ground arith
  get-remove j k ((i, w) ∷ m) = ground (
    arith,
    get-remove j k m,
    o.only_self j k,
    o.only_self k i,
    o.only_self j i,
    o.self j,
    o.self k,
    o.self i,
  )

  pub get-insert_self : (k : K) (v : V) (m : BTreeMap K V) → get k (insert k v m) ≡ some v
  get-insert_self k v m = simp (get-insert, same_refl)
