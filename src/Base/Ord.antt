-- ===== src/Base/Ord.antt =====
-- Rust's `Ord` and `==`, with their laws, for numbers and byte strings.
use Prim.Native.Nat.{ℕ, compare, Ordering}
use mathlib.Core.Path.{◌≡◌, refl}
use mathlib.Core.Logic.{◌↔◌}
use mathlib.Core.Bool.{Bool, true, false}
use mathlib.Core.List.{List, [], ◌∷◌}
use Prim.Native.Nat.Ordering.{lt, eq, gt}
use native.Mathlib.Omega.{arith}

-- `Ordering::reverse`
abbrev pub reverse_ordering : Ordering → Ordering
reverse_ordering lt = gt
reverse_ordering eq = eq
reverse_ordering gt = lt

-- A comparison that answers `eq` on equal keys only, and whose answers fit together.
pub record Ord {ℓ} (K : Type ℓ) : Type ℓ where
  pub cmp : K → K → Ordering
  pub self : (k : K) → cmp k k ≡ eq
  pub only_self : (j k : K) → cmp j k ≡ eq → j ≡ k
  pub reversed : (j k : K) → cmp k j ≡ reverse_ordering (cmp j k)
  pub chained : (i j k : K) → cmp i j ≡ lt → cmp j k ≡ lt → cmp i k ≡ lt

abbrev pub Before {ℓ} : {K : Type ℓ} ⦃o : Ord K⦄ → K → K → Type 0
Before ⦃o⦄ j k = o.cmp j k ≡ lt

-- `==` of a type with an order.
abbrev pub same {ℓ} : {K : Type ℓ} ⦃o : Ord K⦄ → K → K → Bool
same ⦃o⦄ j k = elim (o.cmp j k) [ eq ↦ true | _ ↦ false ]

pub same_iff {ℓ} : {K : Type ℓ} ⦃o : Ord K⦄ (j k : K) → (same j k ≡ true) ↔ (j ≡ k)
same_iff ⦃o⦄ j k = ground (arith, o.only_self j k, o.self j)

pub same_refl {ℓ} : {K : Type ℓ} ⦃o : Ord K⦄ (k : K) → same k k ≡ true
same_refl ⦃o⦄ k = (same_iff k k).1 refl

pub compare_only_self : (j k : ℕ) → compare j k ≡ eq → j ≡ k
compare_only_self j k e = ground arith

pub compare_reversed : (j k : ℕ) → compare k j ≡ reverse_ordering (compare j k)
compare_reversed j k = ground arith

pub compare_chained : (i j k : ℕ) → compare i j ≡ lt → compare j k ≡ lt → compare i k ≡ lt
compare_chained i j k p q = ground arith

pub compare_self : (k : ℕ) → compare k k ≡ eq
compare_self k = ground arith

instance unfoldable pub nat_ord : Ord ℕ
nat_ord = record {
  cmp = compare;
  self = compare_self;
  only_self = compare_only_self;
  reversed = compare_reversed;
  chained = compare_chained;
}

-- The first bytes that differ decide, and a string comes before its continuations.
unfoldable pub compare_bytes : List ℕ → List ℕ → Ordering
compare_bytes [] [] = eq
compare_bytes [] (_ ∷ _) = lt
compare_bytes (_ ∷ _) [] = gt
compare_bytes (x ∷ xs) (y ∷ ys) = elim (compare x y) [
  | eq ↦ compare_bytes xs ys
  | lt ↦ lt
  | gt ↦ gt
]

pub compare_bytes_self : (k : List ℕ) → compare_bytes k k ≡ eq
unfolding compare_bytes
compare_bytes_self [] = refl
compare_bytes_self (x ∷ k) = ground (arith, compare_bytes_self k)

pub compare_bytes_only_self : (j k : List ℕ) → compare_bytes j k ≡ eq → j ≡ k
unfolding compare_bytes
compare_bytes_only_self [] [] e = refl
compare_bytes_only_self [] (_ ∷ _) e = cc
compare_bytes_only_self (_ ∷ _) [] e = cc
compare_bytes_only_self (x ∷ j) (y ∷ k) e = ground (arith, compare_bytes_only_self j k)

pub compare_bytes_reversed :
    (j k : List ℕ) → compare_bytes k j ≡ reverse_ordering (compare_bytes j k)
unfolding compare_bytes
compare_bytes_reversed [] [] = refl
compare_bytes_reversed [] (_ ∷ _) = refl
compare_bytes_reversed (_ ∷ _) [] = refl
compare_bytes_reversed (x ∷ j) (y ∷ k) = ground (arith, compare_bytes_reversed j k)

pub compare_bytes_chained :
    (i j k : List ℕ) → compare_bytes i j ≡ lt → compare_bytes j k ≡ lt → compare_bytes i k ≡ lt
unfolding compare_bytes
compare_bytes_chained [] [] k p q = cc
compare_bytes_chained [] (_ ∷ _) [] p q = cc
compare_bytes_chained [] (_ ∷ _) (_ ∷ _) p q = refl
compare_bytes_chained (_ ∷ _) [] k p q = cc
compare_bytes_chained (_ ∷ _) (_ ∷ _) [] p q = cc
compare_bytes_chained (x ∷ i) (y ∷ j) (z ∷ k) p q = ground (arith, compare_bytes_chained i j k)

instance unfoldable pub bytes_ord : Ord (List ℕ)
unfolding compare_bytes
bytes_ord = record {
  cmp = compare_bytes;
  self = compare_bytes_self;
  only_self = compare_bytes_only_self;
  reversed = compare_bytes_reversed;
  chained = compare_bytes_chained;
}
