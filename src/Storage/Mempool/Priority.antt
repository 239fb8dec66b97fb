-- ===== src/Storage/Mempool/Priority.antt =====
-- The order of the weight keys, in which `drain_resonant` goes backwards.
use primus_project.Base.{
  ℕ, zero, suc, ◌-◌, ◌%◌, ◌/◌, ◌≤◌, ◌<◌, ◌≡◌, ◌∙◌, refl, sym, ap, [], ◌∷◌, ◌++◌, arith, length,
  length-append,
}
use Prim.Native.Nat.{compare, Ordering}
use Prim.Native.Nat.Ordering.{lt, eq, gt}
use primus_project.Base.Ord.{compare_bytes}
use primus_project.Machine.Word.{Bytes, u64_max, be_bytes}
use primus_project.Types.Reaction.{SignedReaction}
use primus_project.Storage.Mempool.{weight_key}

-- The first comparison decides, and the second where it finds no difference.
abbrev pub then_with : Ordering → Ordering → Ordering
then_with lt second = lt
then_with eq second = second
then_with gt second = gt

-- A number of at most `n` bytes.
abbrev Fits : ℕ → ℕ → Type 0
Fits zero x = x ≡ 0
Fits (suc n) x = Fits n (x / 256)

length-be_bytes : (n x : ℕ) → length (be_bytes n x) ≡ n
unfolding be_bytes
length-be_bytes zero x = refl
length-be_bytes (suc n) x =
    omega
      (arith, length-append (be_bytes n (x / 256)) ((x % 256) ∷ []), length-be_bytes n (x / 256))

compare_bytes-append :
    (xs ys us vs : Bytes)
    → length xs ≡ length ys
    → compare_bytes (xs ++ us) (ys ++ vs) ≡ then_with (compare_bytes xs ys) (compare_bytes us vs)
unfolding compare_bytes
compare_bytes-append [] [] us vs e = refl
compare_bytes-append [] (_ ∷ _) us vs e = absurd (omega arith)
compare_bytes-append (_ ∷ _) [] us vs e = absurd (omega arith)
compare_bytes-append (x ∷ xs) (y ∷ ys) us vs e = ground (arith, compare_bytes-append xs ys us vs)

compare-digits :
    (x y : ℕ) → then_with (compare (x / 256) (y / 256)) (compare (x % 256) (y % 256)) ≡ compare x y
compare-digits x y = ground arith

compare_one : (a b : ℕ) → compare_bytes (a ∷ []) (b ∷ []) ≡ compare a b
unfolding compare_bytes
compare_one a b = ground arith

compare_bytes-be_bytes :
    (n x y : ℕ) → Fits n x → Fits n y → compare_bytes (be_bytes n x) (be_bytes n y) ≡ compare x y
unfolding be_bytes compare_bytes
compare_bytes-be_bytes zero x y p q = ground (arith, p, q)
compare_bytes-be_bytes (suc n) x y p q =
    compare_bytes-append (be_bytes n (x / 256)) (be_bytes n (y / 256)) ((x % 256) ∷ [])
      ((y % 256) ∷ []) (length-be_bytes n (x / 256) ∙ sym (length-be_bytes n (y / 256)))
    ∙ ap (λ o. then_with o (compare_bytes ((x % 256) ∷ []) ((y % 256) ∷ [])))
        (compare_bytes-be_bytes n (x / 256) (y / 256) p q)
    ∙ ap (then_with (compare (x / 256) (y / 256))) (compare_one (x % 256) (y % 256))
    ∙ compare-digits x y

-- Of two weight keys the higher is that of the higher energy, read as a 32-bit word, and for one
-- energy that of the earlier second. The seconds are u64 values.
pub weight_key-order :
    (rx rx' : SignedReaction) (ts ts' : ℕ)
    → rx.energy < 0x1_0000_0000
    → rx'.energy < 0x1_0000_0000
    → ts ≤ u64_max
    → ts' ≤ u64_max
    → compare_bytes (weight_key rx ts) (weight_key rx' ts')
      ≡ then_with (compare rx.energy rx'.energy) (compare ts' ts)
unfolding weight_key
weight_key-order rx rx' ts ts' e e' t t' =
    compare_bytes-append (be_bytes 4 rx.energy) (be_bytes 4 rx'.energy) (be_bytes 8 (u64_max - ts))
      (be_bytes 8 (u64_max - ts'))
      (length-be_bytes 4 rx.energy ∙ sym (length-be_bytes 4 rx'.energy))
    ∙ ap (λ o. then_with o (compare_bytes (be_bytes 8 (u64_max - ts)) (be_bytes 8 (u64_max - ts'))))
        (compare_bytes-be_bytes 4 rx.energy rx'.energy (omega arith) (omega arith))
    ∙ ap (then_with (compare rx.energy rx'.energy)) (
        compare_bytes-be_bytes 8 (u64_max - ts) (u64_max - ts') (omega arith) (omega arith)
        ∙ ground arith)
