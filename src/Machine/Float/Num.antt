-- ===== src/Machine/Float/Num.antt =====
-- Numbers as exact fractions with infinities and NaN, and IEEE 754's rules for them.
use primus_project.Base.{
  ℕ, ◌+◌, ◌-◌, ◌*◌, ◌/◌, ◌≤◌, min, Bool, true, false, not, ◌&&◌, ltb, ◌==◌, if◌then◌else◌, arith,
}
use primus_project.Machine.Word.{u64_max}

-- `fin neg num den` stands for num / den, negated if `neg`.
pub data Num : Type 0 where
  nan : Num
  inf : Bool → Num
  fin : Bool → ℕ → ℕ → Num

unfoldable pub is_xor : Bool → Bool → Bool
is_xor a b = if a then not b else b

unfoldable pub negate : Num → Num
negate nan = nan
negate (inf s) = inf (not s)
negate (fin s n d) = fin (not s) n d

unfoldable pub add_fin : Bool → ℕ → ℕ → Bool → ℕ → ℕ → Num
unfolding is_xor
add_fin s n d t m e =
    let x = n * e in
    let y = m * d in
    if is_xor s t
    then (if x == y
        then fin false 0 (d * e)
        else if ltb x y
        then fin t (y - x) (d * e)
        else fin s (x - y) (d * e))
    else fin s (x + y) (d * e)

unfoldable pub add_num : Num → Num → Num
unfolding add_fin is_xor
add_num nan y = nan
add_num (inf s) nan = nan
add_num (inf s) (inf t) = if is_xor s t then nan else inf s
add_num (inf s) (fin t m e) = inf s
add_num (fin s n d) nan = nan
add_num (fin s n d) (inf t) = inf t
add_num (fin s n d) (fin t m e) = add_fin s n d t m e

unfoldable pub mul_num : Num → Num → Num
unfolding is_xor
mul_num nan y = nan
mul_num (inf s) nan = nan
mul_num (inf s) (inf t) = inf (is_xor s t)
mul_num (inf s) (fin t m e) = if m == 0 then nan else inf (is_xor s t)
mul_num (fin s n d) nan = nan
mul_num (fin s n d) (inf t) = if n == 0 then nan else inf (is_xor s t)
mul_num (fin s n d) (fin t m e) = fin (is_xor s t) (n * m) (d * e)

unfoldable pub div_num : Num → Num → Num
unfolding is_xor
div_num nan y = nan
div_num (inf s) nan = nan
div_num (inf s) (inf t) = nan
div_num (inf s) (fin t m e) = inf (is_xor s t)
div_num (fin s n d) nan = nan
div_num (fin s n d) (inf t) = fin (is_xor s t) 0 1
div_num (fin s n d) (fin t m e) =
    if m == 0 then (if n == 0 then nan else inf (is_xor s t)) else fin (is_xor s t) (n * e) (d * m)

unfoldable pub lt_fin : Bool → ℕ → Bool → ℕ → Bool
lt_fin false x false y = ltb x y
lt_fin false x true y = false
lt_fin true x false y = not (x == 0 && y == 0)
lt_fin true x true y = ltb y x

-- `<`; false if either side is NaN.
unfoldable pub lt_num : Num → Num → Bool
unfolding lt_fin
lt_num nan y = false
lt_num (inf s) nan = false
lt_num (inf s) (inf t) = s && not t
lt_num (inf s) (fin t m e) = s
lt_num (fin s n d) nan = false
lt_num (fin s n d) (inf t) = not t
lt_num (fin s n d) (fin t m e) = lt_fin s (n * e) t (m * d)

unfoldable pub is_nan : Num → Bool
is_nan nan = true
is_nan (inf s) = false
is_nan (fin s n d) = false

-- `as u64`: truncates, saturates, and sends NaN to 0.
unfoldable pub to_u64_num : Num → ℕ
to_u64_num nan = 0
to_u64_num (inf true) = 0
to_u64_num (inf false) = u64_max
to_u64_num (fin true n d) = 0
to_u64_num (fin false n d) = min (n / d) u64_max

pub to_u64_num-le-u64_max : (x : Num) → to_u64_num x ≤ u64_max
unfolding to_u64_num
to_u64_num-le-u64_max nan = omega arith
to_u64_num-le-u64_max (inf true) = omega arith
to_u64_num-le-u64_max (inf false) = omega arith
to_u64_num-le-u64_max (fin true n d) = omega arith
to_u64_num-le-u64_max (fin false n d) = omega arith
