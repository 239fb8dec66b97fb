-- ===== src/Machine/Float.antt =====
-- IEEE 754 binary32 and binary64 in software: a float is its bit pattern (`to_bits`). Arithmetic
-- is exact on fractions and then rounded to nearest, ties to even.
mod Num
mod Codec
mod Tests
use package.primus_project.Base.{ℕ, ◌%◌, ◌^◌, ◌≤◌, Bool, false, not, ◌&&◌, if◌then◌else◌}
use package.primus_project.Machine.Word.{u64_max}
use Num.{fin, negate, add_num, mul_num, div_num, lt_num, is_nan, to_u64_num, to_u64_num-le-u64_max}
use Codec.{Format, binary32, binary64, decode, encode}

abbrev pub F32 : Type 0
F32 = ℕ

abbrev pub F64 : Type 0
F64 = ℕ

-- The operations at one format.
module _ (f : Format) where
  add_at : ℕ → ℕ → ℕ
  unfolding decode encode add_num
  add_at a b = encode f (add_num (decode f a) (decode f b))

  sub_at : ℕ → ℕ → ℕ
  unfolding decode encode add_num negate
  sub_at a b = encode f (add_num (decode f a) (negate (decode f b)))

  mul_at : ℕ → ℕ → ℕ
  unfolding decode encode mul_num
  mul_at a b = encode f (mul_num (decode f a) (decode f b))

  div_at : ℕ → ℕ → ℕ
  unfolding decode encode div_num
  div_at a b = encode f (div_num (decode f a) (decode f b))

  lt_at : ℕ → ℕ → Bool
  unfolding decode lt_num
  lt_at a b = lt_num (decode f a) (decode f b)

  is_nan_at : ℕ → Bool
  unfolding decode is_nan
  is_nan_at a = is_nan (decode f a)

  -- `max` and `min` prefer the side that is a number.
  max_at : ℕ → ℕ → ℕ
  unfolding lt_at is_nan_at
  max_at a b = if is_nan_at a then b else if is_nan_at b then a else if lt_at a b then b else a

  min_at : ℕ → ℕ → ℕ
  unfolding lt_at is_nan_at
  min_at a b = if is_nan_at a then b else if is_nan_at b then a else if lt_at b a then b else a

  to_u64_at : ℕ → ℕ
  unfolding decode to_u64_num
  to_u64_at a = to_u64_num (decode f a)

  of_ℕ_at : ℕ → ℕ
  unfolding encode
  of_ℕ_at n = encode f (fin false n 1)

-- The code's `f32` and `f64` operators; `as u64` and `u64 as` are `to_u64` and `of_u64`.
unfoldable pub add_f32 : F32 → F32 → F32
unfolding add_at
add_f32 a b = add_at binary32 a b

unfoldable pub sub_f32 : F32 → F32 → F32
unfolding sub_at
sub_f32 a b = sub_at binary32 a b

unfoldable pub mul_f32 : F32 → F32 → F32
unfolding mul_at
mul_f32 a b = mul_at binary32 a b

unfoldable pub div_f32 : F32 → F32 → F32
unfolding div_at
div_f32 a b = div_at binary32 a b

unfoldable pub max_f32 : F32 → F32 → F32
unfolding max_at
max_f32 a b = max_at binary32 a b

unfoldable pub min_f32 : F32 → F32 → F32
unfolding min_at
min_f32 a b = min_at binary32 a b

unfoldable pub to_u64_f32 : F32 → ℕ
unfolding to_u64_at
to_u64_f32 a = to_u64_at binary32 a

unfoldable pub of_u64_f32 : ℕ → F32
unfolding of_ℕ_at
of_u64_f32 a = of_ℕ_at binary32 a

unfoldable pub lt_f32 : F32 → F32 → Bool
unfolding lt_at
lt_f32 a b = lt_at binary32 a b

unfoldable pub add_f64 : F64 → F64 → F64
unfolding add_at
add_f64 a b = add_at binary64 a b

unfoldable pub sub_f64 : F64 → F64 → F64
unfolding sub_at
sub_f64 a b = sub_at binary64 a b

unfoldable pub mul_f64 : F64 → F64 → F64
unfolding mul_at
mul_f64 a b = mul_at binary64 a b

unfoldable pub div_f64 : F64 → F64 → F64
unfolding div_at
div_f64 a b = div_at binary64 a b

unfoldable pub max_f64 : F64 → F64 → F64
unfolding max_at
max_f64 a b = max_at binary64 a b

unfoldable pub min_f64 : F64 → F64 → F64
unfolding min_at
min_f64 a b = min_at binary64 a b

unfoldable pub to_u64_f64 : F64 → ℕ
unfolding to_u64_at
to_u64_f64 a = to_u64_at binary64 a

unfoldable pub of_u64_f64 : ℕ → F64
unfolding of_ℕ_at
of_u64_f64 a = of_ℕ_at binary64 a

unfoldable pub lt_f64 : F64 → F64 → Bool
unfolding lt_at
lt_f64 a b = lt_at binary64 a b

-- `abs` clears the sign bit.
unfoldable pub abs_f32 : F32 → F32
abs_f32 a = a % 2 ^ 31

-- `a > b`, `a >= b` and `a <= b` are false on NaN, as `a < b` is.
unfoldable pub ge_f64 : F64 → F64 → Bool
unfolding is_nan_at lt_at
ge_f64 a b = not (is_nan_at binary64 a) && not (is_nan_at binary64 b) && not (lt_at binary64 a b)

-- `f32 as f64` and `f64 as f32`.
unfoldable pub f32_to_f64 : F32 → F64
unfolding encode decode
f32_to_f64 a = encode binary64 (decode binary32 a)

unfoldable pub f64_to_f32 : F64 → F32
unfolding encode decode
f64_to_f32 a = encode binary32 (decode binary64 a)

pub to_u64_f32-le-u64_max : (a : F32) → to_u64_f32 a ≤ u64_max
unfolding to_u64_f32
to_u64_f32-le-u64_max a = to_u64_num-le-u64_max (decode binary32 a)

pub to_u64_f64-le-u64_max : (a : F64) → to_u64_f64 a ≤ u64_max
unfolding to_u64_f64
to_u64_f64-le-u64_max a = to_u64_num-le-u64_max (decode binary64 a)
