-- ===== src/Machine/Float/Tests.antt =====
-- Runs against bit patterns that hardware gives.
use primus_project.Base.{◌≡◌, refl}
use primus_project.Machine.Float.{
  add_f32, div_f64, mul_f64, to_u64_f64, of_u64_f32, f32_to_f64, sub_f32, max_f32,
}

-- 0.1 + 0.2
add_tenths : add_f32 0x3dcccccd 0x3e4ccccd ≡ 0x3e99999a
unfolding add_f32
add_tenths = refl

-- 1 - 3, then the larger of that and 0
negative : sub_f32 0x3f800000 0x40400000 ≡ 0xc0000000
unfolding sub_f32
negative = refl

clamped : max_f32 0xc0000000 0 ≡ 0
unfolding max_f32
clamped = refl

-- 1 / 3
third : div_f64 0x3ff0000000000000 0x4008000000000000 ≡ 0x3fd5555555555555
unfolding div_f64
third = refl

-- 300.15 * 1e9 as u64
nano : to_u64_f64 (mul_f64 (f32_to_f64 0x43961333) 0x41cdcd6500000000) ≡ 300149993896
unfolding to_u64_f64 mul_f64 f32_to_f64
nano = refl

-- 2 ^ 24 + 1 is not an f32.
integers : of_u64_f32 16777217 ≡ 0x4b800000
unfolding of_u64_f32
integers = refl
