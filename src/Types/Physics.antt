-- ===== src/Types/Physics.antt =====
-- primus-types/src/physics.rs: the fixed-point code of an f32.
use primus_project.Base.{ℕ, if◌then◌else◌, ◌≤◌, arith}
use primus_project.Machine.Word.{u64_max}
use primus_project.Machine.Float.{
  F32, F64, mul_f64, div_f64, max_f64, ge_f64, to_u64_f64, of_u64_f64, f32_to_f64, f64_to_f32,
  to_u64_f64-le-u64_max,
}

abbrev pub fixed_point_scale : ℕ
fixed_point_scale = 1_000_000_000

unfoldable pub encode : F32 → ℕ
encode value =
    let scaled : F64 = max_f64 (mul_f64 (f32_to_f64 value) (of_u64_f64 fixed_point_scale)) 0 in
    if ge_f64 scaled (of_u64_f64 u64_max) then u64_max else to_u64_f64 scaled

unfoldable pub decode : ℕ → F32
decode encoded = f64_to_f32 (div_f64 (of_u64_f64 encoded) (of_u64_f64 fixed_point_scale))

pub encode-le-u64_max : (value : F32) → encode value ≤ u64_max
unfolding encode
encode-le-u64_max value = grind (arith, to_u64_f64-le-u64_max)
