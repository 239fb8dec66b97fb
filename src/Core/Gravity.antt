-- ===== src/Core/Gravity.antt =====
-- primus-core/src/gravity.rs and physics_shim.rs.
use primus_project.Base.{ℕ, ◌+◌, ◌*◌, Bool, [], ◌∷◌, ◌++◌, take}
use primus_project.Machine.Word.{Bytes, le_bytes}
use primus_project.Machine.Float.{F32, F64, mul_f64, div_f64, ge_f64, f32_to_f64, f64_to_f32}
use primus_project.Types.Crypto.{Hashes}

pub record GravityEngine : Type 0 where
  pub server_seed : Bytes
  pub rtp : F32

-- `u64::from_be_bytes`, after what `acc` stands for.
unfoldable pub of_be_bytes : ℕ → Bytes → ℕ
of_be_bytes acc [] = acc
of_be_bytes acc (b ∷ bs) = of_be_bytes (256 * acc + b) bs

unfoldable pub roll_input : Bytes → Bytes → ℕ → Bytes → ℕ → Bytes
roll_input server_seed user_id nonce prev_hash crystal_index =
    server_seed ++ (prev_hash ++ (le_bytes 8 crystal_index ++ (user_id ++ le_bytes 8 nonce)))

unfoldable pub generate_roll : Hashes → GravityEngine → Bytes → ℕ → Bytes → ℕ → ℕ
generate_roll h g user_id nonce prev_hash crystal_index =
    of_be_bytes 0 (take 8 (h.sha3 (roll_input g.server_seed user_id nonce prev_hash crystal_index)))

-- 1500.0, 150.0 and 1000.0.
abbrev spec_thermal_capacity : F64
spec_thermal_capacity = 0x4097700000000000

abbrev spec_gravity_gate : F64
spec_gravity_gate = 0x4062c00000000000

abbrev vm_thermal_capacity : F64
vm_thermal_capacity = 0x408f400000000000

unfoldable pub to_vm_thermal : F64 → F64
to_vm_thermal spec_kelvin = mul_f64 spec_kelvin (div_f64 vm_thermal_capacity spec_thermal_capacity)

-- `to_vm_thermal(t as f64) as f32`
unfoldable pub vm_temperature : F32 → F32
vm_temperature t = f64_to_f32 (to_vm_thermal (f32_to_f64 t))

unfoldable pub should_engage_gravity_shield : F64 → Bool
should_engage_gravity_shield spec_kelvin = ge_f64 spec_kelvin spec_gravity_gate
