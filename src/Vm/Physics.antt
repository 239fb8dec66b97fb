-- ===== src/Vm/Physics.antt =====
-- primus-vm/src/physics.rs.
use primus_project.Base.{ℕ, ◌%◌, Bool, false, ◌&&◌, [], ◌∷◌, ltb, ◌==◌, if◌then◌else◌}
use primus_project.Machine.Word.{Bytes}
use primus_project.Machine.Float.{
  F32, F64, lt_f32, sub_f32, div_f32, add_f64, mul_f64, div_f64, max_f64, min_f64, to_u64_f64,
  of_u64_f64, f32_to_f64, f64_to_f32,
}
use primus_project.Collections.BTreeMap.{BTreeMap}
use primus_project.Types.Atom.{Atom, first_or_zero}

-- 1000.0, 150.0, 250.0 and 25.0.
abbrev pub thermal_capacity : F32
thermal_capacity = 0x447a0000

abbrev pub gravity_shield_gate : F32
gravity_shield_gate = 0x43160000

abbrev pub macro_shift_critical : F32
macro_shift_critical = 0x437a0000

abbrev pub max_gravity_pull : F32
max_gravity_pull = 0x41c80000

unfoldable pub get_galactic_drift : ℕ → ℕ
get_galactic_drift crystal_index = crystal_index % 256

-- 30.0 on a match of the first byte.
unfoldable pub calculate_orbital_resonance : Bytes → ℕ → F32
calculate_orbital_resonance [] drift = 0
calculate_orbital_resonance (b ∷ _) drift = if b == drift then 0x41f00000 else 0

-- Both keys are non-empty and begin with the same byte.
abbrev same_sector : Bytes → Bytes → Bool
same_sector (a ∷ _) (b ∷ _) = a == b
same_sector _ _ = false

-- The loop over the atoms, with the pull so far.
unfoldable pub gravity_pull : Bytes → F64 → BTreeMap Bytes Atom → F64
gravity_pull atom_id pull [] = pull
gravity_pull atom_id pull ((pk, star) ∷ atoms) =
    gravity_pull atom_id
      (if ltb 45_000 star.mass && same_sector pk atom_id
        then min_f64 (add_f64 pull (div_f64 (of_u64_f64 star.mass) 0x40c7700000000000))
            (f32_to_f64 max_gravity_pull)
        else pull)
      atoms

unfoldable pub calculate_gravity_assist_from_iter : BTreeMap Bytes Atom → Bytes → F32
calculate_gravity_assist_from_iter atoms atom_id = f64_to_f32 (gravity_pull atom_id 0 atoms)

-- The first byte over 255.0, times 15.0, plus the temperature.
unfoldable pub get_spacetime_curvature : Bytes → F32 → F32
get_spacetime_curvature rx_hash base_temp = f64_to_f32 (
    add_f64
      (mul_f64 (div_f64 (of_u64_f64 (first_or_zero rx_hash)) 0x406fe00000000000) 0x402e000000000000)
      (f32_to_f64 base_temp))

-- (temp - 250.0) / 100.0 above 250.0.
unfoldable pub calculate_macro_shift : F32 → F32
calculate_macro_shift temp =
    if lt_f32 macro_shift_critical temp
    then div_f32 (sub_f32 temp macro_shift_critical) 0x42c80000
    else 0

-- complexity * max(temp / 50.0, 1.0).
unfoldable pub calculate_entropy_tax : ℕ → F32 → ℕ
calculate_entropy_tax complexity local_temp =
    let heat = max_f64 (div_f64 (f32_to_f64 local_temp) 0x4049000000000000) 0x3ff0000000000000 in
    to_u64_f64 (mul_f64 (of_u64_f64 complexity) heat)
