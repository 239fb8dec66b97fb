-- ===== src/Vm/Gas.antt =====
-- primus-vm/src/wasm/gas.rs and limits.rs.
pub mod Bounds
use package.primus_project.Base.{ℕ, ◌+◌, ◌*◌, min, max, none, some, ltb, if◌then◌else◌}
use package.primus_project.Base.Outcome.{Result, ok, err}
use package.primus_project.Machine.Word.{checked_add, saturating_sub, saturating_mul}
use package.primus_project.Machine.Float.{F32, to_u64_f32}
use package.primus_project.Vm.Error.{PvmError, gas_overflow, out_of_gas}

abbrev pub base_contract_gas : ℕ
base_contract_gas = 10_000

abbrev pub gas_per_energy : ℕ
gas_per_energy = 100

abbrev pub max_gas_per_reaction : ℕ
max_gas_per_reaction = 1_000_000

abbrev pub max_module_size_bytes : ℕ
max_module_size_bytes = 4 * 1024 * 1024

-- 1000.0.
abbrev pub gas_heat_divisor : F32
gas_heat_divisor = 0x447a0000

-- 2 ^ 53.
abbrev pub max_safe_complexity : ℕ
max_safe_complexity = 0x20_0000_0000_0000

pub record GasMeter : Type 0 where
  pub limit : ℕ
  pub consumed : ℕ

unfoldable pub from_energy : F32 → GasMeter
from_energy energy =
    let wanted = saturating_mul (to_u64_f32 energy) gas_per_energy in
    record { limit = max (min wanted max_gas_per_reaction) base_contract_gas; consumed = 0 }

-- The meter keeps the sum also when the limit is passed.
unfoldable pub charge : ℕ → GasMeter → Result PvmError (Unit {0}) × GasMeter
charge amount g = elim (checked_add g.consumed amount) [
  | none ↦ (err gas_overflow, g)
  | some total ↦
      let g' = record g { consumed = total } in
      if ltb g.limit total then (err (out_of_gas g.limit total), g') else (ok tt, g')
]

unfoldable pub remaining : GasMeter → ℕ
remaining g = saturating_sub g.limit g.consumed
