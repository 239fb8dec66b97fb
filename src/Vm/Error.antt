-- ===== src/Vm/Error.antt =====
-- primus-vm/src/error.rs. Where a variant carries a formatted text, the constructor carries the
-- values that are formatted.
use Prim.Native.String.{String}
use primus_project.Base.{ℕ}
use primus_project.Machine.Word.{Bytes}

pub data PvmError : Type 0 where
  signature_rejected : Bytes → Bytes → PvmError
  nonce_mismatch : ℕ → ℕ → PvmError
  insufficient_mass : ℕ → ℕ → PvmError
  thermal_limit_exceeded : PvmError
  quantum_collapse : PvmError
  invalid_reward_recipient : PvmError
  unknown_payload : PvmError
  negative_energy : PvmError
  atom_not_found : PvmError
  arithmetic_overflow : PvmError
  out_of_gas : ℕ → ℕ → PvmError
  wasm_trap : String → PvmError
  contract_not_found : Bytes → PvmError
  compilation_failed : String → PvmError
  invalid_module : String → PvmError
  host_violation : String → PvmError
  gas_overflow : PvmError
  wasm_backend_error : String → PvmError
  other_error : PvmError
