-- ===== src/Vm/Dispatch.antt =====
-- primus-vm/src/dispatch.rs: contract calls go to the WASM runtime, all else to `execute_single`.
-- The runtime, a trait whose engine is a crate, is a parameter.
pub mod Apply
use package.primus_project.Base.{ℕ, Bool, not, Option, none, some, List, [], ◌∷◌, ◌==◌, length}
use package.primus_project.Base.Outcome.{Result, ok, err, ◌>>=◌, ◌>>◌, reject_if, ok_or}
use package.primus_project.Base.Ord.{bytes_ord}
use package.primus_project.Machine.Word.{Bytes, checked_sub, saturating_add}
use package.primus_project.Machine.Float.{F32, lt_f32, add_f32, div_f32, of_u64_f32}
use package.primus_project.Collections.BTreeMap.{BTreeMap}
use package.primus_project.Types.Crypto.{Hashes}
use package.primus_project.Types.Atom.{Atom, new_receiver}
use package.primus_project.Types.Payload.{Payload, contract_call}
use package.primus_project.Types.Reaction.{SignedReaction}
use package.primus_project.Storage.Changeset
use package.primus_project.Storage.Changeset.{Changeset}
use package.primus_project.Vm.Error.{
  PvmError, contract_not_found, wasm_trap, atom_not_found, insufficient_mass, wasm_backend_error,
  thermal_limit_exceeded,
}
use package.primus_project.Vm.Context.{ExecutionContext, StateView, lookup_atom}
use package.primus_project.Vm.Gas.{GasMeter, from_energy, gas_heat_divisor}
use package.primus_project.Vm.Physics.{thermal_capacity, get_galactic_drift}
use package.primus_project.Vm.Pvm.{Batch, new_batch, or_else, execute_single}
use package.primus_project.Vm.Host.{HostState, ContractDelta, Transfer, empty_delta}

pub record ContractOutput : Type 0 where
  pub return_data : Bytes
  pub gas_used : ℕ
  pub state_delta : ContractDelta

-- The trait `WasmRuntime`: `load_module` of a hash and its code, `execute` of a hash, the call's
-- data, the host state and the gas limit.
pub record WasmRuntime : Type 0 where
  pub load_module : Bytes → Bytes → Result PvmError (Unit {0})
  pub execute : Bytes → Bytes → HostState → ℕ → Result PvmError ContractOutput

-- 2. The host state of a call.
unfoldable pub host_state : ExecutionContext → SignedReaction → HostState
host_state ctx rx = record {
  atoms = ctx.state;
  caller_pk = rx.sender.public_key;
  crystal_index = ctx.crystal_index;
  delta = empty_delta;
  gas = from_energy rx.energy;
  architect_pk = ctx.architect_pk;
  verify = ctx.verify;
}

-- 4. One transfer of the delta.
unfoldable pub apply_transfer : StateView → Transfer → Changeset → Result PvmError Changeset
apply_transfer state t cs = do
  sender ← ok_or (lookup_atom cs state t.from) atom_not_found
  left ← ok_or (checked_sub sender.mass t.amount) (insufficient_mass sender.mass t.amount)
  let debited = Changeset.insert t.from (record sender { mass = left }) cs
  let receiver = or_else (lookup_atom debited state t.to) (new_receiver t.to)
  ok (
      Changeset.insert t.to (record receiver { mass = saturating_add receiver.mass t.amount })
        debited)

unfoldable pub apply_transfers : StateView → List Transfer → Changeset → Result PvmError Changeset
apply_transfers state [] cs = ok cs
apply_transfers state (t ∷ ts) cs = apply_transfer state t cs >>= apply_transfers state ts

-- 5. The caller's nonce.
unfoldable pub advance_caller :
    ExecutionContext → SignedReaction → Changeset → Result PvmError Changeset
advance_caller ctx rx cs = do
  sender ← ok_or (lookup_atom cs ctx.state rx.sender.public_key) atom_not_found
  ok (
      Changeset.insert rx.sender.public_key
        (record sender {
          nonce = saturating_add sender.nonce 1;
          last_reaction_hash = rx.reaction_hash;
        })
        cs)

-- Returns the changeset and the heat of the call.
unfoldable pub dispatch_contract :
    Option WasmRuntime
    → ExecutionContext
    → SignedReaction
    → Bytes
    → Bytes
    → Changeset
    → Result PvmError (Changeset × F32)
dispatch_contract wasm_runtime ctx rx code_hash calldata cs = do
  wasm_bytes ← ok_or (ctx.state.load_contract code_hash) (contract_not_found code_hash)
  runtime ← ok_or wasm_runtime (wasm_trap "No WASM runtime configured")
  runtime.load_module code_hash wasm_bytes
  output ← runtime.execute code_hash calldata (host_state ctx rx) (from_energy rx.energy).limit
  applied ← apply_transfers ctx.state output.state_delta.transfers cs
  advanced ← advance_caller ctx rx applied
  ok (advanced, div_f32 (of_u64_f32 output.gas_used) gas_heat_divisor)

-- The arm of a contract call in the loop of `execute`.
unfoldable pub run_contract_call :
    Option WasmRuntime
    → ExecutionContext
    → SignedReaction
    → Bytes
    → Bytes
    → Batch
    → Result PvmError Batch
run_contract_call wasm_runtime ctx rx address calldata b = do
  reject_if (not (length address == 32)) (wasm_backend_error "Invalid contract address")
  called ← dispatch_contract wasm_runtime ctx rx address calldata b.changeset
  let heat = add_f32 b.heat called.1
  reject_if (lt_f32 thermal_capacity heat) thermal_limit_exceeded
  ok (record b { changeset = called.0; heat = heat })

unfoldable pub dispatch :
    Payload
    → Option WasmRuntime
    → Hashes
    → ExecutionContext
    → BTreeMap Bytes Atom
    → ℕ
    → List SignedReaction
    → SignedReaction
    → Batch
    → Result PvmError Batch
dispatch (contract_call address calldata) wasm_runtime h ctx atoms drift reactions rx b =
    run_contract_call wasm_runtime ctx rx address calldata b
dispatch _ wasm_runtime h ctx atoms drift reactions rx b =
    execute_single h ctx atoms drift reactions rx b

unfoldable pub run_from :
    Option WasmRuntime
    → Hashes
    → ExecutionContext
    → BTreeMap Bytes Atom
    → ℕ
    → List SignedReaction
    → List SignedReaction
    → Batch
    → Result PvmError Batch
run_from wasm_runtime h ctx atoms drift reactions [] b = ok b
run_from wasm_runtime h ctx atoms drift reactions (rx ∷ rest) b =
    dispatch rx.payload wasm_runtime h ctx atoms drift reactions rx b
    >>= run_from wasm_runtime h ctx atoms drift reactions rest

unfoldable pub execute :
    Option WasmRuntime
    → Hashes
    → ExecutionContext
    → List SignedReaction
    → BTreeMap Bytes Atom
    → Result PvmError (Changeset × F32)
execute wasm_runtime h ctx reactions atoms = do
  b ←
      run_from wasm_runtime h ctx atoms (get_galactic_drift ctx.crystal_index) reactions reactions
        new_batch
  ok (b.changeset, b.entropy)
