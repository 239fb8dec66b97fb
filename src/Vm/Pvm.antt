-- ===== src/Vm/Pvm.antt =====
-- `PVM::execute_single` and `execute_payload` of primus-vm/src/pvm.rs, one definition for each
-- numbered step of the source.
pub mod View
pub mod Inversion
pub mod Nonce
pub mod Replay
pub mod Once
pub mod Ledger
pub mod Transfers
pub mod Conservation
pub mod Effect
pub mod Authorisation
use package.primus_project.Base.{
  ℕ, ◌+◌, ◌-◌, ◌*◌, Bool, true, false, not, ◌&&◌, ◌||◌, Option, none, some, List, [], ◌∷◌, ltb,
  ◌==◌, if◌then◌else◌, length, take,
}
use package.primus_project.Base.Outcome.{Result, ok, err, ◌>>=◌, ◌>>◌, reject_if, ok_or}
use package.primus_project.Base.Ord.{same, bytes_ord}
use package.primus_project.Machine.Word.{Bytes, checked_add, checked_sub, saturating_add}
use package.primus_project.Machine.Float.{
  F32, lt_f32, add_f32, sub_f32, mul_f32, max_f32, of_u64_f32, to_u64_f32,
}
use package.primus_project.Collections.BTreeMap.{BTreeMap}
use package.primus_project.Types.Crypto.{Hashes}
use package.primus_project.Types.Atom.{Atom, QuantumState, stable, entangled, superposition}
use package.primus_project.Types.Payload.{
  Payload, generic, transfer, mining_reward, contract, contract_call, unknown,
}
use package.primus_project.Types.Reaction.{SignedReaction, signing_digest}
use package.primus_project.Storage.Changeset
use package.primus_project.Storage.Changeset.{Changeset}
use package.primus_project.Vm.Error.{
  PvmError, signature_rejected, nonce_mismatch, insufficient_mass, thermal_limit_exceeded,
  quantum_collapse, invalid_reward_recipient, unknown_payload, negative_energy, atom_not_found,
  arithmetic_overflow, wasm_backend_error,
}
use package.primus_project.Vm.Context.{ExecutionContext, lookup_atom}
use package.primus_project.Vm.Gas.{max_module_size_bytes, max_safe_complexity}
use package.primus_project.Vm.Physics.{
  thermal_capacity, get_galactic_drift, calculate_orbital_resonance,
  calculate_gravity_assist_from_iter, get_spacetime_curvature, calculate_macro_shift,
  calculate_entropy_tax,
}
use package.primus_project.Vm.Evolution.{apply_decay, evolve}

-- The three accumulators of a batch. An error ends the batch, and its caller drops them.
pub record Batch : Type 0 where
  pub changeset : Changeset
  pub heat : F32
  pub entropy : F32

abbrev pub new_batch : Batch
new_batch = record { changeset = Changeset.new; heat = 0; entropy = 0 }

abbrev pub is_none {ℓ} : {A : Type ℓ} → Option A → Bool
is_none none = true
is_none (some _) = false

-- The fast path of a mining reward.
unfoldable pub reward :
    ExecutionContext → SignedReaction → ℕ → Changeset → Result PvmError Changeset
reward ctx rx amount cs = do
  reject_if (not (same rx.receiver.public_key ctx.architect_pk)) invalid_reward_recipient
  arch ← ok_or (lookup_atom cs ctx.state ctx.architect_pk) atom_not_found
  ok (
      Changeset.insert ctx.architect_pk
        (record arch {
          mass = saturating_add arch.mass amount;
          last_reaction_hash = rx.reaction_hash;
        })
        cs)

-- 1. The signature of the sender or of the Architect.
unfoldable pub is_authorised : Hashes → ExecutionContext → SignedReaction → Bool
is_authorised h ctx rx =
    let digest = signing_digest h rx in
    ctx.verify rx.sender.public_key digest rx.signature
    || ctx.verify ctx.architect_pk digest rx.signature

-- 2. The heat of the reaction.
unfoldable pub curvature : ExecutionContext → SignedReaction → BTreeMap Bytes Atom → ℕ → F32
curvature ctx rx atoms drift =
    max_f32
      (sub_f32
        (sub_f32 (get_spacetime_curvature rx.reaction_hash ctx.current_temp)
          (calculate_gravity_assist_from_iter atoms rx.sender.public_key))
        (calculate_orbital_resonance rx.sender.public_key drift))
      0

-- 3. The complexity added by the sender's quantum state.
unfoldable pub is_partner_active : Bytes → List SignedReaction → Bool
is_partner_active partner [] = false
is_partner_active partner (r ∷ rest) =
    same r.sender.public_key partner
    || same r.receiver.public_key partner
    || is_partner_active partner rest

quantum_of : QuantumState → List SignedReaction → Result PvmError ℕ
quantum_of stable reactions = ok 100
quantum_of (entangled partner) reactions = do
  reject_if (not (is_partner_active partner reactions)) quantum_collapse
  ok 600
quantum_of (superposition _) reactions = ok 350

unfoldable pub quantum_complexity :
    ExecutionContext → SignedReaction → List SignedReaction → Result PvmError ℕ
unfolding quantum_of
quantum_complexity ctx rx reactions = elim (ctx.state.get_atom rx.sender.public_key) [
  | none ↦ ok 100
  | some a ↦ quantum_of a.quantum_state reactions
]

-- complexity * (1.0 + shift), if there is a shift.
unfoldable pub scale_complexity : ℕ → F32 → ℕ
scale_complexity complexity shift =
    if lt_f32 0 shift
    then to_u64_f32 (mul_f32 (of_u64_f32 complexity) (add_f32 0x3f800000 shift))
    else complexity

-- 4. The nonce of a known sender.
unfoldable pub nonce_ok : Option Atom → SignedReaction → Result PvmError (Unit {0})
nonce_ok none rx = ok tt
nonce_ok (some on_chain) rx =
    reject_if (not (on_chain.nonce == rx.sender.nonce))
      (nonce_mismatch on_chain.nonce rx.sender.nonce)

-- 5. The payloads, on the sender found in step 4.
unfoldable pub debited : ℕ → SignedReaction → Atom → Atom
debited cost rx a = record a {
  mass = a.mass - cost;
  last_reaction_hash = rx.reaction_hash;
  nonce = saturating_add a.nonce 1;
}

unfoldable pub aged : ℕ → Atom → Atom
aged crystal_index a = evolve (apply_decay a crystal_index).0

unfoldable pub credited : ℕ → ℕ → Atom → Atom
credited crystal_index amount a =
    let b = (apply_decay a crystal_index).0 in
    evolve (record b { mass = saturating_add b.mass amount })

abbrev pub or_else {ℓ} : {A : Type ℓ} → Option A → A → A
or_else none d = d
or_else (some a) d = a

-- The sender, charged for a transfer.
unfoldable pub charge_sender : ExecutionContext → SignedReaction → ℕ → Atom → Changeset → Changeset
charge_sender ctx rx total_cost on_chain cs =
    let sender = aged ctx.crystal_index (debited total_cost rx on_chain) in
    Changeset.insert sender.public_key sender cs

unfoldable pub pay_receiver : ExecutionContext → SignedReaction → ℕ → Changeset → Changeset
pay_receiver ctx rx amount cs =
    let receiver = credited ctx.crystal_index amount (
      or_else (lookup_atom cs ctx.state rx.receiver.public_key)
        (record rx.receiver { mass = 0 })) in
    Changeset.insert receiver.public_key receiver cs

unfoldable pub run_transfer :
    ExecutionContext → SignedReaction → ℕ → Option Atom → Changeset → Result PvmError Changeset
run_transfer ctx rx amount found cs = do
  total_cost ← ok_or (checked_add amount (to_u64_f32 rx.energy)) arithmetic_overflow
  on_chain ← ok_or found atom_not_found
  reject_if (ltb on_chain.mass total_cost) (insufficient_mass on_chain.mass total_cost)
  ok (pay_receiver ctx rx amount (charge_sender ctx rx total_cost on_chain cs))

-- The Architect's first reaction creates its atom.
unfoldable pub generic_sender :
    ExecutionContext → SignedReaction → ℕ → Option Atom → Changeset → Result PvmError Changeset
generic_sender ctx rx tax (some on_chain) cs = do
  total_cost ← ok_or (checked_add (to_u64_f32 rx.energy) tax) arithmetic_overflow
  reject_if (ltb on_chain.mass total_cost) (insufficient_mass on_chain.mass total_cost)
  ok (Changeset.insert on_chain.public_key (debited total_cost rx on_chain) cs)
generic_sender ctx rx tax none cs = do
  reject_if (not (same rx.sender.public_key ctx.architect_pk)) atom_not_found
  ok (
      Changeset.insert rx.sender.public_key
        (record rx.sender { mass = 1_000_000_000; last_reaction_hash = rx.reaction_hash }) cs)

unfoldable pub generic_receiver : ExecutionContext → SignedReaction → Changeset → Changeset
generic_receiver ctx rx cs =
    let receiver = or_else (lookup_atom cs ctx.state rx.receiver.public_key) rx.receiver in
    Changeset.insert receiver.public_key
      (record receiver { mass = saturating_add receiver.mass (to_u64_f32 rx.energy) }) cs

unfoldable pub collect_tax : ExecutionContext → ℕ → Changeset → Changeset
collect_tax ctx tax cs =
    if ltb 0 tax
    then elim (lookup_atom cs ctx.state ctx.architect_pk) [
      | none ↦ cs
      | some arch ↦
          Changeset.insert ctx.architect_pk (record arch { mass = saturating_add arch.mass tax }) cs
    ]
    else cs

unfoldable pub run_generic :
    ExecutionContext → SignedReaction → ℕ → Option Atom → Changeset → Result PvmError Changeset
run_generic ctx rx tax found cs = do
  cs1 ← generic_sender ctx rx tax found cs
  ok (collect_tax ctx tax (generic_receiver ctx rx cs1))

unfoldable pub run_contract :
    Hashes → SignedReaction → Bytes → Option Atom → Changeset → Result PvmError Changeset
run_contract h rx code found cs = do
  reject_if (ltb max_module_size_bytes (length code)) (wasm_backend_error "Module too large")
  on_chain ← ok_or found atom_not_found
  let storage_cost = length code * 100
  reject_if (ltb on_chain.mass storage_cost) (insufficient_mass on_chain.mass storage_cost)
  let sender = debited storage_cost rx on_chain
  ok (Changeset.insert_contract (h.sha3 code) code (Changeset.insert sender.public_key sender cs))

-- `unreachable` marks the panic of the mining reward's arm, which the fast path keeps from running.
unfoldable pub run_payload :
    Hashes
    → ExecutionContext
    → SignedReaction
    → Payload
    → ℕ
    → Option Atom
    → Changeset
    → Result PvmError Changeset
run_payload h ctx rx generic tax found cs = run_generic ctx rx tax found cs
run_payload h ctx rx (transfer amount) tax found cs = run_transfer ctx rx amount found cs
run_payload h ctx rx (mining_reward _) tax found cs = err (wasm_backend_error "unreachable")
run_payload h ctx rx (contract code) tax found cs = run_contract h rx code found cs
run_payload h ctx rx (contract_call _ _) tax found cs =
    err (wasm_backend_error "ContractCall must be handled by PayloadDispatcher")
run_payload h ctx rx unknown tax found cs = err unknown_payload

-- The entropy tax of a reaction, and the batch's heat and entropy with it.
pub record Assessment : Type 0 where
  pub tax : ℕ
  pub heat : F32
  pub entropy : F32

-- Steps 1 to 3.
unfoldable pub assess :
    Hashes
    → ExecutionContext
    → BTreeMap Bytes Atom
    → ℕ
    → List SignedReaction
    → SignedReaction
    → Batch
    → Result PvmError Assessment
assess h ctx atoms drift reactions rx b = do
  reject_if (not (is_authorised h ctx rx))
      (signature_rejected (take 4 rx.sender.public_key) (take 4 (signing_digest h rx)))
  let local_curvature = curvature ctx rx atoms drift
  let heat = add_f32 b.heat local_curvature
  reject_if (lt_f32 thermal_capacity heat) thermal_limit_exceeded
  complexity ← quantum_complexity ctx rx reactions
  let scaled = scale_complexity complexity (calculate_macro_shift local_curvature)
  reject_if (ltb max_safe_complexity scaled) arithmetic_overflow
  let tax = calculate_entropy_tax scaled local_curvature
  ok (record {
    tax = tax;
    heat = heat;
    entropy = add_f32 b.entropy (mul_f32 (of_u64_f32 tax) 0x3c23d70a);
  })

-- Steps 4 and 5.
unfoldable pub settle :
    Hashes → ExecutionContext → SignedReaction → Changeset → Assessment → Result PvmError Batch
settle h ctx rx cs t = do
  let found = lookup_atom cs ctx.state rx.sender.public_key
  nonce_ok found rx
  cs' ← run_payload h ctx rx rx.payload t.tax found cs
  ok (record { changeset = cs'; heat = t.heat; entropy = t.entropy })

-- All steps, for every payload but the mining reward.
unfoldable pub run_signed :
    Hashes
    → ExecutionContext
    → BTreeMap Bytes Atom
    → ℕ
    → List SignedReaction
    → SignedReaction
    → Batch
    → Result PvmError Batch
run_signed h ctx atoms drift reactions rx b =
    assess h ctx atoms drift reactions rx b >>= settle h ctx rx b.changeset

unfoldable pub run_by_payload :
    Payload
    → Hashes
    → ExecutionContext
    → BTreeMap Bytes Atom
    → ℕ
    → List SignedReaction
    → SignedReaction
    → Batch
    → Result PvmError Batch
run_by_payload (mining_reward amount) h ctx atoms drift reactions rx b = do
  cs ← reward ctx rx amount b.changeset
  ok (record b { changeset = cs })
run_by_payload _ h ctx atoms drift reactions rx b = run_signed h ctx atoms drift reactions rx b

unfoldable pub execute_single :
    Hashes
    → ExecutionContext
    → BTreeMap Bytes Atom
    → ℕ
    → List SignedReaction
    → SignedReaction
    → Batch
    → Result PvmError Batch
execute_single h ctx atoms drift reactions rx b = do
  reject_if (lt_f32 rx.energy 0) negative_energy
  run_by_payload rx.payload h ctx atoms drift reactions rx b

-- The loop of `execute_payload` over the reactions still to run.
unfoldable pub execute_from :
    Hashes
    → ExecutionContext
    → BTreeMap Bytes Atom
    → ℕ
    → List SignedReaction
    → List SignedReaction
    → Batch
    → Result PvmError Batch
execute_from h ctx atoms drift reactions [] b = ok b
execute_from h ctx atoms drift reactions (rx ∷ rest) b =
    execute_single h ctx atoms drift reactions rx b
    >>= execute_from h ctx atoms drift reactions rest

unfoldable pub execute_payload :
    Hashes
    → ExecutionContext
    → List SignedReaction
    → BTreeMap Bytes Atom
    → Result PvmError (Changeset × F32)
execute_payload h ctx payload atoms = do
  b ← execute_from h ctx atoms (get_galactic_drift ctx.crystal_index) payload payload new_batch
  ok (b.changeset, b.entropy)
