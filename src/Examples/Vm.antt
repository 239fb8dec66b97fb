-- ===== src/Examples/Vm.antt =====
-- Runs of the virtual machine.
use primus_project.Base.{◌+◌, ◌≤◌, ◌≡◌, ◌≢◌, refl, [], ◌∷◌, arith}
use primus_project.Base.Outcome.{ok, err}
use primus_project.Base.Ord.{same_iff, bytes_ord}
use primus_project.Machine.Float.{F32}
use primus_project.Types.Payload.{transfer}
use primus_project.Types.Reaction.{SignedReaction}
use primus_project.Storage.Changeset
use primus_project.Storage.Changeset.{Changeset}
use primus_project.Collections.BTreeMap
use primus_project.Types.Payload.{transfer_amount}
use primus_project.Types.Physics.{encode}
use primus_project.Types.Reaction.{signing_digest, signing_input}
use primus_project.Machine.Word.{le_bytes}
use primus_project.Machine.Float.{
  lt_f32, add_f32, sub_f32, mul_f32, div_f32, max_f32, to_u64_f32, of_u64_f32, f32_to_f64,
  f64_to_f32, add_f64, mul_f64, div_f64, max_f64, min_f64, to_u64_f64, of_u64_f64,
}
use primus_project.Vm.Context.{lookup_atom}
use primus_project.Vm.Pvm.View.{view, IsKeyed, lookup_atom-new}
use primus_project.Vm.Pvm.Authorisation.{AllSound, execute_payload-AllSound}
use primus_project.Vm.Pvm.Once.{execute_payload-once}
use primus_project.Vm.Pvm.Ledger.{total}
use primus_project.Vm.Pvm.Transfers.{fees, execute_payload-total}
use primus_project.Vm.Evolution.{apply_decay, evolve, decay_amount}
use primus_project.Vm.Physics.{
  get_galactic_drift, calculate_orbital_resonance, calculate_gravity_assist_from_iter, gravity_pull,
  get_spacetime_curvature, calculate_macro_shift, calculate_entropy_tax,
}
use primus_project.Vm.Pvm.{
  execute_payload, execute_from, execute_single, run_by_payload, run_signed, assess, settle,
  is_authorised, curvature, quantum_complexity, scale_complexity, nonce_ok, run_payload,
  run_transfer, charge_sender, pay_receiver, debited, aged, credited,
}
use primus_project.Examples.Data.{hashes, alice, bob, account, state, context, reaction}

abbrev outcome : Changeset × F32
outcome = elim (execute_payload hashes context (reaction (transfer 10) ∷ []) []) [
  | ok r ↦ r
  | err _ ↦ (Changeset.new, 0)
]

executes : execute_payload hashes context (reaction (transfer 10) ∷ []) [] ≡ ok outcome
unfolding execute_payload execute_from execute_single run_by_payload run_signed assess settle
    is_authorised signing_digest signing_input transfer_amount le_bytes encode curvature
    quantum_complexity scale_complexity nonce_ok run_payload run_transfer charge_sender pay_receiver
    debited aged credited lookup_atom apply_decay evolve decay_amount Changeset.insert Changeset.get
    BTreeMap.insert BTreeMap.get get_galactic_drift calculate_orbital_resonance
    calculate_gravity_assist_from_iter gravity_pull get_spacetime_curvature calculate_macro_shift
    calculate_entropy_tax lt_f32 add_f32 sub_f32 mul_f32 div_f32 max_f32 to_u64_f32 of_u64_f32
    f32_to_f64 f64_to_f32 add_f64 mul_f64 div_f64 max_f64 min_f64 to_u64_f64 of_u64_f64 bytes_ord
executes = refl

abbrev paid : SignedReaction
paid = reaction (transfer 10)

execute_payload-AllSound_example : AllSound hashes context (paid ∷ [])
execute_payload-AllSound_example =
    execute_payload-AllSound hashes context (paid ∷ []) [] {r = outcome} executes

state-IsKeyed : IsKeyed (view state Changeset.new)
state-IsKeyed k a e = ground (arith, lookup_atom-new state k, same_iff k alice, same_iff k bob)

execute_payload-once_example : execute_payload hashes context (paid ∷ paid ∷ []) [] ≢ ok outcome
unfolding bytes_ord
execute_payload-once_example =
    execute_payload-once hashes context [] [] [] [] paid (account alice 1000 3) outcome
      state-IsKeyed ((omega arith, omega arith), ((omega arith, omega arith), tt)) refl tt
      (omega arith)

execute_payload-total_example :
    total (view state outcome.0) (alice ∷ bob ∷ []) + fees (paid ∷ [])
    ≤ total state.get_atom (alice ∷ bob ∷ [])
unfolding bytes_ord
execute_payload-total_example =
    execute_payload-total hashes context [] (paid ∷ []) (alice ∷ bob ∷ []) outcome.0 outcome.1
      (refl, (refl, tt)) (tt, (refl, tt)) ((omega arith, omega arith), tt) state-IsKeyed executes
