-- ===== src/Examples/Contract.antt =====
-- Contract runs.
use primus_project.Base.{◌≤◌, ◌≡◌, refl, Option, none, some, List, [], ◌∷◌, arith}
use primus_project.Base.Outcome.{ok}
use primus_project.Base.Ord.{bytes_ord}
use primus_project.Machine.Word.{Bytes}
use primus_project.Types.Payload.{contract_call}
use primus_project.Types.Reaction.{SignedReaction}
use primus_project.Storage.Changeset
use primus_project.Storage.Changeset.{Changeset}
use primus_project.Vm.Pvm.View.{view, lookup_atom-new}
use primus_project.Vm.Pvm.Ledger.{total}
use primus_project.Vm.Host.{Call, transfer, event, run_calls, empty_delta}
use primus_project.Vm.Host.Solvent.{IsAllowed, run_calls-IsAllowed}
use primus_project.Vm.Dispatch.{WasmRuntime, host_state, apply_transfers}
use primus_project.Vm.Dispatch.Apply.{run_calls-accepted}
use primus_project.Examples.Data.{alice, bob, state, context, reaction}

abbrev call : SignedReaction
call = reaction (contract_call (7 ∷ []) [])

-- The memory holds the keys of Alice and Bob.
abbrev calls : List (Option Bytes × Call)
calls =
    (some (1 ∷ 2 ∷ []), transfer (0, 1) (1, 1) 10)
    ∷ (some (1 ∷ 2 ∷ []), event (0, 1) (1, 1))
    ∷ (none, transfer (0, 1) (1, 1) 5)
    ∷ []

run_calls-IsAllowed_example :
    IsAllowed
      (host_state context call).atoms
      (host_state context call).caller_pk
      (run_calls calls (host_state context call)).delta
unfolding host_state bytes_ord
run_calls-IsAllowed_example =
    run_calls-IsAllowed calls (host_state context call)
      (record { own = tt; within = omega arith; few = omega arith; small = tt }) (omega arith)

run_calls-accepted_example :
    (cs' : Changeset) × (apply_transfers state
        (run_calls calls (host_state context call)).delta.transfers
        Changeset.new
      ≡ ok cs')
    × (total (view state cs') (alice ∷ bob ∷ [])
        ≤ total (view state Changeset.new) (alice ∷ bob ∷ []))
unfolding host_state bytes_ord
run_calls-accepted_example =
    run_calls-accepted context call calls Changeset.new (alice ∷ bob ∷ []) (refl, (refl, tt)) refl
      (lookup_atom-new state alice) (omega arith)

-- A runtime whose contracts do nothing.
abbrev idle : WasmRuntime
idle = record {
  load_module = λ h code. ok tt;
  execute = λ h input host limit.
      ok (record { return_data = []; gas_used = 0; state_delta = empty_delta });
}
