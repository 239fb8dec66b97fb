-- ===== src/Vm/Pvm/Authorisation.antt =====
-- Which reactions can take effect.
use primus_project.Base.{ℕ, ◌≡◌, inl, inr, true, List, [], ◌∷◌, arith, Bool-cases}
use primus_project.Base.Outcome.{ok, >>=-eq-ok, reject_if-eq-ok}
use primus_project.Base.Ord.{same_iff, bytes_ord}
use primus_project.Machine.Word.{Bytes}
use primus_project.Machine.Float.{F32, lt_f32}
use primus_project.Collections.BTreeMap.{BTreeMap}
use primus_project.Types.Crypto.{Hashes}
use primus_project.Types.Atom.{Atom}
use primus_project.Types.Payload.{Payload, generic, mining_reward}
use primus_project.Types.Reaction.{SignedReaction}
use primus_project.Storage.Changeset.{Changeset}
use primus_project.Vm.Error.{negative_energy}
use primus_project.Vm.Context.{ExecutionContext}
use primus_project.Vm.Physics.{get_galactic_drift}
use primus_project.Vm.Pvm.{
  Batch, new_batch, is_authorised, Assessment, assess, settle, reward, run_signed, run_by_payload,
  execute_single, execute_from, execute_payload,
}

-- Signed by its sender or by the Architect, or else a reward to the Architect.
abbrev pub IsSound : Hashes → ExecutionContext → SignedReaction → Payload → Type 0
IsSound h ctx rx (mining_reward _) = rx.receiver.public_key ≡ ctx.architect_pk
IsSound h ctx rx _ = is_authorised h ctx rx ≡ true

abbrev pub AllSound : Hashes → ExecutionContext → List SignedReaction → Type 0
AllSound h ctx [] = Unit
AllSound h ctx (rx ∷ rest) = IsSound h ctx rx rx.payload × AllSound h ctx rest

module _ (h : Hashes) (ctx : ExecutionContext) (atoms : BTreeMap Bytes Atom) (drift : ℕ)
    (reactions : List SignedReaction) where
  assess-authorised :
      (rx : SignedReaction) (b : Batch) {t : Assessment}
      → assess h ctx atoms drift reactions rx b ≡ ok t
      → is_authorised h ctx rx ≡ true
  unfolding assess
  assess-authorised rx b e = elim (Bool-cases (is_authorised h ctx rx)) [
    | inl signed ↦ signed
    | inr not_signed ↦ ground arith
  ]

  run_signed-authorised :
      (rx : SignedReaction) (b : Batch) {b' : Batch}
      → run_signed h ctx atoms drift reactions rx b ≡ ok b'
      → is_authorised h ctx rx ≡ true
  unfolding run_signed
  run_signed-authorised rx b e =
      let (t, first, _) =
        >>=-eq-ok (assess h ctx atoms drift reactions rx b) (settle h ctx rx b.changeset) e in
      assess-authorised rx b first

  run_by_payload-IsSound :
      (p : Payload) (rx : SignedReaction) (b : Batch) {b' : Batch}
      → run_by_payload p h ctx atoms drift reactions rx b ≡ ok b'
      → IsSound h ctx rx p
  unfolding run_by_payload reward
  run_by_payload-IsSound generic rx b e = run_signed-authorised rx b e
  run_by_payload-IsSound (mining_reward amount) rx b e =
      ground (arith, same_iff rx.receiver.public_key ctx.architect_pk)
  run_by_payload-IsSound _ rx b e = run_signed-authorised rx b e

  pub execute_single-IsSound :
      (rx : SignedReaction) (b : Batch) {b' : Batch}
      → execute_single h ctx atoms drift reactions rx b ≡ ok b'
      → IsSound h ctx rx rx.payload
  unfolding execute_single
  execute_single-IsSound rx b e =
      run_by_payload-IsSound rx.payload rx b
        (reject_if-eq-ok (lt_f32 rx.energy 0) negative_energy
          (run_by_payload rx.payload h ctx atoms drift reactions rx b) e).1

  execute_from-AllSound :
      (todo : List SignedReaction) (b : Batch) {b' : Batch}
      → execute_from h ctx atoms drift reactions todo b ≡ ok b'
      → AllSound h ctx todo
  unfolding execute_from
  execute_from-AllSound [] b e = tt
  execute_from-AllSound (rx ∷ rest) b e =
      let (b1, first, later) =
        >>=-eq-ok (execute_single h ctx atoms drift reactions rx b)
          (execute_from h ctx atoms drift reactions rest) e in
      (execute_single-IsSound rx b first, execute_from-AllSound rest b1 later)

-- In a batch that executes, every reaction was signed by its sender or by the Architect, but for
-- mining rewards, which go to the Architect.
pub execute_payload-AllSound :
    (h : Hashes) (ctx : ExecutionContext) (payload : List SignedReaction)
    (atoms : BTreeMap Bytes Atom) {r : Changeset × F32}
    → execute_payload h ctx payload atoms ≡ ok r
    → AllSound h ctx payload
unfolding execute_payload
execute_payload-AllSound h ctx payload atoms e =
    let drift = get_galactic_drift ctx.crystal_index in
    let (b, run, _) =
      >>=-eq-ok (execute_from h ctx atoms drift payload payload new_batch)
        (λ (b : Batch). ok (b.changeset, b.entropy)) e in
    execute_from-AllSound h ctx atoms drift payload payload new_batch run
