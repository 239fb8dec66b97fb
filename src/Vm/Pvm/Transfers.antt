-- ===== src/Vm/Pvm/Transfers.antt =====
-- Batches of transfers create no mass.
use primus_project.Base.{
  ℕ, ◌+◌, ◌≤◌, ◌≡◌, refl, sym, subst, ◌∙◌, true, List, [], ◌∷◌, ap, fun_ext, arith,
}
use primus_project.Base.Ord.{bytes_ord}
use primus_project.Base.Outcome.{ok, >>=-eq-ok, ok_inj}
use primus_project.Machine.Word.{Bytes}
use primus_project.Machine.Float.{F32, to_u64_f32}
use primus_project.Collections.BTreeMap.{BTreeMap}
use primus_project.Types.Crypto.{Hashes}
use primus_project.Types.Atom.{Atom}
use primus_project.Types.Payload.{
  Payload, generic, transfer, mining_reward, contract, contract_call, unknown,
}
use primus_project.Types.Reaction.{SignedReaction}
use primus_project.Storage.Changeset
use primus_project.Storage.Changeset.{Changeset}
use primus_project.Vm.Context.{ExecutionContext, lookup_atom}
use primus_project.Vm.Physics.{get_galactic_drift}
use primus_project.Vm.Pvm.{
  assess, settle, Batch, new_batch, run_payload, run_signed, run_by_payload, execute_single,
  execute_from, execute_payload,
}
use primus_project.Vm.Pvm.View.{view, IsKeyed, lookup_atom-new}
use primus_project.Vm.Pvm.Effect.{HasU64Nonces}
use primus_project.Vm.Pvm.Replay.{AllU64, settle-eq-ok, execute_single-inner, run_by_payload-Keeps}
use primus_project.Vm.Pvm.Ledger.{contains, IsDistinct, total}
use primus_project.Vm.Pvm.Conservation.{run_transfer-total}

abbrev pub IsTransfer : Payload → Type 0
IsTransfer (transfer _) = Unit
IsTransfer _ = ⊥

-- Transfers whose senders are among the accounts `ks`.
abbrev pub AllTransfers : List Bytes → List SignedReaction → Type 0
AllTransfers ks [] = Unit
AllTransfers ks (rx ∷ rest) =
    IsTransfer rx.payload × ((contains rx.sender.public_key ks ≡ true) × AllTransfers ks rest)

-- The fee of a reaction is the integer part of its energy.
abbrev pub fees : List SignedReaction → ℕ
fees [] = 0
fees (rx ∷ rest) = to_u64_f32 rx.energy + fees rest

module _ (h : Hashes) (ctx : ExecutionContext) (atoms : BTreeMap Bytes Atom) (drift : ℕ)
    (reactions : List SignedReaction) (ks : List Bytes) (distinct : IsDistinct ks) where
  abbrev sum : Batch → ℕ
  sum b = total (view ctx.state b.changeset) ks

  run_payload-total :
      (p : Payload) (rx : SignedReaction) (words : HasU64Nonces rx) (tax : ℕ) (cs : Changeset)
      {cs' : Changeset}
      → IsTransfer p
      → IsKeyed (view ctx.state cs)
      → contains rx.sender.public_key ks ≡ true
      → run_payload h ctx rx p tax (lookup_atom cs ctx.state rx.sender.public_key) cs ≡ ok cs'
      → total (view ctx.state cs') ks + to_u64_f32 rx.energy ≤ total (view ctx.state cs) ks
  unfolding run_payload
  run_payload-total (transfer amount) rx words tax cs is_transfer keyed here e =
      run_transfer-total ctx rx words amount cs ks keyed distinct here e
  run_payload-total generic rx words tax cs is_transfer keyed here e = absurd is_transfer
  run_payload-total (mining_reward _) rx words tax cs is_transfer keyed here e = absurd is_transfer
  run_payload-total (contract _) rx words tax cs is_transfer keyed here e = absurd is_transfer
  run_payload-total (contract_call _ _) rx words tax cs is_transfer keyed here e =
      absurd is_transfer
  run_payload-total unknown rx words tax cs is_transfer keyed here e = absurd is_transfer

  run_by_payload-signed :
      (p : Payload) (rx : SignedReaction) (b : Batch)
      → IsTransfer p
      → run_by_payload p h ctx atoms drift reactions rx b
        ≡ run_signed h ctx atoms drift reactions rx b
  unfolding run_by_payload
  run_by_payload-signed (mining_reward _) rx b is_transfer = absurd is_transfer
  run_by_payload-signed _ rx b is_transfer = refl

  execute_single-total :
      (rx : SignedReaction) (words : HasU64Nonces rx) (b : Batch) {b' : Batch}
      → IsTransfer rx.payload
      → IsKeyed (view ctx.state b.changeset)
      → contains rx.sender.public_key ks ≡ true
      → execute_single h ctx atoms drift reactions rx b ≡ ok b'
      → sum b' + to_u64_f32 rx.energy ≤ sum b
  unfolding run_signed
  execute_single-total rx words b is_transfer keyed here e =
      let inner =
        sym (run_by_payload-signed rx.payload rx b is_transfer)
        ∙ execute_single-inner h ctx atoms drift reactions rx b e in
      let (t, _, settled) =
        >>=-eq-ok (assess h ctx atoms drift reactions rx b) (settle h ctx rx b.changeset) inner in
      run_payload-total rx.payload rx words t.tax b.changeset is_transfer keyed here
        (settle-eq-ok h ctx rx b.changeset t settled).1

  execute_from-total :
      (todo : List SignedReaction) (words : AllU64 todo) (b : Batch) {b' : Batch}
      → AllTransfers ks todo
      → IsKeyed (view ctx.state b.changeset)
      → execute_from h ctx atoms drift reactions todo b ≡ ok b'
      → sum b' + fees todo ≤ sum b
  unfolding execute_from
  execute_from-total [] words b {b'} transfers keyed e =
      subst (λ c. sum c + 0 ≤ sum b) (ok_inj b b' e) (omega arith)
  execute_from-total (rx ∷ rest) words b transfers keyed e =
      let (b1, first, later) =
        >>=-eq-ok (execute_single h ctx atoms drift reactions rx b)
          (execute_from h ctx atoms drift reactions rest) e in
      let kept =
        run_by_payload-Keeps h ctx atoms drift reactions rx.payload rx words.0 b keyed
          (execute_single-inner h ctx atoms drift reactions rx b first) in
      omega (
        arith,
        execute_single-total rx words.0 b transfers.0 keyed transfers.1.0 first,
        execute_from-total rest words.1 b1 transfers.1.1 kept.keyed later,
      )

-- A batch of transfers that executes takes at least the sum of its fees, each the integer part of
-- a reaction's energy, out of the sum of the masses of any distinct accounts that hold its senders:
-- transfers, with their decay and evolution, create no mass. The state keeps accounts under their
-- keys, and nonces are u64 values.
pub execute_payload-total :
    (h : Hashes) (ctx : ExecutionContext) (atoms : BTreeMap Bytes Atom)
    (payload : List SignedReaction) (ks : List Bytes) (cs : Changeset) (entropy : F32)
    → IsDistinct ks
    → AllTransfers ks payload
    → AllU64 payload
    → IsKeyed (view ctx.state Changeset.new)
    → execute_payload h ctx payload atoms ≡ ok (cs, entropy)
    → total (view ctx.state cs) ks + fees payload ≤ total ctx.state.get_atom ks
unfolding execute_payload
execute_payload-total h ctx atoms payload ks cs entropy distinct transfers words keyed e =
    let drift = get_galactic_drift ctx.crystal_index in
    let (b, ran, done) =
      >>=-eq-ok (execute_from h ctx atoms drift payload payload new_batch)
        (λ (b : Batch). ok (b.changeset, b.entropy)) e in
    let same_state : view ctx.state Changeset.new ≡ ctx.state.get_atom =
      fun_ext (λ k. lookup_atom-new ctx.state k) in
    let last : b.changeset ≡ cs =
      ap (λ p. p.0) (ok_inj (b.changeset, b.entropy) (cs, entropy) done) in
    let bound =
      execute_from-total h ctx atoms drift payload ks distinct payload words new_batch transfers
        keyed ran in
    subst (λ c. total (view ctx.state c) ks + fees payload ≤ total ctx.state.get_atom ks) last
      (subst (λ f. total (view ctx.state b.changeset) ks + fees payload ≤ total f ks) same_state
        bound)
