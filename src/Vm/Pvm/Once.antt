-- ===== src/Vm/Pvm/Once.antt =====
-- A reaction that took effect cannot take effect again in the same crystal.
use primus_project.Base.{ℕ, ◌<◌, ◌≡◌, ◌≢◌, sym, ◌∙◌, subst, some, List, ◌∷◌, ◌++◌, arith}
use primus_project.Base.Outcome.{Result, ok, >>=-eq-ok}
use primus_project.Machine.Word.{Bytes, u64_max}
use primus_project.Machine.Float.{F32}
use primus_project.Collections.BTreeMap.{BTreeMap}
use primus_project.Types.Crypto.{Hashes}
use primus_project.Types.Atom.{Atom}
use primus_project.Types.Payload.{Payload, mining_reward}
use primus_project.Types.Reaction.{SignedReaction}
use primus_project.Storage.Changeset
use primus_project.Storage.Changeset.{Changeset}
use primus_project.Vm.Error.{PvmError}
use primus_project.Vm.Context.{ExecutionContext, lookup_atom}
use primus_project.Vm.Physics.{get_galactic_drift}
use primus_project.Vm.Pvm.{
  Batch, new_batch, run_by_payload, execute_single, execute_from, execute_payload,
}
use primus_project.Vm.Pvm.View.{View, view, lookup_atom-new, IsKeyed}
use primus_project.Vm.Pvm.Nonce.{Advances}
use primus_project.Vm.Pvm.Effect.{HasU64Nonces, Effect}
use primus_project.Vm.Pvm.Replay.{
  Settles, AllU64, AllU64-append_left, AllU64-append_right, run_signed-Settles,
  execute_single-inner, execute_from-Keeps, execute_from-append,
}

-- All payloads but the mining reward, which no user signs.
abbrev pub IsUser : Payload → Type 0
IsUser (mining_reward _) = ⊥
IsUser _ = Unit

module _ (h : Hashes) (ctx : ExecutionContext) (atoms : BTreeMap Bytes Atom) (drift : ℕ)
    (reactions : List SignedReaction) (rx : SignedReaction) (words : HasU64Nonces rx)
    (room : rx.sender.nonce < u64_max) where
  user-Settles :
      (p : Payload) (b : Batch) {b' : Batch}
      → IsUser p
      → IsKeyed (view ctx.state b.changeset)
      → run_by_payload p h ctx atoms drift reactions rx b ≡ ok b'
      → Settles ctx rx words b.changeset b'.changeset
  unfolding run_by_payload
  user-Settles (mining_reward _) b user keyed e = absurd user
  user-Settles _ b user keyed e = run_signed-Settles h ctx atoms drift reactions rx words b keyed e

  -- One execution takes a known sender past the reaction's nonce.
  Settles-Advances :
      (cs cs' : Changeset) (a : Atom)
      → Settles ctx rx words cs cs'
      → lookup_atom cs ctx.state rx.sender.public_key ≡ some a
      → Advances (view ctx.state cs) (view ctx.state cs') rx.sender.public_key rx.sender.nonce
  Settles-Advances cs cs' a s found =
      let same_nonce = s.current a found in
      let e = subst (λ o. Effect ctx rx words cs o cs') found s.effect in
      subst (λ n. Advances (view ctx.state cs) (view ctx.state cs') rx.sender.public_key n)
        same_nonce (e.1 (omega arith))

  not-Settles_later :
      (cs cs' : Changeset) (a : Atom)
      → lookup_atom cs ctx.state rx.sender.public_key ≡ some a
      → rx.sender.nonce < a.nonce
      → ¬ Settles ctx rx words cs cs'
  not-Settles_later cs cs' a found past s = absurd (omega (arith, s.current a found))

-- A run that holds `rx` stops before it, executes it, and goes on.
module _ (h : Hashes) (ctx : ExecutionContext) (atoms : BTreeMap Bytes Atom) (drift : ℕ)
    (reactions : List SignedReaction) where
  abbrev run : List SignedReaction → Batch → Result PvmError Batch
  run todo b = execute_from h ctx atoms drift reactions todo b

  abbrev step : SignedReaction → Batch → Result PvmError Batch
  step rx b = execute_single h ctx atoms drift reactions rx b

  run_split :
      (xs rest : List SignedReaction) (rx : SignedReaction) (b : Batch) {b' : Batch}
      → run (xs ++ rx ∷ rest) b ≡ ok b'
      → (b1 : Batch) × (b2 : Batch) × (run xs b ≡ ok b1)
        × (step rx b1 ≡ ok b2)
        × (run rest b2 ≡ ok b')
  unfolding execute_from
  run_split xs rest rx b e =
      let (b1, first, later) =
        >>=-eq-ok (run xs b) (run (rx ∷ rest))
          (sym (execute_from-append h ctx atoms drift reactions xs (rx ∷ rest) b) ∙ e) in
      let (b2, second, last) = >>=-eq-ok (step rx b1) (run rest) later in
      (b1, b2, first, second, last)

  abbrev at : Batch → View
  at b = view ctx.state b.changeset

  run-once :
      (xs ys zs : List SignedReaction) (rx : SignedReaction) (b : Batch) (a : Atom) {b' : Batch}
      → IsKeyed (at b)
      → AllU64 (xs ++ rx ∷ (ys ++ rx ∷ zs))
      → at b rx.sender.public_key ≡ some a
      → IsUser rx.payload
      → rx.sender.nonce < u64_max
      → run (xs ++ rx ∷ (ys ++ rx ∷ zs)) b ≢ ok b'
  run-once xs ys zs rx b a keyed words known user room e =
      let later_words = AllU64-append_right xs (rx ∷ (ys ++ rx ∷ zs)) words in
      let rx_words = later_words.0 in
      let (b1, b2, before, first, after) = run_split xs (ys ++ rx ∷ zs) rx b e in
      let (b3, b4, between, second, _) = run_split ys zs rx b2 after in
      let to_first =
        execute_from-Keeps h ctx atoms drift reactions xs
          (AllU64-append_left xs (rx ∷ (ys ++ rx ∷ zs)) words) b keyed before in
      let (a1, found1, _) = to_first.grow rx.sender.public_key a known in
      let settled = λ (c d : Batch) (k : IsKeyed (at c)) (ran : step rx c ≡ ok d).
        user-Settles h ctx atoms drift reactions rx rx_words room rx.payload c user k
          (execute_single-inner h ctx atoms drift reactions rx c ran) in
      let moved =
        Settles-Advances h ctx atoms drift reactions rx rx_words room b1.changeset b2.changeset a1
          (settled b1 b2 to_first.keyed first) found1 in
      let (a2, found2, past) = moved.passed in
      let to_second =
        execute_from-Keeps h ctx atoms drift reactions ys
          (AllU64-append_left ys (rx ∷ zs) later_words.1) b2 moved.keeps.keyed between in
      let (a3, found3, up) = to_second.grow rx.sender.public_key a2 found2 in
      not-Settles_later h ctx atoms drift reactions rx rx_words room b3.changeset b4.changeset a3
        found3 (omega arith) (settled b3 b4 to_second.keyed second)

-- Within a crystal no reaction of a known sender takes effect twice: a batch that holds it twice
-- does not execute. The state keeps accounts under their keys, and nonces are u64 values with
-- room for one more.
pub execute_payload-once :
    (h : Hashes) (ctx : ExecutionContext) (atoms : BTreeMap Bytes Atom)
    (xs ys zs : List SignedReaction) (rx : SignedReaction) (a : Atom) (r : Changeset × F32)
    → IsKeyed (view ctx.state Changeset.new)
    → AllU64 (xs ++ rx ∷ (ys ++ rx ∷ zs))
    → ctx.state.get_atom rx.sender.public_key ≡ some a
    → IsUser rx.payload
    → rx.sender.nonce < u64_max
    → execute_payload h ctx (xs ++ rx ∷ (ys ++ rx ∷ zs)) atoms ≢ ok r
unfolding execute_payload
execute_payload-once h ctx atoms xs ys zs rx a r keyed words known user room e =
    let drift = get_galactic_drift ctx.crystal_index in
    let all = xs ++ rx ∷ (ys ++ rx ∷ zs) in
    let (b, ran, _) =
      >>=-eq-ok (execute_from h ctx atoms drift all all new_batch)
        (λ (b : Batch). ok (b.changeset, b.entropy)) e in
    run-once h ctx atoms drift all xs ys zs rx new_batch a keyed words
      (lookup_atom-new ctx.state rx.sender.public_key ∙ known) user room ran
