-- ===== src/Vm/Pvm/Replay.antt =====
-- Executing reactions: accounts stay under their keys, and nonces never fall.
use primus_project.Base.{ℕ, ◌≡◌, refl, subst, Option, some, List, [], ◌∷◌, ◌++◌, arith}
use primus_project.Base.Outcome.{ok, ◌>>=◌, >>=-eq-ok, >>=-split, reject_if-eq-ok, ok_inj}
use primus_project.Machine.Word.{Bytes, saturating_add}
use primus_project.Machine.Float.{lt_f32}
use primus_project.Collections.BTreeMap.{BTreeMap}
use primus_project.Types.Crypto.{Hashes}
use primus_project.Types.Atom.{Atom}
use primus_project.Types.Payload.{
  Payload, generic, transfer, mining_reward, contract, contract_call, unknown,
}
use primus_project.Types.Reaction.{SignedReaction}
use primus_project.Storage.Changeset.{Changeset}
use primus_project.Vm.Error.{negative_energy}
use primus_project.Vm.Context.{ExecutionContext, lookup_atom}
use primus_project.Vm.Pvm.{
  Assessment, assess, settle, reward, Batch, nonce_ok, run_payload, run_signed, run_by_payload,
  execute_single, execute_from,
}
use primus_project.Vm.Pvm.Inversion.{reward-eq-ok}
use primus_project.Vm.Pvm.View.{view, IsKeyed, Keeps, Keeps-refl, Keeps-trans}
use primus_project.Vm.Pvm.Effect.{
  HasU64Nonces, Effect, Effect-to_Keeps, run_transfer-Effect, run_generic-Effect,
  run_contract-Effect, architect-Keeps,
}

run_payload-Effect :
    (h : Hashes) (ctx : ExecutionContext) (rx : SignedReaction) (words : HasU64Nonces rx)
    (p : Payload) (tax : ℕ) (found : Option Atom) (cs : Changeset) {cs' : Changeset}
    → IsKeyed (view ctx.state cs)
    → lookup_atom cs ctx.state rx.sender.public_key ≡ found
    → run_payload h ctx rx p tax found cs ≡ ok cs'
    → Effect ctx rx words cs found cs'
unfolding run_payload
run_payload-Effect h ctx rx words generic tax found cs keyed look e =
    run_generic-Effect ctx rx words tax cs found keyed look e
run_payload-Effect h ctx rx words (transfer amount) tax found cs keyed look e =
    run_transfer-Effect ctx rx words amount cs found keyed look e
run_payload-Effect h ctx rx words (contract code) tax found cs keyed look e =
    run_contract-Effect ctx rx words h code cs found keyed look e
run_payload-Effect h ctx rx words (mining_reward _) tax found cs keyed look e = cc
run_payload-Effect h ctx rx words (contract_call _ _) tax found cs keyed look e = cc
run_payload-Effect h ctx rx words unknown tax found cs keyed look e = cc

nonce_ok-eq-ok :
    (found : Option Atom) (rx : SignedReaction)
    → nonce_ok found rx ≡ ok tt
    → (a : Atom) → found ≡ some a
    → a.nonce ≡ rx.sender.nonce
unfolding nonce_ok
nonce_ok-eq-ok found rx e a f = ground arith

pub settle-eq-ok :
    (h : Hashes) (ctx : ExecutionContext) (rx : SignedReaction) (cs : Changeset) (t : Assessment)
    {b' : Batch}
    → settle h ctx rx cs t ≡ ok b'
    → (nonce_ok (lookup_atom cs ctx.state rx.sender.public_key) rx ≡ ok tt)
      × (run_payload h ctx rx rx.payload t.tax (lookup_atom cs ctx.state rx.sender.public_key) cs
          ≡ ok b'.changeset)
unfolding settle
settle-eq-ok h ctx rx cs t e = ground arith

-- A reaction that passes the nonce check of the accounts in `cs` and leaves `cs'`.
pub record Settles (ctx : ExecutionContext) (rx : SignedReaction) (words : HasU64Nonces rx)
    (cs cs' : Changeset) : Type 0 where
  pub current :
      (a : Atom)
      → lookup_atom cs ctx.state rx.sender.public_key ≡ some a
      → a.nonce ≡ rx.sender.nonce
  pub effect : Effect ctx rx words cs (lookup_atom cs ctx.state rx.sender.public_key) cs'

abbrev pub AllU64 : List SignedReaction → Type 0
AllU64 [] = Unit
AllU64 (rx ∷ rest) = HasU64Nonces rx × AllU64 rest

pub AllU64-append_left : (xs ys : List SignedReaction) → AllU64 (xs ++ ys) → AllU64 xs
AllU64-append_left [] ys a = tt
AllU64-append_left (rx ∷ xs) ys a = (a.0, AllU64-append_left xs ys a.1)

pub AllU64-append_right : (xs ys : List SignedReaction) → AllU64 (xs ++ ys) → AllU64 ys
AllU64-append_right [] ys a = a
AllU64-append_right (rx ∷ xs) ys a = AllU64-append_right xs ys a.1

module _ (h : Hashes) (ctx : ExecutionContext) (atoms : BTreeMap Bytes Atom) (drift : ℕ)
    (reactions : List SignedReaction) where
  pub run_signed-Settles :
      (rx : SignedReaction) (words : HasU64Nonces rx) (b : Batch) {b' : Batch}
      → IsKeyed (view ctx.state b.changeset)
      → run_signed h ctx atoms drift reactions rx b ≡ ok b'
      → Settles ctx rx words b.changeset b'.changeset
  unfolding run_signed
  run_signed-Settles rx words b keyed e =
      let (t, _, settled) =
        >>=-eq-ok (assess h ctx atoms drift reactions rx b) (settle h ctx rx b.changeset) e in
      let found = lookup_atom b.changeset ctx.state rx.sender.public_key in
      let (checked, ran) = settle-eq-ok h ctx rx b.changeset t settled in
      record {
        current = nonce_ok-eq-ok found rx checked;
        effect =
            run_payload-Effect h ctx rx words rx.payload t.tax found b.changeset keyed refl ran;
      }

  reward-Keeps :
      (rx : SignedReaction) (words : HasU64Nonces rx) (amount : ℕ) (cs : Changeset)
      {cs' : Changeset}
      → IsKeyed (view ctx.state cs)
      → reward ctx rx amount cs ≡ ok cs'
      → Keeps (view ctx.state cs) (view ctx.state cs')
  reward-Keeps rx words amount cs keyed e =
      let (_, (arch, found, done)) = reward-eq-ok ctx rx amount cs e in
      rw done (
        architect-Keeps ctx rx words cs arch
          (record arch {
            mass = saturating_add arch.mass amount;
            last_reaction_hash = rx.reaction_hash;
          })
          keyed found refl refl)

  pub run_by_payload-Keeps :
      (p : Payload) (rx : SignedReaction) (words : HasU64Nonces rx) (b : Batch) {b' : Batch}
      → IsKeyed (view ctx.state b.changeset)
      → run_by_payload p h ctx atoms drift reactions rx b ≡ ok b'
      → Keeps (view ctx.state b.changeset) (view ctx.state b'.changeset)
  unfolding run_by_payload
  run_by_payload-Keeps (mining_reward amount) rx words b {b'} keyed e =
      let (cs, paid, done) =
        >>=-eq-ok (reward ctx rx amount b.changeset) (λ c. ok (record b { changeset = c })) e in
      subst (λ (d : Batch). Keeps (view ctx.state b.changeset) (view ctx.state d.changeset))
        (ok_inj (record b { changeset = cs }) b' done)
        (reward-Keeps rx words amount b.changeset keyed paid)
  run_by_payload-Keeps _ rx words b {b'} keyed e =
      Effect-to_Keeps ctx rx words b.changeset b'.changeset
        (lookup_atom b.changeset ctx.state rx.sender.public_key)
        (run_signed-Settles rx words b keyed e).effect

  pub execute_single-inner :
      (rx : SignedReaction) (b : Batch) {b' : Batch}
      → execute_single h ctx atoms drift reactions rx b ≡ ok b'
      → run_by_payload rx.payload h ctx atoms drift reactions rx b ≡ ok b'
  unfolding execute_single
  execute_single-inner rx b e =
      (reject_if-eq-ok (lt_f32 rx.energy 0) negative_energy
        (run_by_payload rx.payload h ctx atoms drift reactions rx b) e).1

  -- Over a run of reactions, accounts stay under their keys, none is lost, and no nonce falls.
  pub execute_from-Keeps :
      (todo : List SignedReaction) (words : AllU64 todo) (b : Batch) {b' : Batch}
      → IsKeyed (view ctx.state b.changeset)
      → execute_from h ctx atoms drift reactions todo b ≡ ok b'
      → Keeps (view ctx.state b.changeset) (view ctx.state b'.changeset)
  unfolding execute_from
  execute_from-Keeps [] words b {b'} keyed e =
      subst (λ (d : Batch). Keeps (view ctx.state b.changeset) (view ctx.state d.changeset))
        (ok_inj b b' e) (Keeps-refl (view ctx.state b.changeset) keyed)
  execute_from-Keeps (rx ∷ rest) words b {b'} keyed e =
      let (b1, first, later) =
        >>=-eq-ok (execute_single h ctx atoms drift reactions rx b)
          (execute_from h ctx atoms drift reactions rest) e in
      let one =
        run_by_payload-Keeps rx.payload rx words.0 b keyed (execute_single-inner rx b first) in
      Keeps-trans (view ctx.state b.changeset) (view ctx.state b1.changeset)
        (view ctx.state b'.changeset) one (execute_from-Keeps rest words.1 b1 one.keyed later)

  pub execute_from-append :
      (xs ys : List SignedReaction) (b : Batch)
      → execute_from h ctx atoms drift reactions (xs ++ ys) b ≡ (
          execute_from h ctx atoms drift reactions xs b
          >>= execute_from h ctx atoms drift reactions ys)
  unfolding execute_from
  execute_from-append [] ys b = refl
  execute_from-append (rx ∷ xs) ys b =
      >>=-split (execute_single h ctx atoms drift reactions rx b)
        (execute_from h ctx atoms drift reactions xs) (execute_from h ctx atoms drift reactions ys)
        (execute_from h ctx atoms drift reactions (xs ++ ys)) (execute_from-append xs ys)
