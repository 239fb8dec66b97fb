-- ===== src/Vm/Pvm/Effect.antt =====
-- What each payload does to the nonces of the accounts.
use primus_project.Base.{
  ℕ, ◌+◌, ◌≤◌, ◌<◌, ◌≡◌, refl, subst, ◌∙◌, Option, none, some, arith, Bool-cases, Option-cases, inl,
  inr, ltb, length, ◌*◌,
}
use primus_project.Base.Outcome.{ok, >>=-eq-ok, ok_inj}
use primus_project.Base.Ord.{bytes_ord}
use primus_project.Machine.Word.{Bytes, u64_max, saturating_add}
use primus_project.Machine.Float.{to_u64_f32}
use primus_project.Types.Crypto.{Hashes}
use primus_project.Types.Atom.{Atom}
use primus_project.Types.Reaction.{SignedReaction}
use primus_project.Storage.Changeset
use primus_project.Storage.Changeset.{Changeset}
use primus_project.Vm.Context.{ExecutionContext, lookup_atom}
use primus_project.Vm.Pvm.{
  charge_sender, pay_receiver, debited, aged, credited, or_else, run_transfer, run_generic,
  generic_sender, generic_receiver, collect_tax, run_contract,
}
use primus_project.Vm.Pvm.Inversion.{
  run_transfer-eq-ok, run_contract-eq-ok, generic_sender-eq-ok, generic_sender_new-eq-ok,
}
use primus_project.Vm.Pvm.View.{
  View, view, IsKeyed, Keeps, Keeps-trans, Keeps-refl, insert-Keeps, view-insert_contract,
}
use primus_project.Vm.Pvm.Nonce.{
  aged_keeps, credited_keeps, debited_keeps, Advances, Advances-Keeps, insert-Advances,
  insert-Keeps_bumped, upsert-Keeps,
}

-- A reaction from the wire: its two snapshots carry u64 nonces.
abbrev pub HasU64Nonces : SignedReaction → Type 0
HasU64Nonces rx = (rx.sender.nonce ≤ u64_max) × (rx.receiver.nonce ≤ u64_max)

module _ (ctx : ExecutionContext) (rx : SignedReaction) (words : HasU64Nonces rx) where
  abbrev seen : Changeset → View
  seen = view ctx.state

  -- What a payload does to the nonces: without an account for the sender it lowers none, and
  -- otherwise it moves the sender past the nonce that it had.
  abbrev pub Effect : Changeset → Option Atom → Changeset → Type 0
  Effect cs none cs' = Keeps (seen cs) (seen cs')
  Effect cs (some old) cs' =
      Keeps (seen cs) (seen cs')
      × (old.nonce < u64_max → Advances (seen cs) (seen cs') rx.sender.public_key old.nonce)

  Effect-Keeps :
      (cs cs1 cs' : Changeset) (found : Option Atom)
      → Effect cs found cs1
      → Keeps (seen cs1) (seen cs')
      → Effect cs found cs'
  Effect-Keeps cs cs1 cs' none p q = Keeps-trans (seen cs) (seen cs1) (seen cs') p q
  Effect-Keeps cs cs1 cs' (some old) p q = (
    Keeps-trans (seen cs) (seen cs1) (seen cs') p.0 q,
    λ room.
        Advances-Keeps (seen cs) (seen cs1) (seen cs') rx.sender.public_key old.nonce (p.1 room) q,
  )

  pub Effect-to_Keeps :
      (cs cs' : Changeset) (found : Option Atom) → Effect cs found cs' → Keeps (seen cs) (seen cs')
  Effect-to_Keeps cs cs' none p = p
  Effect-to_Keeps cs cs' (some old) p = p.0

  -- The sender, charged and written back.
  debit-Effect :
      (cs : Changeset) (old a : Atom)
      → IsKeyed (seen cs)
      → lookup_atom cs ctx.state rx.sender.public_key ≡ some old
      → a.public_key ≡ old.public_key
      → a.nonce ≡ saturating_add old.nonce 1
      → Effect cs (some old) (Changeset.insert a.public_key a cs)
  debit-Effect cs old a keyed found own up = (
    insert-Keeps_bumped ctx.state cs keyed rx.sender.public_key old a found own up,
    insert-Advances ctx.state cs keyed rx.sender.public_key old a found own up,
  )

  pay_receiver-Keeps :
      (amount : ℕ) (cs : Changeset)
      → IsKeyed (seen cs)
      → Keeps (seen cs) (seen (pay_receiver ctx rx amount cs))
  unfolding pay_receiver
  pay_receiver-Keeps amount cs keyed =
      let d = record rx.receiver { mass = 0 } in
      let old = or_else (lookup_atom cs ctx.state rx.receiver.public_key) d in
      let (own, same_nonce) = credited_keeps ctx.crystal_index amount old in
      upsert-Keeps ctx.state cs keyed rx.receiver.public_key d
        (credited ctx.crystal_index amount old) refl words.1 own same_nonce

  pub charge_sender-Effect :
      (cost : ℕ) (cs : Changeset) (old : Atom)
      → IsKeyed (seen cs)
      → lookup_atom cs ctx.state rx.sender.public_key ≡ some old
      → Effect cs (some old) (charge_sender ctx rx cost old cs)
  unfolding charge_sender
  charge_sender-Effect cost cs old keyed look =
      let paid = debited cost rx old in
      let (own, same_nonce) = aged_keeps ctx.crystal_index paid in
      let (own0, up) = debited_keeps cost rx old in
      debit-Effect cs old (aged ctx.crystal_index paid) keyed look (own ∙ own0) (same_nonce ∙ up)

  pub run_transfer-Effect :
      (amount : ℕ) (cs : Changeset) (found : Option Atom) {cs' : Changeset}
      → IsKeyed (seen cs)
      → lookup_atom cs ctx.state rx.sender.public_key ≡ found
      → run_transfer ctx rx amount found cs ≡ ok cs'
      → Effect cs found cs'
  run_transfer-Effect amount cs found {cs'} keyed look e =
      let (old, known, _, done) = run_transfer-eq-ok ctx rx amount found cs e in
      rw (known, done)
        (let charged =
            charge_sender-Effect (amount + to_u64_f32 rx.energy) cs old keyed (look ∙ known) in
          Effect-Keeps cs _ _ (some old) charged (pay_receiver-Keeps amount _ charged.0.keyed))

  generic_receiver-Keeps :
      (cs : Changeset) → IsKeyed (seen cs) → Keeps (seen cs) (seen (generic_receiver ctx rx cs))
  unfolding generic_receiver
  generic_receiver-Keeps cs keyed =
      let old = or_else (lookup_atom cs ctx.state rx.receiver.public_key) rx.receiver in
      upsert-Keeps ctx.state cs keyed rx.receiver.public_key rx.receiver
        (record old { mass = saturating_add old.mass (to_u64_f32 rx.energy) }) refl words.1 refl
        refl

  -- The Architect's account, written back with another mass.
  pub architect-Keeps :
      (cs : Changeset) (arch a : Atom)
      → IsKeyed (seen cs)
      → lookup_atom cs ctx.state ctx.architect_pk ≡ some arch
      → a.public_key ≡ arch.public_key
      → a.nonce ≡ arch.nonce
      → Keeps (seen cs) (seen (Changeset.insert ctx.architect_pk a cs))
  architect-Keeps cs arch a keyed found own same_nonce =
      let (arch_is_k, word) = keyed ctx.architect_pk arch found in
      insert-Keeps ctx.state cs ctx.architect_pk a keyed (own ∙ arch_is_k) (omega arith)
        (λ b e. ground arith)

  collect_tax-Keeps :
      (tax : ℕ) (cs : Changeset)
      → IsKeyed (seen cs)
      → Keeps (seen cs) (seen (collect_tax ctx tax cs))
  unfolding collect_tax
  collect_tax-Keeps tax cs keyed = elim (Bool-cases (ltb 0 tax)) [
    | inl taxed ↦ elim (Option-cases (lookup_atom cs ctx.state ctx.architect_pk)) [
      | inl missing ↦ rw (taxed, missing) (Keeps-refl (seen cs) keyed)
      | inr (arch, found) ↦
          rw (taxed, found)
            (architect-Keeps cs arch (record arch { mass = saturating_add arch.mass tax }) keyed
              found refl refl)
    ]
    | inr free ↦ rw free (Keeps-refl (seen cs) keyed)
  ]

  generic_sender-Effect :
      (tax : ℕ) (cs : Changeset) (found : Option Atom) {cs' : Changeset}
      → IsKeyed (seen cs)
      → lookup_atom cs ctx.state rx.sender.public_key ≡ found
      → generic_sender ctx rx tax found cs ≡ ok cs'
      → Effect cs found cs'
  unfolding debited
  generic_sender-Effect tax cs none keyed look e =
      let (_, done) = generic_sender_new-eq-ok ctx rx tax cs e in
      rw done (
        insert-Keeps ctx.state cs rx.sender.public_key
          (record rx.sender { mass = 1_000_000_000; last_reaction_hash = rx.reaction_hash }) keyed
          refl words.0 (λ b f. ground arith))
  generic_sender-Effect tax cs (some old) keyed look e =
      let (_, done) = generic_sender-eq-ok ctx rx tax old cs e in
      let cost = to_u64_f32 rx.energy + tax in
      let (own, up) = debited_keeps cost rx old in
      rw done (debit-Effect cs old (debited cost rx old) keyed look own up)

  pub run_generic-Effect :
      (tax : ℕ) (cs : Changeset) (found : Option Atom) {cs' : Changeset}
      → IsKeyed (seen cs)
      → lookup_atom cs ctx.state rx.sender.public_key ≡ found
      → run_generic ctx rx tax found cs ≡ ok cs'
      → Effect cs found cs'
  unfolding run_generic
  run_generic-Effect tax cs found {cs'} keyed look e =
      let finish = λ (c : Changeset). collect_tax ctx tax (generic_receiver ctx rx c) in
      let (cs1, paid, done) =
        >>=-eq-ok (generic_sender ctx rx tax found cs) (λ c. ok (finish c)) e in
      let first = generic_sender-Effect tax cs found keyed look paid in
      let second = generic_receiver-Keeps cs1 (Effect-to_Keeps cs cs1 found first).keyed in
      let third = collect_tax-Keeps tax (generic_receiver ctx rx cs1) second.keyed in
      subst (λ c. Effect cs found c) (ok_inj (finish cs1) cs' done)
        (Effect-Keeps cs cs1 (finish cs1) found first (
          Keeps-trans (seen cs1) (seen (generic_receiver ctx rx cs1)) (seen (finish cs1)) second
            third))

  pub run_contract-Effect :
      (h : Hashes) (code : Bytes) (cs : Changeset) (found : Option Atom) {cs' : Changeset}
      → IsKeyed (seen cs)
      → lookup_atom cs ctx.state rx.sender.public_key ≡ found
      → run_contract h rx code found cs ≡ ok cs'
      → Effect cs found cs'
  unfolding debited
  run_contract-Effect h code cs found {cs'} keyed look e =
      let (old, known, _, _, done) = run_contract-eq-ok h rx code found cs e in
      let cost = length code * 100 in
      let (own, up) = debited_keeps cost rx old in
      let charged = Changeset.insert old.public_key (debited cost rx old) cs in
      let kept = debit-Effect cs old (debited cost rx old) keyed (look ∙ known) own up in
      rw (known, done)
        (Effect-Keeps cs charged (Changeset.insert_contract (h.sha3 code) code charged) (some old)
          kept
          (rw (view-insert_contract ctx.state charged (h.sha3 code) code)
            (Keeps-refl (seen charged) kept.0.keyed)))
