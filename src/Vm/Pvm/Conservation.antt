-- ===== src/Vm/Pvm/Conservation.antt =====
-- What a transfer does to the sum of all masses.
use primus_project.Base.{
  ℕ, ◌+◌, ◌-◌, ◌≤◌, ◌≡◌, refl, sym, subst, ◌∙◌, true, Option, none, some, List, arith, Bool-cases,
  Option-cases, inl, inr,
}
use primus_project.Base.Ord.{bytes_ord}
use primus_project.Base.Outcome.{ok}
use primus_project.Machine.Word.{Bytes, u64_max, saturating_add}
use primus_project.Machine.Float.{to_u64_f32}
use primus_project.Types.Atom.{Atom}
use primus_project.Types.Reaction.{SignedReaction}
use primus_project.Storage.Changeset.{Changeset}
use primus_project.Vm.Context.{ExecutionContext, lookup_atom}
use primus_project.Vm.Evolution.{apply_decay}
use primus_project.Vm.Evolution.Laws.{evolve_keeps, apply_decay_keeps}
use primus_project.Vm.Pvm.{
  debited, aged, credited, or_else, charge_sender, pay_receiver, run_transfer,
}
use primus_project.Vm.Pvm.Inversion.{run_transfer-eq-ok}
use primus_project.Vm.Pvm.View.{view, IsKeyed}
use primus_project.Vm.Pvm.Nonce.{aged_keeps, credited_keeps, debited_keeps}
use primus_project.Vm.Pvm.Effect.{HasU64Nonces, Effect-to_Keeps, charge_sender-Effect}
use primus_project.Vm.Pvm.Ledger.{
  mass_at, contains, IsDistinct, total, total-insert_in, total-insert_out,
}

aged_mass : (i : ℕ) (a : Atom) → (aged i a).mass ≤ a.mass
unfolding aged
aged_mass i a = ground (arith, evolve_keeps (apply_decay a i).0, apply_decay_keeps a i)

credited_mass : (i amount : ℕ) (a : Atom) → (credited i amount a).mass ≤ a.mass + amount
unfolding credited
credited_mass i amount a =
    let b = (apply_decay a i).0 in
    ground (
      arith,
      evolve_keeps (record b { mass = saturating_add b.mass amount }),
      apply_decay_keeps a i,
    )

debited_mass :
    (cost : ℕ) (rx : SignedReaction) (a : Atom) → (debited cost rx a).mass ≡ a.mass - cost
unfolding debited
debited_mass cost rx a = refl

or_else_key :
    (o : Option Atom) (d : Atom) (k : Bytes)
    → ((a : Atom) → o ≡ some a → (a.public_key ≡ k) × (a.nonce ≤ u64_max))
    → d.public_key ≡ k
    → (or_else o d).public_key ≡ k
or_else_key none d k keyed own = own
or_else_key (some a) d k keyed own = (keyed a refl).0

module _ (ctx : ExecutionContext) (rx : SignedReaction) where
  charge_sender-total :
      (cost : ℕ) (old : Atom) (cs : Changeset) (ks : List Bytes)
      → IsDistinct ks
      → contains old.public_key ks ≡ true
      → lookup_atom cs ctx.state old.public_key ≡ some old
      → cost ≤ old.mass
      → total (view ctx.state (charge_sender ctx rx cost old cs)) ks + cost
        ≤ total (view ctx.state cs) ks
  unfolding charge_sender
  charge_sender-total cost old cs ks distinct here found enough =
      let spent = debited cost rx old in
      let a = aged ctx.crystal_index spent in
      let own : a.public_key ≡ old.public_key =
        (aged_keeps ctx.crystal_index spent).0 ∙ (debited_keeps cost rx old).0 in
      ground (
        arith,
        total-insert_in ctx.state cs a.public_key a ks distinct,
        own,
        aged_mass ctx.crystal_index spent,
        debited_mass cost rx old,
      )

  pay_receiver-total :
      (amount : ℕ) (cs : Changeset) (ks : List Bytes)
      → IsDistinct ks
      → IsKeyed (view ctx.state cs)
      → total (view ctx.state (pay_receiver ctx rx amount cs)) ks
        ≤ total (view ctx.state cs) ks + amount
  unfolding pay_receiver
  pay_receiver-total amount cs ks distinct keyed =
      let k = rx.receiver.public_key in
      let b = or_else (lookup_atom cs ctx.state k) (record rx.receiver { mass = 0 }) in
      let key : b.public_key ≡ k =
        or_else_key (lookup_atom cs ctx.state k) (record rx.receiver { mass = 0 }) k (keyed k)
          refl in
      let a = credited ctx.crystal_index amount b in
      let own : a.public_key ≡ k = (credited_keeps ctx.crystal_index amount b).0 ∙ key in
      let was : b.mass ≡ mass_at (view ctx.state cs) k =
        ground (arith, Option-cases (lookup_atom cs ctx.state k)) in
      elim (Bool-cases (contains a.public_key ks)) [
        | inl here ↦ ground (
          arith,
          total-insert_in ctx.state cs a.public_key a ks distinct here,
          credited_mass ctx.crystal_index amount b,
          subst (λ j. b.mass ≡ mass_at (view ctx.state cs) j) (sym own) was,
        )
        | inr out ↦ omega (arith, total-insert_out ctx.state cs a.public_key a ks out)
      ]

  pub run_transfer-total :
      (words : HasU64Nonces rx) (amount : ℕ) (cs : Changeset) (ks : List Bytes) {cs' : Changeset}
      → IsKeyed (view ctx.state cs)
      → IsDistinct ks
      → contains rx.sender.public_key ks ≡ true
      → run_transfer ctx rx amount (lookup_atom cs ctx.state rx.sender.public_key) cs ≡ ok cs'
      → total (view ctx.state cs') ks + to_u64_f32 rx.energy ≤ total (view ctx.state cs) ks
  run_transfer-total words amount cs ks keyed distinct here e =
      let found = lookup_atom cs ctx.state rx.sender.public_key in
      let (old, is_old, enough, result) = run_transfer-eq-ok ctx rx amount found cs e in
      let cost = amount + to_u64_f32 rx.energy in
      let own : old.public_key ≡ rx.sender.public_key = (keyed rx.sender.public_key old is_old).0 in
      let charged = charge_sender ctx rx cost old cs in
      let kept =
        Effect-to_Keeps ctx rx words cs charged (some old)
          (charge_sender-Effect ctx rx words cost cs old keyed is_old) in
      let paid = pay_receiver-total amount charged ks distinct kept.keyed in
      let spent =
        charge_sender-total cost old cs ks distinct
          (subst (λ j. contains j ks ≡ true) (sym own) here)
          (subst (λ j. lookup_atom cs ctx.state j ≡ some old) (sym own) is_old) enough in
      subst (λ c. total (view ctx.state c) ks + to_u64_f32 rx.energy ≤ total (view ctx.state cs) ks)
        (sym result) (omega arith)
