-- ===== src/Vm/Dispatch/Apply.antt =====
-- Applying the transfers that a contract asked for.
use primus_project.Base.{
  ℕ, ◌+◌, ◌-◌, ◌≤◌, ◌<◌, ◌≡◌, ◌∙◌, refl, sym, subst, ap, true, Option, none, some, List, [], ◌∷◌,
  arith, Bool-cases, inl, inr, if◌then◌else◌,
}
use primus_project.Base.Outcome.{ok, ◌>>=◌}
use primus_project.Base.Ord.{same, same_iff, same_refl, bytes_ord}
use primus_project.Machine.Word.{Bytes, u64_max, saturating_add}
use primus_project.Types.Atom.{Atom, new_receiver, new_materialized}
use primus_project.Types.Reaction.{SignedReaction}
use primus_project.Storage.Changeset
use primus_project.Storage.Changeset.{Changeset}
use primus_project.Vm.Context.{StateView, ExecutionContext, lookup_atom}
use primus_project.Vm.Pvm.{or_else}
use primus_project.Vm.Pvm.View.{view, lookup_atom-insert}
use primus_project.Vm.Pvm.Ledger.{
  mass_at, mass_or_zero, contains, IsDistinct, total, total-insert_in, total-insert_out,
}
use primus_project.Vm.Host.{Transfer, Call, run_calls, empty_delta}
use primus_project.Vm.Host.Solvent.{AllFrom, spent, caller_mass, IsAllowed, run_calls-IsAllowed}
use primus_project.Vm.Dispatch.{apply_transfer, apply_transfers, host_state}

mass-or_else : (o : Option Atom) (k : Bytes) → (or_else o (new_receiver k)).mass ≡ mass_or_zero o
unfolding new_receiver new_materialized
mass-or_else none k = refl
mass-or_else (some a) k = refl

module _ (state : StateView) where
  -- Writing an account adds at most `x` to a total, if it adds at most `x` to the account.
  write-total_le :
      (cs : Changeset) (k : Bytes) (a : Atom) (x : ℕ) (ks : List Bytes)
      → IsDistinct ks
      → a.mass ≤ mass_at (view state cs) k + x
      → total (view state (Changeset.insert k a cs)) ks ≤ total (view state cs) ks + x
  write-total_le cs k a x ks distinct small = elim (Bool-cases (contains k ks)) [
    | inl here ↦ omega (arith, total-insert_in state cs k a ks distinct here)
    | inr out ↦ omega (arith, total-insert_out state cs k a ks out)
  ]

  mass_at-insert :
      (cs : Changeset) (j k : Bytes) (a : Atom)
      → mass_at (view state (Changeset.insert k a cs)) j
        ≡ (if same j k then a.mass else mass_at (view state cs) j)
  mass_at-insert cs j k a = ground (arith, lookup_atom-insert state cs j k a)

  abbrev debit : Transfer → Atom → Changeset → Changeset
  debit t sender cs = Changeset.insert t.from (record sender { mass = sender.mass - t.amount }) cs

  abbrev credit : Transfer → Changeset → Changeset
  credit t cs =
      let receiver = or_else (lookup_atom cs state t.to) (new_receiver t.to) in
      Changeset.insert t.to (record receiver { mass = saturating_add receiver.mass t.amount }) cs

  apply_transfer-eq-ok :
      (t : Transfer) (cs : Changeset) {cs' : Changeset}
      → apply_transfer state t cs ≡ ok cs'
      → (sender : Atom) × (lookup_atom cs state t.from ≡ some sender)
        × (t.amount ≤ sender.mass)
        × (cs' ≡ credit t (debit t sender cs))
  unfolding apply_transfer
  apply_transfer-eq-ok t cs e = ground arith

  apply_transfer-ok :
      (t : Transfer) (cs : Changeset) (sender : Atom)
      → lookup_atom cs state t.from ≡ some sender
      → t.amount ≤ sender.mass
      → apply_transfer state t cs ≡ ok (credit t (debit t sender cs))
  unfolding apply_transfer
  apply_transfer-ok t cs sender found enough = ground arith

  moved-total :
      (t : Transfer) (cs : Changeset) (sender : Atom) (ks : List Bytes)
      → IsDistinct ks
      → contains t.from ks ≡ true
      → lookup_atom cs state t.from ≡ some sender
      → t.amount ≤ sender.mass
      → total (view state (credit t (debit t sender cs))) ks ≤ total (view state cs) ks
  moved-total t cs sender ks distinct here found enough =
      let spent_cs = debit t sender cs in
      let receiver = or_else (lookup_atom spent_cs state t.to) (new_receiver t.to) in
      ground (
        arith,
        total-insert_in state cs t.from (record sender { mass = sender.mass - t.amount }) ks
            distinct here,
        write-total_le spent_cs t.to
            (record receiver { mass = saturating_add receiver.mass t.amount }) t.amount ks distinct,
        mass-or_else (lookup_atom spent_cs state t.to) t.to,
      )

  moved-mass :
      (t : Transfer) (cs : Changeset) (sender : Atom)
      → lookup_atom cs state t.from ≡ some sender
      → t.amount ≤ sender.mass
      → sender.mass ≤ u64_max
      → let left = mass_at (view state (credit t (debit t sender cs))) t.from in
        (sender.mass - t.amount ≤ left) × (left ≤ u64_max)
  moved-mass t cs sender found enough word =
      let spent_cs = debit t sender cs in
      let receiver = or_else (lookup_atom spent_cs state t.to) (new_receiver t.to) in
      ground (
        arith,
        mass_at-insert spent_cs t.from t.to
            (record receiver { mass = saturating_add receiver.mass t.amount }),
        mass_at-insert cs t.from t.from (record sender { mass = sender.mass - t.amount }),
        mass-or_else (lookup_atom spent_cs state t.to) t.to,
        same_refl t.from,
        same_iff t.from t.to,
      )

  apply_transfers-step :
      (t : Transfer) (ts : List Transfer) (cs next : Changeset)
      → apply_transfer state t cs ≡ ok next
      → apply_transfers state (t ∷ ts) cs ≡ apply_transfers state ts next
  unfolding apply_transfers
  apply_transfers-step t ts cs next e = ap (λ r. r >>= apply_transfers state ts) e

  found_of_mass :
      (o : Option Atom) → 0 < mass_or_zero o → (a : Atom) × (o ≡ some a) × (a.mass ≡ mass_or_zero o)
  found_of_mass none positive = absurd (omega arith)
  found_of_mass (some a) positive = (a, refl, refl)

  -- Transfers from one account that its mass covers all go through, and create no mass.
  pub apply_transfers-ok :
      (pk : Bytes) (ts : List Transfer) (cs : Changeset) (ks : List Bytes)
      → IsDistinct ks
      → contains pk ks ≡ true
      → AllFrom pk ts
      → spent ts ≤ mass_at (view state cs) pk
      → mass_at (view state cs) pk ≤ u64_max
      → (cs' : Changeset) × (apply_transfers state ts cs ≡ ok cs')
        × (total (view state cs') ks ≤ total (view state cs) ks)
  unfolding apply_transfers
  apply_transfers-ok pk [] cs ks distinct here own covered word = (cs, refl, omega arith)
  apply_transfers-ok pk (t ∷ ts) cs ks distinct here own covered word =
      let is_pk : pk ≡ t.from = sym own.0.0 in
      let (sender, found, mass) = found_of_mass (view state cs pk) (omega (arith, own.0.1)) in
      let found_from = subst (λ k. lookup_atom cs state k ≡ some sender) is_pk found in
      let enough : t.amount ≤ sender.mass = omega arith in
      let next = credit t (debit t sender cs) in
      let (left, room) =
        subst
          (λ k.
            (sender.mass - t.amount ≤ mass_at (view state next) k)
            × (mass_at (view state next) k ≤ u64_max))
          (sym is_pk) (moved-mass t cs sender found_from enough (omega arith)) in
      let first =
        moved-total t cs sender ks distinct (subst (λ k. contains k ks ≡ true) is_pk here)
          found_from enough in
      let (cs', ran, kept) =
        apply_transfers-ok pk ts next ks distinct here own.1 (omega arith) room in
      (
        cs',
        apply_transfers-step t ts cs next (apply_transfer-ok t cs sender found_from enough) ∙ ran,
        omega arith,
      )

-- Whatever a contract does, the transfers that its run asked for all go through, and create no
-- mass: they leave the sum of the masses of any distinct accounts that hold the caller at most as
-- it was. This is for a caller whose mass is a u64 and that no earlier reaction of the crystal has
-- changed.
pub run_calls-accepted :
    (ctx : ExecutionContext) (rx : SignedReaction) (calls : List (Option Bytes × Call))
    (cs : Changeset) (ks : List Bytes)
    → IsDistinct ks
    → contains rx.sender.public_key ks ≡ true
    → lookup_atom cs ctx.state rx.sender.public_key ≡ ctx.state.get_atom rx.sender.public_key
    → caller_mass (host_state ctx rx) ≤ u64_max
    → (cs' : Changeset) × (apply_transfers ctx.state
          (run_calls calls (host_state ctx rx)).delta.transfers
          cs
        ≡ ok cs')
      × (total (view ctx.state cs') ks ≤ total (view ctx.state cs) ks)
unfolding host_state
run_calls-accepted ctx rx calls cs ks distinct here untouched word =
    let start : IsAllowed ctx.state rx.sender.public_key empty_delta = record {
      own = tt;
      within = omega arith;
      few = omega arith;
      small = tt;
    } in
    let allowed = run_calls-IsAllowed calls (host_state ctx rx) start word in
    let now = sym untouched in
    let asked = (run_calls calls (host_state ctx rx)).delta.transfers in
    apply_transfers-ok ctx.state rx.sender.public_key asked cs ks distinct here allowed.own
      (subst (λ o. spent asked ≤ mass_or_zero o) now allowed.within)
      (subst (λ o. mass_or_zero o ≤ u64_max) now word)
