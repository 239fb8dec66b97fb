-- ===== src/Vm/Pvm/Inversion.antt =====
-- What a payload that executes has checked, and the changeset that it leaves.
use primus_project.Base.{ℕ, ◌+◌, ◌*◌, ◌≤◌, ◌≡◌, Option, some, none, length, arith}
use primus_project.Base.Outcome.{ok}
use primus_project.Base.Ord.{same_iff, bytes_ord}
use primus_project.Machine.Word.{Bytes, saturating_add}
use primus_project.Machine.Float.{to_u64_f32}
use primus_project.Types.Crypto.{Hashes}
use primus_project.Types.Atom.{Atom}
use primus_project.Types.Reaction.{SignedReaction}
use primus_project.Storage.Changeset
use primus_project.Storage.Changeset.{Changeset}
use primus_project.Vm.Context.{ExecutionContext, lookup_atom}
use primus_project.Vm.Gas.{max_module_size_bytes}
use primus_project.Vm.Pvm.{
  debited, charge_sender, pay_receiver, run_transfer, generic_sender, run_contract, reward,
}

pub run_transfer-eq-ok :
    (ctx : ExecutionContext) (rx : SignedReaction) (amount : ℕ) (found : Option Atom)
    (cs : Changeset) {cs' : Changeset}
    → run_transfer ctx rx amount found cs ≡ ok cs'
    → (old : Atom) × (found ≡ some old)
      × (amount + to_u64_f32 rx.energy ≤ old.mass)
      × (cs'
          ≡ pay_receiver ctx rx amount
              (charge_sender ctx rx (amount + to_u64_f32 rx.energy) old cs))
unfolding run_transfer
run_transfer-eq-ok ctx rx amount found cs e = ground arith

pub run_contract-eq-ok :
    (h : Hashes) (rx : SignedReaction) (code : Bytes) (found : Option Atom) (cs : Changeset)
    {cs' : Changeset}
    → run_contract h rx code found cs ≡ ok cs'
    → (old : Atom) × (found ≡ some old)
      × (length code ≤ max_module_size_bytes)
      × (length code * 100 ≤ old.mass)
      × (cs'
          ≡ Changeset.insert_contract
              (h.sha3 code)
              code
              (Changeset.insert old.public_key (debited (length code * 100) rx old) cs))
unfolding run_contract debited
run_contract-eq-ok h rx code found cs e = ground arith

pub generic_sender-eq-ok :
    (ctx : ExecutionContext) (rx : SignedReaction) (tax : ℕ) (old : Atom) (cs : Changeset)
    {cs' : Changeset}
    → generic_sender ctx rx tax (some old) cs ≡ ok cs'
    → (to_u64_f32 rx.energy + tax ≤ old.mass)
      × (cs' ≡ Changeset.insert old.public_key (debited (to_u64_f32 rx.energy + tax) rx old) cs)
unfolding generic_sender
generic_sender-eq-ok ctx rx tax old cs e = ground arith

pub generic_sender_new-eq-ok :
    (ctx : ExecutionContext) (rx : SignedReaction) (tax : ℕ) (cs : Changeset) {cs' : Changeset}
    → generic_sender ctx rx tax none cs ≡ ok cs'
    → (rx.sender.public_key ≡ ctx.architect_pk)
      × (cs'
          ≡ Changeset.insert rx.sender.public_key
              (record rx.sender { mass = 1_000_000_000; last_reaction_hash = rx.reaction_hash })
              cs)
unfolding generic_sender
generic_sender_new-eq-ok ctx rx tax cs e =
    ground (arith, same_iff rx.sender.public_key ctx.architect_pk)

pub reward-eq-ok :
    (ctx : ExecutionContext) (rx : SignedReaction) (amount : ℕ) (cs : Changeset) {cs' : Changeset}
    → reward ctx rx amount cs ≡ ok cs'
    → (rx.receiver.public_key ≡ ctx.architect_pk)
      × ((arch : Atom) × (lookup_atom cs ctx.state ctx.architect_pk ≡ some arch)
          × (cs'
              ≡ Changeset.insert ctx.architect_pk
                  (record arch {
                    mass = saturating_add arch.mass amount;
                    last_reaction_hash = rx.reaction_hash;
                  })
                  cs))
unfolding reward
reward-eq-ok ctx rx amount cs e = ground (arith, same_iff rx.receiver.public_key ctx.architect_pk)
