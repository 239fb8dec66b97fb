-- ===== src/Vm/Pvm/Nonce.antt =====
-- Writing an account back: what it does to keys and nonces.
use primus_project.Base.{
  ℕ, ◌≤◌, ◌<◌, ◌≡◌, refl, sym, subst, ◌∙◌, some, arith, Option-cases, inl, inr,
}
use primus_project.Base.Ord.{same_iff, bytes_ord}
use primus_project.Machine.Word.{Bytes, u64_max, saturating_add}
use primus_project.Types.Atom.{Atom}
use primus_project.Types.Reaction.{SignedReaction}
use primus_project.Storage.Changeset
use primus_project.Storage.Changeset.{Changeset}
use primus_project.Vm.Context.{StateView, lookup_atom}
use primus_project.Vm.Evolution.{apply_decay}
use primus_project.Vm.Evolution.Laws.{evolve_keeps, apply_decay_keeps}
use primus_project.Vm.Pvm.{debited, aged, credited, or_else}
use primus_project.Vm.Pvm.View.{
  View, view, IsKeyed, Keeps, Keeps-trans, insert-Keeps, lookup_atom-insert,
}

-- `aged`, `credited` and `debited` keep the key; the first two keep the nonce, the last raises it.
pub aged_keeps :
    (i : ℕ) (a : Atom) → ((aged i a).public_key ≡ a.public_key) × ((aged i a).nonce ≡ a.nonce)
unfolding aged
aged_keeps i a = ground (arith, evolve_keeps (apply_decay a i).0, apply_decay_keeps a i)

pub credited_keeps :
    (i amount : ℕ) (a : Atom)
    → ((credited i amount a).public_key ≡ a.public_key) × ((credited i amount a).nonce ≡ a.nonce)
unfolding credited
credited_keeps i amount a =
    let b = (apply_decay a i).0 in
    ground (
      arith,
      evolve_keeps (record b { mass = saturating_add b.mass amount }),
      apply_decay_keeps a i,
    )

pub debited_keeps :
    (cost : ℕ) (rx : SignedReaction) (a : Atom)
    → ((debited cost rx a).public_key ≡ a.public_key)
      × ((debited cost rx a).nonce ≡ saturating_add a.nonce 1)
unfolding debited
debited_keeps cost rx a = (refl, refl)

-- From `f` to `g`, nothing is lost, and the account `k` has moved past the nonce `n`.
pub record Advances (f g : View) (k : Bytes) (n : ℕ) : Type 0 where
  pub keeps : Keeps f g
  pub passed : (b : Atom) × (g k ≡ some b) × (n < b.nonce)

pub Advances-Keeps :
    (f g h : View) (k : Bytes) (n : ℕ) → Advances f g k n → Keeps g h → Advances f h k n
Advances-Keeps f g h k n p q =
    let (b, eb, lb) = p.passed in
    let (c, ec, lc) = q.grow k b eb in
    record { keeps = Keeps-trans f g h p.keeps q; passed = (c, ec, omega arith) }

module _ (state : StateView) (cs : Changeset) (keyed : IsKeyed (view state cs)) where
  -- Writing back an account that was read at `k`, with a nonce that is not lower.
  pub write_back-Keeps :
      (k : Bytes) (a : Atom)
      → a.public_key ≡ k
      → a.nonce ≤ u64_max
      → ((b : Atom) → lookup_atom cs state k ≡ some b → b.nonce ≤ a.nonce)
      → Keeps (view state cs) (view state (Changeset.insert a.public_key a cs))
  write_back-Keeps k a is_k word fresh =
      insert-Keeps state cs a.public_key a keyed refl word
        (λ b e. fresh b (subst (λ j. lookup_atom cs state j ≡ some b) is_k e))

  -- The same, with the nonce one higher, or at the largest.
  pub insert-Keeps_bumped :
      (k : Bytes) (old a : Atom)
      → lookup_atom cs state k ≡ some old
      → a.public_key ≡ old.public_key
      → a.nonce ≡ saturating_add old.nonce 1
      → Keeps (view state cs) (view state (Changeset.insert a.public_key a cs))
  insert-Keeps_bumped k old a found own up =
      let (old_is_k, word) = keyed k old found in
      write_back-Keeps k a (own ∙ old_is_k) (omega arith) (λ b e. ground arith)

  -- Writing back an account with the next nonce, when there is one.
  pub insert-Advances :
      (k : Bytes) (old a : Atom)
      → lookup_atom cs state k ≡ some old
      → a.public_key ≡ old.public_key
      → a.nonce ≡ saturating_add old.nonce 1
      → old.nonce < u64_max
      → Advances (view state cs) (view state (Changeset.insert a.public_key a cs)) k old.nonce
  insert-Advances k old a found own up room =
      let is_k : a.public_key ≡ k = own ∙ (keyed k old found).0 in
      record {
        keeps = insert-Keeps_bumped k old a found own up;
        passed = (
          a,
          ground (
            arith,
            lookup_atom-insert state cs k a.public_key a,
            same_iff k a.public_key,
            sym is_k,
          ),
          omega arith,
        );
      }

  -- An account that is read, or made from `d` if there is none, and written back with its nonce.
  pub upsert-Keeps :
      (k : Bytes) (d a : Atom)
      → d.public_key ≡ k
      → d.nonce ≤ u64_max
      → let old = or_else (lookup_atom cs state k) d in
        a.public_key ≡ old.public_key
        → a.nonce ≡ old.nonce
        → Keeps (view state cs) (view state (Changeset.insert a.public_key a cs))
  upsert-Keeps k d a own word same_key same_nonce = elim (Option-cases (lookup_atom cs state k)) [
    | inl missing ↦ write_back-Keeps k a (ground arith) (ground arith) (λ b e. ground arith)
    | inr (old, found) ↦
        let (old_is_k, room) = keyed k old found in
        write_back-Keeps k a (ground arith) (ground arith) (λ b e. ground arith)
  ]
