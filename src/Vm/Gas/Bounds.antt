-- ===== src/Vm/Gas/Bounds.antt =====
-- That a run of charges never exceeds them.
use primus_project.Base.{
  ℕ, ◌+◌, ◌≤◌, ◌<◌, ◌≡◌, ◌≢◌, List, [], ◌∷◌, arith, leb, leb→le, Bool-cases, inl, inr,
}
use primus_project.Base.Outcome.{Result, ok, err}
use primus_project.Machine.Word.{u64_max}
use primus_project.Vm.Error.{PvmError}
use primus_project.Vm.Gas.{GasMeter, charge, remaining}

-- The charges of an invocation, one host call after another, until one of them fails.
pub charge_all : List ℕ → GasMeter → Result PvmError (Unit {0}) × GasMeter
charge_all [] g = (ok tt, g)
charge_all (cost ∷ rest) g = elim ((charge cost g).0) [
  | ok _ ↦ charge_all rest (charge cost g).1
  | err e ↦ charge cost g
]

abbrev pub sum : List ℕ → ℕ
sum [] = 0
sum (cost ∷ rest) = cost + sum rest

-- A charge succeeds exactly when it fits.
charge_fits :
    (cost : ℕ) (g : GasMeter)
    → g.limit ≤ u64_max
    → g.consumed + cost ≤ g.limit
    → charge cost g ≡ (ok tt, record g { consumed = g.consumed + cost })
unfolding charge
charge_fits cost g u h = ground arith

charge_over : (cost : ℕ) (g : GasMeter) → g.limit < g.consumed + cost → (charge cost g).0 ≢ ok tt
unfolding charge
charge_over cost g h = ground arith

charge_all_over :
    (cost : ℕ) (rest : List ℕ) (g : GasMeter)
    → (charge cost g).0 ≢ ok tt
    → (charge_all (cost ∷ rest) g).0 ≢ ok tt
unfolding charge_all
charge_all_over cost rest g h = ground arith

-- A run of charges whose sum fits in what remains succeeds, and the meter has used that sum more;
-- any other run fails. The limit is a u64 that was not passed before.
pub charge_all_lem :
    (costs : List ℕ) (g : GasMeter)
    → g.consumed ≤ g.limit
    → g.limit ≤ u64_max
    → (sum costs ≤ remaining g
        → charge_all costs g ≡ (ok tt, record g { consumed = g.consumed + sum costs }))
      × (remaining g < sum costs → (charge_all costs g).0 ≢ ok tt)
unfolding charge_all remaining
charge_all_lem [] g h u = (λ _. ground arith, λ p. absurd (omega arith))
charge_all_lem (cost ∷ rest) g h u = elim (Bool-cases (leb (g.consumed + cost) g.limit)) [
  | inl fits ↦
      let room = leb→le (g.consumed + cost) g.limit fits in
      let step = charge_fits cost g u room in
      let later = charge_all_lem rest (record g { consumed = g.consumed + cost }) room u in
      (λ p. ground (arith, later, step), λ p. ground (arith, later, step))
  | inr over ↦
      (λ p. ground arith, λ p. charge_all_over cost rest g (charge_over cost g (ground arith)))
]
