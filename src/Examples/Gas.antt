-- ===== src/Examples/Gas.antt =====
-- Gas meters and atoms.
use primus_project.Base.{ℕ, ◌+◌, ◌≤◌, ◌<◌, ◌≡◌, ◌≢◌, ◌⊎◌, List, [], ◌∷◌, arith}
use primus_project.Base.Outcome.{ok}
use primus_project.Types.Atom.{Atom, initial_charge}
use primus_project.Vm.Gas.{GasMeter, remaining}
use primus_project.Vm.Gas.Bounds.{charge_all, sum, charge_all_lem}
use primus_project.Vm.Evolution.{evolve}
use primus_project.Vm.Evolution.Laws.{next, IsRipe, evolve_lem}
use primus_project.Examples.Data.{alice, account}

abbrev meter : GasMeter
meter = record { limit = 10_000; consumed = 100 }

abbrev costs : List ℕ
costs = 500 ∷ 5_000 ∷ []

charge_all_lem_example :
    (sum costs ≤ remaining meter
      → charge_all costs meter ≡ (ok tt, record meter { consumed = 100 + sum costs }))
    × (remaining meter < sum costs → (charge_all costs meter).0 ≢ ok tt)
charge_all_lem_example = charge_all_lem costs meter (omega arith) (omega arith)

abbrev ripe : Atom
ripe = account alice 5_000 0

evolve_lem_example :
    (IsRipe ripe.element ripe.mass
      × (evolve ripe ≡ record ripe {
        element = next ripe.element;
        charge = initial_charge (next ripe.element);
      }))
    ⊎ ((¬ IsRipe ripe.element ripe.mass) × (evolve ripe ≡ ripe))
evolve_lem_example = evolve_lem ripe
