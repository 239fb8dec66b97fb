-- ===== src/Core/Atom/Agreement.antt =====
-- primus-core and primus-vm each define decay and evolution: the two agree.
use primus_project.Base.{ℕ, ◌≡◌, arith}
use primus_project.Types.Atom.{Atom}
use primus_project.Core.Atom.{
  evolve as core_evolve, apply_decay as core_apply_decay, decay_amount as core_decay_amount,
}
use primus_project.Vm.Evolution.{evolve, apply_decay, decay_amount}

-- The atom methods of primus-core and the functions of primus-vm age and evolve every atom alike.
pub evolve-agree :
    (a : Atom) (current_index : ℕ)
    → (core_evolve a ≡ evolve a) × (core_apply_decay current_index a ≡ apply_decay a current_index)
unfolding core_evolve evolve core_apply_decay apply_decay core_decay_amount decay_amount
evolve-agree a current_index = ground arith
