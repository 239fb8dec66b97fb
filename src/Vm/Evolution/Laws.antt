-- ===== src/Vm/Evolution/Laws.antt =====
-- Decay loses mass, and evolution climbs one step at its threshold.
use primus_project.Base.{ℕ, ◌≤◌, ◌≡◌, ◌⊎◌, arith}
use primus_project.Types.Atom.{Atom, Element, hydrogen, carbon, oxygen, gold, initial_charge}
use primus_project.Vm.Evolution.{apply_decay, evolve, evolve_from}

abbrev pub next : Element → Element
next hydrogen = oxygen
next oxygen = carbon
next carbon = gold
next gold = gold

-- The mass at which an element gives way to the next; gold is the last.
abbrev pub IsRipe : Element → ℕ → Type 0
IsRipe hydrogen mass = 4000 ≤ mass
IsRipe oxygen mass = 6000 ≤ mass
IsRipe carbon mass = 50000 ≤ mass
IsRipe gold mass = ⊥

evolve_from_lem :
    (e : Element) (a : Atom)
    → (IsRipe e a.mass
        × (evolve_from e a ≡ record a { element = next e; charge = initial_charge (next e) }))
      ⊎ ((¬ IsRipe e a.mass) × (evolve_from e a ≡ a))
unfolding evolve_from initial_charge
evolve_from_lem hydrogen a = ground arith
evolve_from_lem oxygen a = ground arith
evolve_from_lem carbon a = ground arith
evolve_from_lem gold a = ground arith

-- `evolve` moves an atom to the next element, with that element's charge, exactly when its mass
-- has reached the threshold of its element, and otherwise leaves it alone.
pub evolve_lem :
    (a : Atom)
    → (IsRipe a.element a.mass
        × (evolve a
            ≡ record a { element = next a.element; charge = initial_charge (next a.element) }))
      ⊎ ((¬ IsRipe a.element a.mass) × (evolve a ≡ a))
unfolding evolve
evolve_lem a = evolve_from_lem a.element a

-- Evolution and decay keep the key, the nonce and the mass ledger.
pub evolve_keeps :
    (a : Atom)
    → ((evolve a).public_key ≡ a.public_key)
      × ((evolve a).nonce ≡ a.nonce)
      × ((evolve a).mass ≡ a.mass)
unfolding evolve
evolve_keeps a = ground (arith, evolve_lem a)

pub apply_decay_keeps :
    (a : Atom) (i : ℕ)
    → ((apply_decay a i).0.public_key ≡ a.public_key)
      × ((apply_decay a i).0.nonce ≡ a.nonce)
      × ((apply_decay a i).0.mass ≤ a.mass)
unfolding apply_decay
apply_decay_keeps a i = ground arith
