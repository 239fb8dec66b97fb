-- ===== src/Vm/Evolution.antt =====
-- `apply_decay` and `evolve` of primus-vm/src/pvm.rs.
pub mod Laws
use package.primus_project.Base.{ℕ, ◌*◌, ltb, leb, if◌then◌else◌}
use package.primus_project.Machine.Word.{saturating_sub}
use package.primus_project.Machine.Float.{add_f32, mul_f32, of_u64_f32, to_u64_f32}
use package.primus_project.Types.Atom.{Atom, Element, hydrogen, carbon, oxygen, gold}

-- (mass as f32 * (0.001 + neutron_count as f32 * 0.0005)) as u64.
unfoldable pub decay_amount : Atom → ℕ
decay_amount a = to_u64_f32 (
    mul_f32 (of_u64_f32 a.mass)
      (add_f32 0x3a83126f (mul_f32 (of_u64_f32 a.neutron_count) 0x3a03126f)))

-- Returns the atom and the decayed amount.
unfoldable pub apply_decay : Atom → ℕ → Atom × ℕ
apply_decay a current_index =
    let age = saturating_sub current_index a.last_active_index in
    let stability_threshold = saturating_sub 100 (a.neutron_count * 5) in
    let amount = decay_amount a in
    if ltb stability_threshold age
    then (if ltb 0 amount
        then (record a { mass = saturating_sub a.mass amount }, amount)
        else (a, 0))
    else (a, 0)

evolve_from : Element → Atom → Atom
evolve_from hydrogen a =
    if leb 4000 a.mass then record a { element = oxygen; charge = 0x405c28f6 } else a
evolve_from oxygen a =
    if leb 6000 a.mass then record a { element = carbon; charge = 0x40233333 } else a
evolve_from carbon a =
    if leb 50000 a.mass then record a { element = gold; charge = 0x40228f5c } else a
evolve_from gold a = a

unfoldable pub evolve : Atom → Atom
unfolding evolve_from
evolve a = evolve_from a.element a
