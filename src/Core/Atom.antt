-- ===== src/Core/Atom.antt =====
-- primus-core/src/atom.rs: the extension methods of atoms. Printing is left out.
pub mod Agreement
use package.primus_project.Base.{ℕ, ◌+◌, ◌*◌, ◌%◌, ◌^◌, ◌==◌, leb, ltb, if◌then◌else◌}
use package.primus_project.Machine.Word.{Bytes, saturating_sub}
use package.primus_project.Machine.Float.{F32, add_f32, mul_f32, of_u64_f32, to_u64_f32}
use package.primus_project.Types.Atom.{Atom, Element, hydrogen, carbon, oxygen, gold}

-- 0.95, 0.80, 0.70 and 0.40.
unfoldable pub efficiency : Element → F32
efficiency hydrogen = 0x3f733333
efficiency carbon = 0x3f4ccccd
efficiency oxygen = 0x3f333333
efficiency gold = 0x3ecccccd

evolve_by : Element → Atom → Atom
evolve_by hydrogen a =
    if leb 4000 a.mass then record a { element = oxygen; charge = 0x405c28f6 } else a
evolve_by oxygen a =
    if leb 6000 a.mass then record a { element = carbon; charge = 0x40233333 } else a
evolve_by carbon a =
    if leb 50000 a.mass then record a { element = gold; charge = 0x40228f5c } else a
evolve_by gold a = a

unfoldable pub evolve : Atom → Atom
unfolding evolve_by
evolve a = evolve_by a.element a

-- `mass += gained` does not saturate: in a release build it wraps around.
unfoldable pub absorb_decay : ℕ → Atom → Atom
absorb_decay scattered_mass a =
    let gained_mass = to_u64_f32 (mul_f32 (of_u64_f32 scattered_mass) (efficiency a.element)) in
    if scattered_mass == 0 then a else evolve (record a { mass = (a.mass + gained_mass) % 2 ^ 64 })

-- 1.0, 4.5, 6.0 and 25.0.
unfoldable pub base_binding : Element → F32
base_binding hydrogen = 0x3f800000
base_binding carbon = 0x40900000
base_binding oxygen = 0x40c00000
base_binding gold = 0x41c80000

-- base + neutron_count as f32 * 1.8.
unfoldable pub get_binding_potential : Atom → F32
get_binding_potential a =
    add_f32 (base_binding a.element) (mul_f32 (of_u64_f32 a.neutron_count) 0x3fe66666)

-- 1.0, 2.5, 1.8 and 10.0 + neutron_count as f32 * 0.5.
viscosity_of : Element → ℕ → F32
viscosity_of hydrogen n = 0x3f800000
viscosity_of carbon n = 0x40200000
viscosity_of oxygen n = 0x3fe66666
viscosity_of gold n = add_f32 0x41200000 (mul_f32 (of_u64_f32 n) 0x3f000000)

unfoldable pub get_viscosity_factor : Atom → F32
unfolding viscosity_of
get_viscosity_factor a = viscosity_of a.element a.neutron_count

-- (mass as f32 * (0.001 + neutron_count as f32 * 0.0005)) as u64.
unfoldable pub decay_amount : Atom → ℕ
decay_amount a = to_u64_f32 (
    mul_f32 (of_u64_f32 a.mass)
      (add_f32 0x3a83126f (mul_f32 (of_u64_f32 a.neutron_count) 0x3a03126f)))

-- Returns the atom and the decayed amount.
unfoldable pub apply_decay : ℕ → Atom → Atom × ℕ
apply_decay current_index a =
    let age = saturating_sub current_index a.last_active_index in
    let stability_threshold = saturating_sub 100 (a.neutron_count * 5) in
    let amount = decay_amount a in
    if ltb stability_threshold age
    then (if ltb 0 amount
        then (record a { mass = saturating_sub a.mass amount }, amount)
        else (a, 0))
    else (a, 0)
