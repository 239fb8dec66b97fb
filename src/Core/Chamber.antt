-- ===== src/Core/Chamber.antt =====
-- primus-core/src/chamber.rs. The square root and the logarithm of the platform are parameters.
pub mod Sorting
pub mod Synthesis
use package.primus_project.Base.{
  ℕ, zero, suc, ◌+◌, ◌-◌, ◌%◌, Bool, true, false, not, ◌&&◌, ◌||◌, List, [], ◌∷◌, ◌++◌, ltb, leb,
  if◌then◌else◌, length,
}
use package.primus_project.Base.Ord.{same, bytes_ord}
use package.primus_project.Machine.Word.{Bytes}
use package.primus_project.Machine.Float.{
  F32, add_f32, sub_f32, mul_f32, div_f32, max_f32, min_f32, lt_f32, of_u64_f32,
}
use package.primus_project.Types.Crypto.{Hashes}
use package.primus_project.Types.Reaction.{SignedReaction}
use package.primus_project.Core.Atom.{get_viscosity_factor, get_binding_potential}
use package.primus_project.Core.Gravity.{GravityEngine, generate_roll}
use package.primus_project.Core.Crystal.{Crystal}

-- `f32::sqrt` and `f32::ln_1p`.
pub record Libm : Type 0 where
  pub sqrt : F32 → F32
  pub ln_1p : F32 → F32

pub record ReactionChamber : Type 0 where
  pub volatile_reactions : List SignedReaction
  pub temperature : F32
  pub entropy : F32
  pub expansion_factor : F32
  pub total_binding_energy : F32
  pub base_difficulty : F32

-- 1.0.
abbrev one : F32
one = 0x3f800000

abbrev pub new_chamber : ReactionChamber
new_chamber = record {
  volatile_reactions = [];
  temperature = 0;
  entropy = 0;
  expansion_factor = one;
  total_binding_energy = 0;
  base_difficulty = one;
}

-- The expansion that a crystal of this energy leaves: 50.0, 0.0001, 0.05 and 1.10.
unfoldable pub inherited_expansion : F32 → F32 → F32
inherited_expansion energy now =
    if lt_f32 0x42480000 energy
    then max_f32 (sub_f32 0x3f8ccccd (min_f32 (mul_f32 energy 0x38d1b717) 0x3d4ccccd)) one
    else now

-- 0.7, 0.4 and 0.01.
unfoldable pub inherit_history : Crystal → ReactionChamber → ReactionChamber
inherit_history last c =
    let temperature = mul_f32 last.final_temp 0x3f333333 in
    record c {
      temperature = temperature;
      entropy = mul_f32 last.final_entropy 0x3ecccccd;
      expansion_factor = inherited_expansion last.cumulative_energy c.expansion_factor;
      base_difficulty = add_f32 one (mul_f32 temperature 0x3c23d70a);
    }

unfoldable pub inject_reaction : SignedReaction → ReactionChamber → ReactionChamber
inject_reaction reaction c = record c { volatile_reactions = c.volatile_reactions ++ reaction ∷ [] }

unfoldable pub inject_all : List SignedReaction → ReactionChamber → ReactionChamber
inject_all [] c = c
inject_all (rx ∷ rxs) c = inject_all rxs (inject_reaction rx c)

abbrev sum_viscosity : F32 → List SignedReaction → F32
sum_viscosity acc [] = acc
sum_viscosity acc (rx ∷ rxs) = sum_viscosity (add_f32 acc (get_viscosity_factor rx.sender)) rxs

unfoldable pub tension_of : Libm → List SignedReaction → F32 → F32
tension_of libm cluster temperature =
    let count = of_u64_f32 (length cluster) in
    div_f32 (mul_f32 (libm.sqrt count) (div_f32 (sum_viscosity 0 cluster) count))
      (add_f32 temperature one)

unfoldable pub calculate_surface_tension : Libm → List SignedReaction → ReactionChamber → F32
calculate_surface_tension libm [] c = 0
calculate_surface_tension libm (rx ∷ rxs) c = tension_of libm (rx ∷ rxs) c.temperature

-- 0.15 and 1.5.
unfoldable pub calibrate_thermodynamics : Libm → ReactionChamber → ReactionChamber
calibrate_thermodynamics libm c =
    let incremental_temp =
      mul_f32 (mul_f32 (of_u64_f32 (length c.volatile_reactions)) 0x3e19999a) c.base_difficulty in
    let temperature = add_f32 c.temperature incremental_temp in
    record c {
      temperature = temperature;
      entropy = libm.ln_1p (mul_f32 (mul_f32 temperature 0x3fc00000) c.expansion_factor);
    }

-- `sort_by(|a, b| b.sender.mass.cmp(&a.sender.mass))`, which is stable.
unfoldable pub insert_by_mass : SignedReaction → List SignedReaction → List SignedReaction
insert_by_mass rx [] = rx ∷ []
insert_by_mass rx (r ∷ rs) =
    if leb r.sender.mass rx.sender.mass then rx ∷ r ∷ rs else r ∷ insert_by_mass rx rs

unfoldable pub sort_by_mass : List SignedReaction → List SignedReaction
sort_by_mass [] = []
sort_by_mass (rx ∷ rxs) = insert_by_mass rx (sort_by_mass rxs)

abbrev pub is_locked : Bytes → List Bytes → Bool
is_locked key [] = false
is_locked key (l ∷ locks) = same key l || is_locked key locks

-- What one synthesis reads and does not change.
pub record SynthesisContext : Type 0 where
  pub gravity : GravityEngine
  pub prev_hash : Bytes
  pub crystal_index : ℕ
  pub total_count : ℕ
  pub tension : F32
  pub entropy : F32
  pub base_difficulty : F32

-- 1000.0 and 0.1.
unfoldable pub evaporates : Hashes → SynthesisContext → ℕ → SignedReaction → Bool
evaporates h y index rx =
    let relative_radius = div_f32 (of_u64_f32 index) (of_u64_f32 y.total_count) in
    let roll =
      generate_roll h y.gravity rx.sender.public_key rx.sender.nonce y.prev_hash y.crystal_index in
    let roll_factor = div_f32 (of_u64_f32 (roll % 1000)) 0x447a0000 in
    let radius_penalty = mul_f32 (add_f32 one relative_radius) y.base_difficulty in
    let stability_threshold =
      mul_f32 (div_f32 0x3dcccccd (add_f32 y.tension 0x3dcccccd)) radius_penalty in
    lt_f32 0x3f99999a y.entropy && lt_f32 roll_factor stability_threshold

-- The loop over the reactions: what stays, and the binding energy. Only a reaction that stays locks
-- its sender.
unfoldable pub settle_cluster :
    Hashes
    → SynthesisContext
    → ℕ
    → List Bytes
    → F32
    → List SignedReaction
    → List SignedReaction × F32
settle_cluster h y index locks energy [] = ([], energy)
settle_cluster h y index locks energy (rx ∷ rxs) =
    let skipped = settle_cluster h y (suc index) locks energy rxs in
    let (kept, energy') =
      settle_cluster h y (suc index) (rx.sender.public_key ∷ locks)
        (add_f32 energy (get_binding_potential rx.sender)) rxs in
    if is_locked rx.sender.public_key locks || evaporates h y index rx
    then skipped
    else (rx ∷ kept, energy')

-- 0.001, 0.08, 0.03 and 0.01.
unfoldable pub synthesize_with_gravity :
    Hashes
    → Libm
    → GravityEngine
    → Bytes
    → ℕ
    → ReactionChamber
    → List SignedReaction × ReactionChamber
synthesize_with_gravity h libm gravity prev_hash crystal_index c =
    let hot = calibrate_thermodynamics libm c in
    let sorted = sort_by_mass hot.volatile_reactions in
    let y : SynthesisContext = record {
      gravity = gravity;
      prev_hash = prev_hash;
      crystal_index = crystal_index;
      total_count = length sorted;
      tension = calculate_surface_tension libm sorted hot;
      entropy = hot.entropy;
      base_difficulty = hot.base_difficulty;
    } in
    let (cluster, energy) = settle_cluster h y 0 [] 0 sorted in
    let compression = min_f32 (mul_f32 energy 0x3a83126f) 0x3da3d70a in
    (
      cluster,
      record hot {
        volatile_reactions = [];
        total_binding_energy = energy;
        expansion_factor = max_f32 (sub_f32 hot.expansion_factor compression) one;
        temperature = add_f32 hot.temperature (mul_f32 energy 0x3cf5c28f);
        entropy = add_f32 hot.entropy (mul_f32 energy 0x3c23d70a);
      },
    )

unfoldable pub update_expansion : F32 → ReactionChamber → ReactionChamber
update_expansion new_factor c = record c { expansion_factor = new_factor }
