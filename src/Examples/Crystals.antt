-- ===== src/Examples/Crystals.antt =====
-- Crystals, their proof of work, the chamber and the undo logs.
use primus_project.Base.{ℕ, ◌<◌, ◌≡◌, ◌≢◌, ◌↔◌, refl, true, List, [], ◌∷◌, take}
use Prim.Native.Nat.Ordering.{gt}
use primus_project.Base.Ord.{compare_bytes}
use primus_project.Machine.Word.{Bytes, le_bytes}
use primus_project.Types.Crypto.{Hashes}
use primus_project.Types.Physics.{encode}
use primus_project.Types.Payload.{transfer}
use primus_project.Types.Reaction.{SignedReaction}
use primus_project.Storage.Changeset
use primus_project.Storage.Changeset.{Changeset}
use primus_project.Core.Atom.{evolve as core_evolve, apply_decay as core_apply_decay}
use primus_project.Core.Atom.Agreement.{evolve-agree}
use primus_project.Vm.Evolution.{evolve, apply_decay}
use primus_project.Core.Crystal.{
  Crystal, new_crystal, density_input, calculate_density, calculate_target, check_proof_of_work,
  search_nonce,
}
use primus_project.Core.Crystal.Pow.{check_proof_of_work_iff, nonce_after, search_nonce_iff}
use primus_project.Core.State.{StateTree, new_state, get_atom, roll_back}
use primus_project.Core.State.Undo.{advance, history, get_atom-roll_back}
use primus_project.Core.Gravity.{GravityEngine}
use primus_project.Core.Chamber.{
  Libm, ReactionChamber, new_chamber, sort_by_mass, synthesize_with_gravity,
}
use primus_project.Core.Chamber.Sorting.{IsDescending}
use primus_project.Core.Chamber.Synthesis.{OnePerSender, LeftOf, synthesize_with_gravity_lem}
use primus_project.Examples.Data.{hashes, alice, bob, account, reaction}
use mathlib.Core.List.{Perm}

-- A hash of 32 bytes.
abbrev wide : Hashes
wide = record { sha3 = λ b. take 32 b; blake3 = λ b. take 32 b }

abbrev crystal : Crystal
crystal = new_crystal 1 (9 ∷ [])

-- Difficulty 1.0.
abbrev one : ℕ
one = 0x3f800000

check_proof_of_work_iff_example :
    (check_proof_of_work wide crystal 0 one ≡ true)
    ↔ (compare_bytes (calculate_density wide crystal) (calculate_target 0 one) ≢ gt)
unfolding calculate_density density_input le_bytes encode
check_proof_of_work_iff_example = check_proof_of_work_iff wide crystal 0 one refl

search_nonce_iff_example :
    ((search_nonce wide 0 one 3 crystal).0 ≡ true)
    ↔ ((k : ℕ) × (k < 3) × (check_proof_of_work wide (nonce_after k crystal) 0 one ≡ true))
search_nonce_iff_example = search_nonce_iff wide 0 one 3 crystal

abbrev two_crystals : List (Bytes × Changeset)
two_crystals =
    ([], Changeset.insert alice (account alice 900 4) Changeset.new)
    ∷ ([], Changeset.insert bob (account bob 150 0) Changeset.new)
    ∷ []

abbrev tree : StateTree
tree = record new_state { atoms = (alice, account alice 1000 3) ∷ [] }

get_atom-roll_back_example :
    get_atom alice (roll_back (history 1 two_crystals tree) (advance two_crystals tree))
    ≡ get_atom alice tree
get_atom-roll_back_example = get_atom-roll_back alice 1 two_crystals tree

evolve-agree_example :
    (core_evolve (account alice 4000 3) ≡ evolve (account alice 4000 3))
    × (core_apply_decay 200 (account alice 4000 3) ≡ apply_decay (account alice 4000 3) 200)
evolve-agree_example = evolve-agree (account alice 4000 3) 200

abbrev libm : Libm
libm = record { sqrt = λ x. x; ln_1p = λ x. x }

abbrev gravity : GravityEngine
gravity = record { server_seed = 5 ∷ []; rtp = one }

abbrev full : ReactionChamber
full = record new_chamber {
  volatile_reactions = reaction (transfer 10) ∷ reaction (transfer 20) ∷ [];
}

abbrev drawn : List SignedReaction × ReactionChamber
drawn = synthesize_with_gravity hashes libm gravity (9 ∷ []) 1 full

synthesize_with_gravity_lem_example :
    OnePerSender [] drawn.0
    × LeftOf drawn.0 (sort_by_mass full.volatile_reactions)
    × Perm (sort_by_mass full.volatile_reactions) full.volatile_reactions
    × IsDescending (sort_by_mass full.volatile_reactions)
    × (drawn.1.volatile_reactions ≡ [])
synthesize_with_gravity_lem_example =
    synthesize_with_gravity_lem hashes libm gravity (9 ∷ []) 1 full
