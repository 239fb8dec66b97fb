-- ===== src/Core/Chamber/Sorting.antt =====
-- The reactions by the mass of their senders, heaviest first.
use primus_project.Base.{ℕ, ◌≤◌, List, [], ◌∷◌, arith, leb, Bool-cases, inl, inr}
use mathlib.Core.List.Perm
use mathlib.Core.List.{Perm}
use primus_project.Types.Reaction.{SignedReaction}
use primus_project.Core.Chamber.{insert_by_mass, sort_by_mass}

-- No sender is heavier than `bound`, and none heavier than the one before it.
abbrev pub Descends : ℕ → List SignedReaction → Type 0
Descends bound [] = Unit
Descends bound (rx ∷ rxs) = (rx.sender.mass ≤ bound) × Descends rx.sender.mass rxs

abbrev pub IsDescending : List SignedReaction → Type 0
IsDescending [] = Unit
IsDescending (rx ∷ rxs) = Descends rx.sender.mass rxs

insert_by_mass-Descends :
    (bound : ℕ) (rx : SignedReaction) (rs : List SignedReaction)
    → rx.sender.mass ≤ bound
    → Descends bound rs
    → Descends bound (insert_by_mass rx rs)
unfolding insert_by_mass
insert_by_mass-Descends bound rx [] small d = (small, tt)
insert_by_mass-Descends bound rx (r ∷ rs) small d =
    ground (arith, small, d.0, d.1, insert_by_mass-Descends r.sender.mass rx rs)

insert_by_mass-IsDescending :
    (rx : SignedReaction) (rs : List SignedReaction)
    → IsDescending rs
    → IsDescending (insert_by_mass rx rs)
unfolding insert_by_mass
insert_by_mass-IsDescending rx [] d = tt
insert_by_mass-IsDescending rx (r ∷ rs) d =
    ground (arith, d, insert_by_mass-Descends r.sender.mass rx rs)

pub sort_by_mass-IsDescending : (rxs : List SignedReaction) → IsDescending (sort_by_mass rxs)
unfolding sort_by_mass
sort_by_mass-IsDescending [] = tt
sort_by_mass-IsDescending (rx ∷ rxs) =
    insert_by_mass-IsDescending rx (sort_by_mass rxs) (sort_by_mass-IsDescending rxs)

insert_by_mass-perm :
    (rx : SignedReaction) (rs : List SignedReaction) → Perm (insert_by_mass rx rs) (rx ∷ rs)
unfolding insert_by_mass
insert_by_mass-perm rx [] = Perm.refl (rx ∷ [])
insert_by_mass-perm rx (r ∷ rs) = elim (Bool-cases (leb r.sender.mass rx.sender.mass)) [
  | inl before ↦ rw before (Perm.refl (rx ∷ r ∷ rs))
  | inr after ↦ rw after (Perm.trans (Perm.cons r (insert_by_mass-perm rx rs)) (Perm.swap rx r rs))
]

pub sort_by_mass-perm : (rxs : List SignedReaction) → Perm (sort_by_mass rxs) rxs
unfolding sort_by_mass
sort_by_mass-perm [] = Perm.refl []
sort_by_mass-perm (rx ∷ rxs) =
    Perm.trans (insert_by_mass-perm rx (sort_by_mass rxs)) (Perm.cons rx (sort_by_mass-perm rxs))
