-- ===== src/Core/Chamber/Synthesis.antt =====
-- The reactions that a synthesis lets through.
use primus_project.Base.{
  ℕ, suc, ◌≡◌, refl, sym, subst, true, false, ◌||◌, List, [], ◌∷◌, arith, Bool-cases, inl, inr,
}
use primus_project.Base.Ord.{bytes_ord}
use primus_project.Machine.Word.{Bytes}
use primus_project.Machine.Float.{F32, add_f32}
use primus_project.Types.Crypto.{Hashes}
use primus_project.Types.Reaction.{SignedReaction}
use primus_project.Core.Atom.{get_binding_potential}
use primus_project.Core.Gravity.{GravityEngine}
use primus_project.Core.Chamber.{
  Libm, ReactionChamber, SynthesisContext, is_locked, evaporates, settle_cluster,
  synthesize_with_gravity, sort_by_mass, calibrate_thermodynamics,
}
use primus_project.Core.Chamber.Sorting.{IsDescending, sort_by_mass-IsDescending, sort_by_mass-perm}
use mathlib.Core.List.{Perm}

-- No reaction of the list has a sender among `locks`, or the sender of one before it.
abbrev pub OnePerSender : List Bytes → List SignedReaction → Type 0
OnePerSender locks [] = Unit
OnePerSender locks (rx ∷ rxs) =
    (is_locked rx.sender.public_key locks ≡ false) × OnePerSender (rx.sender.public_key ∷ locks) rxs

-- `kept` is what is left of `rxs` when some are dropped.
pub data LeftOf : List SignedReaction → List SignedReaction → Type 0 where
  nothing : LeftOf [] []
  dropped :
      {kept rxs : List SignedReaction} (rx : SignedReaction)
      → LeftOf kept rxs
      → LeftOf kept (rx ∷ rxs)
  stays :
      {kept rxs : List SignedReaction} (rx : SignedReaction)
      → LeftOf kept rxs
      → LeftOf (rx ∷ kept) (rx ∷ rxs)

module _ (h : Hashes) (y : SynthesisContext) where
  settle_cluster-kept :
      (index : ℕ) (locks : List Bytes) (energy : F32) (rx : SignedReaction)
      (rxs : List SignedReaction)
      → is_locked rx.sender.public_key locks || evaporates h y index rx ≡ false
      → (settle_cluster h y index locks energy (rx ∷ rxs)).0
        ≡ rx
          ∷ (settle_cluster h y
              (suc index)
              (rx.sender.public_key ∷ locks)
              (add_f32 energy (get_binding_potential rx.sender))
              rxs).0
  unfolding settle_cluster
  settle_cluster-kept index locks energy rx rxs e = rw e

  settle_cluster-skipped :
      (index : ℕ) (locks : List Bytes) (energy : F32) (rx : SignedReaction)
      (rxs : List SignedReaction)
      → is_locked rx.sender.public_key locks || evaporates h y index rx ≡ true
      → (settle_cluster h y index locks energy (rx ∷ rxs)).0
        ≡ (settle_cluster h y (suc index) locks energy rxs).0
  unfolding settle_cluster
  settle_cluster-skipped index locks energy rx rxs e = rw e

  settle_cluster-OnePerSender :
      (index : ℕ) (locks : List Bytes) (energy : F32) (rxs : List SignedReaction)
      → OnePerSender locks (settle_cluster h y index locks energy rxs).0
  unfolding settle_cluster
  settle_cluster-OnePerSender index locks energy [] = tt
  settle_cluster-OnePerSender index locks energy (rx ∷ rxs) =
      elim (Bool-cases (is_locked rx.sender.public_key locks || evaporates h y index rx)) [
        | inl out ↦
            subst (OnePerSender locks) (sym (settle_cluster-skipped index locks energy rx rxs out))
              (settle_cluster-OnePerSender (suc index) locks energy rxs)
        | inr kept ↦
            subst (OnePerSender locks) (sym (settle_cluster-kept index locks energy rx rxs kept)) (
              ground (arith, kept),
              settle_cluster-OnePerSender (suc index) (rx.sender.public_key ∷ locks)
                  (add_f32 energy (get_binding_potential rx.sender)) rxs,
            )
      ]

  settle_cluster-LeftOf :
      (index : ℕ) (locks : List Bytes) (energy : F32) (rxs : List SignedReaction)
      → LeftOf (settle_cluster h y index locks energy rxs).0 rxs
  unfolding settle_cluster
  settle_cluster-LeftOf index locks energy [] = nothing
  settle_cluster-LeftOf index locks energy (rx ∷ rxs) =
      elim (Bool-cases (is_locked rx.sender.public_key locks || evaporates h y index rx)) [
        | inl out ↦
            subst (λ kept. LeftOf kept (rx ∷ rxs))
              (sym (settle_cluster-skipped index locks energy rx rxs out))
              (dropped rx (settle_cluster-LeftOf (suc index) locks energy rxs))
        | inr kept ↦
            subst (λ kept. LeftOf kept (rx ∷ rxs))
              (sym (settle_cluster-kept index locks energy rx rxs kept))
              (stays rx (
                settle_cluster-LeftOf (suc index) (rx.sender.public_key ∷ locks)
                  (add_f32 energy (get_binding_potential rx.sender)) rxs))
      ]

-- The candidates of a crystal have different senders, and they are what is left of the chamber's
-- reactions, heaviest sender first, when some are dropped. The chamber is empty afterwards.
pub synthesize_with_gravity_lem :
    (h : Hashes) (libm : Libm) (gravity : GravityEngine) (prev_hash : Bytes) (crystal_index : ℕ)
    (c : ReactionChamber)
    → OnePerSender [] (synthesize_with_gravity h libm gravity prev_hash crystal_index c).0
      × LeftOf
          (synthesize_with_gravity h libm gravity prev_hash crystal_index c).0
          (sort_by_mass c.volatile_reactions)
      × Perm (sort_by_mass c.volatile_reactions) c.volatile_reactions
      × IsDescending (sort_by_mass c.volatile_reactions)
      × ((synthesize_with_gravity h libm gravity prev_hash crystal_index c).1.volatile_reactions
          ≡ [])
unfolding synthesize_with_gravity calibrate_thermodynamics
synthesize_with_gravity_lem h libm gravity prev_hash crystal_index c = (
  settle_cluster-OnePerSender h _ 0 [] 0 (sort_by_mass c.volatile_reactions),
  settle_cluster-LeftOf h _ 0 [] 0 (sort_by_mass c.volatile_reactions),
  sort_by_mass-perm c.volatile_reactions,
  sort_by_mass-IsDescending c.volatile_reactions,
  refl,
)
