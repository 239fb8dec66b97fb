-- ===== src/Net/Shield.antt =====
-- primus-net-opt/src/gravity_shield.rs. The decoder of rkyv is a parameter.
pub mod Filter
use package.primus_project.Base.{
  ℕ, ◌+◌, ◌%◌, ◌^◌, Bool, true, false, Option, none, some, List, [], ◌∷◌, if◌then◌else◌,
}
use package.primus_project.Base.Outcome.{Result, ok, err}
use package.primus_project.Machine.Word.{Bytes}
use package.primus_project.Machine.Float.{lt_f32}
use package.primus_project.Types.Crypto.{Hashes}
use package.primus_project.Types.Reaction.{SignedReaction, validate_structure, PrimusError}

pub data ShieldError : Type 0 where
  malformed : ShieldError
  structural : PrimusError → ShieldError
  empty_key : ShieldError
  negative_energy : ShieldError

abbrev pub is_empty : Bytes → Bool
is_empty [] = true
is_empty (_ ∷ _) = false

-- The third layer.
abbrev pub sane : SignedReaction → Result ShieldError SignedReaction
sane rx =
    if is_empty rx.sender.public_key
    then err empty_key
    else if lt_f32 rx.energy 0
    then err negative_energy
    else ok rx

unfoldable pub filter_bytes_inner :
    Hashes → (Bytes → Option SignedReaction) → Bytes → Result ShieldError SignedReaction
filter_bytes_inner h decode raw = elim (decode raw) [
  | none ↦ err malformed
  | some rx ↦ elim (validate_structure h rx) [ err e ↦ err (structural e) | ok _ ↦ sane rx ]
]

-- The count of dropped frames, which wraps around.
unfoldable pub filter_bytes :
    Hashes → (Bytes → Option SignedReaction) → Bytes → ℕ → Result ShieldError SignedReaction × ℕ
filter_bytes h decode raw drops = elim (filter_bytes_inner h decode raw) [
  | err e ↦ (err e, (drops + 1) % 2 ^ 64)
  | ok rx ↦ (ok rx, drops)
]
