-- ===== src/Types/Galactic.antt =====
-- primus-types/src/galactic_sync.rs: which of two chains a node prefers.
use primus_project.Base.{ℕ, ◌%◌, Bool, true, false, List, ◌&&◌, ltb, ◌==◌, if◌then◌else◌}
use primus_project.Machine.Word.{Bytes}
use primus_project.Machine.Float.{F32, lt_f32, sub_f32, abs_f32}

pub record GalacticStatus : Type 0 where
  pub crystal_index : ℕ
  pub current_entropy : F32
  pub sector_drift : ℕ
  pub cumulative_energy : F32

unfoldable pub from_state : ℕ → F32 → GalacticStatus
from_state index entropy = record {
  crystal_index = index;
  current_entropy = entropy;
  sector_drift = index % 256;
  cumulative_energy = 0;
}

unfoldable pub from_engine : ℕ → F32 → F32 → GalacticStatus
from_engine index entropy cum_energy = record {
  crystal_index = index;
  current_entropy = entropy;
  sector_drift = index % 256;
  cumulative_energy = cum_energy;
}

-- f32::EPSILON, 2 ^ -23.
abbrev epsilon : F32
epsilon = 0x34000000

unfoldable pub is_more_dominant_than : GalacticStatus → GalacticStatus → Bool
is_more_dominant_than a b =
    if ltb b.crystal_index a.crystal_index
    then true
    else if a.crystal_index == b.crystal_index
    then (if lt_f32 b.cumulative_energy a.cumulative_energy
        then true
        else lt_f32 (abs_f32 (sub_f32 a.cumulative_energy b.cumulative_energy)) epsilon
          && lt_f32 b.current_entropy a.current_entropy)
    else false

pub data SyncMessage : Type 0 where
  handshake : GalacticStatus → SyncMessage
  request_crystals : ℕ → ℕ → SyncMessage
  inventory_response : List Bytes → SyncMessage
