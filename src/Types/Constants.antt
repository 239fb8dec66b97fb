-- ===== src/Types/Constants.antt =====
-- primus-types/src/constants.rs.
use primus_project.Base.{ℕ, List, [], ◌∷◌}

abbrev pub pk_bytes : ℕ
pk_bytes = 2592

abbrev pub sig_bytes : ℕ
sig_bytes = 4627

abbrev pub protocol_min_fee : ℕ
protocol_min_fee = 10

abbrev pub mining_reward_amount : ℕ
mining_reward_amount = 10

-- "PRIMUS_MINING_REWARD_V1"
abbrev pub mining_reward_tag : List ℕ
mining_reward_tag =
    0x50 ∷ 0x52 ∷ 0x49 ∷ 0x4d ∷ 0x55 ∷ 0x53 ∷ 0x5f ∷ 0x4d ∷ 0x49 ∷ 0x4e ∷ 0x49 ∷ 0x4e ∷ 0x47 ∷ 0x5f
    ∷ 0x52 ∷ 0x45 ∷ 0x57 ∷ 0x41 ∷ 0x52 ∷ 0x44 ∷ 0x5f ∷ 0x56 ∷ 0x31 ∷ []
