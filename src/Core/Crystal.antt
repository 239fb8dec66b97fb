-- ===== src/Core/Crystal.antt =====
-- primus-types/src/crystal.rs and primus-core/src/crystal.rs: crystals, their hash and their proof
-- of work.
pub mod Pow
use package.primus_project.Base.{
  ℕ, zero, suc, ◌+◌, ◌-◌, ◌%◌, ◌^◌, Bool, true, false, Option, none, some, List, [], ◌∷◌, ◌++◌, ltb,
  min, replicate, set, if◌then◌else◌,
}
use package.primus_project.Machine.Word.{Bytes, le_bytes}
use package.primus_project.Machine.Float.{
  F32, add_f32, sub_f32, mul_f32, div_f32, max_f32, to_u64_f32, of_u64_f32,
}
use package.primus_project.Types.Crypto.{Hashes}
use package.primus_project.Types.Physics.{encode}
use package.primus_project.Types.Reaction.{SignedReaction}

pub record Crystal : Type 0 where
  pub index : ℕ
  pub prev_hash : Bytes
  pub timestamp : ℕ
  pub nonce : ℕ
  pub reactions : List Bytes
  pub reactions_data : List SignedReaction
  pub cumulative_energy : F32
  pub state_root : Bytes
  pub final_temp : F32
  pub final_entropy : F32

abbrev pub zero_root : Bytes
zero_root = replicate 32 0

abbrev pub new_crystal : ℕ → Bytes → Crystal
new_crystal index prev_hash = record {
  index = index;
  prev_hash = prev_hash;
  timestamp = 0;
  nonce = 0;
  reactions = [];
  reactions_data = [];
  cumulative_energy = 0;
  state_root = zero_root;
  final_temp = 0;
  final_entropy = 0;
}

abbrev pub flatten : List Bytes → Bytes
flatten [] = []
flatten (b ∷ bs) = b ++ flatten bs

-- The bytes that the hasher is fed, one `update` after another.
unfoldable pub density_input : Crystal → Bytes
density_input c =
    le_bytes 8 c.index
    ++ (c.prev_hash
        ++ (le_bytes 8 c.timestamp
            ++ (le_bytes 8 c.nonce
                ++ (c.state_root
                    ++ (flatten c.reactions
                        ++ (le_bytes 8 (encode c.cumulative_energy)
                            ++ (le_bytes 8 (encode c.final_temp)
                                ++ le_bytes 8 (encode c.final_entropy))))))))

unfoldable pub calculate_density : Hashes → Crystal → Bytes
calculate_density h c = h.blake3 (density_input c)

-- 1.0, 500.0 and 255.0.
abbrev one : F32
one = 0x3f800000

abbrev five_hundred : F32
five_hundred = 0x43fa0000

abbrev ff : F32
ff = 0x437f0000

unfoldable pub base_difficulty_at : F32 → F32 → F32
base_difficulty_at temp diff = max_f32 (mul_f32 diff (add_f32 one (div_f32 temp five_hundred))) one

-- `as u8` saturates.
abbrev as_u8 : F32 → ℕ
as_u8 x = min (to_u64_f32 x) 255

unfoldable pub leading_zeros : F32 → F32 → ℕ
leading_zeros temp diff = min (to_u64_f32 (base_difficulty_at temp diff)) 4

unfoldable pub calculate_target : F32 → F32 → Bytes
calculate_target temp diff =
    let zeros = leading_zeros temp diff in
    set (replicate zeros 0 ++ replicate (32 - zeros) 255) zeros
      (as_u8 (div_f32 ff (add_f32 (sub_f32 (base_difficulty_at temp diff) (of_u64_f32 zeros)) one)))

-- The loop over the bytes of the hash and the target.
unfoldable pub meets : Bytes → Bytes → Bool
meets [] target = true
meets (h ∷ hash) [] = true
meets (h ∷ hash) (t ∷ target) =
    if ltb h t then true else if ltb t h then false else meets hash target

unfoldable pub check_proof_of_work : Hashes → Crystal → F32 → F32 → Bool
check_proof_of_work h c temp diff = meets (calculate_density h c) (calculate_target temp diff)

-- `wrapping_add(1)`
abbrev pub wrapping_suc : ℕ → ℕ
wrapping_suc n = (n + 1) % 2 ^ 64

-- `(0..attempts).any(..)`, each failure with the next nonce: whether a nonce was found, and the
-- crystal with it.
unfoldable pub search_nonce : Hashes → F32 → F32 → ℕ → Crystal → Bool × Crystal
search_nonce h temp diff zero c = (false, c)
search_nonce h temp diff (suc attempts) c = elim (check_proof_of_work h c temp diff) [
  | true ↦ (true, c)
  | false ↦ search_nonce h temp diff attempts (record c { nonce = wrapping_suc c.nonce })
]
