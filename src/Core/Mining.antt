-- ===== src/Core/Mining.antt =====
-- The genesis and the mining of primus-core/src/engine.rs. The configuration, the server seed and the
-- clock are arguments.
pub mod Work
use package.primus_project.Base.{
  ℕ, zero, suc, ◌+◌, ◌-◌, ◌%◌, ◌^◌, Bool, true, false, not, ◌&&◌, ◌||◌, Option, none, some, List,
  [], ◌∷◌, ltb, leb, ◌==◌, if◌then◌else◌, map,
}
use package.primus_project.Base.Outcome.{Result, ok, err}
use package.primus_project.Base.Ord.{bytes_ord}
use package.primus_project.Machine.Word.{Bytes}
use package.primus_project.Machine.Float.{F32, add_f32, mul_f32, div_f32, lt_f32, of_u64_f32}
use package.primus_project.Collections.BTreeMap.{BTreeMap}
use package.primus_project.Types.Crypto.{Hashes}
use package.primus_project.Types.Atom.{Atom, hydrogen, new_materialized}
use package.primus_project.Types.Payload.{mining_reward}
use package.primus_project.Types.Reaction.{SignedReaction, mining_reward_hash}
use package.primus_project.Storage.Changeset
use package.primus_project.Storage.Changeset.{Changeset}
use package.primus_project.Core.Run.{◌>>=◌, ◌>>◌, return, current, modify}
use package.primus_project.Core.Crystal.{
  Crystal, new_crystal, zero_root, calculate_density, search_nonce,
}
use package.primus_project.Core.State.{get_atom, apply_changeset}
use package.primus_project.Core.Gravity.{GravityEngine, vm_temperature}
use package.primus_project.Core.Chamber.{
  ReactionChamber, inherit_history, inject_all, synthesize_with_gravity, update_expansion,
}
use package.primus_project.Core.Storage.{
  CoreError, PrimusStorage, current_root, save_crystal, get_crystal, get_crystal_latest, db_flush,
}
use package.primus_project.Core.Storage.Commit.{commit_changeset}
use package.primus_project.Core.Engine.{
  PrimusEngine, Platform, Step, flatten_ok, on_storage, execute_payload, finalize_solidification,
}

pub record GenesisConfig : Type 0 where
  pub initial_supply : ℕ
  pub timestamp : ℕ

abbrev pub difficulty_epoch : ℕ
difficulty_epoch = 100

abbrev pub max_nonce_attempts : ℕ
max_nonce_attempts = 100000

-- `clamp`
abbrev clamp : F32 → F32 → F32 → F32
clamp x low high = if lt_f32 x low then low else (if lt_f32 high x then high else x)

-- 1000.0 and 0.5.
abbrev pub genesis_crystal : ℕ → Bytes → Crystal
genesis_crystal timestamp state_root = record (new_crystal 0 zero_root) {
  timestamp = timestamp;
  state_root = state_root;
  final_temp = 0x447a0000;
  final_entropy = 0x3f000000;
}

-- The parent of the next crystal, as far as the next crystal depends on it.
pub record Parent : Type 0 where
  pub last_index : ℕ
  pub prev_hash : Bytes
  pub inherited_energy : F32
  pub parent_timestamp : ℕ

unfoldable pub parent_of : Hashes → Option Crystal → Parent
parent_of h none = record {
  last_index = 0;
  prev_hash = zero_root;
  inherited_energy = 0;
  parent_timestamp = 0;
}
parent_of h (some block) = record {
  last_index = block.index;
  prev_hash = calculate_density h block;
  inherited_energy = block.cumulative_energy;
  parent_timestamp = block.timestamp;
}

-- 1.10.
unfoldable pub inherit_parent : Option Crystal → ReactionChamber → ReactionChamber
inherit_parent none c = update_expansion 0x3f8ccccd c
inherit_parent (some block) c = inherit_history block c

-- The time since the parent, and the difficulty that follows: 1.2, 0.95, 0.005, 100.0 and 1.5.
unfoldable pub reaction_difficulty : ℕ → ℕ → ℕ → ReactionChamber → F32
reaction_difficulty now target_block_time parent_timestamp c =
    let time_diff = if ltb 0 parent_timestamp then now - parent_timestamp else target_block_time in
    let start = if ltb time_diff target_block_time then 0x3f99999a else 0x3f733333 in
    let difficulty = add_f32 start (mul_f32 c.entropy 0x3ba3d70a) in
    if lt_f32 0x42c80000 c.temperature then mul_f32 difficulty 0x3fc00000 else difficulty

unfoldable pub next_timestamp : ℕ → ℕ → ℕ → ℕ
next_timestamp now target_block_time parent_timestamp =
    if ltb 0 parent_timestamp then (parent_timestamp + target_block_time) % 2 ^ 64 else now

module _ {D S E : Type 0} (p : Platform D S E) where
  abbrev is_empty : BTreeMap Bytes Atom → Bool
  is_empty [] = true
  is_empty (_ ∷ _) = false

  -- The accounts change in memory first.
  unfoldable pub commit_genesis : GenesisConfig → Step D S E (Unit {0})
  commit_genesis config = do
    e ← current
    let atom = record (new_materialized e.architect_pk hydrogen) { mass = config.initial_supply }
    let changeset = Changeset.insert e.architect_pk atom Changeset.new
    modify (λ s. record s { state = apply_changeset changeset s.state })
    on_storage p (
        commit_changeset p.sled p.hashes p.codecs.atom p.store changeset
          e.state.current_crystal_index)
    after ← current
    on_storage p (
        save_crystal p.sled p.codecs.crystal
          (genesis_crystal config.timestamp (current_root after.storage)))
    return tt

  unfoldable pub try_auto_genesis : GenesisConfig → Step D S E (Unit {0})
  try_auto_genesis config e = if is_empty e.state.atoms then commit_genesis config e else (ok tt, e)

  -- The parent, the timestamp of the next crystal and its gravity: 0.92 * difficulty.
  unfoldable pub prepare_next_physical_state : ℕ → Bytes → Step D S E (Parent × ℕ × GravityEngine)
  prepare_next_physical_state now server_seed = do
    last_block ← on_storage p (get_crystal_latest p.sled p.codecs.crystal)
    modify (λ s. record s { chamber = inherit_parent last_block s.chamber })
    e ← current
    let parent = parent_of p.hashes last_block
    let difficulty = reaction_difficulty now e.target_block_time parent.parent_timestamp e.chamber
    return (
      parent,
      next_timestamp now e.target_block_time parent.parent_timestamp,
      record { server_seed = server_seed; rtp = mul_f32 0x3f6b851f difficulty },
    )

  abbrev timestamp_or_zero : Option Crystal → ℕ
  timestamp_or_zero none = 0
  timestamp_or_zero (some c) = c.timestamp

  -- 0.25 and 64.0.
  unfoldable pub calculate_epoch_difficulty : PrimusEngine D S → F32
  calculate_epoch_difficulty e =
      let height = e.state.current_crystal_index in
      let first = get_crystal p.sled p.codecs.crystal (height - difficulty_epoch) e.storage in
      let latest = get_crystal_latest p.sled p.codecs.crystal e.storage in
      let start_ts = timestamp_or_zero (flatten_ok first.0) in
      let end_ts = timestamp_or_zero (flatten_ok latest.0) in
      let ideal = mul_f32 (of_u64_f32 difficulty_epoch) (of_u64_f32 e.target_block_time) in
      let ratio = div_f32 ideal (of_u64_f32 (end_ts - start_ts)) in
      if ltb height difficulty_epoch || ((start_ts == 0) || leb end_ts start_ts)
      then e.epoch_difficulty
      else clamp (mul_f32 e.epoch_difficulty ratio) 0x3e800000 0x42800000

  unfoldable pub build_mining_reward_rx : ℕ → PrimusEngine D S → Option SignedReaction
  build_mining_reward_rx crystal_index e = elim (get_atom e.architect_pk e.state) [
    | none ↦ none
    | some architect ↦ some (record {
      sender = architect;
      receiver = architect;
      reaction_hash = mining_reward_hash p.hashes crystal_index e.architect_pk;
      energy = 0;
      timestamp = 0;
      signature = [];
      payload = mining_reward 10;
    })
  ]

  -- The reactions that execute on their own.
  unfoldable pub confirm : PrimusEngine D S → List SignedReaction → List SignedReaction
  confirm e [] = []
  confirm e (rx ∷ rxs) =
      let rest = confirm e rxs in
      elim (execute_payload p e (rx ∷ [])) [ err _ ↦ rest | ok _ ↦ rx ∷ rest ]

  unfoldable pub with_reward : ℕ → PrimusEngine D S → List SignedReaction → List SignedReaction
  with_reward crystal_index e confirmed = elim (build_mining_reward_rx crystal_index e) [
    | none ↦ confirmed
    | some reward ↦ reward ∷ confirmed
  ]

  -- The crystal before its nonce is searched. A height is a u64.
  unfoldable pub draft : Parent → ℕ → List SignedReaction → Crystal
  draft parent timestamp reactions =
      record (new_crystal ((parent.last_index + 1) % 2 ^ 64) parent.prev_hash) {
        timestamp = timestamp;
        reactions_data = reactions;
        reactions = map (λ rx. rx.reaction_hash) reactions;
        cumulative_energy = parent.inherited_energy;
      }

  -- The candidates of the chamber that execute, after the reward.
  unfoldable pub gather : Parent → GravityEngine → Step D S E (List SignedReaction)
  gather parent gravity e =
      let index = (parent.last_index + 1) % 2 ^ 64 in
      let (candidates, chamber) =
        synthesize_with_gravity p.hashes p.libm gravity parent.prev_hash index e.chamber in
      let e' = record e { chamber = chamber } in
      (ok (with_reward index e' (confirm e' candidates)), e')

  unfoldable pub update_epoch : Crystal → PrimusEngine D S → PrimusEngine D S
  update_epoch crystal e =
      if (crystal.index % difficulty_epoch == 0) && ltb 0 crystal.index
      then record e { epoch_difficulty = calculate_epoch_difficulty e }
      else e

  -- From the nonce on.
  unfoldable pub solve : Crystal → Step D S E (Option Crystal)
  solve crystal e =
      let (solved, found) =
        search_nonce p.hashes (vm_temperature e.chamber.temperature) e.epoch_difficulty
          max_nonce_attempts crystal in
      if solved
      then (do
        rooted ← finalize_solidification p found
        on_storage p (db_flush p.sled)
        return (some rooted))
          e
      else (ok none, e)

  unfoldable pub mine_block : ℕ → Bytes → List SignedReaction → Step D S E (Option Crystal)
  mine_block now server_seed resonant_rxs = do
    modify (λ e. record e { chamber = inject_all resonant_rxs e.chamber })
    prepared ← prepare_next_physical_state now server_seed
    confirmed ← gather prepared.0 prepared.2
    let crystal = draft prepared.0 prepared.1 confirmed
    modify (update_epoch crystal)
    solve crystal
