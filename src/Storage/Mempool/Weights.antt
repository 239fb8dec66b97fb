-- ===== src/Storage/Mempool/Weights.antt =====
-- What a push writes, and the weights that two pushes share.
use primus_project.Base.{
  ℕ, ◌≡◌, ◌∙◌, refl, sym, subst, ap, Bool, true, false, Option, none, some, arith,
}
use primus_project.Base.Outcome.{Result, ok, err}
use primus_project.Base.Ord.{nat_ord, bytes_ord}
use primus_project.Machine.Word.{Bytes}
use primus_project.Collections.BTreeMap
use primus_project.Collections.BTreeMap.{BTreeMap}
use primus_project.Collections.BTreeMap.Laws.{get-insert_self}
use primus_project.Types.Crypto.{Hashes}
use primus_project.Types.Reaction.{SignedReaction}
use primus_project.Storage.Mempool.{
  SledTree, ReactionCodec, SectoralMempool, sector_of, weight_key, push_weight, push_data, push_new,
  push_trees, push_sector, push,
}

abbrev pub is_ok : {E A : Type 0} → Result E A → Bool
is_ok (ok _) = true
is_ok (err _) = false

-- A tree is an ordered map from byte strings to byte strings: an insertion that succeeds sets one key.
pub record IsMap {T E : Type 0} (sled : SledTree T E) (view : T → BTreeMap Bytes Bytes)
    : Type 0 where
  pub inserted :
      (k v : Bytes) (t : T)
      → is_ok (sled.insert k v t).0 ≡ true
      → view (sled.insert k v t).1 ≡ BTreeMap.insert k v (view t)

module _ {T E : Type 0} (sled : SledTree T E) (view : T → BTreeMap Bytes Bytes)
    (m : IsMap sled view) (codec : ReactionCodec) where
  -- The trees after the push of `rx` at the second `ts`.
  abbrev pub IsWritten : SignedReaction → ℕ → T × T → T × T → Type 0
  IsWritten rx ts before after =
      (rx_data : Bytes) × (codec.serialize rx ≡ some rx_data)
      × (view after.0 ≡ BTreeMap.insert rx.reaction_hash rx_data (view before.0))
      × (view after.1 ≡ BTreeMap.insert (weight_key rx ts) rx.reaction_hash (view before.1))

  push_weight_lem :
      (rx : SignedReaction) (ts : ℕ) (d w : T)
      → (push_weight sled codec rx ts d w).0 ≡ ok true
      → ((push_weight sled codec rx ts d w).1.0 ≡ d)
        × (view (push_weight sled codec rx ts d w).1.1
            ≡ BTreeMap.insert (weight_key rx ts) rx.reaction_hash (view w))
  unfolding push_weight
  push_weight_lem rx ts d w done = ground (arith, m.inserted (weight_key rx ts) rx.reaction_hash w)

  push_data_lem :
      (rx : SignedReaction) (ts : ℕ) (b : Bytes) (d w : T)
      → (push_data sled codec rx ts b d w).0 ≡ ok true
      → (view (push_data sled codec rx ts b d w).1.0 ≡ BTreeMap.insert rx.reaction_hash b (view d))
        × (view (push_data sled codec rx ts b d w).1.1
            ≡ BTreeMap.insert (weight_key rx ts) rx.reaction_hash (view w))
  unfolding push_data
  push_data_lem rx ts b d w done = ground (
    arith,
    m.inserted rx.reaction_hash b d,
    push_weight_lem rx ts (sled.insert rx.reaction_hash b d).1 w,
  )

  push_new-IsWritten_from :
      (rx : SignedReaction) (ts : ℕ) (d w : T) (encoded : Option Bytes)
      → codec.serialize rx ≡ encoded
      → (push_new sled codec (some ts) rx d w).0 ≡ ok true
      → IsWritten rx ts (d, w) (push_new sled codec (some ts) rx d w).1
  unfolding push_new
  push_new-IsWritten_from rx ts d w none e done = absurd (ground (arith, e, done))
  push_new-IsWritten_from rx ts d w (some b) e done = (
    b,
    e,
    ground (arith, e, done, push_data_lem rx ts b d w),
    ground (arith, e, done, push_data_lem rx ts b d w),
  )

  pub push_trees-IsWritten :
      (rx : SignedReaction) (ts capacity : ℕ) (d w : T)
      → (push_trees sled codec (some ts) rx capacity d w).0 ≡ ok true
      → IsWritten rx ts (d, w) (push_trees sled codec (some ts) rx capacity d w).1
  unfolding push_trees
  push_trees-IsWritten rx ts capacity d w done =
      subst (IsWritten rx ts (d, w)) (sym (ap (λ r. r.1) same_run)) (
        push_new-IsWritten_from rx ts d w (codec.serialize rx) refl
          (sym (ap (λ r. r.0) same_run) ∙ done))
    where
      same_run :
          push_trees sled codec (some ts) rx capacity d w ≡ push_new sled codec (some ts) rx d w
      same_run = ground (arith, done)

  -- The trees of the sector of `rx`, before and after a push that wrote them.
  abbrev pub HasWritten : SignedReaction → ℕ → SectoralMempool T → SectoralMempool T → Type 0
  HasWritten rx ts pool pool' =
      (before : T × T) × (after : T × T) × (BTreeMap.get (sector_of rx) pool.sectors ≡ some before)
      × (BTreeMap.get (sector_of rx) pool'.sectors ≡ some after)
      × IsWritten rx ts before after

  push_sector-HasWritten :
      (rx : SignedReaction) (ts : ℕ) (pool : SectoralMempool T) (found : Option (T × T))
      → BTreeMap.get (sector_of rx) pool.sectors ≡ found
      → (push_sector sled codec (some ts) rx pool).0 ≡ ok true
      → HasWritten rx ts pool (push_sector sled codec (some ts) rx pool).1
  unfolding push_sector
  push_sector-HasWritten rx ts pool none e done = absurd (ground (arith, e, done))
  push_sector-HasWritten rx ts pool (some (d, w)) e done =
      ((d, w), after, e, stored, push_trees-IsWritten rx ts pool.max_sector_capacity d w written)
    where
      after : T × T
      after = (push_trees sled codec (some ts) rx pool.max_sector_capacity d w).1

      written : (push_trees sled codec (some ts) rx pool.max_sector_capacity d w).0 ≡ ok true
      written = ground (arith, e, done)

      stored :
          BTreeMap.get (sector_of rx) (push_sector sled codec (some ts) rx pool).1.sectors
          ≡ some (push_trees sled codec (some ts) rx pool.max_sector_capacity d w).1
      stored = ground (arith, e, get-insert_self (sector_of rx) after pool.sectors)

  pub push-HasWritten :
      (h : Hashes) (rx : SignedReaction) (ts : ℕ) (pool : SectoralMempool T)
      → (push sled codec h (some ts) rx pool).0 ≡ ok true
      → HasWritten rx ts pool (push sled codec h (some ts) rx pool).1
  unfolding push
  push-HasWritten h rx ts pool done = subst (HasWritten rx ts pool) (sym (ap (λ r. r.1) same_run)) (
      push_sector-HasWritten rx ts pool (BTreeMap.get (sector_of rx) pool.sectors) refl
        (sym (ap (λ r. r.0) same_run) ∙ done))
    where
      same_run : push sled codec h (some ts) rx pool ≡ push_sector sled codec (some ts) rx pool
      same_run = ground (arith, done)
