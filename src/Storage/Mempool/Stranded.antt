-- ===== src/Storage/Mempool/Stranded.antt =====
-- Two reactions of one sector, with one energy, that come within one second.
use primus_project.Base.{ℕ, ◌≡◌, ◌∙◌, sym, ap, true, Option, some, arith}
use primus_project.Base.Outcome.{ok}
use primus_project.Base.Ord.{same_iff, nat_ord, bytes_ord}
use primus_project.Machine.Word.{Bytes}
use primus_project.Collections.BTreeMap
use primus_project.Collections.BTreeMap.{BTreeMap}
use primus_project.Collections.BTreeMap.Laws.{get-insert, get-insert_self}
use primus_project.Types.Crypto.{Hashes}
use primus_project.Types.Reaction.{SignedReaction}
use primus_project.Storage.Mempool.{
  SledTree, ReactionCodec, SectoralMempool, sector_of, weight_key, push,
}
use primus_project.Storage.Mempool.Weights.{IsMap, HasWritten, push-HasWritten}

-- The index of weights has an entry for the hash.
abbrev pub IsListed : Bytes → BTreeMap Bytes Bytes → Type 0
IsListed hash weights = (k : Bytes) × (BTreeMap.get k weights ≡ some hash)

-- An entry that is overwritten by one with the same weight is gone.
overwritten :
    (k k1 k2 h1 h2 : Bytes) (weights : BTreeMap Bytes Bytes)
    → k1 ≡ k2
    → ¬ (h1 ≡ h2)
    → BTreeMap.get k (BTreeMap.insert k2 h2 (BTreeMap.insert k1 h1 weights)) ≡ some h1
    → BTreeMap.get k weights ≡ some h1
overwritten k k1 k2 h1 h2 weights e different found = ground (
  arith,
  e,
  different,
  found,
  get-insert k k2 h2 (BTreeMap.insert k1 h1 weights),
  get-insert k k1 h1 weights,
)

weight_key_lem :
    (rx rx' : SignedReaction) (ts : ℕ)
    → rx.energy ≡ rx'.energy
    → weight_key rx ts ≡ weight_key rx' ts
unfolding weight_key
weight_key_lem rx rx' ts e = ground (arith, e)

kept :
    (h1 h2 b1 b2 : Bytes) (data_of : BTreeMap Bytes Bytes)
    → ¬ (h1 ≡ h2)
    → BTreeMap.get h1 (BTreeMap.insert h2 b2 (BTreeMap.insert h1 b1 data_of)) ≡ some b1
kept h1 h2 b1 b2 data_of different = ground (
  arith,
  different,
  same_iff h1 h2,
  get-insert h1 h2 b2 (BTreeMap.insert h1 b1 data_of),
  get-insert_self h1 b1 data_of,
)

some_inj : {A : Type 0} (a b : A) → ◌≡◌ {A = Option A} (some a) (some b) → a ≡ b
some_inj a b e = cc

module _ {T E : Type 0} (sled : SledTree T E) (view : T → BTreeMap Bytes Bytes)
    (m : IsMap sled view) (codec : ReactionCodec) where
  -- A reaction that the sector holds and that its index does not list.
  abbrev pub IsStranded : SignedReaction → SectoralMempool T → Type 0
  IsStranded rx pool =
      (trees : T × T) × (BTreeMap.get (sector_of rx) pool.sectors ≡ some trees)
      × (rx_data : Bytes) × (BTreeMap.get rx.reaction_hash (view trees.0) ≡ some rx_data)
      × (¬ IsListed rx.reaction_hash (view trees.1))

  HasWritten-IsStranded :
      (rx rx' : SignedReaction) (ts : ℕ) (pool pool1 pool2 : SectoralMempool T) (trees : T × T)
      → BTreeMap.get (sector_of rx) pool.sectors ≡ some trees
      → ¬ IsListed rx.reaction_hash (view trees.1)
      → sector_of rx ≡ sector_of rx'
      → rx.energy ≡ rx'.energy
      → ¬ (rx.reaction_hash ≡ rx'.reaction_hash)
      → HasWritten sled view m codec rx ts pool pool1
      → HasWritten sled view m codec rx' ts pool1 pool2
      → IsStranded rx pool2
  HasWritten-IsStranded rx rx' ts pool pool1 pool2 trees found unlisted sector energy different
        (b1, a1, gb1, ga1, (x1, s1, d1, w1)) (b2, a2, gb2, ga2, (x2, s2, d2, w2)) =
      (
        a2,
        ap (λ s. BTreeMap.get s pool2.sectors) sector ∙ ga2,
        x1,
        ap (BTreeMap.get rx.reaction_hash) data_after
            ∙ kept rx.reaction_hash rx'.reaction_hash x1 x2 (view b1.0) different,
        λ listed. unlisted (
          listed.0,
          overwritten listed.0 (weight_key rx ts) (weight_key rx' ts) rx.reaction_hash
              rx'.reaction_hash (view trees.1) (weight_key_lem rx rx' ts energy) different
              (sym (ap (BTreeMap.get listed.0) weights_after) ∙ listed.1),
        ),
      )
    where
      first_left : b1 ≡ trees
      first_left = some_inj b1 trees (sym gb1 ∙ found)

      second_found : b2 ≡ a1
      second_found =
          some_inj b2 a1 (sym gb2 ∙ ap (λ s. BTreeMap.get s pool1.sectors) (sym sector) ∙ ga1)

      data_after :
          view a2.0
          ≡ BTreeMap.insert rx'.reaction_hash x2 (BTreeMap.insert rx.reaction_hash x1 (view b1.0))
      data_after =
          d2
          ∙ ap (λ t. BTreeMap.insert rx'.reaction_hash x2 (view t.0)) second_found
          ∙ ap (BTreeMap.insert rx'.reaction_hash x2) d1

      weights_after :
          view a2.1
          ≡ BTreeMap.insert
              (weight_key rx' ts)
              rx'.reaction_hash
              (BTreeMap.insert (weight_key rx ts) rx.reaction_hash (view trees.1))
      weights_after =
          w2
          ∙ ap (λ t. BTreeMap.insert (weight_key rx' ts) rx'.reaction_hash (view t.1)) second_found
          ∙ ap (BTreeMap.insert (weight_key rx' ts) rx'.reaction_hash) w1
          ∙ ap
              (λ t.
                BTreeMap.insert (weight_key rx' ts) rx'.reaction_hash
                  (BTreeMap.insert (weight_key rx ts) rx.reaction_hash (view t.1)))
              first_left

  -- When two reactions with different hashes are accepted into one sector within one second and
  -- with one energy, and the index did not list the first before, then the sector holds the first
  -- and its index does not list it. A tree is an ordered map of byte strings.
  pub push-IsStranded :
      (h : Hashes) (ts : ℕ) (rx rx' : SignedReaction) (pool : SectoralMempool T) (trees : T × T)
      → BTreeMap.get (sector_of rx) pool.sectors ≡ some trees
      → ¬ IsListed rx.reaction_hash (view trees.1)
      → sector_of rx ≡ sector_of rx'
      → rx.energy ≡ rx'.energy
      → ¬ (rx.reaction_hash ≡ rx'.reaction_hash)
      → (push sled codec h (some ts) rx pool).0 ≡ ok true
      → (push sled codec h (some ts) rx' (push sled codec h (some ts) rx pool).1).0 ≡ ok true
      → IsStranded rx (push sled codec h (some ts) rx' (push sled codec h (some ts) rx pool).1).1
  push-IsStranded h ts rx rx' pool trees found unlisted sector energy different one two =
      let pool1 = (push sled codec h (some ts) rx pool).1 in
      HasWritten-IsStranded rx rx' ts pool pool1 (push sled codec h (some ts) rx' pool1).1 trees
        found unlisted sector energy different (push-HasWritten sled view m codec h rx ts pool one)
        (push-HasWritten sled view m codec h rx' ts pool1 two)
