-- ===== src/Storage/Mempool.antt =====
-- primus-storage/src/mempool_v2.rs: for each sector a tree of reactions under their hashes, and an
-- index of the hashes by weight.
pub mod Weights
pub mod Stranded
pub mod Priority
use package.primus_project.Base.{
  ℕ, ◌-◌, Bool, true, false, Option, none, some, List, [], ◌∷◌, ◌++◌, ltb, not, length, take,
}
use package.primus_project.Base.Outcome.{Result, ok, err}
use package.primus_project.Base.Ord.{nat_ord}
use package.primus_project.Machine.Word.{Bytes, u64_max, be_bytes}
use package.primus_project.Collections.BTreeMap
use package.primus_project.Collections.BTreeMap.{BTreeMap}
use package.primus_project.Types.Crypto.{Hashes}
use package.primus_project.Types.Reaction.{SignedReaction, PrimusError, validate_structure}

-- The operations of a `sled::Tree` that the mempool calls. A call that fails returns the tree that
-- it leaves, too.
pub record SledTree (T E : Type 0) : Type 0 where
  pub len : T → ℕ
  pub contains_key : Bytes → T → Result E Bool
  pub insert : Bytes → Bytes → T → Result E (Option Bytes) × T
  pub remove : Bytes → T → Result E (Option Bytes) × T
  pub iter : T → List (Result E (Bytes × Bytes))

-- `bincode` on reactions.
pub record ReactionCodec : Type 0 where
  pub serialize : SignedReaction → Option Bytes
  pub deserialize : Bytes → Option SignedReaction

pub data MempoolError (E : Type 0) : Type 0 where
  structural_validation_failed : PrimusError → MempoolError E
  sector_out_of_range : ℕ → MempoolError E
  at_maximum_capacity : ℕ → ℕ → MempoolError E
  sled_error : E → MempoolError E
  clock_before_epoch : MempoolError E
  serialization_failed : MempoolError E
  zero_copy_failed : MempoolError E
  structural_invalidity : PrimusError → MempoolError E

pub record SectoralMempool (T : Type 0) : Type 0 where
  pub sectors : BTreeMap ℕ (T × T)
  pub max_sector_capacity : ℕ

abbrev pub first_or_zero : Bytes → ℕ
first_or_zero [] = 0
first_or_zero (b ∷ _) = b

-- `rx.sender.public_key.first().copied().unwrap_or(0)`
unfoldable pub sector_of : SignedReaction → ℕ
sector_of rx = first_or_zero rx.sender.public_key

unfoldable pub weight_key : SignedReaction → ℕ → Bytes
weight_key rx ts = be_bytes 4 rx.energy ++ be_bytes 8 (u64_max - ts)

abbrev pub oks : {E A : Type 0} → List (Result E A) → List A
oks [] = []
oks (ok a ∷ rs) = a ∷ oks rs
oks (err _ ∷ rs) = oks rs

abbrev pub reverse {ℓ} : {A : Type ℓ} → List A → List A
reverse [] = []
reverse (a ∷ rest) = reverse rest ++ a ∷ []

module _ {T E : Type 0} (sled : SledTree T E) (codec : ReactionCodec) where
  abbrev pub Pushed : Type 0
  Pushed = Result (MempoolError E) Bool

  -- `weight_tree.insert(..)?`, then `Ok(true)`.
  unfoldable pub push_weight : SignedReaction → ℕ → T → T → Pushed × (T × T)
  push_weight rx ts data_tree weight_tree =
      let (written, weight_tree') = sled.insert (weight_key rx ts) rx.reaction_hash weight_tree in
      elim written [
        | err e ↦ (err (sled_error e), (data_tree, weight_tree'))
        | ok _ ↦ (ok true, (data_tree, weight_tree'))
      ]

  -- `data_tree.insert(..)?`, then the index.
  unfoldable pub push_data : SignedReaction → ℕ → Bytes → T → T → Pushed × (T × T)
  push_data rx ts rx_data data_tree weight_tree =
      let (written, data_tree') = sled.insert rx.reaction_hash rx_data data_tree in
      elim written [
        | err e ↦ (err (sled_error e), (data_tree', weight_tree))
        | ok _ ↦ push_weight rx ts data_tree' weight_tree
      ]

  -- From the clock on, which is `none` before the epoch.
  unfoldable pub push_new : Option ℕ → SignedReaction → T → T → Pushed × (T × T)
  push_new none rx data_tree weight_tree = (err clock_before_epoch, (data_tree, weight_tree))
  push_new (some ts) rx data_tree weight_tree = elim (codec.serialize rx) [
    | none ↦ (err serialization_failed, (data_tree, weight_tree))
    | some rx_data ↦ push_data rx ts rx_data data_tree weight_tree
  ]

  -- The capacity and the duplicate check.
  unfoldable pub push_trees : Option ℕ → SignedReaction → ℕ → T → T → Pushed × (T × T)
  push_trees now rx capacity data_tree weight_tree = elim (ltb (sled.len data_tree) capacity) [
    | false ↦ (err (at_maximum_capacity (sector_of rx) capacity), (data_tree, weight_tree))
    | true ↦ elim (sled.contains_key rx.reaction_hash data_tree) [
      | err e ↦ (err (sled_error e), (data_tree, weight_tree))
      | ok true ↦ (ok false, (data_tree, weight_tree))
      | ok false ↦ push_new now rx data_tree weight_tree
    ]
  ]

  unfoldable pub push_sector :
      Option ℕ → SignedReaction → SectoralMempool T → Pushed × SectoralMempool T
  push_sector now rx pool = elim (BTreeMap.get (sector_of rx) pool.sectors) [
    | none ↦ (err (sector_out_of_range (sector_of rx)), pool)
    | some trees ↦
        (let (pushed, trees') = push_trees now rx pool.max_sector_capacity trees.0 trees.1 in
          (pushed, record pool { sectors = BTreeMap.insert (sector_of rx) trees' pool.sectors }))
  ]

  unfoldable pub push :
      Hashes → Option ℕ → SignedReaction → SectoralMempool T → Pushed × SectoralMempool T
  push h now rx pool = elim (validate_structure h rx) [
    | err e ↦ (err (structural_validation_failed e), pool)
    | ok _ ↦ push_sector now rx pool
  ]

  -- `decode` is the decoder of rkyv. The structure is checked here and in `push`.
  unfoldable pub push_bytes :
      (Bytes → Option SignedReaction)
      → Hashes
      → Option ℕ
      → Bytes
      → SectoralMempool T
      → Pushed × SectoralMempool T
  push_bytes decode h now bytes pool = elim (decode bytes) [
    | none ↦ (err zero_copy_failed, pool)
    | some rx ↦ elim (validate_structure h rx) [
      | err e ↦ (err (structural_invalidity e), pool)
      | ok _ ↦ push h now rx pool
    ]
  ]

  -- What a removed datum adds to the results; failures are only printed.
  unfoldable pub drained : Result E (Option Bytes) → List SignedReaction
  drained (err _) = []
  drained (ok none) = []
  drained (ok (some rx_data)) = elim (codec.deserialize rx_data) [ none ↦ [] | some rx ↦ rx ∷ [] ]

  unfoldable pub drain_entries : List (Bytes × Bytes) → T → T → List SignedReaction × (T × T)
  drain_entries [] data_tree weight_tree = ([], (data_tree, weight_tree))
  drain_entries ((weight, hash) ∷ entries) data_tree weight_tree =
      let (removed, data_tree') = sled.remove hash data_tree in
      let (results, trees) = drain_entries entries data_tree' (sled.remove weight weight_tree).1 in
      (drained removed ++ results, trees)

  unfoldable pub drain_resonant :
      ℕ → ℕ → SectoralMempool T → List SignedReaction × SectoralMempool T
  drain_resonant drift limit pool = elim (BTreeMap.get drift pool.sectors) [
    | none ↦ ([], pool)
    | some trees ↦
        (let (results, trees') =
            drain_entries (oks (take limit (reverse (sled.iter trees.1)))) trees.0 trees.1 in
          (results, record pool { sectors = BTreeMap.insert drift trees' pool.sectors }))
  ]
