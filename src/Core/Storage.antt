-- ===== src/Core/Storage.antt =====
-- primus-core/src/storage.rs. The crates sled and bincode are parameters.
pub mod Commit
pub mod Root
use primus_project.Base.{
  ℕ, zero, suc, ◌+◌, ◌-◌, ◌*◌, ◌/◌, ◌%◌, Bool, true, false, ◌&&◌, Option, none, some, List, [], ◌∷◌,
  ◌++◌, ltb, leb, ◌==◌, if◌then◌else◌, length, drop,
}
use package.primus_project.Base.Outcome.{Result, ok, err}
use package.primus_project.Base.Ord.{bytes_ord}
use package.primus_project.Machine.Word.{Bytes, le_bytes}
use package.primus_project.Collections.BTreeMap
use package.primus_project.Collections.BTreeMap.{BTreeMap}
use package.primus_project.Types.Crypto.{Hashes}
use package.primus_project.Types.Atom.{Atom}
use package.primus_project.Storage.Changeset.{Changeset, GlobalMetrics, UndoLog}
use package.primus_project.Storage.Mpt.{Hash32, MptStore, TrieError}
use package.primus_project.Storage.Mpt.Trie
use package.primus_project.Vm.Error.{PvmError}
use package.primus_project.Core.Run.{Run, ◌>>=◌, ◌>>◌, return, throw, current, modify, of_option}
use package.primus_project.Core.Crystal.{Crystal, zero_root}

-- The operations of a tree of `sled` that the code calls, on trees of type `D`. A call that fails
-- returns the tree that it leaves, too. A batch holds insertions and removals.
pub record SledDb (D E : Type 0) : Type 0 where
  pub get : Bytes → D → Result E (Option Bytes)
  pub insert : Bytes → Bytes → D → Result E (Option Bytes) × D
  pub remove : Bytes → D → Result E (Option Bytes) × D
  pub transaction : List (Bytes × Option Bytes) → D → Result E (Unit {0}) × D
  pub flush : D → Result E (Unit {0}) × D
  pub scan_prefix : Bytes → D → List (Result E (Bytes × Bytes))

-- `bincode` on one type.
pub record Codec (A : Type 0) : Type 0 where
  pub serialize : A → Option Bytes
  pub deserialize : Bytes → Option A

pub record Codecs : Type 0 where
  pub atom : Codec Atom
  pub crystal : Codec Crystal
  pub undo : Codec UndoLog
  pub metrics : Codec GlobalMetrics

-- The errors of the storage and of the processor.
pub data CoreError (E : Type 0) : Type 0 where
  sled_error : E → CoreError E
  serialization_failed : CoreError E
  deserialization_failed : CoreError E
  corrupt : CoreError E
  trie_failed : TrieError → CoreError E
  proof_too_old : ℕ → ℕ → ℕ → CoreError E
  pvm_failed : PvmError → CoreError E
  state_root_mismatch : ℕ → CoreError E
  parent_mismatch : ℕ → CoreError E
  gap_detected : ℕ → ℕ → CoreError E
  pow_invalid : ℕ → CoreError E
  empty_chain : CoreError E
  past_finality : ℕ → CoreError E
  undo_log_missing : ℕ → CoreError E
  phantom_sender : CoreError E
  chamber_overheat : CoreError E

-- The database, the trie (its node store and its root), the root that readers see, and the tree of
-- the roots that are to be collected.
pub record PrimusStorage (D S : Type 0) : Type 0 where
  pub db : D
  pub mpt_store : S
  pub mpt_root : Option Hash32
  pub root : Option Hash32
  pub gc_log : D

abbrev pub undo_window : ℕ
undo_window = 8

abbrev pub finality_depth : ℕ
finality_depth = 6

-- The decimal digits of a `u64`, which has at most 20.
unfoldable pub decimal : ℕ → ℕ → Bytes
decimal zero n = []
decimal (suc fuel) n =
    let rest = decimal fuel (n / 10) in
    if ltb n 10 then (48 + n) ∷ [] else rest ++ (48 + n % 10) ∷ []

-- "atom_"
abbrev pub atom_prefix : Bytes
atom_prefix = 97 ∷ 116 ∷ 111 ∷ 109 ∷ 95 ∷ []

-- "contract_"
abbrev contract_prefix : Bytes
contract_prefix = 99 ∷ 111 ∷ 110 ∷ 116 ∷ 114 ∷ 97 ∷ 99 ∷ 116 ∷ 95 ∷ []

-- "crystal_"
abbrev crystal_prefix : Bytes
crystal_prefix = 99 ∷ 114 ∷ 121 ∷ 115 ∷ 116 ∷ 97 ∷ 108 ∷ 95 ∷ []

-- "undo_"
abbrev undo_prefix : Bytes
undo_prefix = 117 ∷ 110 ∷ 100 ∷ 111 ∷ 95 ∷ []

-- "mpt_root"
abbrev pub mpt_root_key : Bytes
mpt_root_key = 109 ∷ 112 ∷ 116 ∷ 95 ∷ 114 ∷ 111 ∷ 111 ∷ 116 ∷ []

-- "latest_index"
abbrev pub latest_index_key : Bytes
latest_index_key = 108 ∷ 97 ∷ 116 ∷ 101 ∷ 115 ∷ 116 ∷ 95 ∷ 105 ∷ 110 ∷ 100 ∷ 101 ∷ 120 ∷ []

-- "global_metrics"
abbrev global_metrics_key : Bytes
global_metrics_key =
    103 ∷ 108 ∷ 111 ∷ 98 ∷ 97 ∷ 108 ∷ 95 ∷ 109 ∷ 101 ∷ 116 ∷ 114 ∷ 105 ∷ 99 ∷ 115 ∷ []

unfoldable pub atom_key : Bytes → Bytes
atom_key pk = atom_prefix ++ pk

unfoldable pub contract_key : Bytes → Bytes
contract_key code_hash = contract_prefix ++ code_hash

unfoldable pub crystal_key : ℕ → Bytes
crystal_key index = crystal_prefix ++ decimal 20 index

unfoldable pub undo_key : ℕ → Bytes
undo_key index = undo_prefix ++ decimal 20 index

unfoldable pub history_key : ℕ → Bytes
history_key index = mpt_root_key ++ 95 ∷ decimal 20 index

-- `u64::from_le_bytes`
unfoldable pub of_le_bytes : Bytes → ℕ
of_le_bytes [] = 0
of_le_bytes (b ∷ bs) = b + 256 * of_le_bytes bs

abbrev pub of_sled : {E A : Type 0} → Result E A → Result (CoreError E) A
of_sled (err e) = err (sled_error e)
of_sled (ok a) = ok a

abbrev pub Io : Type 0 → Type 0 → Type 0 → Type 0 → Type 0
Io D S E A = Run (CoreError E) (PrimusStorage D S) A

-- `try_into::<[u8; 8]>`
unfoldable pub to_index : Bytes → Option ℕ
to_index b = if length b == 8 then some (of_le_bytes b) else none

-- The atoms under keys that are longer than the prefix and that decode.
unfoldable pub collect_atoms :
    {E : Type 0}
    → Codec Atom
    → List (Result E (Bytes × Bytes))
    → BTreeMap Bytes Atom
    → Result (CoreError E) (BTreeMap Bytes Atom)
collect_atoms codec [] atoms = ok atoms
collect_atoms codec (err e ∷ items) atoms = err (sled_error e)
collect_atoms codec (ok (key, value) ∷ items) atoms = collect_atoms codec items (
    if leb (length key) 5 then atoms else elim (codec.deserialize value) [
      | none ↦ atoms
      | some atom ↦ BTreeMap.insert (drop 5 key) atom atoms
    ])

unfoldable pub current_root : {D S : Type 0} → PrimusStorage D S → Hash32
current_root s = elim s.root [ none ↦ zero_root | some r ↦ r ]

unfoldable pub to_hash : Bytes → Option Hash32
to_hash b = if length b == 32 then some b else none

module _ {D S E : Type 0} (sled : SledDb D E) where
  unfoldable pub db_get : Bytes → Io D S E (Option Bytes)
  db_get key s = (of_sled (sled.get key s.db), s)

  unfoldable pub db_insert : Bytes → Bytes → Io D S E (Option Bytes)
  db_insert key value s =
      let (written, db') = sled.insert key value s.db in (of_sled written, record s { db = db' })

  unfoldable pub db_remove : Bytes → Io D S E (Option Bytes)
  db_remove key s =
      let (removed, db') = sled.remove key s.db in (of_sled removed, record s { db = db' })

  unfoldable pub db_transaction : List (Bytes × Option Bytes) → Io D S E (Unit {0})
  db_transaction batch s =
      let (done, db') = sled.transaction batch s.db in (of_sled done, record s { db = db' })

  unfoldable pub db_flush : Io D S E (Unit {0})
  db_flush s = let (done, db') = sled.flush s.db in (of_sled done, record s { db = db' })

  unfoldable pub gc_insert : Bytes → Bytes → Io D S E (Option Bytes)
  gc_insert key value s =
      let (written, log') = sled.insert key value s.gc_log in
      (of_sled written, record s { gc_log = log' })

  -- What is stored under a key, decoded.
  unfoldable pub read : {A : Type 0} → Codec A → Bytes → Io D S E (Option A)
  read codec key = do
    found ← db_get key
    elim found [
      | none ↦ return none
      | some b ↦ do a ← of_option deserialization_failed (codec.deserialize b); return (some a)
    ]

  -- `bincode::serialize(..)?` and `insert(..)?`.
  unfoldable pub write : {A : Type 0} → Codec A → Bytes → A → Io D S E (Option Bytes)
  write codec key a = do b ← of_option serialization_failed (codec.serialize a); db_insert key b

  unfoldable pub load_atom : Codec Atom → Bytes → Io D S E (Option Atom)
  load_atom codec pk = read codec (atom_key pk)

  unfoldable pub save_contract : Bytes → Bytes → Io D S E (Option Bytes)
  save_contract code_hash code = db_insert (contract_key code_hash) code

  unfoldable pub load_contract : Bytes → Io D S E (Option Bytes)
  load_contract code_hash = db_get (contract_key code_hash)

  unfoldable pub get_crystal : Codec Crystal → ℕ → Io D S E (Option Crystal)
  get_crystal codec index = read codec (crystal_key index)

  unfoldable pub get_crystal_latest : Codec Crystal → Io D S E (Option Crystal)
  get_crystal_latest codec = do
    found ← db_get latest_index_key
    elim found [
      | none ↦ return none
      | some b ↦ do index ← of_option corrupt (to_index b); get_crystal codec index
    ]

  unfoldable pub save_crystal : Codec Crystal → Crystal → Io D S E (Option Bytes)
  save_crystal codec c = do
    write codec (crystal_key c.index) c
    db_insert latest_index_key (le_bytes 8 c.index)

  unfoldable pub delete_crystal : ℕ → Io D S E (Option Bytes)
  delete_crystal index = db_remove (crystal_key index)

  unfoldable pub save_undo_log : Codec UndoLog → UndoLog → Io D S E (Option Bytes)
  save_undo_log codec u = write codec (undo_key u.crystal_index) u

  unfoldable pub get_undo_log : Codec UndoLog → ℕ → Io D S E (Option UndoLog)
  get_undo_log codec index = read codec (undo_key index)

  unfoldable pub delete_undo_log : ℕ → Io D S E (Option Bytes)
  delete_undo_log index = db_remove (undo_key index)

  unfoldable pub save_global_metrics : Codec GlobalMetrics → GlobalMetrics → Io D S E (Option Bytes)
  save_global_metrics codec m = write codec global_metrics_key m

  unfoldable pub get_global_metrics : Codec GlobalMetrics → Io D S E (Option GlobalMetrics)
  get_global_metrics codec = read codec global_metrics_key

  unfoldable pub restore_atoms : Codec Atom → BTreeMap Bytes (Option Atom) → Io D S E (Unit {0})
  restore_atoms codec [] = return tt
  restore_atoms codec ((pk, some atom) ∷ images) =
      let rest = restore_atoms codec images in do write codec (atom_key pk) atom; rest
  restore_atoms codec ((pk, none) ∷ images) =
      let rest = restore_atoms codec images in do db_remove (atom_key pk); rest

  unfoldable pub flush_metrics : Codec GlobalMetrics → Option GlobalMetrics → Io D S E (Unit {0})
  flush_metrics codec none = db_flush
  flush_metrics codec (some m) = do save_global_metrics codec m; db_flush

  unfoldable pub get_all_atoms : Codec Atom → Io D S E (BTreeMap Bytes Atom)
  get_all_atoms codec s = (collect_atoms codec (sled.scan_prefix atom_prefix s.db) [], s)

  -- `root_at`, with the height of the tip read first.
  unfoldable pub tip_height : Io D S E ℕ
  tip_height = do
    found ← db_get latest_index_key
    elim found [ none ↦ return 0 | some b ↦ of_option corrupt (to_index b) ]

  unfoldable pub find_root : ℕ → Io D S E (Option Hash32)
  find_root index = do
    found ← db_get (history_key index)
    elim found [
      | none ↦ return none
      | some b ↦ do r ← of_option corrupt (to_hash b); return (some r)
    ]

  unfoldable pub root_at : ℕ → Io D S E (Option Hash32)
  root_at index = do
    tip ← tip_height
    if ltb undo_window tip && ltb index (tip - undo_window)
        then throw (proof_too_old index tip undo_window)
        else find_root index
