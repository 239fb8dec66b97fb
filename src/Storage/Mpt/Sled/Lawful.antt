-- ===== src/Storage/Mpt/Sled/Lawful.antt =====
-- The store keeps its nodes as long as no write replaces a value by another one.
use primus_project.Base.{
  ◌≡◌, ◌∙◌, refl, sym, ap, subst, Option-cases, Bool-cases, inl, inr, Option, none, some, List, [],
  ◌∷◌, if◌then◌else◌,
}
use primus_project.Base.Outcome.{ok}
use primus_project.Base.Ord.{same, same_iff, same_refl, bytes_ord}
use primus_project.Machine.Word.{Bytes}
use primus_project.Types.Crypto.{Hashes}
use primus_project.Storage.Mpt.{MptNode, hash, MptStore}
use primus_project.Storage.Mpt.Valid.{Holds, Extends, IsLawful}
use primus_project.Storage.Mpt.Sled.{NodeTree, decode_node, get_node, put_node, sled_mpt_store}

abbrev pub Writes : Type 0
Writes = List (Bytes × Bytes)

-- The last value that was written under a key.
unfoldable pub latest : Bytes → Writes → Option Bytes
latest k [] = none
latest k ((j, v) ∷ writes) = let rest = latest k writes in if same k j then some v else rest

-- A tree that only inserts is the list of its writes, the last one first.
pub record IsWritten {D E : Type 0} (tree : NodeTree D E) (writes : D → Writes) : Type 0 where
  pub got : (k : Bytes) (d : D) → tree.get k d ≡ ok (latest k (writes d))
  pub inserted : (k v : Bytes) (d : D) → (old : Option Bytes) × ((tree.insert k v d).0 ≡ ok old)
  pub written : (k v : Bytes) (d : D) → writes (tree.insert k v d).1 ≡ (k, v) ∷ writes d

-- No write replaced a value by another one, so no two nodes shared a hash.
abbrev pub NoneReplaced : Writes → Type 0
NoneReplaced [] = Unit
NoneReplaced ((k, v) ∷ writes) =
    ((old : Bytes) → latest k writes ≡ some old → old ≡ v) × NoneReplaced writes

-- An older value is still there after one more write.
latest-later :
    (j k v old : Bytes) (writes : Writes)
    → NoneReplaced ((k, v) ∷ writes)
    → latest j writes ≡ some old
    → latest j ((k, v) ∷ writes) ≡ some old
unfolding latest
latest-later j k v old writes fine found = elim (Bool-cases (same j k)) [
  | inl hit ↦
      let at : j ≡ k = (same_iff j k).0 hit in
      let is_v : old ≡ v = fine.0 old (subst (λ j. latest j writes ≡ some old) at found) in
      rw hit (ap (λ v. some v) (sym is_v))
  | inr miss ↦ rw miss found
]

module _ {D E : Type 0} (tree : NodeTree D E) (h : Hashes) (serialize : MptNode → Bytes)
    (deserialize : Bytes → Option MptNode) (writes : D → Writes)
    (is_written : IsWritten tree writes)
    (decodes : (node : MptNode) → deserialize (serialize node) ≡ some node) where
  abbrev pub Sound : D → Type 0
  Sound d = NoneReplaced (writes d)

  abbrev pub store : MptStore D
  store = sled_mpt_store tree h serialize deserialize

  get_node-latest :
      (k : Bytes) (d : D)
      → get_node tree h serialize deserialize k d
        ≡ decode_node tree h serialize deserialize (latest k (writes d))
  unfolding get_node
  get_node-latest k d = rw (is_written.got k d, get_node) refl

  decode_node-some :
      (node : MptNode)
      → decode_node tree h serialize deserialize (some (serialize node)) ≡ ok (some node)
  unfolding decode_node
  decode_node-some node = rw (decodes node, decode_node) refl

  decode_node-none :
      (node : MptNode) → ¬ (decode_node tree h serialize deserialize none ≡ ok (some node))
  unfolding decode_node
  decode_node-none node e = cc

  after : MptNode → D → D
  after node d = (tree.insert (hash h serialize node) (serialize node) d).1

  put_node-ok :
      (node : MptNode) (d : D)
      → put_node tree h serialize deserialize node d ≡ ok (hash h serialize node, after node d)
  unfolding put_node after
  put_node-ok node d =
      let (old, done) = is_written.inserted (hash h serialize node) (serialize node) d in
      rw (done, put_node) refl

  NoneReplaced-after :
      (node : MptNode) (d : D)
      → Sound (after node d)
      → NoneReplaced ((hash h serialize node, serialize node) ∷ writes d)
  unfolding after
  NoneReplaced-after node d sound =
      subst NoneReplaced (is_written.written (hash h serialize node) (serialize node) d) sound

  latest-after :
      (k : Bytes) (node : MptNode) (d : D)
      → latest k (writes (after node d))
        ≡ latest k ((hash h serialize node, serialize node) ∷ writes d)
  unfolding after
  latest-after k node d =
      ap (latest k) (is_written.written (hash h serialize node) (serialize node) d)

  after-Holds :
      (node : MptNode) (d : D) → Holds store Sound (after node d) (hash h serialize node) node
  unfolding latest
  after-Holds node d sound =
      get_node-latest (hash h serialize node) (after node d)
      ∙ ap (decode_node tree h serialize deserialize) (
          latest-after (hash h serialize node) node d ∙ rw (same_refl (hash h serialize node)) refl)
      ∙ decode_node-some node

  after-Extends : (node : MptNode) (d : D) → Extends store Sound d (after node d)
  after-Extends node d k m held sound =
      let fine = NoneReplaced-after node d sound in
      let read = sym (get_node-latest k d) ∙ held fine.1 in
      elim (Option-cases (latest k (writes d))) [
        | inl gone ↦
            absurd
              (decode_node-none m (ap (decode_node tree h serialize deserialize) (sym gone) ∙ read))
        | inr (old, found) ↦
            get_node-latest k (after node d)
            ∙ ap (decode_node tree h serialize deserialize) (
                latest-after k node d
                ∙ latest-later k (hash h serialize node) (serialize node) old (writes d) fine found
                ∙ sym found)
            ∙ read
      ]

  pub sled_mpt_store-IsLawful : IsLawful store Sound
  sled_mpt_store-IsLawful = record {
    put_ok = λ node d. (
      hash h serialize node,
      after node d,
      put_node-ok node d,
      after-Holds node d,
      after-Extends node d,
    );
  }
