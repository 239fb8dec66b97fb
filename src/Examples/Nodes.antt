-- ===== src/Examples/Nodes.antt =====
-- A tree of sled that is the list of its writes, an encoding of nodes, and tries in them.
use primus_project.Base.{
  ℕ, zero, suc, ◌≡◌, ◌∙◌, refl, ap, Option, none, some, List, [], ◌∷◌, ◌++◌, arith, map, replicate,
  if◌then◌else◌,
}
use primus_project.Base.Outcome.{ok, err}
use primus_project.Base.Ord.{same, bytes_ord, compare_bytes}
use primus_project.Machine.Word.{Bytes, xor_bits}
use primus_project.Types.Crypto.{Hashes}
use primus_project.Storage.Mpt.{
  Hash32, MptNode, leaf, extension, branch, key_to_nibbles, common_prefix, hash, branch_hash,
  xor_into, xor_child, xor_children, xor_value, MptStore,
}
use primus_project.Storage.Mpt.Trie
use primus_project.Storage.Mpt.Trie.{get, insert}
use primus_project.Storage.Mpt.Valid.{Represents, single, at_leaf}
use primus_project.Storage.Mpt.Parting.{update}
use primus_project.Storage.Mpt.Roundtrip.{IsKey, key_to_nibbles-IsPath, insert-get, store_after}
use primus_project.Storage.Mpt.Binding.{get-Perm}
use mathlib.Core.List.Permᴰ
use primus_project.Storage.Mpt.Sled.{NodeTree, decode_node, get_node, put_node, sled_mpt_store}
use primus_project.Storage.Mpt.Sled.Lawful.{
  Writes, latest, IsWritten, NoneReplaced, sled_mpt_store-IsLawful,
}

abbrev list_tree : NodeTree Writes (Unit {0})
list_tree = record {
  get = λ k d. ok (latest k d);
  insert = λ k v d. (ok (latest k d), (k, v) ∷ d);
  remove = λ k d. (err tt, d);
}

list_tree-IsWritten : IsWritten list_tree (λ d. d)
list_tree-IsWritten = record {
  got = λ k d. refl;
  inserted = λ k v d. (latest k d, refl);
  written = λ k v d. refl;
}

-- Fields end with a 0, and what is in them is one more.
abbrev field_then : Bytes → Bytes → Bytes
field_then [] rest = 0 ∷ rest
field_then (x ∷ field) rest = suc x ∷ field_then field rest

abbrev join : List Bytes → Bytes
join [] = []
join (field ∷ fields) = field_then field (join fields)

abbrev onto_first : ℕ → List Bytes → List Bytes
onto_first x [] = []
onto_first x (field ∷ fields) = (x ∷ field) ∷ fields

abbrev split : Bytes → List Bytes
split [] = []
split (zero ∷ rest) = [] ∷ split rest
split (suc x ∷ rest) = onto_first x (split rest)

split-field_then : (field rest : Bytes) → split (field_then field rest) ≡ field ∷ split rest
split-field_then [] rest = refl
split-field_then (x ∷ field) rest = ap (onto_first x) (split-field_then field rest)

split-join : (fields : List Bytes) → split (join fields) ≡ fields
split-join [] = refl
split-join (field ∷ fields) =
    split-field_then field (join fields) ∙ ap (λ r. field ∷ r) (split-join fields)

abbrev of_option : Option Bytes → Bytes
of_option none = []
of_option (some b) = 1 ∷ b

abbrev to_option : Bytes → Option Bytes
to_option [] = none
to_option (_ ∷ b) = some b

abbrev fields_of : MptNode → List Bytes
fields_of (leaf key_suffix value) = [] ∷ key_suffix ∷ value ∷ []
fields_of (extension prefix child) = (0 ∷ []) ∷ prefix ∷ child ∷ []
fields_of (branch children value) = (0 ∷ 0 ∷ []) ∷ of_option value ∷ map of_option children

abbrev node_of : List Bytes → Option MptNode
node_of ([] ∷ key_suffix ∷ value ∷ []) = some (leaf key_suffix value)
node_of ((zero ∷ []) ∷ prefix ∷ child ∷ []) = some (extension prefix child)
node_of ((zero ∷ zero ∷ []) ∷ value ∷ children) =
    some (branch (map to_option children) (to_option value))
node_of _ = none

to_option-of_option : (o : Option Bytes) → to_option (of_option o) ≡ o
to_option-of_option none = refl
to_option-of_option (some b) = refl

map-to_option : (os : List (Option Bytes)) → map to_option (map of_option os) ≡ os
map-to_option [] = refl
map-to_option (o ∷ os) = cc (to_option-of_option o, map-to_option os)

node_of-fields_of : (node : MptNode) → node_of (fields_of node) ≡ some node
node_of-fields_of (leaf key_suffix value) = refl
node_of-fields_of (extension prefix child) = refl
node_of-fields_of (branch children value) = cc (to_option-of_option value, map-to_option children)

abbrev serialize : MptNode → Bytes
serialize node = join (fields_of node)

abbrev deserialize : Bytes → Option MptNode
deserialize b = node_of (split b)

decodes : (node : MptNode) → deserialize (serialize node) ≡ some node
decodes node = ap node_of (split-join (fields_of node)) ∙ node_of-fields_of node

-- Every string is its own hash.
abbrev own : Hashes
own = record { sha3 = λ b. b; blake3 = λ b. b }

abbrev store : MptStore Writes
store = sled_mpt_store list_tree own serialize deserialize

abbrev key_1 : Bytes
key_1 = replicate 32 1

abbrev key_2 : Bytes
key_2 = replicate 31 1 ++ 2 ∷ []

key_1-IsKey : IsKey key_1
key_1-IsKey = ground arith

key_2-IsKey : IsKey key_2
key_2-IsKey = ground arith

abbrev first_leaf : MptNode
first_leaf = leaf (key_to_nibbles key_1) (10 ∷ [])

abbrev first_root : Hash32
first_root = hash own serialize first_leaf

abbrev one_leaf : Writes
one_leaf = (first_root, serialize first_leaf) ∷ []

one_leaf-Sound : NoneReplaced one_leaf
unfolding latest
one_leaf-Sound = (λ old e. cc, tt)

one_leaf-Represents :
    Represents store
      (λ d. NoneReplaced d)
      one_leaf
      (some first_root)
      64
      (single (key_to_nibbles key_1) (10 ∷ []))
unfolding get_node decode_node latest bytes_ord compare_bytes hash key_to_nibbles
one_leaf-Represents =
    at_leaf (key_to_nibbles key_1) (10 ∷ []) (λ sound. refl)
      (key_to_nibbles-IsPath key_1 key_1-IsKey) (λ k path. refl)

abbrev inserted : Writes
inserted = store_after (insert store (some first_root) key_2 (20 ∷ []) one_leaf) one_leaf

inserted-Sound : NoneReplaced inserted
unfolding get_node decode_node put_node latest bytes_ord compare_bytes hash branch_hash
    key_to_nibbles xor_into xor_child xor_children xor_value xor_bits insert Trie.insert_recursive
    Trie.load Trie.insert_at_leaf Trie.put_branch Trie.place_leaf Trie.assign common_prefix
inserted-Sound = (λ old e. cc, (λ old e. cc, (λ old e. cc, (λ old e. cc, (λ old e. cc, tt)))))

-- Nothing was replaced: the store is sound before and after.
insert-get_example :
    (h : Hash32) × (s' : Writes) × (insert store (some first_root) key_2 (20 ∷ []) one_leaf
      ≡ ok (h, s'))
    × Represents store
        (λ d. NoneReplaced d)
        s'
        (some h)
        64
        (update (key_to_nibbles key_2) (20 ∷ []) (single (key_to_nibbles key_1) (10 ∷ [])))
    × (get store (some h) key_1 s' ≡ (
        if same key_2 key_1
        then ok (some (20 ∷ []))
        else get store (some first_root) key_1 one_leaf))
insert-get_example =
    insert-get store (λ d. NoneReplaced d)
      (sled_mpt_store-IsLawful list_tree own serialize deserialize (λ d. d) list_tree-IsWritten
        decodes)
      one_leaf (some first_root) (single (key_to_nibbles key_1) (10 ∷ [])) key_2 key_1 (20 ∷ [])
      one_leaf-Represents key_2-IsKey key_1-IsKey one_leaf-Sound inserted-Sound

-- Two accounts whose leaves trade places below the root.
abbrev leaf_a : MptNode
leaf_a = leaf (1 ∷ []) (10 ∷ [])

abbrev leaf_b : MptNode
leaf_b = leaf (1 ∷ []) (20 ∷ [])

abbrev under : MptNode → MptNode → List (Option Hash32)
under a b = some (hash own serialize a) ∷ some (hash own serialize b) ∷ replicate 14 none

abbrev with_root : MptNode → MptNode → Writes
with_root a b =
    (hash own serialize (branch (under a b) none), serialize (branch (under a b) none))
    ∷ (hash own serialize leaf_a, serialize leaf_a)
    ∷ (hash own serialize leaf_b, serialize leaf_b)
    ∷ []

get-Perm_example :
    (hash own serialize (branch (under leaf_a leaf_b) none)
      ≡ hash own serialize (branch (under leaf_b leaf_a) none))
    × (get store
          (some (hash own serialize (branch (under leaf_a leaf_b) none)))
          (1 ∷ [])
          (with_root leaf_a leaf_b)
        ≡ ok (some (10 ∷ [])))
    × (get store
          (some (hash own serialize (branch (under leaf_b leaf_a) none)))
          (1 ∷ [])
          (with_root leaf_b leaf_a)
        ≡ ok (some (20 ∷ [])))
unfolding get_node decode_node latest bytes_ord compare_bytes hash branch_hash key_to_nibbles
    xor_into xor_child xor_children xor_value xor_bits Trie.load
get-Perm_example =
    get-Perm own serialize store (with_root leaf_a leaf_b) (with_root leaf_b leaf_a) none (1 ∷ []) 0
      (1 ∷ []) (hash own serialize leaf_a) (hash own serialize leaf_b) (10 ∷ []) (20 ∷ [])
      (Permᴰ.swap {l = replicate 14 none} refl refl) refl refl refl refl refl refl refl
