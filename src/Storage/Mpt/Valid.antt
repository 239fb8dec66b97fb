-- ===== src/Storage/Mpt/Valid.antt =====
-- Tries that hold keys of one length, in a store that keeps what is put into it.
use primus_project.Base.{
  ℕ, suc, ◌+◌, ◌<◌, ◌≡◌, ◌∙◌, subst, Option, none, some, List, [], ◌∷◌, arith, length, get_elem?,
  length-append, if◌then◌else◌, false, ◌++◌,
}
use primus_project.Base.Outcome.{ok}
use primus_project.Base.Ord.{same, bytes_ord}
use primus_project.Machine.Word.{Bytes}
use primus_project.Storage.Mpt.{Hash32, MptNode, leaf, extension, branch, MptStore}
use primus_project.Storage.Mpt.Trie.{starts_with}

-- While nothing has gone wrong with the store, the node is there.
abbrev pub Holds : {S : Type 0} → MptStore S → (S → Type 0) → S → Hash32 → MptNode → Type 0
Holds store Sound s h node = Sound s → store.get_node h s ≡ ok (some node)

-- From `s` to `s'` no node is lost.
abbrev pub Extends : {S : Type 0} → MptStore S → (S → Type 0) → S → S → Type 0
Extends store Sound s s' =
    (h : Hash32) (node : MptNode) → Holds store Sound s h node → Holds store Sound s' h node

-- What the trie asks of a store: a put succeeds, what is put is there under its hash, and nothing
-- else is lost.
pub record IsLawful {S : Type 0} (store : MptStore S) (Sound : S → Type 0) : Type 0 where
  pub put_ok :
      (node : MptNode) (s : S)
      → (h : Hash32) × (s' : S) × (store.put_node node s ≡ ok (h, s'))
        × Holds store Sound s' h node
        × Extends store Sound s s'

abbrev pub AllNibbles : Bytes → Type 0
AllNibbles [] = Unit
AllNibbles (x ∷ k) = (x < 16) × AllNibbles k

-- `n` nibbles.
abbrev pub IsPath : ℕ → Bytes → Type 0
IsPath n k = (length k ≡ n) × AllNibbles k

pub AllNibbles-append : (a b : Bytes) → AllNibbles a → AllNibbles b → AllNibbles (a ++ b)
AllNibbles-append [] b p q = q
AllNibbles-append (x ∷ a) b p q = (p.0, AllNibbles-append a b p.1 q)

pub IsPath-append : (m n : ℕ) (a b : Bytes) → IsPath m a → IsPath n b → IsPath (m + n) (a ++ b)
IsPath-append m n a b p q =
    (omega (arith, length-append a b, p.0, q.0), AllNibbles-append a b p.1 q.1)

-- What a trie promises: a value for some of the keys of its length.
abbrev pub Contents : Type 0
Contents = Bytes → Option Bytes

abbrev pub no_contents : Contents
no_contents k = none

abbrev pub single : Bytes → Bytes → Contents
single key value k = if same key k then some value else none

-- `f` holds under `prefix` what `g` holds, and nothing else.
pub record IsUnder (n m : ℕ) (prefix : Bytes) (g f : Contents) : Type 0 where
  pub inside : (k : Bytes) → IsPath m k → f (prefix ++ k) ≡ g k
  pub outside : (k : Bytes) → IsPath n k → starts_with k prefix ≡ false → f k ≡ none

-- The node under a root represents the contents `f`, for keys with `n` nibbles to go.
pub data Represents {S : Type 0} (store : MptStore S) (Sound : S → Type 0) (s : S)
    : Option Hash32 → ℕ → Contents → Type 0 where
  empty :
      {n : ℕ} {f : Contents}
      → ((k : Bytes) → IsPath n k → f k ≡ none)
      → Represents store Sound s none n f
  at_leaf :
      {h : Hash32} {n : ℕ} {f : Contents} (key_suffix value : Bytes)
      → Holds store Sound s h (leaf key_suffix value)
      → IsPath n key_suffix
      → ((k : Bytes) → IsPath n k → f k ≡ single key_suffix value k)
      → Represents store Sound s (some h) n f
  at_extension :
      {h : Hash32} {n : ℕ} {f : Contents} (prefix : Bytes) (child : Hash32) (p m : ℕ) (g : Contents)
      → Holds store Sound s h (extension prefix child)
      → IsPath p prefix
      → 0 < p
      → p + m ≡ n
      → IsUnder n m prefix g f
      → Represents store Sound s (some child) m g
      → Represents store Sound s (some h) n f
  at_branch :
      {h : Hash32} {m : ℕ} {f : Contents} (children : List (Option Hash32)) (value : Option Bytes)
      (g : ℕ → Contents)
      → Holds store Sound s h (branch children value)
      → length children ≡ 16
      → ((i : ℕ) (k : Bytes) → i < 16 → IsPath m k → f (i ∷ k) ≡ g i k)
      → ((i : ℕ) (child : Option Hash32)
          → get_elem? children i ≡ some child
          → Represents store Sound s child m (g i))
      → Represents store Sound s (some h) (suc m) f

pub Extends-trans :
    {S : Type 0} (store : MptStore S) (Sound : S → Type 0) (s s' t : S)
    → Extends store Sound s s'
    → Extends store Sound s' t
    → Extends store Sound s t
Extends-trans store Sound s s' t p q h node e = q h node (p h node e)

module _ {S : Type 0} {store : MptStore S} {Sound : S → Type 0} where
  -- A trie stays one while the store grows.
  pub Represents-Extends :
      {s s' : S} {root : Option Hash32} {n : ℕ} {f : Contents}
      → Extends store Sound s s'
      → Represents store Sound s root n f
      → Represents store Sound s' root n f
  Represents-Extends more (empty e) = empty e
  Represents-Extends more (at_leaf {h} key_suffix value held long eq) =
      at_leaf key_suffix value (more h (leaf key_suffix value) held) long eq
  Represents-Extends more
        (at_extension {h} prefix child p m g held long some_prefix sum under rest) =
      at_extension prefix child p m g (more h (extension prefix child) held) long some_prefix sum
        under (Represents-Extends more rest)
  Represents-Extends more (at_branch {h} children value g held sixteen eq rest) =
      at_branch children value g (more h (branch children value) held) sixteen eq
        (λ i child e. Represents-Extends more (rest i child e))

  -- The contents matter only at the keys of the trie's length.
  pub Represents-eq :
      {s : S} {root : Option Hash32} {n : ℕ} {f f' : Contents}
      → ((k : Bytes) → IsPath n k → f' k ≡ f k)
      → Represents store Sound s root n f
      → Represents store Sound s root n f'
  Represents-eq same_f (empty e) = empty (λ k p. same_f k p ∙ e k p)
  Represents-eq same_f (at_leaf key_suffix value held long eq) =
      at_leaf key_suffix value held long (λ k p. same_f k p ∙ eq k p)
  Represents-eq same_f (at_extension prefix child p m g held long some_prefix sum under rest) =
      at_extension prefix child p m g held long some_prefix sum
        (record {
          inside = λ k path.
              same_f (prefix ++ k)
                (subst (λ n. IsPath n (prefix ++ k)) sum (IsPath-append p m prefix k long path))
              ∙ under.inside k path;
          outside = λ k path out. same_f k path ∙ under.outside k path out;
        })
        rest
  Represents-eq same_f (at_branch children value g held sixteen eq rest) =
      at_branch children value g held sixteen
        (λ i k small path.
          same_f (i ∷ k) (omega (arith, path.0), (small, path.1)) ∙ eq i k small path)
        rest
