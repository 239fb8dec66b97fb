-- ===== src/Storage/Mpt/Parting.antt =====
-- Keys that part from one another, and contents that change at one key.
use primus_project.Base.{
  ℕ, zero, suc, ◌+◌, ◌≤◌, ◌<◌, ◌≡◌, ◌≢◌, ◌∙◌, refl, sym, subst, ap, true, false, Bool-cases, inl,
  inr, ◌⊎◌, Option, none, some, List, [], ◌∷◌, ◌++◌, arith, length, get_elem?, drop, replicate,
  if◌then◌else◌, length-append, ◌==◌,
}
use primus_project.Base.Outcome.{Result, ok}
use primus_project.Base.Ord.{same, same_iff, same_refl, bytes_ord}
use primus_project.Machine.Word.{Bytes}
use primus_project.Storage.Mpt.{Hash32, TrieError, MptStore, common_prefix}
use primus_project.Storage.Mpt.Trie.{starts_with}
use primus_project.Storage.Mpt.Valid.{
  AllNibbles, AllNibbles-append, IsPath, Contents, single, Extends, Extends-trans, Represents,
}
use primus_project.Storage.Mpt.Lookup.{take_append, starts_with-eq-true}

-- `f` with the value of one key replaced.
abbrev pub update : Bytes → Bytes → Contents → Contents
update key value f k = if same key k then some value else f k

-- A run that leaves a root for the contents `f`, and loses no node.
pub record Stores {S : Type 0} (store : MptStore S) (Sound : S → Type 0) (s : S)
    (r : Result TrieError (Hash32 × S)) (n : ℕ) (f : Contents) : Type 0 where
  pub root : Hash32
  pub after : S
  pub ran : r ≡ ok (root, after)
  pub more : Extends store Sound s after
  pub represents : Represents store Sound after (some root) n f

-- Two keys that part after `common`.
pub record Parts (p k : Bytes) : Type 0 where
  pub common : Bytes
  pub a : ℕ
  pub b : ℕ
  pub p_rest : Bytes
  pub k_rest : Bytes
  pub p_is : p ≡ common ++ a ∷ p_rest
  pub k_is : k ≡ common ++ b ∷ k_rest
  pub apart : a ≢ b
  pub matched : common_prefix p k ≡ length common

pub Parts-cons : (x : ℕ) (p k : Bytes) → Parts p k → Parts (x ∷ p) (x ∷ k)
unfolding common_prefix
Parts-cons x p k parts = record {
  common = x ∷ parts.common;
  a = parts.a;
  b = parts.b;
  p_rest = parts.p_rest;
  k_rest = parts.k_rest;
  p_is = ap (λ r. x ∷ r) parts.p_is;
  k_is = ap (λ r. x ∷ r) parts.k_is;
  apart = parts.apart;
  matched = ground (arith, parts.matched);
}

-- A key at most as long as another is a prefix of it, or parts from it.
pub common_prefix-cases :
    (p k : Bytes)
    → length p ≤ length k
    → ((common_prefix p k ≡ length p) × (k ≡ p ++ drop (length p) k)) ⊎ Parts p k
unfolding common_prefix
common_prefix-cases [] k short = inl (refl, refl)
common_prefix-cases (x ∷ p) [] short = absurd (omega arith)
common_prefix-cases (x ∷ p) (y ∷ k) short = elim (Bool-cases (x == y)) [
  | inl equal ↦
      let x_is_y : x ≡ y = ground arith in
      elim (common_prefix-cases p k (omega arith)) [
        | inl (whole, rest) ↦ inl (ground arith, ground arith)
        | inr parts ↦ inr (subst (λ z. Parts (x ∷ p) (z ∷ k)) x_is_y (Parts-cons x p k parts))
      ]
  | inr differ ↦ inr (record {
    common = [];
    a = x;
    b = y;
    p_rest = p;
    k_rest = k;
    p_is = refl;
    k_is = refl;
    apart = ground arith;
    matched = ground arith;
  })
]

pub get_elem?-replicate :
    (n i : ℕ) (child : Option Hash32) → get_elem? (replicate n none) i ≡ some child → child ≡ none
get_elem?-replicate zero i child e = cc
get_elem?-replicate (suc n) zero child e = cc
get_elem?-replicate (suc n) (suc i) child e = get_elem?-replicate n i child e

pub get_elem?_lt :
    (xs : List (Option Hash32)) (i : ℕ) (child : Option Hash32)
    → get_elem? xs i ≡ some child
    → i < length xs
get_elem?_lt [] i child e = cc
get_elem?_lt (x ∷ xs) zero child e = omega arith
get_elem?_lt (x ∷ xs) (suc i) child e = omega (arith, get_elem?_lt xs i child e)

pub append_cancel : (c x y : Bytes) → c ++ x ≡ c ++ y → x ≡ y
append_cancel [] x y e = e
append_cancel (z ∷ c) x y e = append_cancel c x y cc

pub same-append : (c x y : Bytes) → same (c ++ x) (c ++ y) ≡ same x y
same-append c x y = ground (
  arith,
  same_iff (c ++ x) (c ++ y),
  same_iff x y,
  append_cancel c x y,
  λ (e : x ≡ y). ap (λ r. c ++ r) e,
)

pub same_cons-ne : (a b : ℕ) (x y : Bytes) → a ≢ b → same (a ∷ x) (b ∷ y) ≡ false
same_cons-ne a b x y apart = ground (arith, same_iff (a ∷ x) (b ∷ y))

pub cons_head : (x y : ℕ) (a b : Bytes) → x ∷ a ≡ y ∷ b → x ≡ y
cons_head x y a b e = cc

pub snoc_append : (c r : Bytes) (a : ℕ) → (c ++ a ∷ []) ++ r ≡ c ++ a ∷ r
snoc_append [] r a = refl
snoc_append (z ∷ c) r a = ap (λ t. z ∷ t) (snoc_append c r a)

pub starts_with_append : (c r : Bytes) → starts_with (c ++ r) c ≡ true
unfolding starts_with
starts_with_append c r = rw (take_append c r) (same_refl c)

pub starts_with_shorter :
    (k c : Bytes) (a : ℕ) → starts_with k (c ++ a ∷ []) ≡ true → starts_with k c ≡ true
starts_with_shorter k c a e =
    let rest = drop (length (c ++ a ∷ [])) k in
    let k_is = starts_with-eq-true k (c ++ a ∷ []) e ∙ snoc_append c rest a in
    subst (λ t. starts_with t c ≡ true) (sym k_is) (starts_with_append c (a ∷ rest))

pub starts_with_ne :
    (c r : Bytes) (i a : ℕ) → i ≢ a → starts_with (c ++ i ∷ r) (c ++ a ∷ []) ≡ false
starts_with_ne c r i a apart = elim (Bool-cases (starts_with (c ++ i ∷ r) (c ++ a ∷ []))) [
  | inl hit ↦
      let rest = drop (length (c ++ a ∷ [])) (c ++ i ∷ r) in
      let whole = starts_with-eq-true (c ++ i ∷ r) (c ++ a ∷ []) hit ∙ snoc_append c rest a in
      absurd (apart (cons_head i a r rest (append_cancel c (i ∷ r) (a ∷ rest) whole)))
  | inr miss ↦ miss
]

pub AllNibbles-parts : (a b : Bytes) → AllNibbles (a ++ b) → AllNibbles a × AllNibbles b
AllNibbles-parts [] b p = (tt, p)
AllNibbles-parts (x ∷ a) b p = let (q, r) = AllNibbles-parts a b p.1 in ((p.0, q), r)

pub split-IsPath :
    (common : Bytes) (b : ℕ) (k_rest : Bytes) (m n : ℕ)
    → IsPath n (common ++ b ∷ k_rest)
    → length common + suc m ≡ n
    → AllNibbles common × ((b < 16) × IsPath m k_rest)
split-IsPath common b k_rest m n path sum =
    let (p, q) = AllNibbles-parts common (b ∷ k_rest) path.1 in
    (p, (q.0, (omega (arith, path.0, length-append common (b ∷ k_rest)), q.1)))

pub child-IsPath :
    (common : Bytes) (i : ℕ) (r : Bytes) (m n : ℕ)
    → AllNibbles common
    → length common + suc m ≡ n
    → i < 16
    → IsPath m r
    → IsPath n (common ++ i ∷ r)
child-IsPath common i r m n nibbles sum small path = (
  omega (arith, length-append common (i ∷ r), path.0),
  AllNibbles-append common (i ∷ r) nibbles (small, path.1),
)

-- Replacing the value of one key changes no other.
pub update_other :
    (k value : Bytes) (f : Contents) (j : Bytes) → same k j ≡ false → update k value f j ≡ f j
update_other k value f j differ = rw differ refl

pub update_apart :
    (common k_rest value : Bytes) (b i : ℕ) (r : Bytes) (f : Contents)
    → b ≢ i
    → update (common ++ b ∷ k_rest) value f (common ++ i ∷ r) ≡ f (common ++ i ∷ r)
update_apart common k_rest value b i r f differ =
    update_other (common ++ b ∷ k_rest) value f (common ++ i ∷ r)
      (same-append common (b ∷ k_rest) (i ∷ r) ∙ same_cons-ne b i k_rest r differ)

pub update_here :
    (common k_rest value : Bytes) (b : ℕ) (r : Bytes) (f : Contents)
    → f (common ++ b ∷ r) ≡ none
    → update (common ++ b ∷ k_rest) value f (common ++ b ∷ r) ≡ single k_rest value r
update_here common k_rest value b r f off =
    rw (same-append common (b ∷ k_rest) (b ∷ r), same-append (b ∷ []) k_rest r, off) refl

-- A key that does not go where `common` goes is not the key `common ++ b ∷ k_rest`.
pub update_outside :
    (common k_rest value : Bytes) (a b : ℕ) (j : Bytes) (f : Contents)
    → (starts_with j (common ++ a ∷ []) ≡ false → f j ≡ none)
    → starts_with j common ≡ false
    → update (common ++ b ∷ k_rest) value f j ≡ none
update_outside common k_rest value a b j f only miss =
    update_other (common ++ b ∷ k_rest) value f j (
      ground (
        arith,
        same_iff (common ++ b ∷ k_rest) j,
        starts_with_append common (b ∷ k_rest),
        λ (e : common ++ b ∷ k_rest ≡ j). ap (λ t. starts_with t common) e,
      ))
    ∙ only (ground (arith, starts_with_shorter j common a))

-- The keys outside `common ++ a ∷ []` have no value, in a trie whose path goes there.
abbrev pub OnlyAt : ℕ → Bytes → ℕ → Contents → Type 0
OnlyAt n common a f =
    (k : Bytes) → IsPath n k → starts_with k (common ++ a ∷ []) ≡ false → f k ≡ none

-- The rest of a split: a leaf for `value` beside the child `old`, and the branch over both.

pub same_outside :
    (common rest : Bytes) (a : ℕ) (j : Bytes)
    → starts_with j (common ++ a ∷ []) ≡ false
    → same (common ++ a ∷ rest) j ≡ false
same_outside common rest a j miss = ground (
  arith,
  same_iff (common ++ a ∷ rest) j,
  subst (λ t. starts_with t (common ++ a ∷ []) ≡ true) (snoc_append common rest a)
      (starts_with_append (common ++ a ∷ []) rest),
  λ (e : common ++ a ∷ rest ≡ j). ap (λ t. starts_with t (common ++ a ∷ [])) e,
)

pub single-append :
    (common x value r : Bytes) (a : ℕ)
    → single (common ++ a ∷ x) value (common ++ a ∷ r) ≡ single x value r
single-append common x value r a =
    rw (same-append common (a ∷ x) (a ∷ r), same-append (a ∷ []) x r) refl

-- A run that goes on as another, from a later store.
pub Stores-later :
    {S : Type 0} (store : MptStore S) {Sound : S → Type 0} (s s1 : S)
    (r r1 : Result TrieError (Hash32 × S)) (n : ℕ) (f : Contents)
    → r ≡ r1
    → Extends store Sound s s1
    → Stores store Sound s1 r1 n f
    → Stores store Sound s r n f
Stores-later store {Sound} s s1 r r1 n f same_run more p = record {
  root = p.root;
  after = p.after;
  ran = same_run ∙ p.ran;
  more = Extends-trans store Sound s s1 p.after more p.more;
  represents = p.represents;
}
