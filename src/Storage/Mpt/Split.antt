-- ===== src/Storage/Mpt/Split.antt =====
-- Where an insertion leaves the path of a leaf or an extension: the new branch.
use primus_project.Base.{
  ℕ, suc, ◌+◌, ◌<◌, ◌≡◌, ◌≢◌, ◌∙◌, refl, sym, subst, true, false, inl, inr, ◌⊎◌, Option, none, some,
  List, [], ◌∷◌, ◌++◌, arith, length, get_elem?, take, drop, set, length-set, get_elem?-set_self,
  get_elem?-set_ne, ltb,
}
use primus_project.Base.Outcome.{ok, ◌>>=◌}
use primus_project.Base.Ord.{bytes_ord}
use primus_project.Machine.Word.{Bytes}
use primus_project.Storage.Mpt.{Hash32, leaf, extension, branch, MptStore}
use primus_project.Storage.Mpt.Trie.{starts_with, empty_children, assign, place_leaf, put_branch}
use primus_project.Storage.Mpt.Valid.{
  AllNibbles, IsPath, Contents, Holds, Extends, Extends-trans, IsLawful, Represents, empty, at_leaf,
  at_extension, at_branch, Represents-Extends, Represents-eq,
}
use primus_project.Storage.Mpt.Lookup.{take_append, drop_append}
use primus_project.Storage.Mpt.Parting.{
  update, OnlyAt, Stores, split-IsPath, child-IsPath, starts_with_ne, get_elem?-replicate,
  get_elem?_lt, update_apart, update_here, update_outside,
}

module _ {S : Type 0} (store : MptStore S) {Sound : S → Type 0}
    (lawful : IsLawful store Sound) where
  pub assign-ok :
      (children : List (Option Hash32)) (i : ℕ) (child : Option Hash32)
      → i < length children
      → assign children i child ≡ ok (set children i child)
  unfolding assign
  assign-ok children i child small = ground arith

  pub place_leaf-ok :
      (key : Bytes) (at nibble : ℕ) (suffix value : Bytes) (children placed : List (Option Hash32))
      (branch_value : Option Bytes) (s s1 : S) (h : Hash32)
      → drop at key ≡ nibble ∷ suffix
      → store.put_node (leaf suffix value) s ≡ ok (h, s1)
      → assign children nibble (some h) ≡ ok placed
      → place_leaf store key at value (children, branch_value) s ≡ ok ((placed, branch_value), s1)
  unfolding place_leaf
  place_leaf-ok key at nibble suffix value children placed branch_value s s1 h rest ran done =
      ground arith

  branch-Represents :
      (s : S) (h : Hash32) (children : List (Option Hash32)) (value : Option Bytes) (m : ℕ)
      (f : Contents)
      → Holds store Sound s h (branch children value)
      → length children ≡ 16
      → ((i : ℕ) (child : Option Hash32)
          → get_elem? children i ≡ some child
          → Represents store Sound s child m (λ k. f (i ∷ k)))
      → Represents store Sound s (some h) (suc m) f
  branch-Represents s h children value m f held sixteen rest =
      at_branch children value (λ i k. f (i ∷ k)) held sixteen (λ i k small path. refl) rest

  -- A branch, put under an extension for the nibbles before it.
  put_branch-Stores :
      (s : S) (nibbles common : Bytes) (m n : ℕ) (children : List (Option Hash32))
      (value : Option Bytes) (f : Contents)
      → take (length common) nibbles ≡ common
      → AllNibbles common
      → length common + suc m ≡ n
      → length children ≡ 16
      → ((i : ℕ) (child : Option Hash32)
          → get_elem? children i ≡ some child
          → Represents store Sound s child m (λ k. f (common ++ i ∷ k)))
      → ((k : Bytes) → IsPath n k → starts_with k common ≡ false → f k ≡ none)
      → Stores store Sound s (put_branch store nibbles (length common) (children, value) s) n f
  unfolding put_branch
  put_branch-Stores s nibbles [] m n children value f is_common small sum sixteen rest outside =
      let one_more : suc m ≡ n = omega arith in
      let (h, s1, ran, held, more) = lawful.put_ok (branch children value) s in
      record {
        root = h;
        after = s1;
        ran = ground arith;
        more = more;
        represents =
            subst (λ n. Represents store Sound s1 (some h) n f) one_more
              (branch-Represents s1 h children value m f held sixteen
                (λ i child e. Represents-Extends more (rest i child e)));
      }
  put_branch-Stores s nibbles (x ∷ common) m n children value f is_common small sum sixteen rest
        outside =
      let (h, s1, ran, held, more) = lawful.put_ok (branch children value) s in
      let positive : ltb 0 (length (x ∷ common)) ≡ true = ground arith in
      let (h2, s2, ran2, held2, more2) = lawful.put_ok (extension (x ∷ common) h) s1 in
      record {
        root = h2;
        after = s2;
        ran = rw (is_common, ran, positive) ran2;
        more = Extends-trans store Sound s s1 s2 more more2;
        represents =
            at_extension (x ∷ common) h (length (x ∷ common)) (suc m) (λ k. f ((x ∷ common) ++ k))
              held2 (refl, small) (omega arith) sum
              (record { inside = λ k path. refl; outside = outside })
              (Represents-Extends more2 (
                branch-Represents s1 h children value m (λ k. f ((x ∷ common) ++ k)) held sixteen
                  (λ i child e. Represents-Extends more (rest i child e))));
      }

  module _ (s : S) (common k_rest value : Bytes) (a b m n : ℕ) (old : Hash32) (f : Contents)
      (path : IsPath n (common ++ b ∷ k_rest)) (sum : length common + suc m ≡ n) (small : a < 16)
      (apart : a ≢ b) (old_part : Represents store Sound s (some old) m (λ r. f (common ++ a ∷ r)))
      (only : OnlyAt n common a f) where
    abbrev k : Bytes
    k = common ++ b ∷ k_rest

    abbrev two_children : Hash32 → List (Option Hash32)
    two_children h = set (set empty_children a (some old)) b (some h)

    two_children-sixteen : (h : Hash32) → length (two_children h) ≡ 16
    two_children-sixteen h = omega (
      arith,
      length-set (set empty_children a (some old)) b (some h),
      length-set empty_children a (some old),
    )

    off : (i : ℕ) (r : Bytes) → i < 16 → IsPath m r → i ≢ a → f (common ++ i ∷ r) ≡ none
    off i r i_small r_path differ =
        let (nibbles, _) = split-IsPath common b k_rest m n path sum in
        only (common ++ i ∷ r) (child-IsPath common i r m n nibbles sum i_small r_path)
          (starts_with_ne common r i a differ)

    -- The three kinds of children.
    child-Represents-new :
        (s1 : S) (h : Hash32)
        → Holds store Sound s1 h (leaf k_rest value)
        → Represents store Sound s1 (some h) m (λ r. update k value f (common ++ b ∷ r))
    child-Represents-new s1 h held =
        let (_, (b_small, rest_path)) = split-IsPath common b k_rest m n path sum in
        at_leaf k_rest value held rest_path (λ r r_path.
          update_here common k_rest value b r f (off b r b_small r_path (λ e. apart (sym e))))

    child-Represents-old :
        (s1 : S)
        → Extends store Sound s s1
        → Represents store Sound s1 (some old) m (λ r. update k value f (common ++ a ∷ r))
    child-Represents-old s1 more =
        Represents-eq (λ r r_path. update_apart common k_rest value b a r f (λ e. apart (sym e)))
          (Represents-Extends more old_part)

    child-Represents-none :
        (s1 : S) (i : ℕ)
        → i < 16
        → i ≢ a
        → i ≢ b
        → Represents store Sound s1 none m (λ r. update k value f (common ++ i ∷ r))
    child-Represents-none s1 i i_small off_a off_b = empty (λ r r_path.
        update_apart common k_rest value b i r f (λ e. off_b (sym e))
        ∙ off i r i_small r_path off_a)

    get_elem?-two_children :
        (h : Hash32) (i : ℕ) (child : Option Hash32)
        → get_elem? (two_children h) i ≡ some child
        → ((i ≡ b) × (child ≡ some h))
          ⊎ (((i ≡ a) × (child ≡ some old)) ⊎ (((i ≢ a) × (i ≢ b)) × (child ≡ none)))
    get_elem?-two_children h i child e = ground (
      arith,
      get_elem?-set_self (set empty_children a (some old)) b (some h),
      get_elem?-set_ne (set empty_children a (some old)) b i (some h),
      get_elem?-set_self empty_children a (some old),
      get_elem?-set_ne empty_children a i (some old),
      length-set empty_children a (some old),
      get_elem?-replicate 16 i child,
    )

    child-Represents :
        (s1 : S) (h : Hash32)
        → Extends store Sound s s1
        → Holds store Sound s1 h (leaf k_rest value)
        → (i : ℕ) (child : Option Hash32) → get_elem? (two_children h) i ≡ some child
        → Represents store Sound s1 child m (λ r. update k value f (common ++ i ∷ r))
    child-Represents s1 h more held i child e = elim (get_elem?-two_children h i child e) [
      | inl (at_b, is_h) ↦ rw (at_b, is_h) (child-Represents-new s1 h held)
      | inr (inl (at_a, is_old)) ↦ rw (at_a, is_old) (child-Represents-old s1 more)
      | inr (inr ((off_a, off_b), is_none)) ↦ rw is_none (
          child-Represents-none s1 i
            (omega (arith, get_elem?_lt (two_children h) i child e, two_children-sixteen h)) off_a
            off_b)
    ]

    pub split-Stores :
        Stores store Sound s
          (place_leaf store k (length common) value (set empty_children a (some old), none) s
            >>= λ new. put_branch store k (length common) new.0 new.1)
          n
          (update k value f)
    split-Stores =
        let (nibbles, (b_small, rest_path)) = split-IsPath common b k_rest m n path sum in
        let (h, s1, ran, held, more) = lawful.put_ok (leaf k_rest value) s in
        let placed : assign (set empty_children a (some old)) b (some h) ≡ ok (two_children h) =
          assign-ok (set empty_children a (some old)) b (some h)
            (omega (arith, length-set empty_children a (some old))) in
        let done =
          put_branch-Stores s1 k common m n (two_children h) none (update k value f)
            (take_append common (b ∷ k_rest)) nibbles sum (two_children-sixteen h)
            (child-Represents s1 h more held)
            (λ j j_path. update_outside common k_rest value a b j f (only j j_path)) in
        record {
          root = done.root;
          after = done.after;
          ran =
              rw
                (place_leaf-ok k (length common) b k_rest value (set empty_children a (some old))
                  (two_children h) none s s1 h (drop_append common (b ∷ k_rest)) ran placed)
                done.ran;
          more = Extends-trans store Sound s s1 done.after more done.more;
          represents = done.represents;
        }
