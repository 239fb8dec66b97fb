-- ===== src/Storage/Mpt/LeafSplit.antt =====
-- An insertion at a leaf.
use primus_project.Base.{
  ℕ, suc, ◌+◌, ◌≡◌, ◌∙◌, refl, sym, subst, ap, false, inl, inr, Option, none, some, List, [], ◌∷◌,
  ◌++◌, arith, length, drop, set, if◌then◌else◌, ◌&&◌, length-append, length-drop, ◌==◌,
}
use primus_project.Base.Outcome.{ok, ◌>>=◌}
use primus_project.Base.Ord.{bytes_ord}
use primus_project.Machine.Word.{Bytes}
use primus_project.Storage.Mpt.{Hash32, leaf, MptStore, common_prefix}
use primus_project.Storage.Mpt.Trie.{empty_children, assign, place_leaf, put_branch, insert_at_leaf}
use primus_project.Storage.Mpt.Valid.{IsPath, Contents, single, IsLawful, Represents, at_leaf}
use primus_project.Storage.Mpt.Lookup.{drop_append}
use primus_project.Storage.Mpt.Parting.{
  update, OnlyAt, same_outside, single-append, child-IsPath, Stores-later, Stores, Parts,
  common_prefix-cases, split-IsPath,
}
use primus_project.Storage.Mpt.Split.{assign-ok, place_leaf-ok, split-Stores}

pub length_zero : (xs : Bytes) → length xs ≡ 0 → xs ≡ []
length_zero [] e = refl
length_zero (x ∷ xs) e = absurd (omega arith)

pub append_nil : (xs : Bytes) → xs ++ [] ≡ xs
append_nil [] = refl
append_nil (x ∷ xs) = ap (λ r. x ∷ r) (append_nil xs)

module _ {S : Type 0} (store : MptStore S) {Sound : S → Type 0}
    (lawful : IsLawful store Sound) where
  pub put_leaf-Stores :
      (s : S) (k value : Bytes) (n : ℕ) (f : Contents)
      → IsPath n k
      → ((j : Bytes) → IsPath n j → f j ≡ single k value j)
      → Stores store Sound s (store.put_node (leaf k value) s) n f
  put_leaf-Stores s k value n f path eq =
      let (h, s1, ran, held, more) = lawful.put_ok (leaf k value) s in
      record {
        root = h;
        after = s1;
        ran = ran;
        more = more;
        represents = at_leaf k value held path eq;
      }

  insert_at_leaf-whole :
      (s : S) (key_suffix old_value value : Bytes)
      → common_prefix key_suffix key_suffix ≡ length key_suffix
      → insert_at_leaf store key_suffix old_value key_suffix value s
        ≡ store.put_node (leaf key_suffix value) s
  unfolding insert_at_leaf
  insert_at_leaf-whole s key_suffix old_value value whole = ground arith

  insert_at_leaf-Parts :
      (s s1 : S) (key_suffix old_value k value : Bytes) (parts : Parts key_suffix k) (h : Hash32)
      (placed : List (Option Hash32))
      → length key_suffix ≡ length k
      → store.put_node (leaf parts.p_rest old_value) s ≡ ok (h, s1)
      → assign empty_children parts.a (some h) ≡ ok placed
      → insert_at_leaf store key_suffix old_value k value s ≡ (
          place_leaf store k (length parts.common) value (placed, none) s1 >>= λ new.
          put_branch store k (length parts.common) new.0 new.1)
  unfolding insert_at_leaf
  insert_at_leaf-Parts s s1 key_suffix old_value k value parts h placed long ran done =
      let short : (common_prefix key_suffix k == length key_suffix
            && common_prefix key_suffix k == length k)
          ≡ false =
        ground (
          arith,
          parts.matched,
          ap length parts.p_is,
          length-append parts.common (parts.a ∷ parts.p_rest),
        ) in
      let rest : drop (length parts.common) key_suffix ≡ parts.a ∷ parts.p_rest =
        ap (λ t. drop (length parts.common) t) parts.p_is
        ∙ drop_append parts.common (parts.a ∷ parts.p_rest) in
      let old =
        place_leaf-ok store lawful key_suffix (length parts.common) parts.a parts.p_rest old_value
          empty_children placed none s s1 h rest ran done in
      rw (short, parts.matched, old) refl

  insert_at_leaf-Stores_whole :
      (s : S) (key_suffix old_value k value : Bytes) (n : ℕ) (f : Contents)
      → IsPath n key_suffix
      → IsPath n k
      → ((j : Bytes) → IsPath n j → f j ≡ single key_suffix old_value j)
      → common_prefix key_suffix k ≡ length key_suffix
      → k ≡ key_suffix
      → Stores store Sound s
          (insert_at_leaf store key_suffix old_value k value s)
          n
          (update k value f)
  insert_at_leaf-Stores_whole s key_suffix old_value k value n f suffix_path path eq whole equal =
      let own : common_prefix key_suffix key_suffix ≡ length key_suffix =
        subst (λ t. common_prefix key_suffix t ≡ length key_suffix) equal whole in
      subst
        (λ t.
          Stores store Sound s (insert_at_leaf store key_suffix old_value t value s) n
            (update t value f))
        (sym equal)
        (rw (insert_at_leaf-whole s key_suffix old_value value own) (
          put_leaf-Stores s key_suffix value n (update key_suffix value f) suffix_path
            (λ j j_path. ground (arith, eq j j_path))))

  single-OnlyAt :
      (n : ℕ) (common rest value : Bytes) (a : ℕ) (f : Contents)
      → ((j : Bytes) → IsPath n j → f j ≡ single (common ++ a ∷ rest) value j)
      → OnlyAt n common a f
  single-OnlyAt n common rest value a f eq j path miss =
      eq j path ∙ ap (λ c. if c then some value else none) (same_outside common rest a j miss)

  insert_at_leaf-Stores-Parts :
      (s : S) (key_suffix old_value k value : Bytes) (n : ℕ) (f : Contents)
      → IsPath n key_suffix
      → IsPath n k
      → ((j : Bytes) → IsPath n j → f j ≡ single key_suffix old_value j)
      → Parts key_suffix k
      → Stores store Sound s
          (insert_at_leaf store key_suffix old_value k value s)
          n
          (update k value f)
  insert_at_leaf-Stores-Parts s key_suffix old_value k value n f suffix_path path eq parts =
      let suffix_path' = subst (λ t. IsPath n t) parts.p_is suffix_path in
      let path' = subst (λ t. IsPath n t) parts.k_is path in
      let m = length parts.p_rest in
      let sum : length parts.common + suc m ≡ n =
        omega (arith, suffix_path'.0, length-append parts.common (parts.a ∷ parts.p_rest)) in
      let (nibbles, (small, rest_path)) =
        split-IsPath parts.common parts.a parts.p_rest m n suffix_path' sum in
      let (h, s1, ran, held, more) = lawful.put_ok (leaf parts.p_rest old_value) s in
      let placed = assign-ok store lawful empty_children parts.a (some h) small in
      let eq' : (j : Bytes)
          → IsPath n j
          → f j ≡ single (parts.common ++ parts.a ∷ parts.p_rest) old_value j =
        subst (λ t. (j : Bytes) → IsPath n j → f j ≡ single t old_value j) parts.p_is eq in
      let old_part : Represents store Sound s1 (some h) m (λ r. f (parts.common ++ parts.a ∷ r)) =
        at_leaf parts.p_rest old_value held rest_path (λ r r_path.
          eq' (parts.common ++ parts.a ∷ r)
            (child-IsPath parts.common parts.a r m n nibbles sum small r_path)
          ∙ single-append parts.common parts.p_rest old_value r parts.a) in
      let done =
        split-Stores store lawful s1 parts.common parts.k_rest value parts.a parts.b m n h f path'
          sum small parts.apart old_part
          (single-OnlyAt n parts.common parts.p_rest old_value parts.a f eq') in
      Stores-later store s s1 (insert_at_leaf store key_suffix old_value k value s) _ n
        (update k value f)
        (insert_at_leaf-Parts s s1 key_suffix old_value k value parts h
          (set empty_children parts.a (some h)) (omega (arith, suffix_path.0, path.0)) ran placed)
        more
        (subst
          (λ t.
            Stores store Sound s1
              (place_leaf store t (length parts.common) value
                  (set empty_children parts.a (some h), none) s1
                >>= λ new. put_branch store t (length parts.common) new.0 new.1)
              n (update t value f))
          (sym parts.k_is) done)

  pub insert_at_leaf-Stores :
      (s : S) (key_suffix old_value k value : Bytes) (n : ℕ) (f : Contents)
      → IsPath n key_suffix
      → IsPath n k
      → ((j : Bytes) → IsPath n j → f j ≡ single key_suffix old_value j)
      → Stores store Sound s
          (insert_at_leaf store key_suffix old_value k value s)
          n
          (update k value f)
  insert_at_leaf-Stores s key_suffix old_value k value n f suffix_path path eq =
      elim (common_prefix-cases key_suffix k (omega (arith, suffix_path.0, path.0))) [
        | inl (whole, rest) ↦
            insert_at_leaf-Stores_whole s key_suffix old_value k value n f suffix_path path eq whole
              (rest
                ∙ ap (λ r. key_suffix ++ r)
                    (length_zero (drop (length key_suffix) k)
                      (omega (arith, length-drop (length key_suffix) k, suffix_path.0, path.0)))
                ∙ append_nil key_suffix)
        | inr parts ↦
            insert_at_leaf-Stores-Parts s key_suffix old_value k value n f suffix_path path eq parts
      ]
