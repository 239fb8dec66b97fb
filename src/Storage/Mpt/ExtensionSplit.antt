-- ===== src/Storage/Mpt/ExtensionSplit.antt =====
-- An insertion at an extension.
use primus_project.Base.{
  ℕ, suc, ◌+◌, ◌<◌, ◌≡◌, ◌∙◌, refl, sym, subst, ap, true, false, Bool-cases, inl, inr, none, some,
  [], ◌∷◌, ◌++◌, arith, length, get_elem?, drop, set, length-append, ◌==◌,
}
use primus_project.Base.Outcome.{ok, ◌>>=◌}
use primus_project.Base.Ord.{bytes_ord}
use primus_project.Machine.Word.{Bytes}
use primus_project.Storage.Mpt.{Hash32, extension, MptStore}
use primus_project.Storage.Mpt.Trie.{
  starts_with, empty_children, place_leaf, put_branch, shorten, split_extension,
}
use primus_project.Storage.Mpt.Valid.{
  AllNibbles, IsPath, Contents, IsLawful, IsUnder, Represents, at_extension, Represents-Extends,
  Represents-eq,
}
use primus_project.Storage.Mpt.Lookup.{starts_with-eq-true}
use primus_project.Storage.Mpt.Parting.{
  update, OnlyAt, child-IsPath, Stores-later, Stores, Parts, starts_with_append, AllNibbles-parts,
  snoc_append, append_cancel,
}
use primus_project.Storage.Mpt.Split.{assign-ok, split-Stores}

pub append_assoc : (a b c : Bytes) → (a ++ b) ++ c ≡ a ++ (b ++ c)
append_assoc [] b c = refl
append_assoc (x ∷ a) b c = ap (λ r. x ∷ r) (append_assoc a b c)

starts_with_left : (k x y : Bytes) → starts_with k (x ++ y) ≡ true → starts_with k x ≡ true
starts_with_left k x y e =
    let rest = drop (length (x ++ y)) k in
    let k_is = starts_with-eq-true k (x ++ y) e ∙ append_assoc x y rest in
    subst (λ t. starts_with t x ≡ true) (sym k_is) (starts_with_append x (y ++ rest))

drop-suc : (c q : Bytes) (a : ℕ) → drop (suc (length c)) (c ++ a ∷ q) ≡ q
drop-suc [] q a = refl
drop-suc (x ∷ c) q a = drop-suc c q a

cons_tail : (x y : ℕ) (a b : Bytes) → x ∷ a ≡ y ∷ b → a ≡ b
cons_tail x y a b e = cc

starts_with_below :
    (c k q : Bytes) (a : ℕ)
    → starts_with k q ≡ false
    → starts_with (c ++ a ∷ k) (c ++ a ∷ q) ≡ false
starts_with_below c k q a miss = elim (Bool-cases (starts_with (c ++ a ∷ k) (c ++ a ∷ q))) [
  | inl hit ↦
      let rest = drop (length (c ++ a ∷ q)) (c ++ a ∷ k) in
      let whole = starts_with-eq-true (c ++ a ∷ k) (c ++ a ∷ q) hit ∙ append_assoc c (a ∷ q) rest in
      let k_is : k ≡ q ++ rest =
        cons_tail a a k (q ++ rest) (append_cancel c (a ∷ k) (a ∷ (q ++ rest)) whole) in
      let found = subst (λ t. starts_with t q ≡ true) (sym k_is) (starts_with_append q rest) in
      absurd (ground arith)
  | inr off ↦ off
]

module _ {S : Type 0} (store : MptStore S) {Sound : S → Type 0}
    (lawful : IsLawful store Sound) where
  -- What is left of an extension after the split.
  shorten-Stores :
      (s : S) (common p_rest : Bytes) (a m m' n : ℕ) (child : Hash32) (g f : Contents)
      → AllNibbles p_rest
      → length p_rest + m ≡ m'
      → length common + suc m' ≡ n
      → AllNibbles common
      → a < 16
      → IsUnder n m (common ++ a ∷ p_rest) g f
      → Represents store Sound s (some child) m g
      → Stores store Sound s
          (shorten store (common ++ a ∷ p_rest) (length common) child s)
          m'
          (λ r. f (common ++ a ∷ r))
  unfolding shorten
  shorten-Stores s common [] a m m' n child g f small sum whole nibbles a_small under rest =
      let one : (suc (length common) == length (common ++ a ∷ [])) ≡ true =
        ground (arith, length-append common (a ∷ [])) in
      let m_is : m ≡ m' = omega arith in
      record {
        root = child;
        after = s;
        ran = rw one refl;
        more = λ h node held. held;
        represents =
            subst (λ n. Represents store Sound s (some child) n (λ r. f (common ++ a ∷ r))) m_is
              (Represents-eq (λ r path. ap f (sym (snoc_append common r a)) ∙ under.inside r path)
                rest);
      }
  shorten-Stores s common (x ∷ p_rest) a m m' n child g f small sum whole nibbles a_small under
        rest =
      let more_than_one : (suc (length common) == length (common ++ a ∷ x ∷ p_rest)) ≡ false =
        ground (arith, length-append common (a ∷ x ∷ p_rest)) in
      let (h, s1, ran, held, more) = lawful.put_ok (extension (x ∷ p_rest) child) s in
      record {
        root = h;
        after = s1;
        ran = rw (more_than_one, drop-suc common (x ∷ p_rest) a) ran;
        more = more;
        represents =
            at_extension (x ∷ p_rest) child (length (x ∷ p_rest)) m g held (refl, small)
              (omega arith) sum
              (record {
                inside = λ k path.
                    ap f (sym (append_assoc common (a ∷ x ∷ p_rest) k)) ∙ under.inside k path;
                outside = λ k path miss.
                    under.outside (common ++ a ∷ k)
                      (child-IsPath common a k m' n nibbles whole a_small path)
                      (starts_with_below common k (x ∷ p_rest) a miss);
              })
              (Represents-Extends more rest);
      }

  extension-OnlyAt :
      (n m : ℕ) (common p_rest : Bytes) (a : ℕ) (g f : Contents)
      → IsUnder n m (common ++ a ∷ p_rest) g f
      → OnlyAt n common a f
  extension-OnlyAt n m common p_rest a g f under j path miss =
      under.outside j path (elim (Bool-cases (starts_with j (common ++ a ∷ p_rest))) [
        | inl hit ↦
            let found =
              starts_with_left j (common ++ a ∷ []) p_rest
                (subst (λ t. starts_with j t ≡ true) (sym (snoc_append common p_rest a)) hit) in
            absurd (ground arith)
        | inr off ↦ off
      ])

  get_elem?-append : (c q : Bytes) (a : ℕ) → get_elem? (c ++ a ∷ q) (length c) ≡ some a
  get_elem?-append [] q a = refl
  get_elem?-append (x ∷ c) q a = get_elem?-append c q a

  split_extension-step :
      (s s1 : S) (common p_rest k value : Bytes) (a : ℕ) (child old : Hash32)
      → shorten store (common ++ a ∷ p_rest) (length common) child s ≡ ok (old, s1)
      → a < 16
      → split_extension store (common ++ a ∷ p_rest) child k (length common) value s ≡ (
          place_leaf store k (length common) value (set empty_children a (some old), none) s1
          >>= λ new. put_branch store k (length common) new.0 new.1)
  unfolding split_extension
  split_extension-step s s1 common p_rest k value a child old ran small =
      rw
        (
          get_elem?-append common p_rest a,
          ran,
          assign-ok store lawful empty_children a (some old) small,
        )
        refl

  pub split_extension-Stores :
      (s : S) (prefix k value : Bytes) (n p m : ℕ) (child : Hash32) (g f : Contents)
      → IsPath p prefix
      → p + m ≡ n
      → IsPath n k
      → IsUnder n m prefix g f
      → Represents store Sound s (some child) m g
      → (parts : Parts prefix k)
      → Stores store Sound s
          (split_extension store prefix child k (length parts.common) value s)
          n
          (update k value f)
  split_extension-Stores s prefix k value n p m child g f prefix_path sum path under rest parts =
      let prefix_path' = subst (λ t. IsPath p t) parts.p_is prefix_path in
      let path' = subst (λ t. IsPath n t) parts.k_is path in
      let under' = subst (λ t. IsUnder n m t g f) parts.p_is under in
      let m' = length parts.p_rest + m in
      let whole : length parts.common + suc m' ≡ n =
        omega (arith, prefix_path'.0, length-append parts.common (parts.a ∷ parts.p_rest)) in
      let (nibbles, p_small) =
        AllNibbles-parts parts.common (parts.a ∷ parts.p_rest) prefix_path'.1 in
      let short =
        shorten-Stores s parts.common parts.p_rest parts.a m m' n child g f p_small.1 refl whole
          nibbles p_small.0 under' rest in
      let done =
        split-Stores store lawful short.after parts.common parts.k_rest value parts.a parts.b m' n
          short.root f path' whole p_small.0 parts.apart short.represents
          (extension-OnlyAt n m parts.common parts.p_rest parts.a g f under') in
      let split =
        Stores-later store s short.after
          (split_extension store (parts.common ++ parts.a ∷ parts.p_rest) child
            (parts.common ++ parts.b ∷ parts.k_rest) (length parts.common) value s)
          _ n (update (parts.common ++ parts.b ∷ parts.k_rest) value f)
          (split_extension-step s short.after parts.common parts.p_rest
            (parts.common ++ parts.b ∷ parts.k_rest) value parts.a child short.root short.ran
            p_small.0)
          short.more done in
      subst
        (λ q.
          Stores store Sound s (split_extension store q child k (length parts.common) value s) n
            (update k value f))
        (sym parts.p_is)
        (subst
          (λ t.
            Stores store Sound s
              (split_extension store (parts.common ++ parts.a ∷ parts.p_rest) child t
                (length parts.common) value s)
              n (update t value f))
          (sym parts.k_is) split)
