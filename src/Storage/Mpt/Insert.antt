-- ===== src/Storage/Mpt/Insert.antt =====
-- `insert` replaces the value of one key, and no other.
use primus_project.Base.{
  ℕ, zero, suc, ◌+◌, ◌<◌, ◌≡◌, ◌≢◌, ◌∙◌, refl, sym, subst, ap, false, Bool-cases, inl, inr, Option,
  some, List, [], ◌∷◌, ◌++◌, arith, length, get_elem?, drop, set, if◌then◌else◌, length-append,
  length-set, get_elem?-set_self, get_elem?-set_ne, ◌==◌, ==_iff,
}
use primus_project.Base.Outcome.{Result, ◌>>=◌}
use primus_project.Base.Ord.{same, same_iff, bytes_ord}
use primus_project.Machine.Word.{Bytes}
use primus_project.Storage.Mpt.{Hash32, leaf, extension, branch, TrieError, MptStore, common_prefix}
use primus_project.Storage.Mpt.Trie.{starts_with, assign, split_extension, insert_recursive}
use primus_project.Storage.Mpt.Valid.{
  IsPath, Contents, Holds, Extends, Extends-trans, IsLawful, IsUnder, Represents, empty, at_leaf,
  at_extension, at_branch, Represents-Extends, Represents-eq,
}
use primus_project.Storage.Mpt.Lookup.{get_elem?-some, drop-IsPath, load-Holds}
use primus_project.Storage.Mpt.Parting.{
  update, get_elem?_lt, same_cons-ne, Stores, Parts, common_prefix-cases, same-append,
  starts_with_append, update_other,
}
use primus_project.Storage.Mpt.LeafSplit.{put_leaf-Stores, insert_at_leaf-Stores}
use primus_project.Storage.Mpt.ExtensionSplit.{split_extension-Stores}
use primus_project.Storage.Mpt.Split.{assign-ok}

module _ {S : Type 0} (store : MptStore S) {Sound : S → Type 0}
    (lawful : IsLawful store Sound) where
  -- An extension over the changed child.
  extension-Stores :
      (s : S) (prefix r value : Bytes) (n p m : ℕ) (child : Result TrieError (Hash32 × S))
      (g f : Contents)
      → IsPath p prefix
      → 0 < p
      → p + m ≡ n
      → IsUnder n m prefix g f
      → Stores store Sound s child m (update r value g)
      → Stores store Sound s
          (child >>= λ new. store.put_node (extension prefix new.0) new.1)
          n
          (update (prefix ++ r) value f)
  extension-Stores s prefix r value n p m child g f prefix_path some_prefix sum under done =
      let (h, s1, ran, held, more) = lawful.put_ok (extension prefix done.root) done.after in
      record {
        root = h;
        after = s1;
        ran = rw done.ran ran;
        more = Extends-trans store Sound s done.after s1 done.more more;
        represents =
            at_extension prefix done.root p m (update r value g) held prefix_path some_prefix sum
              (record {
                inside = λ k path.
                    rw (same-append prefix r k)
                      (ap (λ o. if same r k then some value else o) (under.inside k path));
                outside = λ k path miss.
                    update_other (prefix ++ r) value f k (
                      ground (
                        arith,
                        same_iff (prefix ++ r) k,
                        starts_with_append prefix r,
                        λ (e : prefix ++ r ≡ k). ap (λ t. starts_with t prefix) e,
                      ))
                    ∙ under.outside k path miss;
              })
              (Represents-Extends more done.represents);
      }

  -- The children of a branch after one has changed.
  child-Represents :
      (s s1 : S) (children : List (Option Hash32)) (x : ℕ) (r value : Bytes) (m : ℕ) (root : Hash32)
      (g : ℕ → Contents) (f : Contents)
      → length children ≡ 16
      → x < 16
      → ((i : ℕ) (k : Bytes) → i < 16 → IsPath m k → f (i ∷ k) ≡ g i k)
      → ((i : ℕ) (c : Option Hash32)
          → get_elem? children i ≡ some c
          → Represents store Sound s c m (g i))
      → Extends store Sound s s1
      → Represents store Sound s1 (some root) m (update r value (g x))
      → (i : ℕ) (c : Option Hash32) → get_elem? (set children x (some root)) i ≡ some c
      → Represents store Sound s1 c m (λ k. update (x ∷ r) value f (i ∷ k))
  child-Represents s s1 children x r value m root g f sixteen small eq rest more done i c e =
      elim (Bool-cases (x == i)) [
        | inl equal ↦
            let x_is_i : x ≡ i = (==_iff x i).0 equal in
            let c_is : c ≡ some root = ground (arith, get_elem?-set_self children x (some root)) in
            subst (λ i. Represents store Sound s1 c m (λ k. update (x ∷ r) value f (i ∷ k))) x_is_i
              (rw c_is (
                Represents-eq
                  (λ k path.
                    rw (same-append (x ∷ []) r k)
                      (ap (λ o. if same r k then some value else o) (eq x k small path)))
                  done))
        | inr differ ↦
            let apart : x ≢ i = ground (arith, ==_iff x i) in
            let kept : get_elem? children i ≡ some c =
              sym (get_elem?-set_ne children x i (some root) apart) ∙ e in
            let i_small : i < 16 = omega (arith, get_elem?_lt children i c kept) in
            Represents-eq
              (λ k path.
                update_other (x ∷ r) value f (i ∷ k) (same_cons-ne x i r k apart)
                ∙ eq i k i_small path)
              (Represents-Extends more (rest i c kept))
      ]

  -- A branch over the changed child.
  branch-Stores :
      (s : S) (children : List (Option Hash32)) (old_value : Option Bytes) (x : ℕ) (r value : Bytes)
      (m : ℕ) (child : Result TrieError (Hash32 × S)) (g : ℕ → Contents) (f : Contents)
      → length children ≡ 16
      → x < 16
      → ((i : ℕ) (k : Bytes) → i < 16 → IsPath m k → f (i ∷ k) ≡ g i k)
      → ((i : ℕ) (c : Option Hash32)
          → get_elem? children i ≡ some c
          → Represents store Sound s c m (g i))
      → Stores store Sound s child m (update r value (g x))
      → Stores store Sound s
          (child >>= λ new. assign children x (some new.0) >>= λ placed.
            store.put_node (branch placed old_value) new.1)
          (suc m)
          (update (x ∷ r) value f)
  branch-Stores s children old_value x r value m child g f sixteen small eq rest done =
      let placed = set children x (some done.root) in
      let (h, s1, ran, held, more) = lawful.put_ok (branch placed old_value) done.after in
      record {
        root = h;
        after = s1;
        ran = rw (done.ran, assign-ok store lawful children x (some done.root) (omega arith)) ran;
        more = Extends-trans store Sound s done.after s1 done.more more;
        represents =
            at_branch placed old_value (λ i k. update (x ∷ r) value f (i ∷ k)) held
              (length-set children x (some done.root) ∙ sixteen) (λ i k i_small path. refl)
              (child-Represents s s1 children x r value m done.root g f sixteen small eq rest
                (Extends-trans store Sound s done.after s1 done.more more)
                (Represents-Extends more done.represents));
      }

  insert_recursive-whole :
      (fuel : ℕ) (h child : Hash32) (prefix k value : Bytes) (s : S) (sound : Sound s)
      → Holds store Sound s h (extension prefix child)
      → common_prefix prefix k ≡ length prefix
      → insert_recursive store (suc fuel) (some h) k value s ≡ (
          insert_recursive store fuel (some child) (drop (length prefix) k) value s >>= λ new.
          store.put_node (extension prefix new.0) new.1)
  unfolding insert_recursive
  insert_recursive-whole fuel h child prefix k value s sound held whole =
      rw
        (
          load-Holds store Sound s sound h (extension prefix child) held,
          whole,
          (==_iff (length prefix) (length prefix)).1 refl,
        )
        refl

  insert_recursive-Parts :
      (fuel : ℕ) (h child : Hash32) (prefix k value : Bytes) (s : S) (sound : Sound s)
      (parts : Parts prefix k)
      → Holds store Sound s h (extension prefix child)
      → insert_recursive store (suc fuel) (some h) k value s
        ≡ split_extension store prefix child k (length parts.common) value s
  unfolding insert_recursive
  insert_recursive-Parts fuel h child prefix k value s sound parts held =
      let short : (length parts.common == length prefix) ≡ false = ground (
        arith,
        ap length parts.p_is,
        length-append parts.common (parts.a ∷ parts.p_rest),
        ==_iff (length parts.common) (length prefix),
      ) in
      rw (load-Holds store Sound s sound h (extension prefix child) held, parts.matched, short) refl

  pub insert_recursive-Stores :
      {s : S} {root : Option Hash32} {n : ℕ} {f : Contents} (sound : Sound s) (fuel : ℕ)
      (k value : Bytes)
      → Represents store Sound s root n f
      → IsPath n k
      → n < fuel
      → Stores store Sound s (insert_recursive store fuel root k value s) n (update k value f)
  unfolding insert_recursive
  insert_recursive-Stores {s} {n = n} {f = f} sound fuel k value (empty e) path enough =
      put_leaf-Stores store lawful s k value n (update k value f) path
        (λ j j_path. ap (λ o. if same k j then some value else o) (e j j_path))
  insert_recursive-Stores sound zero k value r path enough = absurd (omega arith)
  insert_recursive-Stores {s} {n = n} {f = f} sound (suc fuel) k value
        (at_leaf {h} key_suffix old held suffix_path eq) path enough =
      rw (load-Holds store Sound s sound h (leaf key_suffix old) held)
        (insert_at_leaf-Stores store lawful s key_suffix old k value n f suffix_path path eq)
  insert_recursive-Stores {s} {n = n} {f = f} sound (suc fuel) k value
        (at_extension {h} prefix child p m g held prefix_path some_prefix sum under rest) path
        enough =
      elim (common_prefix-cases prefix k (omega (arith, prefix_path.0, path.0))) [
        | inl (whole, k_is) ↦
            let r = drop (length prefix) k in
            let r_path = drop-IsPath p m prefix k prefix_path.0 (path.0 ∙ sym sum, path.1) in
            let done =
              extension-Stores s prefix r value n p m
                (insert_recursive store fuel (some child) r value s) g f prefix_path some_prefix sum
                under (insert_recursive-Stores sound fuel r value rest r_path (omega arith)) in
            rw (insert_recursive-whole fuel h child prefix k value s sound held whole) (
              subst
                (λ t.
                  Stores store Sound s
                    (insert_recursive store fuel (some child) r value s >>= λ new.
                      store.put_node (extension prefix new.0) new.1)
                    n (update t value f))
                (sym k_is) done)
        | inr parts ↦ rw (insert_recursive-Parts fuel h child prefix k value s sound parts held) (
            split_extension-Stores store lawful s prefix k value n p m child g f prefix_path sum
              path under rest parts)
      ]
  insert_recursive-Stores sound (suc fuel) [] value (at_branch children old g held sixteen eq rest)
        path enough =
      absurd (omega (arith, path.0))
  insert_recursive-Stores {s} sound (suc fuel) (x ∷ k) value
        (at_branch {h} {m} {f} children old g held sixteen eq rest) path enough =
      let (child, at) = get_elem?-some children x (omega (arith, path.1.0)) in
      rw (load-Holds store Sound s sound h (branch children old) held) (
        rw at (
          branch-Stores s children old x k value m (insert_recursive store fuel child k value s) g f
            sixteen path.1.0 eq rest
            (insert_recursive-Stores sound fuel k value (rest x child at)
              (omega (arith, path.0), path.1.1) (omega (arith, path.0)))))
