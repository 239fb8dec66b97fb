-- ===== src/Storage/Mpt/Lookup.antt =====
-- `get_recursive` reads the contents that a trie represents.
use primus_project.Base.{
  ℕ, zero, suc, ◌+◌, ◌<◌, ◌≡◌, ◌∙◌, refl, sym, ap, true, Bool-cases, inl, inr, Option, some, List,
  [], ◌∷◌, ◌++◌, arith, length, get_elem?, take, drop, length-drop, take-append-drop,
}
use primus_project.Base.Outcome.{ok}
use primus_project.Base.Ord.{same_iff, bytes_ord}
use primus_project.Machine.Word.{Bytes}
use primus_project.Storage.Mpt.{Hash32, MptNode, leaf, extension, branch, MptStore}
use primus_project.Storage.Mpt.Trie.{starts_with, load, get_recursive}
use primus_project.Storage.Mpt.Valid.{
  AllNibbles, IsPath, Contents, Holds, Represents, empty, at_leaf, at_extension, at_branch,
}

pub take_append : (a b : Bytes) → take (length a) (a ++ b) ≡ a
take_append [] b = refl
take_append (x ∷ a) b = ap (λ r. x ∷ r) (take_append a b)

pub drop_append : (a b : Bytes) → drop (length a) (a ++ b) ≡ b
drop_append [] b = refl
drop_append (x ∷ a) b = drop_append a b

AllNibbles-drop : (n : ℕ) (k : Bytes) → AllNibbles k → AllNibbles (drop n k)
AllNibbles-drop zero k p = p
AllNibbles-drop (suc n) [] p = p
AllNibbles-drop (suc n) (x ∷ k) p = AllNibbles-drop n k p.1

-- A key that starts with a prefix is the prefix with the rest after it.
pub starts_with-eq-true :
    (k prefix : Bytes) → starts_with k prefix ≡ true → k ≡ prefix ++ drop (length prefix) k
unfolding starts_with
starts_with-eq-true k prefix e =
    sym (take-append-drop (length prefix) k)
    ∙ ap (λ a. a ++ drop (length prefix) k) ((same_iff (take (length prefix) k) prefix).0 e)

pub get_elem?-some :
    {A : Type 0} (xs : List A) (i : ℕ) → i < length xs → (a : A) × (get_elem? xs i ≡ some a)
get_elem?-some [] i small = absurd (omega arith)
get_elem?-some (x ∷ xs) zero small = (x, refl)
get_elem?-some (x ∷ xs) (suc i) small = get_elem?-some xs i (omega arith)

pub drop-IsPath :
    (p m : ℕ) (prefix k : Bytes)
    → length prefix ≡ p
    → IsPath (p + m) k
    → IsPath m (drop (length prefix) k)
drop-IsPath p m prefix k long path =
    (omega (arith, length-drop (length prefix) k, path.0), AllNibbles-drop (length prefix) k path.1)

module _ {S : Type 0} (store : MptStore S) (Sound : S → Type 0) (s : S) (sound : Sound s) where
  pub load-Holds :
      (h : Hash32) (node : MptNode) → Holds store Sound s h node → load store h s ≡ ok node
  unfolding load
  load-Holds h node held = ground (arith, held sound)

  pub get_recursive-Represents :
      {root : Option Hash32} {n : ℕ} {f : Contents} (fuel : ℕ) (k : Bytes)
      → Represents store Sound s root n f
      → IsPath n k
      → n < fuel
      → get_recursive store fuel root k s ≡ ok (f k)
  unfolding get_recursive
  get_recursive-Represents fuel k (empty e) path enough = ap (λ o. ok o) (sym (e k path))
  get_recursive-Represents zero k r path enough = absurd (omega arith)
  get_recursive-Represents (suc fuel) k (at_leaf {h} key_suffix value held long eq) path enough =
      rw (load-Holds h (leaf key_suffix value) held) (ap (λ o. ok o) (sym (eq k path)))
  get_recursive-Represents (suc fuel) k
        (at_extension {h} {n} {f} prefix child p m g held long some_prefix sum under rest) path
        enough =
      rw (load-Holds h (extension prefix child) held) (elim (Bool-cases (starts_with k prefix)) [
        | inl hit ↦
            let left = drop (length prefix) k in
            let left_path : IsPath m left =
              drop-IsPath p m prefix k (long.0) (path.0 ∙ sym sum, path.1) in
            let splits = starts_with-eq-true k prefix hit in
            rw hit (
              get_recursive-Represents fuel left rest left_path (omega arith)
              ∙ ap (λ o. ok o) (sym (under.inside left left_path) ∙ ap f (sym splits)))
        | inr miss ↦ rw miss (ap (λ o. ok o) (sym (under.outside k path miss)))
      ])
  get_recursive-Represents (suc fuel) [] (at_branch {h} {m} children value g held sixteen eq rest)
        path enough =
      absurd (omega (arith, path.0))
  get_recursive-Represents (suc fuel) (x ∷ k)
        (at_branch {h} {m} children value g held sixteen eq rest) path enough =
      let (child, at) = get_elem?-some children x (omega (arith, path.1.0)) in
      let read =
        get_recursive-Represents fuel k (rest x child at) (omega (arith, path.0), path.1.1)
          (omega (arith, path.0)) in
      rw (load-Holds h (branch children value) held)
        (rw at (read ∙ ap (λ o. ok o) (sym (eq x k path.1.0 (omega (arith, path.0), path.1.1)))))
