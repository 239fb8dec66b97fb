-- ===== src/Core/Crystal/Pow.antt =====
-- The proof of work as an order on byte strings, and the search for a nonce.
use primus_project.Base.{
  ℕ, zero, suc, ◌-◌, Bool-cases, inl, inr, ◌≤◌, ◌<◌, ◌≡◌, ◌∙◌, sym, ap, ◌↔◌, ◌≢◌, true, false, [],
  ◌∷◌, ◌++◌, arith, length, replicate, set, length-append, length-replicate, length-set,
}
use primus_project.Base.Ord.{compare_bytes}
use Prim.Native.Nat.Ordering.{gt}
use primus_project.Machine.Word.{Bytes}
use primus_project.Machine.Float.{F32}
use primus_project.Types.Crypto.{Hashes}
use primus_project.Core.Crystal.{
  Crystal, calculate_density, calculate_target, leading_zeros, meets, check_proof_of_work,
  search_nonce, wrapping_suc,
}

meets-compare :
    (hash target : Bytes)
    → length hash ≡ length target
    → (meets hash target ≡ true) ↔ (compare_bytes hash target ≢ gt)
unfolding meets compare_bytes
meets-compare [] [] e = ground arith
meets-compare [] (t ∷ target) e = absurd (omega arith)
meets-compare (h ∷ hash) [] e = absurd (omega arith)
meets-compare (h ∷ hash) (t ∷ target) e = ground (arith, meets-compare hash target)

leading_zeros-le : (temp diff : F32) → leading_zeros temp diff ≤ 4
unfolding leading_zeros
leading_zeros-le temp diff = omega arith

length-set_zeros :
    (zeros v : ℕ)
    → zeros ≤ 4
    → length (set (replicate zeros 0 ++ replicate (32 - zeros) 255) zeros v) ≡ 32
length-set_zeros zeros v small =
    length-set (replicate zeros 0 ++ replicate (32 - zeros) 255) zeros v
    ∙ length-append (replicate zeros 0) (replicate (32 - zeros) 255)
    ∙ omega (arith, length-replicate {A = ℕ} zeros 0, length-replicate {A = ℕ} (32 - zeros) 255)

length-calculate_target : (temp diff : F32) → length (calculate_target temp diff) ≡ 32
unfolding calculate_target
length-calculate_target temp diff =
    length-set_zeros (leading_zeros temp diff) _ (leading_zeros-le temp diff)

-- The proof of work holds exactly when the density, which has 32 bytes, does not come after the
-- target in the order of byte strings.
pub check_proof_of_work_iff :
    (h : Hashes) (c : Crystal) (temp diff : F32)
    → length (calculate_density h c) ≡ 32
    → (check_proof_of_work h c temp diff ≡ true)
      ↔ (compare_bytes (calculate_density h c) (calculate_target temp diff) ≢ gt)
unfolding check_proof_of_work
check_proof_of_work_iff h c temp diff e =
    meets-compare (calculate_density h c) (calculate_target temp diff)
      (omega (arith, e, length-calculate_target temp diff))

-- The crystal with the nonce `k` steps on.
abbrev pub nonce_after : ℕ → Crystal → Crystal
nonce_after zero c = c
nonce_after (suc k) c = nonce_after k (record c { nonce = wrapping_suc c.nonce })

search_nonce-now :
    (h : Hashes) (temp diff : F32) (attempts : ℕ) (c : Crystal)
    → check_proof_of_work h c temp diff ≡ true
    → search_nonce h temp diff (suc attempts) c ≡ (true, c)
unfolding search_nonce
search_nonce-now h temp diff attempts c good = ground (arith, good)

search_nonce-later :
    (h : Hashes) (temp diff : F32) (attempts : ℕ) (c : Crystal)
    → check_proof_of_work h c temp diff ≡ false
    → search_nonce h temp diff (suc attempts) c
      ≡ search_nonce h temp diff attempts (record c { nonce = wrapping_suc c.nonce })
unfolding search_nonce
search_nonce-later h temp diff attempts c bad = ground (arith, bad)

pub search_nonce_sound :
    (h : Hashes) (temp diff : F32) (attempts : ℕ) (c : Crystal)
    → (search_nonce h temp diff attempts c).0 ≡ true
    → (k : ℕ) × (k < attempts)
      × ((search_nonce h temp diff attempts c).1 ≡ nonce_after k c)
      × (check_proof_of_work h (nonce_after k c) temp diff ≡ true)
unfolding search_nonce
search_nonce_sound h temp diff zero c e = cc
search_nonce_sound h temp diff (suc attempts) c e =
    elim (Bool-cases (check_proof_of_work h c temp diff)) [
      | inl good ↦
          (0, omega arith, ap (λ r. r.1) (search_nonce-now h temp diff attempts c good), good)
      | inr bad ↦
          (let later =
              search_nonce_sound h temp diff attempts (record c { nonce = wrapping_suc c.nonce })
                (ap (λ r. r.0) (sym (search_nonce-later h temp diff attempts c bad)) ∙ e) in
            (
              suc later.0,
              omega (arith, later.1),
              ap (λ r. r.1) (search_nonce-later h temp diff attempts c bad) ∙ later.2,
              later.3,
            ))
    ]

search_nonce_complete :
    (h : Hashes) (temp diff : F32) (attempts k : ℕ) (c : Crystal)
    → k < attempts
    → check_proof_of_work h (nonce_after k c) temp diff ≡ true
    → (search_nonce h temp diff attempts c).0 ≡ true
unfolding search_nonce
search_nonce_complete h temp diff zero k c less good = absurd (omega arith)
search_nonce_complete h temp diff (suc attempts) zero c less good =
    ap (λ r. r.0) (search_nonce-now h temp diff attempts c good)
search_nonce_complete h temp diff (suc attempts) (suc k) c less good =
    elim (Bool-cases (check_proof_of_work h c temp diff)) [
      | inl now ↦ ap (λ r. r.0) (search_nonce-now h temp diff attempts c now)
      | inr bad ↦
          ap (λ r. r.0) (search_nonce-later h temp diff attempts c bad)
          ∙ (search_nonce_complete h temp diff attempts k
              (record c { nonce = wrapping_suc c.nonce }) (omega arith) good)
    ]

-- The search ends, and it succeeds exactly when one of the nonces that it has the attempts for
-- meets the proof of work.
pub search_nonce_iff :
    (h : Hashes) (temp diff : F32) (attempts : ℕ) (c : Crystal)
    → ((search_nonce h temp diff attempts c).0 ≡ true)
      ↔ ((k : ℕ) × (k < attempts) × (check_proof_of_work h (nonce_after k c) temp diff ≡ true))
search_nonce_iff h temp diff attempts c = (
  λ found. let s = search_nonce_sound h temp diff attempts c found in (s.0, s.1, s.3),
  λ some_nonce. search_nonce_complete h temp diff attempts some_nonce.0 c some_nonce.1 some_nonce.2,
)
