-- ===== src/Machine/Word.antt =====
-- Rust's `u64` operations on values below 2 ^ 64, and its byte encodings.
use primus_project.Base.{
  ℕ, zero, suc, ◌+◌, ◌-◌, ◌*◌, ◌/◌, ◌%◌, min, ◌≡◌, refl, Option, none, some, List, [], ◌∷◌, ◌++◌,
  arith, ltb, leb, if◌then◌else◌, length,
}

abbrev pub Bytes : Type 0
Bytes = List ℕ

abbrev pub u64_max : ℕ
u64_max = 0xffff_ffff_ffff_ffff

abbrev pub checked_add : ℕ → ℕ → Option ℕ
checked_add a b = if leb (a + b) u64_max then some (a + b) else none

abbrev pub checked_sub : ℕ → ℕ → Option ℕ
checked_sub a b = if ltb a b then none else some (a - b)

abbrev pub saturating_add : ℕ → ℕ → ℕ
saturating_add a b = min (a + b) u64_max

abbrev pub saturating_sub : ℕ → ℕ → ℕ
saturating_sub a b = a - b

abbrev pub saturating_mul : ℕ → ℕ → ℕ
saturating_mul a b = min (a * b) u64_max

-- `to_le_bytes` of a word of `n` bytes.
unfoldable pub le_bytes : ℕ → ℕ → Bytes
le_bytes zero x = []
le_bytes (suc n) x = (x % 256) ∷ le_bytes n (x / 256)

-- `to_be_bytes` of a word of `n` bytes.
unfoldable pub be_bytes : ℕ → ℕ → Bytes
be_bytes zero x = []
be_bytes (suc n) x = be_bytes n (x / 256) ++ (x % 256) ∷ []

pub length-le_bytes : (n x : ℕ) → length (le_bytes n x) ≡ n
unfolding le_bytes
length-le_bytes zero x = refl
length-le_bytes (suc n) x = omega (arith, length-le_bytes n (x / 256))

-- `^` on words of `w` bits.
unfoldable pub xor_bits : ℕ → ℕ → ℕ → ℕ
xor_bits zero a b = 0
xor_bits (suc w) a b = (a % 2 + b % 2) % 2 + 2 * xor_bits w (a / 2) (b / 2)

pub xor_bits_swap : (w a b c : ℕ) → xor_bits w (xor_bits w a b) c ≡ xor_bits w (xor_bits w a c) b
unfolding xor_bits
xor_bits_swap zero a b c = refl
xor_bits_swap (suc w) a b c =
    let half : (x y : ℕ)
        → ((x % 2 + y % 2) % 2 + 2 * xor_bits w (x / 2) (y / 2)) / 2 ≡ xor_bits w (x / 2) (y / 2) =
      λ x y. omega arith in
    rw (half a b, half a c) (omega (arith, xor_bits_swap w (a / 2) (b / 2) (c / 2)))
