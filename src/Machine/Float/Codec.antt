-- ===== src/Machine/Float/Codec.antt =====
-- The two bit formats: decoding to a fraction, and encoding with rounding to nearest, ties to
-- even.
use primus_project.Base.{
  ℕ, zero, suc, ◌+◌, ◌-◌, ◌*◌, ◌/◌, ◌%◌, ◌^◌, min, Bool, true, false, ltb, ◌==◌, if◌then◌else◌,
}
use primus_project.Machine.Float.Num.{Num, nan, inf, fin}

-- `p` stored mantissa bits and an exponent field of `w` bits.
pub record Format : Type 0 where
  pub p : ℕ
  pub w : ℕ

abbrev pub binary32 : Format
binary32 = record { p = 23; w = 8 }

abbrev pub binary64 : Format
binary64 = record { p = 52; w = 11 }

-- 2 ^ scale is the reciprocal of the least positive number.
unfoldable pub scale : Format → ℕ
scale f = 2 ^ (f.w - 1) + f.p - 2

unfoldable pub inf_bits : Format → ℕ
inf_bits f = (2 ^ f.w - 1) * 2 ^ f.p

unfoldable pub decode_magnitude : Format → Bool → ℕ → Num
unfolding scale inf_bits
decode_magnitude f neg b =
    let e = b / 2 ^ f.p in
    let m = b % 2 ^ f.p in
    if ltb (inf_bits f) b
    then nan
    else if b == inf_bits f
    then inf neg
    else if e == 0
    then fin neg m (2 ^ scale f)
    else fin neg ((m + 2 ^ f.p) * 2 ^ (e - 1)) (2 ^ scale f)

unfoldable pub decode : Format → ℕ → Num
unfolding decode_magnitude
decode f b =
    let s = 2 ^ (f.w + f.p) in
    if ltb b s then decode_magnitude f false b else decode_magnitude f true (b - s)

unfoldable pub round_half_even : ℕ → ℕ → ℕ
round_half_even n d =
    let q = n / d in
    let r = n % d in
    if ltb (2 * r) d then q else if ltb d (2 * r) then q + 1 else if q % 2 == 0 then q else q + 1

-- The least exponent, from 1 on, at which the rounded mantissa has at most p + 1 bits.
unfoldable pub find_exponent : Format → ℕ → ℕ → ℕ → ℕ → ℕ
unfolding inf_bits round_half_even
find_exponent f zero e n d = inf_bits f
find_exponent f (suc fuel) e n d = elim (ltb (n / d) (2 ^ (f.p + 1))) [
  | true ↦ min ((e - 1) * 2 ^ f.p + round_half_even n d) (inf_bits f)
  | false ↦ find_exponent f fuel (e + 1) n (2 * d)
]

unfoldable pub signed : Format → Bool → ℕ → ℕ
signed f neg b = if neg then 2 ^ (f.w + f.p) + b else b

unfoldable pub encode : Format → Num → ℕ
unfolding signed inf_bits find_exponent scale
encode f nan = inf_bits f + 2 ^ (f.p - 1)
encode f (inf neg) = signed f neg (inf_bits f)
encode f (fin neg n d) = signed f neg (find_exponent f (2 ^ f.w) 1 (n * 2 ^ scale f) d)
