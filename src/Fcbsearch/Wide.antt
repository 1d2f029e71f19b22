-- ===== src/Fcbsearch/Wide.antt =====
-- internal/fcbsearch/search.go: products of 128 bits, and the comparison of two ratios by them.
use g.Base.{
  ℕ, ◌+◌, ◌-◌, ◌*◌, ◌/◌, ◌%◌, ◌^◌, Bool, true, false, not, ◌==◌, if◌then◌else◌, ltb, leb, ℤ, pos,
  pos_part, neg_part, ltb_ℤ, to_bits, wrap, ◌-ℤ◌, ◌*ℤ◌,
}

pub record Uint128 : Type 0 where
  pub hi : ℕ
  pub lo : ℕ

abbrev pub max128 : Uint128
max128 = record { hi = 2 ^ 64 - 1; lo = 2 ^ 64 - 1 }

-- bits.Mul64 gives the high and the low half of a product.
unfoldable pub mul64 : ℕ → ℕ → Uint128
mul64 a b = record { hi = a * b / 2 ^ 64; lo = a * b % 2 ^ 64 }

unfoldable pub mul128_by64_saturating : Uint128 → ℕ → Uint128
mul128_by64_saturating x y =
    let low = mul64 x.lo y in
    let high = mul64 x.hi y in
    let sum = low.hi + high.lo in
    if not (high.hi == 0)
    then max128
    else if leb (2 ^ 64) sum
    then max128
    else record { hi = sum; lo = low.lo }

-- cmp128(a, b) > 0.
unfoldable pub greater128 : Uint128 → Uint128 → Bool
greater128 a b = if ltb b.hi a.hi then true else if ltb a.hi b.hi then false else ltb b.lo a.lo

-- The absolute value of an int64 as a uint64.
abbrev pub magnitude : ℤ → ℕ
magnitude c = pos_part c + neg_part c

unfoldable pub ratio_greater : ℤ → ℤ → ℤ → ℤ → Bool
ratio_greater c1 e1 c2 e2 =
    greater128 (mul128_by64_saturating (mul64 (magnitude c1) (magnitude c1)) (to_bits 64 e2))
      (mul128_by64_saturating (mul64 (magnitude c2) (magnitude c2)) (to_bits 64 e1))

unfoldable pub square_saturating_int64 : ℤ → ℤ
square_saturating_int64 v =
    let a = if ltb_ℤ v (pos 0) then wrap 64 (pos 0 -ℤ v) else v in
    if ltb_ℤ (pos 3037000499) a then pos (2 ^ 63 - 1) else wrap 64 (a *ℤ a)
