-- ===== src/Fcbsearch/Ratio.antt =====
-- internal/fcbsearch/search.go: the products of 128 bits are exact up to the largest number.
use native.Mathlib.Nat.{le_of_mul-le-mul_left, mul-le-mul}
use g.Base.{
  ℕ, ◌+◌, ◌-◌, ◌*◌, ◌/◌, ◌^◌, ◌<◌, ◌≤◌, ◌≡◌, ◌↔◌, ap, ◌∙◌, min, arith, if-cases, true, not, ◌==◌, ℤ,
  pos_part, neg_part, to_bits,
}
use g.Fcbsearch.Wide.{Uint128, mul64, mul128_by64_saturating, greater128, magnitude, ratio_greater}

-- The number that two halves stand for.
value : Uint128 → ℕ
value u = u.hi * 2 ^ 64 + u.lo

value-mul64 : (a b : ℕ) → value (mul64 a b) ≡ a * b
unfolding value mul64
value-mul64 a b = omega arith

-- A product is cut at the largest number of 128 bits.
mul128_value :
    (x : Uint128) (y : ℕ) → value (mul128_by64_saturating x y) ≡ min (value x * y) (2 ^ 128 - 1)
unfolding value mul128_by64_saturating mul64
mul128_value x y =
    let low = x.lo * y in
    let high = x.hi * y in
    let split : (x.hi * 2 ^ 64 + x.lo) * y ≡ high * 2 ^ 64 + low = grind arith in
    if-cases
      (λ (u : Uint128). u.hi * 2 ^ 64 + u.lo ≡ min ((x.hi * 2 ^ 64 + x.lo) * y) (2 ^ 128 - 1))
      (not (high / 2 ^ 64 == 0)) (λ large. ground (arith, split)) λ small. ground (arith, split)

greater128_iff :
    (a b : Uint128) → a.lo < 2 ^ 64 → b.lo < 2 ^ 64 → (greater128 a b ≡ true) ↔ (value b < value a)
unfolding value greater128
greater128_iff a b h k = ground arith

mul128_low : (x : Uint128) (y : ℕ) → (mul128_by64_saturating x y).lo < 2 ^ 64
unfolding mul128_by64_saturating mul64
mul128_low x y = ground arith

-- The square of a correlation times an energy.
abbrev pub weighed : ℤ → ℤ → ℕ
weighed c e = magnitude c * magnitude c * pos_part e

-- Correlations and energies of words do not reach the cut.
abbrev pub IsSmall : ℤ → ℤ → Type 0
IsSmall c e = (magnitude c ≤ 2 ^ 34) × (neg_part e ≡ 0) × (pos_part e ≤ 2 ^ 36)

product_small : (m e : ℕ) → m ≤ 2 ^ 34 → e ≤ 2 ^ 36 → m * m * e < 2 ^ 128 - 1
product_small m e h k =
    let square : m * m ≤ 2 ^ 68 = grind arith in
    let product : m * m * e ≤ 2 ^ 68 * 2 ^ 36 = mul-le-mul square k in omega arith

uint64_small : (e : ℤ) → neg_part e ≡ 0 → pos_part e ≤ 2 ^ 36 → to_bits 64 e ≡ pos_part e
uint64_small e h k = ground arith

side :
    (m e : ℕ) → m ≤ 2 ^ 34 → e ≤ 2 ^ 36 → value (mul128_by64_saturating (mul64 m m) e) ≡ m * m * e
side m e h k =
    mul128_value (mul64 m m) e
    ∙ ap (λ (t : ℕ). min (t * e) (2 ^ 128 - 1)) (value-mul64 m m)
    ∙ omega (arith, product_small m e h k)

pub ratio_greater_iff :
    (c1 e1 c2 e2 : ℤ)
    → IsSmall c1 e1
    → IsSmall c2 e2
    → (ratio_greater c1 e1 c2 e2 ≡ true) ↔ (weighed c2 e1 < weighed c1 e2)
unfolding ratio_greater
ratio_greater_iff c1 e1 c2 e2 h k =
    let left = mul128_by64_saturating (mul64 (magnitude c1) (magnitude c1)) (to_bits 64 e2) in
    let right = mul128_by64_saturating (mul64 (magnitude c2) (magnitude c2)) (to_bits 64 e1) in
    let iff =
      greater128_iff left right (mul128_low (mul64 (magnitude c1) (magnitude c1)) (to_bits 64 e2))
        (mul128_low (mul64 (magnitude c2) (magnitude c2)) (to_bits 64 e1)) in
    let el : value left ≡ weighed c1 e2 =
      rw (uint64_small e2 k.1 k.2) (side (magnitude c1) (pos_part e2) h.0 k.2) in
    let er : value right ≡ weighed c2 e1 =
      rw (uint64_small e1 h.1 h.2) (side (magnitude c2) (pos_part e1) k.0 h.2) in
    (λ t. omega (arith, el, er, iff.0 t), λ t. iff.1 (omega (arith, el, er)))

-- The order of ratios is transitive.
pub ratio_trans : (a e b f d g : ℕ) → 0 < e → a * e ≤ b * f → b * g ≤ d * e → a * g ≤ d * f
ratio_trans a e b f d g h k l =
    let same_g : g ≤ g = omega arith in
    let same_f : f ≤ f = omega arith in
    let left : a * e * g ≤ b * f * g = mul-le-mul k same_g in
    let right : b * g * f ≤ d * e * f = mul-le-mul l same_f in
    let product : e * (a * g) ≤ e * (d * f) = grind arith in le_of_mul-le-mul_left product h
