-- ===== src/Fixed/Div.antt =====
-- internal/fixed: div.go, the fifteen steps of a long division.
use native.Mathlib.Nat.{pow-suc, add-mul-div_left, mul-div-mul_right, div-eq_of_lt, sub-add_cancel}
use g.Base.{
  ℕ, zero, suc, ◌+◌, ◌-◌, ◌*◌, ◌/◌, ◌^◌, ◌<◌, ◌≤◌, ◌≡◌, ◌||◌, arith, ap, ◌∙◌, Bool-cases, inl, inr,
  leb→le, if◌then◌else◌, leb, ◌==◌, ℤ, pos, ltb_ℤ, leb_ℤ, pos_part,
}
use g.Fixed.Saturate.{max16}

-- The loop with `i` rounds left. All values stay below 2 ^ 31, and `q |= 1` finds an even `q`.
unfoldable pub div_loop : ℕ → ℕ → ℕ → ℕ → ℕ
div_loop zero q n d = q
div_loop (suc i) q n d =
    let hit = leb d (n * 2) in
    div_loop i (if hit then q * 2 + 1 else q * 2) (if hit then n * 2 - d else n * 2) d

-- The operands are not negative where the loop runs.
unfoldable pub div_s : ℤ → ℤ → ℤ
div_s num den =
    if ltb_ℤ num (pos 0) || leb_ℤ den (pos 0) || ltb_ℤ den num
    then max16
    else if pos_part num == 0
    then pos 0
    else if pos_part num == pos_part den
    then max16
    else pos (div_loop 15 0 (pos_part num * 2 ^ 15) (pos_part den * 2 ^ 15))

-- The loop divides: each round takes one bit of the quotient.
shifted : (i n : ℕ) → n * 2 ^ suc i ≡ n * 2 * 2 ^ i
shifted i n = omega (arith, ap (λ (t : ℕ). n * t) (pow-suc 2 i))

kept : (i n d : ℕ) → d ≤ n * 2 → n * 2 ^ suc i ≡ (n * 2 - d) * 2 ^ i + d * 2 ^ i
kept i n d h = shifted i n ∙ omega (arith, ap (λ (t : ℕ). t * 2 ^ i) (sub-add_cancel h))

div_loop_lem : (i q n d : ℕ) → n < d → div_loop i q n d ≡ q * 2 ^ i + n * 2 ^ i / d
unfolding div_loop
div_loop_lem zero q n d h = ground (arith, div-eq_of_lt {n = n} {m = d} h)
div_loop_lem (suc i) q n d h = elim (Bool-cases (leb d (n * 2))) [
  | inl hit ↦ rw hit (
      div_loop_lem i (q * 2 + 1) (n * 2 - d) d (omega arith)
      ∙ ground (
        arith,
        ap (λ (t : ℕ). q * t) (pow-suc 2 i),
        ap (λ (t : ℕ). t / d) (kept i n d (leb→le d (n * 2) hit)),
        add-mul-div_left ((n * 2 - d) * 2 ^ i) (2 ^ i) {y = d} (omega arith),
      ))
  | inr miss ↦ rw miss (
      div_loop_lem i (q * 2) (n * 2) d (ground arith)
      ∙ ground (arith, ap (λ (t : ℕ). q * t) (pow-suc 2 i), ap (λ (t : ℕ). t / d) (shifted i n)))
]

quotient :
    (num den : ℕ) → num < den → div_loop 15 0 (num * 2 ^ 15) (den * 2 ^ 15) ≡ num * 2 ^ 15 / den
quotient num den h = omega (
  arith,
  div_loop_lem 15 0 (num * 2 ^ 15) (den * 2 ^ 15) (omega arith),
  mul-div-mul_right {m = 2 ^ 15} (num * 2 ^ 15) den (omega arith),
)

-- For operands of which the first is at most the second and the second is positive, DivS is the
-- first times 2 ^ 15 divided by the second and rounded down, or the largest 16-bit word where the
-- two are equal.
pub div_s_lem :
    (num den : ℕ)
    → num ≤ den
    → 0 < den
    → div_s (pos num) (pos den) ≡ (if num == den then max16 else pos (num * 2 ^ 15 / den))
unfolding div_s
div_s_lem num den h k = ground (arith, quotient num den)
