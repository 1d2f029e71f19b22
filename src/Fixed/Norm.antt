-- ===== src/Fixed/Norm.antt =====
-- internal/fixed: norm.go, the count of shifts that brings a word to full scale.
use native.Mathlib.Nat.{pow-suc, add-zero, add-suc, pow-le-pow_right, mul-le-mul_right, one-le-pow}
use native.Mathlib.Decide.{dec_le}
use g.Base.{
  ℕ, zero, suc, ◌+◌, ◌-◌, ◌*◌, ◌^◌, ◌<◌, ◌≤◌, ◌≡◌, ◌≢◌, refl, arith, ap, ◌∙◌, sym, subst,
  Bool-cases, ltb→lt, inl, inr, if◌then◌else◌, ltb, ◌==◌, ℤ, pos, negsuc, ◌*ℤ◌, mul_pos_pos,
  mul_negsuc_pos, InRange,
}

-- `for x < limit { x <<= 1; n++ }`, with fuel.
unfoldable pub norm_loop : ℕ → ℕ → ℕ → ℕ → ℕ
norm_loop zero limit x n = n
norm_loop (suc fuel) limit x n =
    let rest = norm_loop fuel limit (x * 2) (n + 1) in if ltb x limit then rest else n

-- `x = ^x` is `-x - 1`.
unfoldable pub norm_s : ℤ → ℕ
norm_s (pos x) = if x == 0 then 0 else norm_loop 15 0x4000 x 0
norm_s (negsuc x) = if x == 0 then 15 else norm_loop 15 0x4000 x 0

unfoldable pub norm_l : ℤ → ℕ
norm_l (pos x) = if x == 0 then 0 else norm_loop 31 0x40000000 x 0
norm_l (negsuc x) = if x == 0 then 31 else norm_loop 31 0x40000000 x 0

-- With fuel for the missing bits the loop ends by its test, between the limit and its double.
norm_loop_lem :
    (fuel limit x n : ℕ)
    → 0 < x
    → x < 2 * limit
    → limit ≤ x * 2 ^ fuel
    → (k : ℕ) × (norm_loop fuel limit x n ≡ n + k) × (limit ≤ x * 2 ^ k) × (x * 2 ^ k < 2 * limit)
unfolding norm_loop
norm_loop_lem zero limit x n h lo hi = (0, omega arith, hi, omega arith)
norm_loop_lem (suc fuel) limit x n h lo hi = elim (Bool-cases (ltb x limit)) [
  | inl small ↦
      let (k, e, l, u) =
        norm_loop_lem fuel limit (x * 2) (n + 1) (omega arith) (omega (arith, ltb→lt x limit small))
          (omega (arith, ap (λ (t : ℕ). x * t) (pow-suc 2 fuel))) in
      let more : x * 2 * 2 ^ k ≡ x * 2 ^ suc k =
        omega (arith, ap (λ (t : ℕ). x * t) (pow-suc 2 k)) in
      (suc k, rw small (omega (arith, e)), omega (arith, l, more), omega (arith, u, more))
  | inr large ↦ (0, rw large (omega arith), ground arith, omega arith)
]

pow-add : (a b : ℕ) → 2 ^ (a + b) ≡ 2 ^ a * 2 ^ b
pow-add a zero = ground (arith, add-zero a)
pow-add a (suc b) =
    ground
      (arith, add-suc a b, pow-suc 2 (a + b), ap (λ (t : ℕ). 2 ^ a * t) (pow-suc 2 b), pow-add a b)

-- Below a power, a multiple of a smaller power leaves room for one more step.
next_multiple : (w k x : ℕ) → x * 2 ^ k < 2 ^ w → 0 < x → suc x * 2 ^ k ≤ 2 ^ w
next_multiple w k x h positive = elim (dec_le k w) [
  | yes le ↦
      let split : 2 ^ w ≡ 2 ^ (w - k) * 2 ^ k = ap (λ t. 2 ^ t) (omega arith) ∙ pow-add (w - k) k in
      let below : x < 2 ^ (w - k) = grind (arith, split) in
      omega (arith, split, mul-le-mul_right {m = suc x} {n = 2 ^ (w - k)} (2 ^ k) below)
  | no gt ↦
      absurd (grind (arith, pow-le-pow_right {n = 2} (omega arith) {i = w} {j = k} (omega arith)))
]

-- `x` is at full scale after `n` shifts to the left, and out of range after one more.
abbrev pub IsNormal : ℕ → ℤ → ℕ → Type 0
IsNormal w x n = InRange w (x *ℤ pos (2 ^ n)) × (¬ InRange w (x *ℤ pos (2 ^ suc n)))

normal16_pos : (x k : ℕ) → 2 ^ 14 ≤ x * 2 ^ k → x * 2 ^ k < 2 ^ 15 → IsNormal 16 (pos x) k
normal16_pos x k lo hi =
    ground
      (arith, mul_pos_pos x (2 ^ k), mul_pos_pos x (2 ^ suc k), ap (λ (t : ℕ). x * t) (pow-suc 2 k))

normal16_negsuc :
    (x k : ℕ) → 0 < x → 2 ^ 14 ≤ x * 2 ^ k → x * 2 ^ k < 2 ^ 15 → IsNormal 16 (negsuc x) k
normal16_negsuc x k p lo hi = ground (
  arith,
  mul_negsuc_pos x (2 ^ k) (one-le-pow k 2 (omega arith)),
  mul_negsuc_pos x (2 ^ suc k) (one-le-pow (suc k) 2 (omega arith)),
  ap (λ (t : ℕ). suc x * t) (pow-suc 2 k),
  one-le-pow k 2 (omega arith),
  next_multiple 15 k x hi p,
)

-- For a 16-bit word other than 0, the product with 2 to the count of NormS is a 16-bit word, and
-- the product with 2 to one count more is none.
norm_s_lem : (x : ℤ) → InRange 16 x → x ≢ pos 0 → IsNormal 16 x (norm_s x)
unfolding norm_s
norm_s_lem (pos zero) h ne = absurd (ne refl)
norm_s_lem (pos (suc x)) h ne =
    let (k, e, lo, hi) =
      norm_loop_lem 15 (2 ^ 14) (suc x) 0 (omega arith) (omega arith) (omega arith) in
    let same : norm_s (pos (suc x)) ≡ k = ground (arith, e) in
    subst (IsNormal 16 (pos (suc x))) (sym same) (normal16_pos (suc x) k lo (omega arith))
norm_s_lem (negsuc zero) h ne = unfold ◌*ℤ◌ in omega arith
norm_s_lem (negsuc (suc x)) h ne =
    let (k, e, lo, hi) =
      norm_loop_lem 15 (2 ^ 14) (suc x) 0 (omega arith) (omega arith) (omega arith) in
    let same : norm_s (negsuc (suc x)) ≡ k = ground (arith, e) in
    subst (IsNormal 16 (negsuc (suc x))) (sym same)
      (normal16_negsuc (suc x) k (omega arith) lo (omega arith))

normal32_pos : (x k : ℕ) → 2 ^ 30 ≤ x * 2 ^ k → x * 2 ^ k < 2 ^ 31 → IsNormal 32 (pos x) k
normal32_pos x k lo hi =
    ground
      (arith, mul_pos_pos x (2 ^ k), mul_pos_pos x (2 ^ suc k), ap (λ (t : ℕ). x * t) (pow-suc 2 k))

normal32_negsuc :
    (x k : ℕ) → 0 < x → 2 ^ 30 ≤ x * 2 ^ k → x * 2 ^ k < 2 ^ 31 → IsNormal 32 (negsuc x) k
normal32_negsuc x k p lo hi = ground (
  arith,
  mul_negsuc_pos x (2 ^ k) (one-le-pow k 2 (omega arith)),
  mul_negsuc_pos x (2 ^ suc k) (one-le-pow (suc k) 2 (omega arith)),
  ap (λ (t : ℕ). suc x * t) (pow-suc 2 k),
  one-le-pow k 2 (omega arith),
  next_multiple 31 k x hi p,
)

-- For a 32-bit word other than 0, the product with 2 to the count of NormL is a 32-bit word, and
-- the product with 2 to one count more is none.
norm_l_lem : (x : ℤ) → InRange 32 x → x ≢ pos 0 → IsNormal 32 x (norm_l x)
unfolding norm_l
norm_l_lem (pos zero) h ne = absurd (ne refl)
norm_l_lem (pos (suc x)) h ne =
    let (k, e, lo, hi) =
      norm_loop_lem 31 (2 ^ 30) (suc x) 0 (omega arith) (omega arith) (omega arith) in
    let same : norm_l (pos (suc x)) ≡ k = ground (arith, e) in
    subst (IsNormal 32 (pos (suc x))) (sym same) (normal32_pos (suc x) k lo (omega arith))
norm_l_lem (negsuc zero) h ne = unfold ◌*ℤ◌ in omega arith
norm_l_lem (negsuc (suc x)) h ne =
    let (k, e, lo, hi) =
      norm_loop_lem 31 (2 ^ 30) (suc x) 0 (omega arith) (omega arith) (omega arith) in
    let same : norm_l (negsuc (suc x)) ≡ k = ground (arith, e) in
    subst (IsNormal 32 (negsuc (suc x))) (sym same)
      (normal32_negsuc (suc x) k (omega arith) lo (omega arith))
