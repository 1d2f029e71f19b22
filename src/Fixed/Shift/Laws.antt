-- ===== src/Fixed/Shift/Laws.antt =====
-- The shifts of internal/fixed (shift16.go, shift32.go) against exact arithmetic.
use native.Mathlib.Nat.{pow-le-pow_right, div-eq_of_lt, one-le-pow}
use g.Base.{
  ℕ, zero, suc, ◌-◌, ◌*◌, ◌/◌, ◌^◌, ◌≤◌, ◌<◌, ◌≡◌, arith, if◌then◌else◌, ltb, ℤ, pos, negsuc, ◌*ℤ◌,
  mul_pos_pos, mul_negsuc_pos, asr, ◌∙◌,
}
use g.Fixed.Saturate.Laws.{IsWord16, IsWord32, clamp, saturate-clamp, saturate64-clamp}
use g.Fixed.Shift.{shl, shr, l_shl, l_shr, shl_left, shr_right, l_shl_left, l_shr_right, turned}

-- `a * 2 ^ n`, cut to `w` bits, for any sign of `n`.
abbrev pub scaled : ℕ → ℤ → ℤ → ℤ
scaled w a (pos n) = clamp w (a *ℤ pos (2 ^ n))
scaled w a (negsuc n) = asr a (suc n)

-- A product by a power that reaches the width leaves the range.
pow_above : (w n m : ℕ) → w ≤ n → 2 ^ w ≤ suc m * 2 ^ n
pow_above w n m h = grind (arith, pow-le-pow_right {n = 2} (omega arith) h)

quotient_below : (w n m : ℕ) → w ≤ n → m < 2 ^ w → m / 2 ^ n ≡ 0
quotient_below w n m h k = div-eq_of_lt (omega (arith, pow-le-pow_right {n = 2} (omega arith) h))

shr_right-asr : (a : ℤ) (n : ℕ) → IsWord16 a → shr_right a n ≡ asr a n
unfolding shr_right
shr_right-asr (pos a) n h = ground (arith, quotient_below 15 n a)
shr_right-asr (negsuc a) n h = ground (arith, quotient_below 15 n a)

shl_left-clamp : (a : ℤ) (n : ℕ) → shl_left a n ≡ clamp 16 (a *ℤ pos (2 ^ n))
unfolding shl_left
shl_left-clamp (pos zero) n = ground (arith, mul_pos_pos 0 (2 ^ n), saturate-clamp (pos 0))
shl_left-clamp (pos (suc a)) n =
    ground
      (arith, mul_pos_pos (suc a) (2 ^ n), saturate-clamp (pos (suc a * 2 ^ n)), pow_above 16 n a)
shl_left-clamp (negsuc a) n = ground (
  arith,
  mul_negsuc_pos a (2 ^ n) (one-le-pow n 2 (omega arith)),
  saturate-clamp (negsuc (suc a * 2 ^ n - 1)),
  pow_above 16 n a,
)

l_shr_right-asr : (a : ℤ) (n : ℕ) → IsWord32 a → l_shr_right a n ≡ asr a n
unfolding l_shr_right
l_shr_right-asr (pos a) n h = ground (arith, quotient_below 31 n a)
l_shr_right-asr (negsuc a) n h = ground (arith, quotient_below 31 n a)

l_shl_left-clamp : (a : ℤ) (n : ℕ) → l_shl_left a n ≡ clamp 32 (a *ℤ pos (2 ^ n))
unfolding l_shl_left
l_shl_left-clamp (pos zero) n = ground (arith, mul_pos_pos 0 (2 ^ n), saturate64-clamp (pos 0))
l_shl_left-clamp (pos (suc a)) n =
    ground
      (arith, mul_pos_pos (suc a) (2 ^ n), saturate64-clamp (pos (suc a * 2 ^ n)), pow_above 32 n a)
l_shl_left-clamp (negsuc a) n = ground (
  arith,
  mul_negsuc_pos a (2 ^ n) (one-le-pow n 2 (omega arith)),
  saturate64-clamp (negsuc (suc a * 2 ^ n - 1)),
  pow_above 32 n a,
)

-- Counts past 16 (or 32) are cut, and change nothing for a word.
asr_cut16 : (a : ℤ) (n : ℕ) → IsWord16 a → asr a (if ltb 16 n then 16 else n) ≡ asr a n
asr_cut16 (pos a) n h = ground (arith, quotient_below 15 n a)
asr_cut16 (negsuc a) n h = ground (arith, quotient_below 15 n a)

asr_cut32 : (a : ℤ) (n : ℕ) → IsWord32 a → asr a (if ltb 32 n then 32 else n) ≡ asr a n
asr_cut32 (pos a) n h = ground (arith, quotient_below 31 n a)
asr_cut32 (negsuc a) n h = ground (arith, quotient_below 31 n a)

asr_zero16 : (a : ℤ) → IsWord16 a → asr a 0 ≡ clamp 16 (a *ℤ pos 1)
unfolding ◌*ℤ◌
asr_zero16 (pos a) h = ground arith
asr_zero16 (negsuc a) h = ground arith

asr_zero32 : (a : ℤ) → IsWord32 a → asr a 0 ≡ clamp 32 (a *ℤ pos 1)
unfolding ◌*ℤ◌
asr_zero32 (pos a) h = ground arith
asr_zero32 (negsuc a) h = ground arith

-- The saturated product does not see the cut either.
clamp_cut16 :
    (a : ℤ) (n : ℕ)
    → clamp 16 (a *ℤ pos (2 ^ (if ltb 16 n then 16 else n))) ≡ clamp 16 (a *ℤ pos (2 ^ n))
clamp_cut16 (pos zero) n = ground (arith, mul_pos_pos 0 (2 ^ n), mul_pos_pos 0 (2 ^ 16))
clamp_cut16 (pos (suc a)) n =
    ground (arith, mul_pos_pos (suc a) (2 ^ n), mul_pos_pos (suc a) (2 ^ 16), pow_above 16 n a)
clamp_cut16 (negsuc a) n = ground (
  arith,
  mul_negsuc_pos a (2 ^ n) (one-le-pow n 2 (omega arith)),
  mul_negsuc_pos a (2 ^ 16) (omega arith),
  pow_above 16 n a,
)

clamp_cut32 :
    (a : ℤ) (n : ℕ)
    → clamp 32 (a *ℤ pos (2 ^ (if ltb 32 n then 32 else n))) ≡ clamp 32 (a *ℤ pos (2 ^ n))
clamp_cut32 (pos zero) n = ground (arith, mul_pos_pos 0 (2 ^ n), mul_pos_pos 0 (2 ^ 32))
clamp_cut32 (pos (suc a)) n =
    ground (arith, mul_pos_pos (suc a) (2 ^ n), mul_pos_pos (suc a) (2 ^ 32), pow_above 32 n a)
clamp_cut32 (negsuc a) n = ground (
  arith,
  mul_negsuc_pos a (2 ^ n) (one-le-pow n 2 (omega arith)),
  mul_negsuc_pos a (2 ^ 32) (omega arith),
  pow_above 32 n a,
)

abbrev pub opposite : ℤ → ℤ
opposite (pos zero) = pos 0
opposite (pos (suc n)) = negsuc n
opposite (negsuc n) = pos (suc n)

-- `Shl(a, n)` is `a * 2 ^ n` cut to 16 bits, rounded down where `n` is negative.
pub shl-scaled : (a n : ℤ) → IsWord16 a → shl a n ≡ scaled 16 a n
unfolding shl
shl-scaled a (pos zero) h = shr_right-asr a 0 h ∙ asr_zero16 a h
shl-scaled a (pos (suc n)) h = ground (arith, shl_left-clamp a (suc n))
shl-scaled a (negsuc n) h =
    ground (arith, shr_right-asr a (turned 16 (negsuc n)) h, asr_cut16 a (suc n) h)

-- `Shr(a, n)` rounds `a / 2 ^ n` down; where `n` is negative it is `a * 2 ^ -n` cut to 16 bits, and
-- counts below -16 are cut to it.
pub shr-scaled : (a n : ℤ) → IsWord16 a → shr a n ≡ scaled 16 a (opposite n)
unfolding shr
shr-scaled a (pos zero) h = shr_right-asr a 0 h ∙ asr_zero16 a h
shr-scaled a (pos (suc n)) h = ground (arith, shr_right-asr a (suc n) h)
shr-scaled a (negsuc n) h =
    ground (arith, shl_left-clamp a (turned 16 (negsuc n)), clamp_cut16 a (suc n))

pub l_shl-scaled : (a n : ℤ) → IsWord32 a → l_shl a n ≡ scaled 32 a n
unfolding l_shl
l_shl-scaled a (pos zero) h = l_shr_right-asr a 0 h ∙ asr_zero32 a h
l_shl-scaled a (pos (suc n)) h = ground (arith, l_shl_left-clamp a (suc n))
l_shl-scaled a (negsuc n) h =
    ground (arith, l_shr_right-asr a (turned 32 (negsuc n)) h, asr_cut32 a (suc n) h)

pub l_shr-scaled : (a n : ℤ) → IsWord32 a → l_shr a n ≡ scaled 32 a (opposite n)
unfolding l_shr
l_shr-scaled a (pos zero) h = l_shr_right-asr a 0 h ∙ asr_zero32 a h
l_shr-scaled a (pos (suc n)) h = ground (arith, l_shr_right-asr a (suc n) h)
l_shr-scaled a (negsuc n) h =
    ground (arith, l_shl_left-clamp a (turned 32 (negsuc n)), clamp_cut32 a (suc n))

-- For a 16-bit word and any count, Shl is the product with 2 to the count cut to 16 bits, or for a
-- negative count the quotient rounded down, and Shr is the same at the opposite count.
pub shl_lem :
    (a n : ℤ) → IsWord16 a → (shl a n ≡ scaled 16 a n) × (shr a n ≡ scaled 16 a (opposite n))
shl_lem a n h = (shl-scaled a n h, shr-scaled a n h)

-- For a 32-bit word and any count, LShl is the product with 2 to the count cut to 32 bits, or for a
-- negative count the quotient rounded down, and LShr is the same at the opposite count.
pub l_shl_lem :
    (a n : ℤ) → IsWord32 a → (l_shl a n ≡ scaled 32 a n) × (l_shr a n ≡ scaled 32 a (opposite n))
l_shl_lem a n h = (l_shl-scaled a n h, l_shr-scaled a n h)
