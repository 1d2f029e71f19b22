-- ===== src/Fixed/Mult/Laws.antt =====
-- The products of internal/fixed/mult.go against exact products.
use native.Mathlib.Nat.{mul-le-mul}
use g.Base.{
  ℕ, suc, ◌-◌, ◌*◌, ◌^◌, ◌<◌, ◌≤◌, ◌≡◌, refl, true, false, ◌&&◌, arith, Bool-cases, inl, inr, ℤ,
  pos, negsuc, ◌+ℤ◌, ◌*ℤ◌, mul_pos_pos, mul_negsuc_negsuc, *ℤ_comm, asr, wrap, pos_part, neg_part,
}
use g.Fixed.Saturate.{eq_min16}
use g.Fixed.Saturate.Laws.{IsWord16, clamp, saturate-clamp}
use g.Fixed.Mult.{l_mult, mult, mult_r}

-- What the products of two words share: the size of the exact product, and where it is largest.
pub record IsProduct (a b : ℤ) : Type 0 where
  pub above : pos_part (a *ℤ b) ≤ 2 ^ 30
  pub below : neg_part (a *ℤ b) ≤ 2 ^ 30
  pub largest : (eq_min16 a && eq_min16 b) ≡ true → a *ℤ b ≡ pos (2 ^ 30)
  pub smaller : (eq_min16 a && eq_min16 b) ≡ false → pos_part (a *ℤ b) < 2 ^ 30

magnitudes : (m k : ℕ) → m ≤ 2 ^ 15 → k ≤ 2 ^ 15 → m * k ≤ 2 ^ 30
magnitudes m k h l = mul-le-mul h l

magnitudes_left : (m k : ℕ) → m < 2 ^ 15 → k ≤ 2 ^ 15 → m * k < 2 ^ 30
magnitudes_left m k h l = ground (arith, shorter)
  where
    shorter : m * k ≤ (2 ^ 15 - 1) * 2 ^ 15
    shorter = mul-le-mul {n₁ = m} {m₁ = k} {n₂ = 2 ^ 15 - 1} {m₂ = 2 ^ 15} (omega arith) l

magnitudes_right : (m k : ℕ) → m ≤ 2 ^ 15 → k < 2 ^ 15 → m * k < 2 ^ 30
magnitudes_right m k h l = ground (arith, shorter)
  where
    shorter : m * k ≤ 2 ^ 15 * (2 ^ 15 - 1)
    shorter = mul-le-mul {n₁ = m} {m₁ = k} {n₂ = 2 ^ 15} {m₂ = 2 ^ 15 - 1} h (omega arith)

parts_negsuc_pos :
    (m k : ℕ) → (pos_part (negsuc m *ℤ pos k) ≡ 0) × (neg_part (negsuc m *ℤ pos k) ≡ suc m * k)
unfolding ◌*ℤ◌
parts_negsuc_pos m k = ground arith

pub words-IsProduct : (a b : ℤ) → IsWord16 a → IsWord16 b → IsProduct a b
words-IsProduct (pos m) (pos k) p q = ground (arith, mul_pos_pos m k, magnitudes_left m k)
words-IsProduct (pos m) (negsuc k) p q =
    ground (arith, parts_negsuc_pos k m, *ℤ_comm (pos m) (negsuc k), magnitudes (suc k) m)
words-IsProduct (negsuc m) (pos k) p q = ground (arith, parts_negsuc_pos m k, magnitudes (suc m) k)
words-IsProduct (negsuc m) (negsuc k) p q = ground (
  arith,
  mul_negsuc_negsuc m k,
  magnitudes (suc m) (suc k),
  magnitudes_left (suc m) (suc k),
  magnitudes_right (suc m) (suc k),
)

doubled :
    (x : ℤ)
    → pos_part x < 2 ^ 30
    → neg_part x ≤ 2 ^ 30
    → wrap 32 (wrap 32 x *ℤ pos 2) ≡ clamp 32 (x *ℤ pos 2)
unfolding ◌*ℤ◌
doubled (pos n) h k = ground arith
doubled (negsuc n) h k = ground arith

-- `LMult` is twice the product, cut to 32 bits.
pub l_mult-clamp : (a b : ℤ) → IsWord16 a → IsWord16 b → l_mult a b ≡ clamp 32 (a *ℤ b *ℤ pos 2)
unfolding l_mult
l_mult-clamp a b p q =
    let size = words-IsProduct a b p q in
    elim (Bool-cases (eq_min16 a && eq_min16 b)) [
      | inl e ↦ rw (e, size.largest e) (unfold ◌*ℤ◌ in refl)
      | inr e ↦ rw e (doubled (a *ℤ b) (size.smaller e) size.below)
    ]

fifteen_down :
    (x : ℤ)
    → pos_part x < 2 ^ 30
    → neg_part x ≤ 2 ^ 30
    → wrap 16 (asr (wrap 32 x) 15) ≡ clamp 16 (asr x 15)
fifteen_down (pos n) h k = ground arith
fifteen_down (negsuc n) h k = ground arith

-- `Mult` is the product in Q15, rounded down and cut to 16 bits.
pub mult-clamp : (a b : ℤ) → IsWord16 a → IsWord16 b → mult a b ≡ clamp 16 (asr (a *ℤ b) 15)
unfolding mult
mult-clamp a b p q =
    let size = words-IsProduct a b p q in
    elim (Bool-cases (eq_min16 a && eq_min16 b)) [
      | inl e ↦ rw (e, size.largest e) refl
      | inr e ↦ rw e (fifteen_down (a *ℤ b) (size.smaller e) size.below)
    ]

rounded_down :
    (x : ℤ)
    → pos_part x < 2 ^ 30
    → neg_part x ≤ 2 ^ 30
    → asr (wrap 32 (wrap 32 x +ℤ pos 0x4000)) 15 ≡ asr (x +ℤ pos 0x4000) 15
unfolding ◌+ℤ◌
rounded_down (pos n) h k = ground arith
rounded_down (negsuc n) h k = ground arith

-- `MultR` is the product in Q15 to the nearest, halves up, cut to 16 bits.
pub mult_r-clamp :
    (a b : ℤ) → IsWord16 a → IsWord16 b → mult_r a b ≡ clamp 16 (asr (a *ℤ b +ℤ pos 0x4000) 15)
unfolding mult_r
mult_r-clamp a b p q =
    let size = words-IsProduct a b p q in
    elim (Bool-cases (eq_min16 a && eq_min16 b)) [
      | inl e ↦ rw (e, size.largest e) (unfold ◌+ℤ◌ in refl)
      | inr e ↦
          rw (e, rounded_down (a *ℤ b) (size.smaller e) size.below)
            (saturate-clamp (asr (a *ℤ b +ℤ pos 0x4000) 15))
    ]

-- For two 16-bit words, LMult is twice the product cut to 32 bits, Mult the product divided by 2 ^
-- 15 and rounded down, and MultR the same rounded to the nearest with halves up, both cut to 16
-- bits.
pub products_lem :
    (a b : ℤ)
    → IsWord16 a
    → IsWord16 b
    → (l_mult a b ≡ clamp 32 (a *ℤ b *ℤ pos 2))
      × (mult a b ≡ clamp 16 (asr (a *ℤ b) 15))
      × (mult_r a b ≡ clamp 16 (asr (a *ℤ b +ℤ pos 0x4000) 15))
products_lem a b p q = (l_mult-clamp a b p q, mult-clamp a b p q, mult_r-clamp a b p q)
