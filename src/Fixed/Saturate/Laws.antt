-- ===== src/Fixed/Saturate/Laws.antt =====
-- Bounds and exactness of the operations of internal/fixed that add, negate and round.
use g.Base.{
  ℕ, ◌+◌, ◌-◌, ◌^◌, ◌≡◌, ◌↔◌, false, arith, if◌then◌else◌, ltb, ℤ, pos, negsuc, ◌+ℤ◌, ◌-ℤ◌, ltb_ℤ,
  asr, InRange, pos_part, neg_part,
}
use g.Fixed.Saturate.{
  saturate, saturate64, saturate64_sets, max16, round, l_add, extract_h, l_add_sets, add, sub,
  l_sub, l_sub_sets, negate, abs_s, l_negate, l_abs,
}

abbrev pub IsWord16 : ℤ → Type 0
IsWord16 = InRange 16

abbrev pub IsWord32 : ℤ → Type 0
IsWord32 = InRange 32

-- The nearest value in the range of `w` bits.
abbrev pub clamp : ℕ → ℤ → ℤ
clamp w (pos n) = if ltb n (2 ^ (w - 1)) then pos n else pos (2 ^ (w - 1) - 1)
clamp w (negsuc n) = if ltb n (2 ^ (w - 1)) then negsuc n else negsuc (2 ^ (w - 1) - 1)

pub saturate-clamp : (x : ℤ) → saturate x ≡ clamp 16 x
unfolding saturate
saturate-clamp (pos n) = ground arith
saturate-clamp (negsuc n) = ground arith

pub saturate64-clamp : (x : ℤ) → saturate64 x ≡ clamp 32 x
unfolding saturate64
saturate64-clamp (pos n) = ground arith
saturate64-clamp (negsuc n) = ground arith

pub saturate64_sets_iff : (x : ℤ) → (saturate64_sets x ≡ false) ↔ InRange 32 x
unfolding saturate64_sets
saturate64_sets_iff (pos n) = ground arith
saturate64_sets_iff (negsuc n) = ground arith

pub saturate-InRange : (x : ℤ) → IsWord16 (saturate x)
unfolding saturate
saturate-InRange (pos n) = ground arith
saturate-InRange (negsuc n) = ground arith

pub saturate64-InRange : (x : ℤ) → IsWord32 (saturate64 x)
unfolding saturate64
saturate64-InRange (pos n) = ground arith
saturate64-InRange (negsuc n) = ground arith

-- For a 32-bit word, Round is the word divided by 2 ^ 16 to the nearest with halves up where the
-- word is below 2 ^ 31 - 2 ^ 15, and the largest 16-bit word otherwise.
round_lem :
    (x : ℤ)
    → IsWord32 x
    → round x ≡ (if ltb_ℤ x (pos (2 ^ 31 - 2 ^ 15)) then asr (x +ℤ pos 0x8000) 16 else max16)
unfolding round l_add extract_h saturate64 ◌+ℤ◌
round_lem (pos n) h = ground arith
round_lem (negsuc n) h = ground arith

-- For any two integers, LAdd and LSub are the exact sum and difference cut to 32 bits, and each
-- sets the overflow flag exactly where the exact result is no 32-bit word.
pub l_add_lem :
    (a b : ℤ)
    → (l_add a b ≡ clamp 32 (a +ℤ b))
      × (l_sub a b ≡ clamp 32 (a -ℤ b))
      × ((l_add_sets a b ≡ false) ↔ IsWord32 (a +ℤ b))
      × ((l_sub_sets a b ≡ false) ↔ IsWord32 (a -ℤ b))
unfolding l_add l_sub l_add_sets l_sub_sets
l_add_lem a b = (
  saturate64-clamp (a +ℤ b),
  saturate64-clamp (a -ℤ b),
  saturate64_sets_iff (a +ℤ b),
  saturate64_sets_iff (a -ℤ b),
)

-- The size of an integer, as an integer.
abbrev pub size : ℤ → ℤ
size x = pos (pos_part x + neg_part x)

-- For two integers of which the first is a 16-bit word: Add and Sub are the exact sum and
-- difference, Negate and AbsS the exact negative and size of the first, all cut to 16 bits.
add_lem :
    (a b : ℤ)
    → IsWord16 a
    → (add a b ≡ clamp 16 (a +ℤ b))
      × (sub a b ≡ clamp 16 (a -ℤ b))
      × (negate a ≡ clamp 16 (pos 0 -ℤ a))
      × (abs_s a ≡ clamp 16 (size a))
unfolding add sub negate abs_s ◌-ℤ◌
add_lem a b h = (saturate-clamp (a +ℤ b), saturate-clamp (a -ℤ b), ground arith, ground arith)

-- For a 32-bit word, LNegate and LAbs are the exact negative and size cut to 32 bits.
l_negate_lem :
    (a : ℤ) → IsWord32 a → (l_negate a ≡ clamp 32 (pos 0 -ℤ a)) × (l_abs a ≡ clamp 32 (size a))
unfolding l_negate l_abs ◌-ℤ◌
l_negate_lem a h = (ground arith, ground arith)
