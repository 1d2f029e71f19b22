-- ===== src/Fixed/Saturate.antt =====
-- internal/fixed: saturate.go, overflow.go, arith16.go, arith32.go, extract.go and round.go.
pub mod Laws
use g.Base.{
  ℕ, suc, ◌+◌, ◌-◌, ◌*◌, ◌/◌, ◌%◌, ◌^◌, Bool, true, false, ◌||◌, if◌then◌else◌, ltb, leb, ◌==◌, ℤ,
  pos, negsuc, ◌+ℤ◌, ◌-ℤ◌, ◌*ℤ◌, ltb_ℤ, asr, wrap,
}

abbrev pub max16 : ℤ
max16 = pos 32767

abbrev pub min16 : ℤ
min16 = negsuc 32767

abbrev pub max32 : ℤ
max32 = pos 2147483647

abbrev pub min32 : ℤ
min32 = negsuc 2147483647

abbrev pub eq_min16 : ℤ → Bool
eq_min16 (pos n) = false
eq_min16 (negsuc n) = n == 32767

abbrev pub eq_min32 : ℤ → Bool
eq_min32 (pos n) = false
eq_min32 (negsuc n) = n == 2147483647

unfoldable pub saturate : ℤ → ℤ
saturate x = if ltb_ℤ max16 x then max16 else if ltb_ℤ x min16 then min16 else wrap 16 x

unfoldable pub saturate_sets : ℤ → Bool
saturate_sets x = ltb_ℤ max16 x || ltb_ℤ x min16

unfoldable pub saturate64 : ℤ → ℤ
saturate64 x = if ltb_ℤ max32 x then max32 else if ltb_ℤ x min32 then min32 else wrap 32 x

unfoldable pub saturate64_sets : ℤ → Bool
saturate64_sets x = ltb_ℤ max32 x || ltb_ℤ x min32

-- The flag after an operation, which `ClearOverflow` alone takes back.
abbrev pub clear_overflow : Bool → Bool
clear_overflow flag = false

abbrev pub set_overflow : Bool → Bool → Bool
set_overflow flag sets = if sets then true else flag

unfoldable pub add : ℤ → ℤ → ℤ
add a b = saturate (a +ℤ b)

unfoldable pub sub : ℤ → ℤ → ℤ
sub a b = saturate (a -ℤ b)

unfoldable pub negate : ℤ → ℤ
negate a = if eq_min16 a then max16 else pos 0 -ℤ a

unfoldable pub abs_s : ℤ → ℤ
abs_s a = if eq_min16 a then max16 else if ltb_ℤ a (pos 0) then pos 0 -ℤ a else a

unfoldable pub l_add : ℤ → ℤ → ℤ
l_add a b = saturate64 (a +ℤ b)

unfoldable pub l_add_sets : ℤ → ℤ → Bool
l_add_sets a b = saturate64_sets (a +ℤ b)

unfoldable pub l_sub : ℤ → ℤ → ℤ
l_sub a b = saturate64 (a -ℤ b)

unfoldable pub l_sub_sets : ℤ → ℤ → Bool
l_sub_sets a b = saturate64_sets (a -ℤ b)

unfoldable pub l_negate : ℤ → ℤ
l_negate a = if eq_min32 a then max32 else pos 0 -ℤ a

unfoldable pub l_abs : ℤ → ℤ
l_abs a = if eq_min32 a then max32 else if ltb_ℤ a (pos 0) then pos 0 -ℤ a else a

unfoldable pub extract_h : ℤ → ℤ
extract_h x = wrap 16 (asr x 16)

-- `x & 0xFFFF` is the low half of the bit pattern, and its conversion keeps the pattern.
unfoldable pub extract_l : ℤ → ℤ
extract_l x = wrap 16 x

unfoldable pub l_deposit_h : ℤ → ℤ
l_deposit_h x = wrap 32 (x *ℤ pos (2 ^ 16))

unfoldable pub l_deposit_l : ℤ → ℤ
l_deposit_l x = x

unfoldable pub round : ℤ → ℤ
round x = extract_h (l_add x (pos 0x8000))

unfoldable pub round_sets : ℤ → Bool
round_sets x = l_add_sets x (pos 0x8000)
