-- ===== src/Fixed/Mult.antt =====
-- internal/fixed: mult.go, the fractional products.
pub mod Laws
use g.Base.{
  ℕ, zero, suc, ◌+◌, ◌*◌, ◌^◌, ◌<◌, ◌≤◌, ◌≡◌, refl, Bool, true, false, ◌&&◌, arith, if◌then◌else◌,
  leb, ltb, ℤ, pos, negsuc, ◌+ℤ◌, ◌*ℤ◌, asr, wrap, InRange,
}
use g.Fixed.Saturate.{max16, max32, eq_min16, saturate, l_add, l_sub, l_add_sets, l_sub_sets}
use g.Fixed.Saturate.Laws.{IsWord16, clamp, saturate-clamp}

unfoldable pub l_mult : ℤ → ℤ → ℤ
l_mult a b = if eq_min16 a && eq_min16 b then max32 else wrap 32 (wrap 32 (a *ℤ b) *ℤ pos 2)

unfoldable pub l_mult_sets : ℤ → ℤ → Bool
l_mult_sets a b = eq_min16 a && eq_min16 b

unfoldable pub l_mac : ℤ → ℤ → ℤ → ℤ
l_mac acc a b = l_add acc (l_mult a b)

unfoldable pub l_mac_sets : ℤ → ℤ → ℤ → Bool
l_mac_sets acc a b = if l_mult_sets a b then true else l_add_sets acc (l_mult a b)

unfoldable pub l_msu : ℤ → ℤ → ℤ → ℤ
l_msu acc a b = l_sub acc (l_mult a b)

unfoldable pub l_msu_sets : ℤ → ℤ → ℤ → Bool
l_msu_sets acc a b = if l_mult_sets a b then true else l_sub_sets acc (l_mult a b)

unfoldable pub mult : ℤ → ℤ → ℤ
mult a b = if eq_min16 a && eq_min16 b then max16 else wrap 16 (asr (wrap 32 (a *ℤ b)) 15)

unfoldable pub mult_r : ℤ → ℤ → ℤ
mult_r a b =
    if eq_min16 a && eq_min16 b
    then max16
    else saturate (asr (wrap 32 (wrap 32 (a *ℤ b) +ℤ pos 0x4000)) 15)
