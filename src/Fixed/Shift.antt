-- ===== src/Fixed/Shift.antt =====
-- internal/fixed: shift16.go and shift32.go. `Shl` and `Shr` call one another when the count is
-- negative, once and with the sign turned, so that each direction is a function of its own here.
pub mod Laws
use g.Base.{
  ℕ, ◌-◌, ◌*◌, ◌/◌, ◌%◌, ◌^◌, Bool, true, false, if◌then◌else◌, ltb, leb, ◌==◌, ℤ, pos, negsuc,
  pos_part, neg_part, ◌-ℤ◌, ◌*ℤ◌, ltb_ℤ, leb_ℤ, asr, to_bits, wrap,
}
use g.Base.Bits.{test_bit}
use g.Fixed.Saturate.{
  max16, min16, max32, min32, saturate, saturate64, saturate64_sets, saturate_sets, add, l_add,
}

-- `Shr` for `n >= 0`.
unfoldable pub shr_right : ℤ → ℕ → ℤ
shr_right a n = if leb 15 n then (if ltb_ℤ a (pos 0) then negsuc 0 else pos 0) else asr a n

-- `Shl` for `n > 0`.
unfoldable pub shl_left : ℤ → ℕ → ℤ
shl_left a n =
    if leb 16 n
    then (if ltb_ℤ (pos 0) a then max16 else if ltb_ℤ a (pos 0) then min16 else pos 0)
    else saturate (a *ℤ pos (2 ^ n))

-- A negative count, turned and cut at `limit`.
abbrev pub turned : ℕ → ℤ → ℕ
turned limit n = if ltb limit (neg_part n) then limit else neg_part n

unfoldable pub shl : ℤ → ℤ → ℤ
shl a n = if leb_ℤ n (pos 0) then shr_right a (turned 16 n) else shl_left a (pos_part n)

unfoldable pub shr : ℤ → ℤ → ℤ
shr a n = if ltb_ℤ n (pos 0) then shl_left a (turned 16 n) else shr_right a (pos_part n)

unfoldable pub shr_r : ℤ → ℤ → ℤ
shr_r a n =
    if leb_ℤ n (pos 0)
    then shl a (wrap 16 (pos 0 -ℤ n))
    else if ltb 15 (pos_part n)
    then pos 0
    else if test_bit (to_bits 16 a) (pos_part n - 1) == 1
    then add (shr a n) (pos 1)
    else shr a n

unfoldable pub l_shr_right : ℤ → ℕ → ℤ
l_shr_right a n = if leb 31 n then (if ltb_ℤ a (pos 0) then negsuc 0 else pos 0) else asr a n

unfoldable pub l_shl_left : ℤ → ℕ → ℤ
l_shl_left a n =
    if leb 32 n
    then (if ltb_ℤ (pos 0) a then max32 else if ltb_ℤ a (pos 0) then min32 else pos 0)
    else saturate64 (a *ℤ pos (2 ^ n))

unfoldable pub l_shl_left_sets : ℤ → ℕ → Bool
l_shl_left_sets a n =
    if leb 32 n
    then (if ltb_ℤ (pos 0) a then true else if ltb_ℤ a (pos 0) then true else false)
    else saturate64_sets (a *ℤ pos (2 ^ n))

unfoldable pub l_shl : ℤ → ℤ → ℤ
l_shl a n = if leb_ℤ n (pos 0) then l_shr_right a (turned 32 n) else l_shl_left a (pos_part n)

unfoldable pub l_shl_sets : ℤ → ℤ → Bool
l_shl_sets a n = if leb_ℤ n (pos 0) then false else l_shl_left_sets a (pos_part n)

unfoldable pub l_shr : ℤ → ℤ → ℤ
l_shr a n = if ltb_ℤ n (pos 0) then l_shl_left a (turned 32 n) else l_shr_right a (pos_part n)

unfoldable pub l_shr_r : ℤ → ℤ → ℤ
l_shr_r a n =
    if leb_ℤ n (pos 0)
    then l_shl a (wrap 16 (pos 0 -ℤ n))
    else if ltb 31 (pos_part n)
    then pos 0
    else if test_bit (to_bits 32 a) (pos_part n - 1) == 1
    then l_add (l_shr a n) (pos 1)
    else l_shr a n
