-- ===== src/Gain/Log.antt =====
-- internal/gain/log2.go and pow2.go: logarithms and powers of 2 by table.
use g.Base.{
  ℕ, ◌-◌, ◌^◌, List, if◌then◌else◌, leb, get_or, ℤ, pos, ◌+ℤ◌, ◌-ℤ◌, ◌*ℤ◌, ltb_ℤ, leb_ℤ, asr, wrap,
  to_bits, pos_part, neg_part,
}
use g.Fixed.Shift.{l_shl, l_shr}
use g.Fixed.Norm.{norm_l}
use g.Tables.Gain.{pow2_table, log2_table}

-- A table's entry at a signed index.
abbrev pub entry : List ℤ → ℤ → ℤ
entry table idx = get_or table (pos_part idx) (pos 0)

unfoldable pub log2_fixed_q15 : ℤ → ℤ
log2_fixed_q15 x =
    if leb_ℤ x (pos 0)
    then pos 0
    else (let s = pos (norm_l x) in
        let norm_x = l_shl x s in
        let int_part = pos 30 -ℤ s in
        let frac30 = norm_x -ℤ pos (2 ^ 30) in
        let idx = asr frac30 25 in
        let a = pos (to_bits 15 (asr frac30 10)) in
        let t0 = entry log2_table idx in
        let t1 = entry log2_table (idx +ℤ pos 1) in
        int_part *ℤ pos (2 ^ 15) +ℤ (t0 +ℤ asr ((t1 -ℤ t0) *ℤ a) 15))

unfoldable pub log2_fixed : ℤ → ℤ
log2_fixed x = asr (log2_fixed_q15 x) 5

-- The table read with a fraction of `bits` bits behind the index.
unfoldable pub pow2_frac : ℕ → ℤ → ℤ
pow2_frac bits frac =
    let idx = asr frac bits in
    let a = pos (to_bits bits frac) in
    let t0 = entry pow2_table idx in
    let t1 = entry pow2_table (idx +ℤ pos 1) in
    wrap 16 (t0 +ℤ asr ((t1 -ℤ t0) *ℤ a +ℤ pos (2 ^ (bits - 1))) bits)

unfoldable pub pow2_frac_q14 : ℤ → ℤ
pow2_frac_q14 frac = pow2_frac 5 frac

unfoldable pub pow2_frac_q14_from_q15 : ℤ → ℤ
pow2_frac_q14_from_q15 frac = pow2_frac 10 frac

unfoldable pub pow2_fixed : ℤ → ℤ
pow2_fixed x =
    let int_part = asr x 10 in
    let frac = x -ℤ int_part *ℤ pos (2 ^ 10) in
    let frac_q14 = pow2_frac_q14 frac in
    let shift = int_part -ℤ pos 14 in
    if leb_ℤ (pos 0) shift
    then (if ltb_ℤ (pos 16) shift
        then pos 0x7FFFFFFF
        else wrap 32 (frac_q14 *ℤ pos (2 ^ pos_part shift)))
    else (if leb 31 (neg_part shift) then pos 0 else asr frac_q14 (neg_part shift))

abbrev pub inv_db_scale_q15 : ℤ
inv_db_scale_q15 = pos 5439

unfoldable pub log_gain_to_log2_q15 : ℤ → ℤ
log_gain_to_log2_q15 log_gain_db_q10 =
    let log_gain_q8 = l_shr log_gain_db_q10 (pos 2) in
    wrap 32 (asr (log_gain_q8 *ℤ inv_db_scale_q15) 8)
