-- ===== src/Postfilter/Agc.antt =====
-- internal/postfilter/agc.go: the control of the gain.
use g.Base.{
  ℕ, zero, suc, ◌+◌, ◌-◌, ◌*◌, ◌/◌, ◌%◌, ◌^◌, List, [], ◌∷◌, true, false, ◌||◌, ◌&&◌, ◌==◌,
  if◌then◌else◌, ltb, leb, ℤ, pos, pos_part, neg_part, ◌+ℤ◌, ◌-ℤ◌, ◌*ℤ◌, ltb_ℤ, leb_ℤ, eqb_ℤ, asr,
  wrap, quot_ℤ,
}
use g.Fixed.Div.{div_s}
use g.Postfilter.LongTerm.{clipped, norm_shift_loop}

abbrev pub agc_alpha_q15 : ℤ
agc_alpha_q15 = pos 29491

abbrev pub agc_alpha_complement_q15 : ℕ
agc_alpha_complement_q15 = 3276

-- The energy, which stops at the largest 32-bit word.
unfoldable pub energy_loop : List ℤ → ℕ → ℕ
energy_loop [] energy = energy
energy_loop (x ∷ xs) energy =
    let sum = energy + pos_part (pos 2 *ℤ asr x 2 *ℤ asr x 2) in
    let rest = energy_loop xs sum in if ltb 2147483647 sum then 2147483647 else rest

unfoldable pub agc_target_energy : List ℤ → ℕ
agc_target_energy x = energy_loop x 0

unfoldable pub agc_target_norm_shift : ℕ → ℕ
agc_target_norm_shift v = if v == 0 then 0 else norm_shift_loop 30 v

-- `shift` is the count less 1, so that it can be -1.
unfoldable pub agc_target_rounded_norm : ℕ → ℤ → ℕ
agc_target_rounded_norm v shift =
    let scaled = if ltb_ℤ shift (pos 0) then v / 2 ^ neg_part shift else v * 2 ^ pos_part shift in
    let norm = (scaled + 0x8000) / 2 ^ 16 in if ltb 32767 norm then 32767 else norm

-- The next guess of `isqrt64`, with the sum in 64 bits.
unfoldable pub next_guess : ℤ → ℤ → ℤ
next_guess x guess = asr (wrap 64 (guess +ℤ quot_ℤ x guess)) 1

-- The rounds of `isqrt64`, which stop when the guess no longer falls.
unfoldable pub isqrt_loop : ℕ → ℤ → ℤ → ℤ
isqrt_loop zero x guess = guess
isqrt_loop (suc fuel) x guess =
    let next = next_guess x guess in
    elim (leb_ℤ guess next) [ true ↦ guess | false ↦ isqrt_loop fuel x next ]

unfoldable pub isqrt64 : ℤ → ℤ
isqrt64 x = if leb_ℤ x (pos 0) then pos 0 else isqrt_loop (pos_part x) x x

-- `for (root+1)*(root+1)*denominator <= numerator`, with fuel for one round.
unfoldable pub root_loop : ℕ → ℕ → ℕ → ℕ → ℕ
root_loop zero numerator denominator root = root
root_loop (suc fuel) numerator denominator root =
    let rest = root_loop fuel numerator denominator (root + 1) in
    if leb ((root + 1) * (root + 1) * denominator) numerator then rest else root

unfoldable pub agc_inverse_sqrt_table_value : ℕ → ℕ
agc_inverse_sqrt_table_value index =
    let numerator = 16 * 32768 * 32768 in
    let denominator = 16 + index in
    let start = pos_part (isqrt64 (pos (numerator / denominator))) in
    let root = root_loop 1 numerator denominator start in
    let lo_diff = numerator - root * root * denominator in
    let hi_diff = (root + 1) * (root + 1) * denominator - numerator in
    let nearest = if ltb hi_diff lo_diff then root + 1 else root in
    if ltb 32767 nearest then 32767 else nearest

unfoldable pub agc_inverse_sqrt_q12 : ℕ → ℤ
agc_inverse_sqrt_q12 x =
    let norm_shift = agc_target_norm_shift x in
    let norm_x = x * 2 ^ norm_shift in
    let adjusted_x = if norm_shift % 2 == 0 then norm_x / 2 else norm_x in
    let index = adjusted_x / 2 ^ 25 - 16 in
    let frac = pos (adjusted_x / 2 ^ 10 % 2 ^ 15) in
    let base = pos (agc_inverse_sqrt_table_value index) in
    let next = pos (agc_inverse_sqrt_table_value (index + 1)) in
    let acc = base *ℤ pos (2 ^ 16) -ℤ pos 2 *ℤ (base -ℤ next) *ℤ frac in
    let denorm_shift = 16 - (norm_shift + 1) / 2 in
    if x == 0 then pos 0 else asr (asr acc denorm_shift +ℤ pos 64) 7

-- The exponent of the quotient, from the two shifts.
unfoldable pub ratio_q28 : ℤ → ℤ → ℕ
ratio_q28 ratio_div_q15 shift =
    if leb_ℤ (pos 0) shift
    then pos_part ratio_div_q15 * 2 ^ pos_part shift
    else pos_part ratio_div_q15 / 2 ^ neg_part shift

unfoldable pub agc_target_sqrt_input_over_post_q12 : ℕ → ℕ → ℤ
agc_target_sqrt_input_over_post_q12 input_energy post_energy =
    let input_shift = pos (agc_target_norm_shift input_energy) in
    let post_shift = pos (agc_target_norm_shift post_energy) -ℤ pos 1 in
    let post_norm = agc_target_rounded_norm post_energy post_shift in
    let input_norm = agc_target_rounded_norm input_energy input_shift in
    if (post_norm == 0) || (input_norm == 0)
    then pos 0
    else agc_inverse_sqrt_q12
        (ratio_q28 (div_s (pos post_norm) (pos input_norm)) (pos 7 -ℤ (post_shift -ℤ input_shift)))

unfoldable pub compute_agc_target_gain : List ℤ → List ℤ → ℤ
compute_agc_target_gain s s_tilt =
    let e_s = agc_target_energy s in
    let e_t = agc_target_energy s_tilt in
    let sqrt_q12 = agc_target_sqrt_input_over_post_q12 e_s e_t in
    let target_q12 = asr (sqrt_q12 *ℤ pos agc_alpha_complement_q15) 15 in
    if (e_s == 0) || (e_t == 0) then pos 0 else wrap 16 (target_q12 *ℤ pos (2 ^ 2))

-- The gain and the samples, one at a time.
unfoldable pub agc_loop : ℤ → ℤ → List ℤ → List ℤ × ℤ
agc_loop target_q12 gain [] = ([], gain)
agc_loop target_q12 gain (x ∷ xs) =
    let next = (asr (agc_alpha_q15 *ℤ gain) 27 +ℤ target_q12) *ℤ pos (2 ^ 12) in
    let rest = agc_loop target_q12 next xs in (clipped (asr (next *ℤ x) 24) ∷ rest.0, rest.1)

unfoldable pub apply_agc : ℤ → List ℤ → ℤ → List ℤ × ℤ
apply_agc gain s_tilt g_target_q14 =
    let r = agc_loop (asr g_target_q14 2) gain s_tilt in
    if eqb_ℤ g_target_q14 (pos 0) && (agc_target_energy s_tilt == 0)
    then (s_tilt, pos 0)
    else (r.0, wrap 32 (if ltb_ℤ r.1 (pos 0) then pos 0 else r.1))
