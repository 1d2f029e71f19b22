-- ===== src/Gain/Split.antt =====
-- internal/gain/pow2.go: the gain from its logarithm, its quantization and its split into mantissa
-- and exponent.
pub mod Exact
use g.Base.{
  ℕ, zero, suc, ◌+◌, ◌-◌, ◌*◌, ◌/◌, ◌^◌, if◌then◌else◌, ltb, leb, ℤ, pos, negsuc, ◌+ℤ◌, ◌-ℤ◌, ◌*ℤ◌,
  ltb_ℤ, leb_ℤ, asr, wrap, pos_part, neg_part,
}
use g.Gain.Log.{pow2_frac_q14_from_q15}

unfoldable pub fixed_gain_q14_from_log2_gamma : ℤ → ℤ → ℤ
fixed_gain_q14_from_log2_gamma log2_gc_q15 gamma_c_q13 =
    let int_part = asr log2_gc_q15 15 in
    let frac_q15 = log2_gc_q15 -ℤ int_part *ℤ pos (2 ^ 15) in
    let gc0_q14 = pow2_frac_q14_from_q15 frac_q15 in
    let gamma_c_q12 = asr gamma_c_q13 1 in
    let base_q14 = asr (gamma_c_q12 *ℤ gc0_q14) 12 in
    if leb_ℤ (pos 0) int_part
    then (if leb 62 (pos_part int_part)
        then pos 0x7FFFFFFFFFFFFFFF
        else wrap 64 (base_q14 *ℤ pos (2 ^ pos_part int_part)))
    else (if leb 63 (neg_part int_part) then pos 0 else asr base_q14 (neg_part int_part))

unfoldable pub quantize_fixed_gain_q1 : ℤ → ℤ
quantize_fixed_gain_q1 gain_q14 =
    if leb_ℤ gain_q14 (pos 0)
    then pos 0
    else (let gain_q1 = asr gain_q14 13 in
        (if ltb_ℤ (pos 32767) gain_q1 then pos 32767 else gain_q1) *ℤ pos (2 ^ 13))

-- A mantissa and an exponent.
pub record Scaled : Type 0 where
  pub mant : ℤ
  pub exp : ℤ

-- `for gainQ14 > 32767 && e < 127`: the exponent is 127 less the rounds left.
unfoldable pub halve_loop : ℕ → ℕ → ℕ × ℕ
halve_loop zero gain = (gain, 127)
halve_loop (suc left) gain =
    let rest = halve_loop left (gain / 2) in if ltb 32767 gain then rest else (gain, 127 - suc left)

-- `for gainQ14 < 16384 && e > -128`: the exponent is the rounds left less 128.
unfoldable pub double_loop : ℕ → ℕ → ℕ × ℤ
double_loop zero gain = (gain, negsuc 127)
double_loop (suc left) gain =
    let rest = double_loop left (gain * 2) in
    if ltb gain 16384 then rest else (gain, pos (suc left) -ℤ pos 128)

-- Both loops, for a positive gain.
unfoldable pub split_positive : ℕ → Scaled
split_positive gain =
    let halved = halve_loop 127 gain in
    let doubled = double_loop (halved.1 + 128) halved.0 in
    record { mant = wrap 16 (pos doubled.0); exp = wrap 8 doubled.1 }

unfoldable pub split_gain_q14 : ℤ → Scaled
split_gain_q14 gain_q14 =
    if leb_ℤ gain_q14 (pos 0)
    then record { mant = pos 0; exp = pos 0 }
    else split_positive (pos_part gain_q14)
