-- ===== src/Gain.antt =====
-- internal/gain, the decoder of the gains: the codebooks (vq.go), the energy of the code vector
-- (energy.go), the prediction of its gain (predictor.go) and the decoder's state (types.go,
-- decode.go, seed.go). Logarithms and powers stand in Log.antt, the split of the gain in
-- Split.antt.
mod Tests
pub mod Log
pub mod Split
pub mod Decode
use g.Base.{
  ℕ, zero, suc, ◌+◌, ◌-◌, ◌*◌, ◌/◌, ◌^◌, Bool, true, false, List, [], ◌∷◌, replicate, if◌then◌else◌,
  leb, ltb, get_or, ℤ, pos, negsuc, neg, ◌+ℤ◌, ◌-ℤ◌, ◌*ℤ◌, ltb_ℤ, leb_ℤ, eqb_ℤ, asr, wrap,
}
use g.Fixed.Saturate.{add, l_add, extract_h}
use g.Fixed.Shift.{l_shl, l_shr}
use g.Fixed.Mult.{l_mult, l_mac, mult}
use g.Tables.Gain.{gain_gbk1, gain_gbk2, gain_imap1, gain_imap2, gain_ma_predictor}
use g.Gain.Log.{log2_fixed, log2_fixed_q15, pow2_frac_q14, log_gain_to_log2_q15}
use g.Gain.Split.{Scaled, fixed_gain_q14_from_log2_gamma, quantize_fixed_gain_q1, split_gain_q14}

pub record Indices : Type 0 where
  pub ga : ℕ
  pub gb : ℕ

pub record Decoder : Type 0 where
  pub past_errors : List ℤ
  pub initialized : Bool

abbrev pub reset : Decoder
reset = record { past_errors = replicate 4 (pos 0); initialized = false }

abbrev pub past_errors_default : ℤ
past_errors_default = negsuc 14335

abbrev pub default_errors : List ℤ
default_errors = replicate 4 past_errors_default

unfoldable pub seed_decoder : List ℤ → Decoder
seed_decoder past = record { past_errors = past; initialized = true }

unfoldable pub predictor_errors : Decoder → List ℤ
predictor_errors d = if d.initialized then d.past_errors else default_errors

abbrev pub cell : List (List ℤ) → ℕ → ℕ → ℤ
cell rows r i = get_or (get_or rows r []) i (pos 0)

-- Both results of the codebooks.
unfoldable pub decode_vq : Indices → ℤ × ℤ
decode_vq idx =
    let ga_entry = get_or gain_imap1 idx.ga 0 in
    let gb_entry = get_or gain_imap2 idx.gb 0 in
    (
      add (cell gain_gbk1 ga_entry 0) (cell gain_gbk2 gb_entry 0),
      cell gain_gbk1 ga_entry 1 +ℤ cell gain_gbk2 gb_entry 1,
    )

unfoldable pub energy_loop : List ℤ → ℤ → ℤ
energy_loop [] acc = acc
energy_loop (x ∷ c) acc = energy_loop c (l_add acc (l_shr (l_mult x x) (pos 1)))

unfoldable pub fixed_codebook_energy : List ℤ → ℤ
fixed_codebook_energy c = energy_loop c (pos 0)

abbrev pub gain_mean_energy_q10 : ℤ
gain_mean_energy_q10 = pos 30720

-- The sum over the predictor's coefficients and the past errors.
unfoldable pub energy_sum : List ℤ → List ℤ → ℤ → ℤ
energy_sum [] past acc = acc
energy_sum (b ∷ bs) [] acc = acc
energy_sum (b ∷ bs) (u ∷ past) acc = energy_sum bs past (acc +ℤ pos 2 *ℤ b *ℤ u)

unfoldable pub predicted_energy_q24 : List ℤ → ℤ
predicted_energy_q24 past_errors = energy_sum gain_ma_predictor past_errors (pos 0)

unfoldable pub predicted_log_gain : List ℤ → ℤ
predicted_log_gain past_errors =
    wrap 32 (gain_mean_energy_q10 +ℤ wrap 32 (asr (predicted_energy_q24 past_errors) 14))

unfoldable pub mac_sum : List ℤ → List ℤ → ℤ → ℤ
mac_sum [] past acc = acc
mac_sum (b ∷ bs) [] acc = acc
mac_sum (b ∷ bs) (u ∷ past) acc = mac_sum bs past (l_mac acc b u)

unfoldable pub predicted_log_gain_sat16 : List ℤ → ℤ
predicted_log_gain_sat16 past_errors =
    add gain_mean_energy_q10
      (extract_h (l_shl (mac_sum gain_ma_predictor past_errors (pos 0)) (pos 2)))

abbrev pub db_per_log2_q13 : ℤ
db_per_log2_q13 = pos 24660

abbrev pub ten_log10_40_reference_q10 : ℤ
ten_log10_40_reference_q10 = pos 16404

abbrev pub gain_log_ec_bar_bias_q14 : ℤ
gain_log_ec_bar_bias_q14 = pos 2085632

unfoldable pub fixed_codebook_energy_log2_q15 : ℤ → ℤ → ℤ
fixed_codebook_energy_log2_q15 ec_energy ec_q_correction =
    if eqb_ℤ ec_q_correction (pos 26)
    then log2_fixed_q15 (l_shl ec_energy (pos 1)) -ℤ pos 27 *ℤ pos (2 ^ 15)
    else wrap 32 (log2_fixed_q15 ec_energy -ℤ wrap 32 (ec_q_correction *ℤ pos (2 ^ 15)))

unfoldable pub energy_db_from_log2_q15_trunc : ℤ → ℤ
energy_db_from_log2_q15_trunc log2_q15 = wrap 32 (asr (log2_q15 *ℤ db_per_log2_q13) 18)

unfoldable pub log2_db_product_q14 : ℤ → ℤ → ℤ → ℤ
log2_db_product_q14 int_part frac_q15 multiplier_q13 =
    int_part *ℤ multiplier_q13 *ℤ pos 2 +ℤ mult (wrap 16 frac_q15) (wrap 16 multiplier_q13) *ℤ pos 2

unfoldable pub log_gain_db_q10_from_energy_q24 : List ℤ → ℤ → ℤ
log_gain_db_q10_from_energy_q24 past_errors ec_energy =
    let raw_log2_q15 = log2_fixed_q15 (l_shl ec_energy (pos 1)) in
    let int_part = asr raw_log2_q15 15 in
    let frac_q15 = raw_log2_q15 -ℤ int_part *ℤ pos (2 ^ 15) in
    let ec_bar_q14 =
      gain_log_ec_bar_bias_q14
      +ℤ log2_db_product_q14 int_part frac_q15 (pos 0 -ℤ db_per_log2_q13) in
    let log_gain_q24 = ec_bar_q14 *ℤ pos (2 ^ 10) +ℤ predicted_energy_q24 past_errors in
    wrap 32 (asr log_gain_q24 14)

unfoldable pub quantized_prediction_error_q10 : ℤ → ℤ
quantized_prediction_error_q10 gamma_c_q13 =
    let gamma_log2_q15 = log2_fixed_q15 gamma_c_q13 -ℤ pos 13 *ℤ pos (2 ^ 15) in
    let log2_q13 = asr gamma_log2_q15 2 in
    let val = wrap 32 (asr (log2_q13 *ℤ db_per_log2_q13) 15) in
    if eqb_ℤ gamma_log2_q15 (pos 0)
    then pos 0
    else if ltb_ℤ (pos 32767) val
    then pos 32767
    else if ltb_ℤ val (negsuc 32767)
    then negsuc 32767
    else val
