-- ===== src/Gainquant.antt =====
-- internal/gainquant, the encoder's side of the gains: the prediction of the code vector's gain and
-- the memory behind it (predictor.go), the limit on the pitch gain (tame.go) and the codewords
-- (pack.go). Search.antt holds the search of the codebooks (conjugate.go).
mod Tests
pub mod Sync
pub mod Search
pub mod Bounds
pub mod Peaks
pub mod Tried
pub mod Least
use g.Base.{
  ℕ, Bool, ◌&&◌, if◌then◌else◌, List, [], ◌∷◌, get_or, Option, none, some, ℤ, pos, ◌+ℤ◌, ◌-ℤ◌, ◌*ℤ◌,
  ltb_ℤ, leb_ℤ, asr, wrap, ◌^◌,
}
use mathlib.Core.Option as Option
use g.Fixed.Saturate.{saturate}
use g.Fixed.Shift.{l_shl}
use g.Tables.Gain.{gain_gbk1, gain_gbk2, gain_map1, gain_map2}
use g.Gain.Log.{log2_fixed_q15, log_gain_to_log2_q15}
use g.Gain.Split.{Scaled, fixed_gain_q14_from_log2_gamma, quantize_fixed_gain_q1, split_gain_q14}
use g.Gain.{
  Indices, cell, past_errors_default, fixed_codebook_energy, predicted_log_gain_sat16,
  ten_log10_40_reference_q10, db_per_log2_q13, log_gain_db_q10_from_energy_q24,
  quantized_prediction_error_q10,
}
use g.Gain.Decode.{Gains, pushed}

-- LogGainDbQ10FromCodebook of internal/gain; `none` for the results 0 and false.
unfoldable pub log_gain_db_q10_from_codebook : List ℤ → List ℤ → Option ℤ
log_gain_db_q10_from_codebook past c =
    let ec_energy = fixed_codebook_energy c in
    if leb_ℤ ec_energy (pos 0) then none else some (log_gain_db_q10_from_energy_q24 past ec_energy)

unfoldable pub fixed_codebook_energy_db_q10 : ℤ → ℤ
fixed_codebook_energy_db_q10 ec_energy =
    let log2_q15 = log2_fixed_q15 (l_shl ec_energy (pos 1)) -ℤ pos 27 *ℤ pos (2 ^ 15) in
    wrap 32 (asr (log2_q15 *ℤ db_per_log2_q13) 18)

unfoldable pub predicted_log2_gc_q15_search : List ℤ → List ℤ → Option ℤ
predicted_log2_gc_q15_search past c =
    let ec_energy = fixed_codebook_energy c in
    let log_gain_db_q10 = wrap 32 (
      predicted_log_gain_sat16 past
      +ℤ ten_log10_40_reference_q10
      -ℤ fixed_codebook_energy_db_q10 ec_energy) in
    if leb_ℤ ec_energy (pos 0) then none else some (log_gain_to_log2_q15 log_gain_db_q10)

unfoldable pub predicted_log2_gc_q15_wide : List ℤ → List ℤ → Option ℤ
predicted_log2_gc_q15_wide past c =
    Option.map log_gain_to_log2_q15 (log_gain_db_q10_from_codebook past c)

unfoldable pub predicted_gc_q12_from_log2_q15 : ℤ → ℤ
predicted_gc_q12_from_log2_q15 log2_gc_q15 =
    wrap 32 (asr (fixed_gain_q14_from_log2_gamma log2_gc_q15 (pos 8192)) 2)

-- The gain of a prediction, and 0 without one.
unfoldable pub gc_q12_of : Option ℤ → ℤ
gc_q12_of none = pos 0
gc_q12_of (some log2_gc_q15) = predicted_gc_q12_from_log2_q15 log2_gc_q15

unfoldable pub predicted_gc_q12 : List ℤ → List ℤ → ℤ
predicted_gc_q12 past c = gc_q12_of (predicted_log2_gc_q15_search past c)

unfoldable pub predicted_gc_q12_wide : List ℤ → List ℤ → ℤ
predicted_gc_q12_wide past c = gc_q12_of (predicted_log2_gc_q15_wide past c)

abbrev pub no_gain : Scaled
no_gain = record { mant = pos 0; exp = pos 0 }

unfoldable pub dequant_gc : Option ℤ → ℤ → Scaled
dequant_gc none gamma_c_q13 = no_gain
dequant_gc (some log2_gc_pred_q15) gamma_c_q13 =
    if leb_ℤ gamma_c_q13 (pos 0)
    then no_gain
    else split_gain_q14
        (quantize_fixed_gain_q1 (fixed_gain_q14_from_log2_gamma log2_gc_pred_q15 gamma_c_q13))

-- The sums of the two codebooks' entries.
unfoldable pub gp_sum : ℕ → ℕ → ℤ
gp_sum ga gb = cell gain_gbk1 ga 0 +ℤ cell gain_gbk2 gb 0

unfoldable pub gamma_sum : ℕ → ℕ → ℤ
gamma_sum ga gb = cell gain_gbk1 ga 1 +ℤ cell gain_gbk2 gb 1

unfoldable pub reconstruct : List ℤ → List ℤ → ℕ → ℕ → Gains
reconstruct past c ga gb = record {
  gp_q14 = saturate (gp_sum ga gb);
  gc = dequant_gc (predicted_log2_gc_q15_search past c) (gamma_sum ga gb);
}

unfoldable pub reconstruct_wide : List ℤ → List ℤ → ℕ → ℕ → Gains
reconstruct_wide past c ga gb = record {
  gp_q14 = saturate (gp_sum ga gb);
  gc = dequant_gc (predicted_log2_gc_q15_wide past c) (gamma_sum ga gb);
}

unfoldable pub update_past_qua_en : List ℤ → ℤ → List ℤ
update_past_qua_en past gamma_c_q13 =
    pushed
      (if ltb_ℤ (pos 0) gamma_c_q13
        then quantized_prediction_error_q10 gamma_c_q13
        else past_errors_default)
      past

abbrev pub gp_clip_q14 : ℤ
gp_clip_q14 = pos 15565

abbrev pub tame_energy_threshold_q0 : ℤ
tame_energy_threshold_q0 = pos (2 ^ 33)

unfoldable pub energy_of : List ℤ → ℤ → ℤ
energy_of [] energy = energy
energy_of (s ∷ old_exc) energy = energy_of old_exc (energy +ℤ s *ℤ s)

unfoldable pub tame : ℤ → List ℤ → ℤ
tame gp_q14 old_exc =
    if ltb_ℤ tame_energy_threshold_q0 (energy_of old_exc (pos 0)) && ltb_ℤ gp_clip_q14 gp_q14
    then gp_clip_q14
    else gp_q14

unfoldable pub pack_gains : ℕ → ℕ → Indices
pack_gains ga gb = record { ga = get_or gain_map1 ga 0; gb = get_or gain_map2 gb 0 }
