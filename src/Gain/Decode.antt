-- ===== src/Gain/Decode.antt =====
-- internal/gain/decode.go: the gains of a subframe, and the state after it.
pub mod Fifo
pub mod Lost
pub mod Bounds
use g.Base.{
  ℕ, List, [], ◌∷◌, Bool, true, if◌then◌else◌, get_or, ℤ, pos, negsuc, ◌+ℤ◌, ◌-ℤ◌, ◌*ℤ◌, ltb_ℤ,
  leb_ℤ, eqb_ℤ, asr, wrap, ◌^◌,
}
use g.Gain.Log.{log2_fixed, pow2_frac_q14, log_gain_to_log2_q15}
use g.Gain.Split.{Scaled, fixed_gain_q14_from_log2_gamma, quantize_fixed_gain_q1, split_gain_q14}
use g.Gain.{
  Indices, Decoder, past_errors_default, default_errors, decode_vq, fixed_codebook_energy,
  predicted_log_gain, ten_log10_40_reference_q10, fixed_codebook_energy_log2_q15,
  energy_db_from_log2_q15_trunc, log_gain_db_q10_from_energy_q24, quantized_prediction_error_q10,
}

pub record Gains : Type 0 where
  pub gp_q14 : ℤ
  pub gc : Scaled

-- The FIFO after a new entry.
abbrev pub pushed : ℤ → List ℤ → List ℤ
pushed u past = u ∷ get_or past 0 (pos 0) ∷ get_or past 1 (pos 0) ∷ get_or past 2 (pos 0) ∷ []

-- The start of each method.
unfoldable pub started : Decoder → List ℤ
started d = if d.initialized then d.past_errors else default_errors

unfoldable pub log_gain_db_q10 : List ℤ → ℤ → ℤ → ℤ
log_gain_db_q10 past ec_energy ec_q_correction =
    let ec_db_q10 =
      energy_db_from_log2_q15_trunc (fixed_codebook_energy_log2_q15 ec_energy ec_q_correction) in
    if eqb_ℤ ec_q_correction (pos 26)
    then log_gain_db_q10_from_energy_q24 past ec_energy
    else wrap 32 (predicted_log_gain past +ℤ ten_log10_40_reference_q10 -ℤ ec_db_q10)

-- The mantissa and exponent on the path of other corrections than 13.
unfoldable pub folded : ℤ → ℤ → ℤ → Scaled
folded log2_gc_q15 gamma_c gamma_q_correction =
    let gamma_log2_q10 = wrap 32 (log2_fixed gamma_c -ℤ wrap 32 gamma_q_correction *ℤ pos 1024) in
    let with_gamma = wrap 32 (asr log2_gc_q15 5 +ℤ gamma_log2_q10) in
    let int_part = asr with_gamma 10 in
    let frac = with_gamma -ℤ int_part *ℤ pos (2 ^ 10) in
    record {
      mant = pow2_frac_q14 frac;
      exp =
          if ltb_ℤ (pos 127) int_part
          then pos 127
          else if ltb_ℤ int_part (negsuc 127)
          then negsuc 127
          else int_part;
    }

unfoldable pub fixed_gain : ℤ → ℤ → ℤ → Scaled
fixed_gain log2_gc_q15 gamma_c gamma_q_correction =
    if leb_ℤ gamma_c (pos 0)
    then record { mant = pos 0; exp = pos 0 }
    else if eqb_ℤ gamma_q_correction (pos 13)
    then split_gain_q14
        (quantize_fixed_gain_q1 (fixed_gain_q14_from_log2_gamma log2_gc_q15 gamma_c))
    else folded log2_gc_q15 gamma_c gamma_q_correction

unfoldable pub new_error : ℤ → ℤ
new_error gamma_c =
    if ltb_ℤ (pos 0) gamma_c then quantized_prediction_error_q10 gamma_c else past_errors_default

unfoldable pub decode_with : ℤ → ℤ → Decoder → Indices → List ℤ → Gains × Decoder
decode_with ec_q_correction gamma_q_correction d idx c =
    let past = started d in
    let ec_energy = fixed_codebook_energy c in
    let vq = decode_vq idx in
    let log2_gc_q15 = log_gain_to_log2_q15 (log_gain_db_q10 past ec_energy ec_q_correction) in
    if leb_ℤ ec_energy (pos 0)
    then (
      record { gp_q14 = vq.0; gc = record { mant = pos 0; exp = pos 0 } },
      record { past_errors = pushed past_errors_default past; initialized = true },
    )
    else (
      record { gp_q14 = vq.0; gc = fixed_gain log2_gc_q15 vq.1 gamma_q_correction },
      record { past_errors = pushed (new_error vq.1) past; initialized = true },
    )

unfoldable pub decode : Decoder → Indices → List ℤ → Gains × Decoder
decode d idx c = decode_with (pos 26) (pos 13) d idx c

unfoldable pub decode_with_gamma_log_correction : Decoder → Indices → List ℤ → ℤ → Gains × Decoder
decode_with_gamma_log_correction d idx c gamma_q_correction =
    decode_with (pos 26) (if leb_ℤ gamma_q_correction (pos 0) then pos 13 else gamma_q_correction) d
      idx c

unfoldable pub decode_with_log_corrections : Decoder → Indices → List ℤ → ℤ → ℤ → Gains × Decoder
decode_with_log_corrections d idx c ec_q_correction gamma_q_correction =
    decode_with (if leb_ℤ ec_q_correction (pos 0) then pos 26 else ec_q_correction)
      (if leb_ℤ gamma_q_correction (pos 0) then pos 13 else gamma_q_correction) d idx c

-- The entry for a lost subframe, from the sum of the four before.
unfoldable pub erased_error : ℤ → ℤ
erased_error sum =
    let u_current = asr sum 2 -ℤ pos 4096 in
    wrap 16 (if ltb_ℤ u_current past_errors_default then past_errors_default else u_current)

unfoldable pub four : List ℤ → ℤ
four past =
    get_or past 0 (pos 0) +ℤ get_or past 1 (pos 0) +ℤ get_or past 2 (pos 0) +ℤ get_or past 3 (pos 0)

unfoldable pub mark_erasure : Decoder → Decoder
mark_erasure d = record {
  past_errors = pushed (erased_error (four (started d))) (started d);
  initialized = true;
}
