-- ===== src/Decoder/Subframe.antt =====
-- internal/decoder/subframe.go: a subframe of a good frame.
use g.Base.{ℕ, List, ◌++◌, map, if◌then◌else◌, ltb, drop, replicate, ℤ, pos, asr, wrap}
use g.Gain
use g.Gain.Decode.{Gains}
use g.Gain.Decode
use g.Synth
use g.Postfilter
use g.Fcb
use g.Pitch.Adaptive.{adaptive_codebook}
use g.Decoder.HpFilter.{hp_filter_final}
use g.Decoder.State.{
  Decoder, pitch_enhancement_beta_q14, remember_pitch_gain, remember_fixed_gain,
  remember_pitch_delay, decoder_gain_q14_from_mant_exp,
}

abbrev pub silence : List ℤ
silence = replicate 40 (pos 0)

-- Samples scaled down for the history.
unfoldable pub scaled_for_history : ℕ → List ℤ → List ℤ
scaled_for_history shift u = map (λ v. wrap 16 (asr v shift)) u

-- The history behind a subframe, with the subframe that goes into it.
unfoldable pub advanced : ℕ → List ℤ → List ℤ → List ℤ
advanced shift past_exc u =
    if ltb 0 shift
    then drop 40 (scaled_for_history shift past_exc) ++ scaled_for_history shift u
    else drop 40 past_exc ++ u

-- The end that both kinds of subframe share, from the excitation on.
unfoldable pub rendered : Decoder → List ℤ → ℤ → ℤ → List ℤ → List ℤ × Decoder
rendered d sf_a t_int gp_q14 u =
    let syn = Synth.filter d.syn sf_a u in
    let pst = Postfilter.filter d.pst sf_a t_int syn.0 in
    let out = hp_filter_final d.hp pst.0 in
    let after : Decoder = record d {
      syn = syn.1;
      pst = pst.1;
      hp = out.1;
      past_exc = advanced syn.1.last_excitation_scale_shift d.past_exc u;
    } in
    (out.0, remember_pitch_delay t_int (remember_pitch_gain gp_q14 after))

unfoldable pub decode_subframe :
    Decoder → List ℤ → ℤ → ℤ → Fcb.Indices → Gain.Indices → List ℤ × Decoder
decode_subframe d sf_a t_int t_frac code gains_idx =
    let v = adaptive_codebook t_int t_frac d.past_exc silence in
    let c = Fcb.decode code t_int (pitch_enhancement_beta_q14 d) in
    let g = Gain.Decode.decode d.gn gains_idx c in
    let decoded : Decoder = record d { gn = g.1 } in
    let remembered = remember_fixed_gain (decoder_gain_q14_from_mant_exp g.0.gc) decoded in
    let u = Synth.build_excitation g.0.gp_q14 g.0.gc.mant g.0.gc.exp v c in
    rendered remembered sf_a t_int g.0.gp_q14 u
