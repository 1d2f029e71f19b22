-- ===== src/Decoder/Erasure.antt =====
-- internal/decoder/subframe.go: a subframe of a lost frame.
use g.Base.{ℕ, ◌+◌, ◌*◌, ◌%◌, ◌^◌, List, true, if◌then◌else◌, ℤ, pos, ◌*ℤ◌, ltb_ℤ, leb_ℤ, asr, wrap}
use g.Gain.Decode.{mark_erasure}
use g.Gain.Split.{Scaled, split_gain_q14}
use g.Synth
use g.Fcb
use g.Pitch.Adaptive.{adaptive_codebook}
use g.Decoder.State.{Decoder, pitch_enhancement_beta_q14}
use g.Decoder.Subframe.{silence, rendered}

unfoldable pub quantize_decoder_fixed_gain_q1 : ℤ → ℤ
quantize_decoder_fixed_gain_q1 gain_q14 =
    if leb_ℤ gain_q14 (pos 0)
    then pos 0
    else (let gain_q1 = asr gain_q14 13 in
        (if ltb_ℤ (pos 32767) gain_q1 then pos 32767 else gain_q1) *ℤ pos (2 ^ 13))

abbrev pub erasure_pitch_gain_attenuation_q15 : ℤ
erasure_pitch_gain_attenuation_q15 = pos 29491

abbrev pub erasure_fixed_gain_attenuation_q15 : ℤ
erasure_fixed_gain_attenuation_q15 = pos 32112

-- The pitch gain for a lost subframe.
unfoldable pub attenuated_pitch_gain : Decoder → ℤ
attenuated_pitch_gain d =
    let gp = if d.have_prev_gp_q14 then d.prev_gp_q14 else pos 0 in
    let attenuated = asr (gp *ℤ erasure_pitch_gain_attenuation_q15) 15 in
    if ltb_ℤ (pos 32767) attenuated
    then pos 32767
    else if ltb_ℤ attenuated (pos 0)
    then pos 0
    else attenuated

unfoldable pub attenuated_fixed_gain : Decoder → ℤ
attenuated_fixed_gain d =
    quantize_decoder_fixed_gain_q1
      (asr (wrap 64 (d.prev_fixed_gain_q14 *ℤ erasure_fixed_gain_attenuation_q15)) 15)

-- Both gains, and the state after them.
unfoldable pub conceal_erasure_gains : Decoder → (ℤ × Scaled) × Decoder
conceal_erasure_gains d = (
  (attenuated_pitch_gain d, split_gain_q14 (attenuated_fixed_gain d)),
  record d {
    gn = mark_erasure d.gn;
    prev_gp_q14 = attenuated_pitch_gain d;
    have_prev_gp_q14 = true;
    prev_fixed_gain_q14 = attenuated_fixed_gain d;
  },
)

abbrev pub initial_erasure_random_seed : ℕ
initial_erasure_random_seed = 21845

unfoldable pub next_seed : ℕ → ℕ
next_seed seed = (seed * 31821 + 13849) % 2 ^ 16

unfoldable pub current_erasure_random_seed : Decoder → ℕ
current_erasure_random_seed d =
    if d.random_seed_initialized then d.random_seed else initial_erasure_random_seed

unfoldable pub erasure_random : Decoder → ℕ × Decoder
erasure_random d =
    let seed = next_seed (current_erasure_random_seed d) in
    (seed, record d { random_seed = seed; random_seed_initialized = true })

unfoldable pub next_erasure_fixed_codebook_indices : Decoder → Fcb.Indices × Decoder
next_erasure_fixed_codebook_indices d =
    let first = erasure_random d in
    let second = erasure_random first.1 in
    (record { positions = first.0 % 2 ^ 13; signs = second.0 % 2 ^ 4 }, second.1)

unfoldable pub decode_erasure_subframe : Decoder → List ℤ → ℤ → List ℤ × Decoder
decode_erasure_subframe d sf_a t_int =
    let v = adaptive_codebook t_int (pos 0) d.past_exc silence in
    let idx = next_erasure_fixed_codebook_indices d in
    let c = Fcb.decode idx.0 t_int (pitch_enhancement_beta_q14 idx.1) in
    let gains = conceal_erasure_gains idx.1 in
    let u = Synth.build_excitation gains.0.0 gains.0.1.mant gains.0.1.exp v c in
    rendered gains.1 sf_a t_int gains.0.0 u
