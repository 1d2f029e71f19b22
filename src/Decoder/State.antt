-- ===== src/Decoder/State.antt =====
-- internal/decoder/types.go and the small methods of subframe.go.
use g.Base.{
  ℕ, ◌-◌, ◌^◌, List, Bool, true, false, if◌then◌else◌, replicate, ℤ, pos, neg_part, pos_part, ◌+ℤ◌,
  ◌*ℤ◌, ltb_ℤ, leb_ℤ, eqb_ℤ, leb, asr, wrap,
}
use g.Bitstream
use g.Lsp
use g.Gain
use g.Synth
use g.Postfilter
use g.Fcb.{clamp_pitch_gain, beta_lower}
use g.Gain.Split.{Scaled}
use g.Decoder.HpFilter.{HpState}

abbrev pub frame_samples : ℕ
frame_samples = 80

abbrev pub past_exc_len : ℕ
past_exc_len = 153

-- The source has one field more, `initialized`, which nothing reads.
pub record Decoder : Type 0 where
  pub lsp : Lsp.Decoder
  pub gn : Gain.Decoder
  pub syn : Synth.Synthesizer
  pub pst : Postfilter.Postfilter
  pub past_exc : List ℤ
  pub prev_gp_q14 : ℤ
  pub have_prev_gp_q14 : Bool
  pub prev_fixed_gain_q14 : ℤ
  pub prev_pitch_delay : ℤ
  pub have_prev_pitch_delay : Bool
  pub random_seed : ℕ
  pub random_seed_initialized : Bool
  pub hp : HpState

abbrev pub reset : Decoder
reset = record {
  lsp = Lsp.reset;
  gn = Gain.reset;
  syn = Synth.reset;
  pst = Postfilter.reset;
  past_exc = replicate past_exc_len (pos 0);
  prev_gp_q14 = pos 0;
  have_prev_gp_q14 = false;
  prev_fixed_gain_q14 = pos 0;
  prev_pitch_delay = pos 0;
  have_prev_pitch_delay = false;
  random_seed = 0;
  random_seed_initialized = false;
  hp = record { x1 = pos 0; x2 = pos 0; y1 = pos 0; y2 = pos 0 };
}

-- The errors of Decode: its own, and those that it passes on.
pub data Error : Type 0 where
  short_input short_output : Error
  from_unpack : Bitstream.Error → Error

unfoldable pub pitch_enhancement_beta_q14 : Decoder → ℤ
pitch_enhancement_beta_q14 d =
    if d.have_prev_gp_q14 then clamp_pitch_gain d.prev_gp_q14 else beta_lower

unfoldable pub remember_pitch_gain : ℤ → Decoder → Decoder
remember_pitch_gain gp_q14 d = record d { prev_gp_q14 = gp_q14; have_prev_gp_q14 = true }

unfoldable pub remember_fixed_gain : ℤ → Decoder → Decoder
remember_fixed_gain gain_q14 d = record d { prev_fixed_gain_q14 = gain_q14 }

unfoldable pub remember_pitch_delay : ℤ → Decoder → Decoder
remember_pitch_delay t_int d = record d { prev_pitch_delay = t_int; have_prev_pitch_delay = true }

abbrev pub initial_erasure_pitch_delay : ℤ
initial_erasure_pitch_delay = pos 60

unfoldable pub concealed_pitch_delay : Decoder → ℤ
concealed_pitch_delay d =
    if d.have_prev_pitch_delay then d.prev_pitch_delay else initial_erasure_pitch_delay

unfoldable pub next_concealed_pitch_delay : ℤ → ℤ
next_concealed_pitch_delay t_int = if ltb_ℤ t_int (pos 143) then t_int +ℤ pos 1 else pos 143

unfoldable pub decoder_gain_q14_from_mant_exp : Scaled → ℤ
decoder_gain_q14_from_mant_exp s =
    if eqb_ℤ s.mant (pos 0)
    then pos 0
    else if leb_ℤ (pos 0) s.exp
    then (if leb 62 (pos_part s.exp)
        then pos (2 ^ 63 - 1)
        else wrap 64 (s.mant *ℤ pos (2 ^ pos_part s.exp)))
    else (if leb 63 (neg_part s.exp) then pos 0 else asr s.mant (neg_part s.exp))
