-- ===== src/Decoder/Valid.antt =====
-- internal/decoder: what holds of a decoder between frames.
use g.Base.{
  ℕ, ◌^◌, ◌≡◌, refl, ◌∙◌, true, false, Bool, arith, if-cases, if◌then◌else◌, List, [], ◌∷◌, length,
  ℤ, pos, ltb_ℤ, leb_ℤ, eqb_ℤ, asr, wrap, ◌*ℤ◌, ◌-ℤ◌,
}
use g.Fixed.Saturate.Laws.{IsWord16}
use g.Lsp.Predictor.Words.{wrap16-IsWord16}
use g.Gain.Decode.{Gains}
use g.Lsp.Stability.Sort.{Words}
use g.Lsp.Frames.{IsDecoder}
use g.Lsp.Convert.{clipped}
use g.Lsp.Convert.Order.{clipped-IsWord16}
use g.Gain
use g.Gain.Decode
use g.Gain.Log.{log2_fixed_q15}
use g.Gain.Decode.{mark_erasure, erased_error, four}
use g.Gain.Decode.Lost.{IsErrors}
use g.Synth
use g.Synth.Memory.{IsMemory, filter-IsSubframe}
use g.Fcb
use g.Postfilter
use g.Pitch.Adaptive.{adaptive_codebook}
use g.Decoder.State.{Decoder, remember_pitch_gain, remember_fixed_gain, remember_pitch_delay}
use g.Decoder.Subframe.{silence, rendered, decode_subframe}
use g.Decoder.Erasure.{
  decode_erasure_subframe, conceal_erasure_gains, next_erasure_fixed_codebook_indices,
  erasure_random,
}
use g.Decoder.Shapes.{
  IsHistory, IsPostfilter, filter-IsPostfilter, advanced-IsHistory, build_excitation-Words,
  length-build_excitation, length-adaptive_codebook, length-decode, hp_filter_final-Words,
  length-hp_filter_final,
}

pub record IsValid (d : Decoder) : Type 0 where
  pub lsp : IsDecoder d.lsp
  pub errors : IsErrors (Gain.predictor_errors d.gn)
  pub memory : IsMemory d.syn.past_synth
  pub post : IsPostfilter d.pst
  pub history : IsHistory d.past_exc

-- A result of a subframe or of a frame: so many words, and a valid decoder.
pub record IsOutput (n : ℕ) (r : List ℤ × Decoder) : Type 0 where
  pub count : length r.0 ≡ n
  pub words : Words r.0
  pub valid : IsValid r.1

rendered-IsOutput :
    (d : Decoder) (a : List ℤ) (t gp : ℤ) (u : List ℤ)
    → IsValid d
    → Words a
    → length u ≡ 40
    → Words u
    → IsOutput 40 (rendered d a t gp u)
unfolding rendered remember_pitch_delay remember_pitch_gain
rendered-IsOutput d a t gp u v wa h wu =
    let syn = filter-IsSubframe d.syn a u v.memory wa wu in
    let s = (Synth.filter d.syn a u).0 in
    let post = filter-IsPostfilter d.pst a t s v.post syn.forty in
    let filtered = (Postfilter.filter d.pst a t s).0 in
    record {
      count = length-hp_filter_final filtered d.hp ∙ post.0;
      words = hp_filter_final-Words filtered d.hp;
      valid = record {
        lsp = v.lsp;
        errors = v.errors;
        memory = syn.kept;
        post = post.1;
        history = advanced-IsHistory _ d.past_exc u v.history h wu;
      };
    }

-- The excitation of a subframe.
excitation_length :
    (t f gp mant exp : ℤ) (past : List ℤ) (idx : Fcb.Indices) (beta : ℤ)
    → length (
        Synth.build_excitation gp mant exp
          (adaptive_codebook t f past silence)
          (Fcb.decode idx t beta))
      ≡ 40
excitation_length t f gp mant exp past idx beta =
    let v = length-adaptive_codebook t f past silence in
    let c = length-decode idx t beta in
    length-build_excitation gp mant exp (adaptive_codebook t f past silence) (Fcb.decode idx t beta)
      (omega (arith, v, c))
    ∙ v

-- Whatever the codewords, the errors stay four words.
quantized-IsWord16 : (gamma : ℤ) → IsWord16 (Gain.quantized_prediction_error_q10 gamma)
unfolding Gain.quantized_prediction_error_q10 clipped
quantized-IsWord16 gamma =
    let g = log2_fixed_q15 gamma -ℤ pos 13 *ℤ pos (2 ^ 15) in
    cut (eqb_ℤ g (pos 0)) (wrap 32 (asr (asr g 2 *ℤ Gain.db_per_log2_q13) 15))
  where
    cut : (b : Bool) (x : ℤ) → IsWord16 (if b then pos 0 else clipped x)
    cut true x = omega arith
    cut false x = clipped-IsWord16 x

new_error-IsWord16 : (gamma : ℤ) → IsWord16 (Gain.Decode.new_error gamma)
unfolding Gain.Decode.new_error
new_error-IsWord16 gamma =
    if-cases IsWord16 (ltb_ℤ (pos 0) gamma) (λ some. quantized-IsWord16 gamma) λ none. omega arith

pushed-IsErrors :
    (u : ℤ) (past : List ℤ) → IsWord16 u → IsErrors past → IsErrors (Gain.Decode.pushed u past)
pushed-IsErrors u (a ∷ b ∷ c ∷ d ∷ []) w v = (refl, (w, (v.1.0, (v.1.1.0, (v.1.1.1.0, tt)))))
pushed-IsErrors u _ w v = absurd (omega arith)

erased-IsWord16 : (sum : ℤ) → IsWord16 (Gain.Decode.erased_error sum)
unfolding Gain.Decode.erased_error
erased-IsWord16 sum = wrap16-IsWord16 _

mark_erasure-IsErrors :
    (d : Gain.Decoder)
    → IsErrors (Gain.predictor_errors d)
    → IsErrors (Gain.predictor_errors (mark_erasure d))
unfolding mark_erasure Gain.predictor_errors Gain.Decode.started
mark_erasure-IsErrors d v = pushed-IsErrors _ _ (erased-IsWord16 _) v

decode-IsErrors :
    (d : Gain.Decoder) (idx : Gain.Indices) (c : List ℤ)
    → IsErrors (Gain.predictor_errors d)
    → IsErrors (Gain.predictor_errors (Gain.Decode.decode d idx c).1)
unfolding Gain.Decode.decode Gain.Decode.decode_with Gain.predictor_errors Gain.Decode.started
decode-IsErrors d idx c v =
    if-cases (λ (r : Gains × Gain.Decoder). IsErrors (Gain.predictor_errors r.1))
      (leb_ℤ (Gain.fixed_codebook_energy c) (pos 0))
      (λ silent. pushed-IsErrors Gain.past_errors_default _ (omega arith) v)
      λ sound. pushed-IsErrors _ _ (new_error-IsWord16 _) v

pub decode_subframe-IsOutput :
    (d : Decoder) (a : List ℤ) (t f : ℤ) (code : Fcb.Indices) (idx : Gain.Indices)
    → IsValid d
    → Words a
    → IsOutput 40 (decode_subframe d a t f code idx)
unfolding decode_subframe remember_fixed_gain
decode_subframe-IsOutput d a t f code idx v wa =
    rendered-IsOutput _ a t _ _ (decoded _ _) wa (excitation_length t f _ _ _ d.past_exc code _)
      (build_excitation-Words _ _ _ _ _)
  where
    decoded :
        (c : List ℤ) (g : ℤ)
        → IsValid (record d { gn = (Gain.Decode.decode d.gn idx c).1; prev_fixed_gain_q14 = g })
    decoded c g = record {
      lsp = v.lsp;
      errors = decode-IsErrors d.gn idx c v.errors;
      memory = v.memory;
      post = v.post;
      history = v.history;
    }

pub decode_erasure_subframe-IsOutput :
    (d : Decoder) (a : List ℤ) (t : ℤ)
    → IsValid d
    → Words a
    → IsOutput 40 (decode_erasure_subframe d a t)
unfolding decode_erasure_subframe conceal_erasure_gains next_erasure_fixed_codebook_indices
    erasure_random
decode_erasure_subframe-IsOutput d a t v wa =
    rendered-IsOutput _ a t _ _
      (record {
        lsp = v.lsp;
        errors = mark_erasure-IsErrors d.gn v.errors;
        memory = v.memory;
        post = v.post;
        history = v.history;
      })
      wa (excitation_length t (pos 0) _ _ _ d.past_exc _ _) (build_excitation-Words _ _ _ _ _)
