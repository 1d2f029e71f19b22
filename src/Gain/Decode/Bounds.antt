-- ===== src/Gain/Decode/Bounds.antt =====
-- internal/gain/decode.go: the range of what Decode gives and remembers.
use g.Base.{
  ℕ, ◌+◌, ◌*◌, ◌/◌, ◌%◌, ◌<◌, ◌≡◌, ◌⊎◌, refl, inl, inr, ap, ap₂, subst, ◌∙◌, true, false, Bool,
  Bool-cases, ◌&&◌, arith, if-cases, List, get_or, ℤ, pos, negsuc, pos_part, ◌+ℤ◌, ◌-ℤ◌, ◌*ℤ◌, ◌≤ℤ◌,
  leb_ℤ, all_below, at_all_below,
}
use g.Fixed.Saturate.{add, saturate, saturate64}
use g.Fixed.Shift.{l_shl, l_shl_left}
use g.Fixed.Norm.{norm_l, norm_loop}
use g.Tables.Gain.{gain_gbk1, gain_gbk2, gain_imap1, gain_imap2, log2_table}
use g.Gain.Log.{log2_fixed_q15}
use g.Gain.Split.{Scaled, split_gain_q14, quantize_fixed_gain_q1}
use g.Gain.Split.Exact.{split_quantized_lem}
use g.Gain.{
  Indices, Decoder, predictor_errors, decode_vq, fixed_codebook_energy,
  quantized_prediction_error_q10,
}
use g.Gain.Decode.{Gains, pushed, started, decode, decode_with, fixed_gain, new_error}

abbrev pub IsMantissa : ℤ → Type 0
IsMantissa m = (m ≡ pos 0) ⊎ ((pos 16384 ≤ℤ m) × (m ≤ℤ pos 32767))

abbrev pub Within : ℤ → ℤ → ℤ → Type 0
Within low high x = (low ≤ℤ x) × (x ≤ℤ high)

quantized_zero : (x : ℤ) → leb_ℤ (pos 8192) x ≡ false → quantize_fixed_gain_q1 x ≡ pos 0
unfolding quantize_fixed_gain_q1 ◌*ℤ◌
quantized_zero (pos x) h = ground arith
quantized_zero (negsuc x) h = ground arith

zero_split : (split_gain_q14 (pos 0)).mant ≡ pos 0
unfolding split_gain_q14
zero_split = refl

split-IsMantissa : (x : ℤ) → IsMantissa (split_gain_q14 (quantize_fixed_gain_q1 x)).mant
split-IsMantissa x = elim (Bool-cases (leb_ℤ (pos 8192) x)) [
  | inl large ↦
      let r = split_quantized_lem (pos_part x) (ground arith) in
      let e : x ≡ pos (pos_part x) = ground arith in rw e (inr (r.1, r.2))
  | inr small ↦ inl (ap (λ q. (split_gain_q14 q).mant) (quantized_zero x small) ∙ zero_split)
]

-- Every pair of codewords, tested.
pair : ℕ → Indices
pair k = record { ga = k / 16; gb = k % 16 }

pair_test : ℕ → Bool
pair_test k =
    let vq = decode_vq (pair k) in
    leb_ℤ (pos 827) vq.0
    && leb_ℤ vq.0 (pos 22215)
    && leb_ℤ (pos 1516) vq.1
    && leb_ℤ vq.1 (pos 41438)
    && leb_ℤ (negsuc 15006) (new_error vq.1)
    && leb_ℤ (new_error vq.1) (pos 14416)

pair_tests : all_below 128 pair_test ≡ true
unfolding all_below pair_test pair decode_vq new_error quantized_prediction_error_q10 log2_fixed_q15
    norm_l norm_loop l_shl l_shl_left saturate64 add saturate ◌+ℤ◌ ◌-ℤ◌ ◌*ℤ◌ gain_gbk1 gain_gbk2
    gain_imap1 gain_imap2 log2_table
pair_tests = refl

pair_range :
    (idx : Indices)
    → idx.ga < 8
    → idx.gb < 16
    → Within (pos 827) (pos 22215) (decode_vq idx).0
      × Within (pos 1516) (pos 41438) (decode_vq idx).1
      × Within (negsuc 15006) (pos 14416) (new_error (decode_vq idx).1)
unfolding pair_test pair
pair_range idx h l =
    let k = idx.ga * 16 + idx.gb in
    let test = at_all_below 128 pair_test pair_tests k (omega arith) in
    let ga : k / 16 ≡ idx.ga = omega arith in
    let gb : k % 16 ≡ idx.gb = omega arith in
    let same : pair k ≡ idx = ap₂ (λ a b. record { ga = a; gb = b }) ga gb in
    subst
      (λ p.
        Within (pos 827) (pos 22215) (decode_vq p).0
        × Within (pos 1516) (pos 41438) (decode_vq p).1
        × Within (negsuc 15006) (pos 14416) (new_error (decode_vq p).1))
      same (ground (arith, test))

fixed_gain-IsMantissa : (log gamma : ℤ) → IsMantissa (fixed_gain log gamma (pos 13)).mant
unfolding fixed_gain
fixed_gain-IsMantissa log gamma =
    if-cases (λ (s : Scaled). IsMantissa s.mant) (leb_ℤ gamma (pos 0)) (λ none. inl refl)
      λ some. split-IsMantissa _

pub record Decoded (d : Decoder) (r : Gains × Decoder) : Type 0 where
  pub gp : Within (pos 827) (pos 22215) r.0.gp_q14
  pub gc : IsMantissa r.0.gc.mant
  pub head : Within (negsuc 15006) (pos 14416) (get_or (predictor_errors r.1) 0 (pos 0))
  pub fifo :
      predictor_errors r.1 ≡ pushed (get_or (predictor_errors r.1) 0 (pos 0)) (predictor_errors d)

-- For any state, a codeword GA below 8, a codeword GB below 16 and any code vector, the gain
-- decoder's Decode gives a pitch gain from 827 to 22215, a mantissa that is 0 or from 16384 to
-- 32767, and remembers a new error from -15007 to 14416 in front of the first three of the errors
-- that it remembered before.
pub decode_lem :
    (d : Decoder) (idx : Indices) (c : List ℤ)
    → idx.ga < 8
    → idx.gb < 16
    → Decoded d (decode d idx c)
unfolding decode decode_with predictor_errors started
decode_lem d idx c h l =
    let range = pair_range idx h l in
    if-cases (Decoded d) (leb_ℤ (fixed_codebook_energy c) (pos 0))
      (λ silent. record { gp = range.0; gc = inl refl; head = omega arith; fifo = refl })
      λ sound. record { gp = range.0; gc = fixed_gain-IsMantissa _ _; head = range.2; fifo = refl }
