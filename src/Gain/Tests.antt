-- ===== src/Gain/Tests.antt =====
-- internal/gain on concrete gains, codewords and states.
use g.Base.{
  ◌/◌, ◌*◌, ◌^◌, min, ◌≡◌, refl, arith, List, [], ◌∷◌, replicate, ◌++◌, ℤ, pos, negsuc, ◌≤ℤ◌,
}
use g.Gain.Split.{split_gain_q14, quantize_fixed_gain_q1}
use g.Gain.Split.Exact.{IsExactly, split_quantized_lem}
use g.Gain.{Indices, Decoder, seed_decoder, default_errors, predictor_errors}
use g.Gain.Decode.{decode}
use g.Gain.Decode.Lost.{IsErrors, lose, lose_lem}
use g.Gain.Decode.Bounds.{Decoded, decode_lem}

split_quantized_lem_example :
    let q = quantize_fixed_gain_q1 (pos 1000000) in
    let s = split_gain_q14 q in
    (q ≡ pos (min 32767 (1000000 / 2 ^ 13) * 2 ^ 13))
    × (pos 16384 ≤ℤ s.mant)
    × (s.mant ≤ℤ pos 32767)
    × IsExactly s q
split_quantized_lem_example = split_quantized_lem 1000000 (omega arith)

abbrev loud : Decoder
loud = seed_decoder (pos 14416 ∷ negsuc 15006 ∷ pos 900 ∷ pos 0 ∷ [])

loud-IsErrors : IsErrors (predictor_errors loud)
unfolding predictor_errors seed_decoder
loud-IsErrors = (refl, (omega arith, (omega arith, (omega arith, (omega arith, tt)))))

lose_lem_example : predictor_errors (lose 48 loud) ≡ default_errors
lose_lem_example = lose_lem loud 48 loud-IsErrors (omega arith)

abbrev codewords : Indices
codewords = record { ga = 3; gb = 9 }

abbrev pulses : List ℤ
pulses = pos 8191 ∷ replicate 20 (pos 0) ++ (negsuc 8191 ∷ replicate 18 (pos 0))

decode_lem_example : Decoded loud (decode loud codewords pulses)
decode_lem_example = decode_lem loud codewords pulses (omega arith) (omega arith)
