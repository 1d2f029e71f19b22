-- ===== src/Decoder/Public.antt =====
-- decoder_root.go: the decoder of the root package, whose DecodeFrame has its own guards in front of
-- Decode. DecodeFrameEnhanced and DecodeFramePostfilterBlend are left out.
use g.Base.{
  ℕ, ◌≤◌, ◌<◌, ◌≡◌, ◌≢◌, List, Bool, false, if◌then◌else◌, if-cases, ◌==◌, ltb, length, arith, ℤ,
}
use g.Bitstream
use g.Decoder.{Outcome, failed, decoded, decode}
use g.Decoder.State.{Decoder, reset, frame_samples, short_input, short_output, from_unpack}
use g.Decoder.Frames.{Reach, IsOutcome, decode-IsOutcome}

-- What DecodeFrame gives: an error of its own, or what Decode gives.
pub data Response : Type 0 where
  err_unsupported_annex_b err_short_bitstream err_short_output : Response
  answered : Outcome → Response

unfoldable is_annex_b_sid_frame : List ℕ → Bool
is_annex_b_sid_frame bits = length bits == 2

unfoldable decode_frame : Decoder → List ℕ → List ℤ → Response
decode_frame d bits out =
    if is_annex_b_sid_frame bits
    then err_unsupported_annex_b
    else if length bits == Bitstream.frame_bytes
    then (if ltb (length out) frame_samples
        then err_short_output
        else answered (decode d bits false out))
    else err_short_bitstream

-- The errors by the lengths of the slices; behind the guards Decode succeeds.
IsResponse : List ℕ → List ℤ → Response → Type 0
IsResponse bits out err_unsupported_annex_b = length bits ≡ 2
IsResponse bits out err_short_bitstream = (length bits ≢ 2) × (length bits ≢ 10)
IsResponse bits out err_short_output = (length bits ≡ 10) × (length out < 80)
IsResponse bits out (answered (failed e)) = ⊥
IsResponse bits out (answered (decoded after d)) =
    (length bits ≡ 10) × IsOutcome bits out (decoded after d)

answered-IsResponse :
    (bits : List ℕ) (out : List ℤ) (r : Outcome)
    → length bits ≡ 10
    → 80 ≤ length out
    → IsOutcome bits out r
    → IsResponse bits out (answered r)
unfolding IsResponse IsOutcome
answered-IsResponse bits out (failed short_input) h k o = absurd (omega arith)
answered-IsResponse bits out (failed short_output) h k o = absurd (omega arith)
answered-IsResponse bits out (failed (from_unpack e)) h k o = o
answered-IsResponse bits out (decoded after d) h k o = (h, o)

decode_frame-IsResponse :
    {d : Decoder} (bits : List ℕ) (out : List ℤ)
    → Reach reset d
    → IsResponse bits out (decode_frame d bits out)
unfolding decode_frame is_annex_b_sid_frame IsResponse
decode_frame-IsResponse bits out r =
    if-cases (IsResponse bits out) (length bits == 2) (λ sid. ground arith)
      λ frame.
        if-cases (IsResponse bits out) (length bits == 10)
          (λ ten.
            if-cases (IsResponse bits out) (ltb (length out) 80)
              (λ short. (ground arith, ground arith))
              λ enough.
                answered-IsResponse bits out _ (ground arith) (ground arith)
                  (decode-IsOutcome bits false out r))
          λ other. (ground arith, ground arith)
