-- ===== src/Decoder.antt =====
-- internal/decoder: the decoder of a frame. This file models the state (types.go) and Decode
-- (decode.go, errors.go); Subframe.antt and Erasure.antt model subframe.go, HpFilter.antt models
-- hpfilter.go. A method's new state stands beside its result, and the slice `out` is the list that
-- Decode leaves in it.
mod Tests
pub mod HpFilter
pub mod State
pub mod Subframe
pub mod Erasure
pub mod Shapes
pub mod Valid
pub mod Frames
mod Public
use g.Base.{
  ℕ, ◌%◌, ◌^◌, List, [], ◌∷◌, ◌++◌, Bool, true, false, if◌then◌else◌, ltb, length, drop, ℤ, pos,
  ◌+ℤ◌, ltb_ℤ,
}
use g.Lsp
use g.Bitstream
use g.Pitch.Delay.{decode_delay_subframe1, decode_delay_subframe2}
use g.Pitch.Parity.{check_parity}
use g.Decoder.State.{
  Decoder, Error, short_input, short_output, from_unpack, frame_samples, remember_pitch_delay,
  concealed_pitch_delay, next_concealed_pitch_delay,
}
use g.Decoder.Subframe.{decode_subframe}
use g.Decoder.Erasure.{decode_erasure_subframe}

-- The integer and fractional delay of the first subframe, concealed where the parity is wrong.
unfoldable pub first_delay : Decoder → Bitstream.Frame → ℤ × ℤ
first_delay d f =
    if check_parity (f.p1 % 2 ^ 8) (f.p0 % 2 ^ 8)
    then decode_delay_subframe1 (f.p1 % 2 ^ 8)
    else (concealed_pitch_delay d, pos 0)

-- The part of Decode for a good frame: 80 samples and the new state.
unfoldable pub decode_good : Decoder → Bitstream.Frame → List ℤ × Decoder
decode_good d f =
    let lsp =
      Lsp.decode d.lsp
        (record { l0 = f.l0 % 2 ^ 8; l1 = f.l1 % 2 ^ 8; l2 = f.l2 % 2 ^ 8; l3 = f.l3 % 2 ^ 8 }) in
    let started : Decoder = record d { lsp = lsp.1 } in
    let t1 = first_delay started f in
    let t2 = decode_delay_subframe2 (f.p2 % 2 ^ 8) t1.0 in
    let first =
      decode_subframe started lsp.0.0 t1.0 t1.1 (record { positions = f.c1; signs = f.s1 % 2 ^ 8 })
        (record { ga = f.ga1 % 2 ^ 8; gb = f.gb1 % 2 ^ 8 }) in
    let second =
      decode_subframe first.1 lsp.0.1 t2.0 t2.1 (record { positions = f.c2; signs = f.s2 % 2 ^ 8 })
        (record { ga = f.ga2 % 2 ^ 8; gb = f.gb2 % 2 ^ 8 }) in
    (first.0 ++ second.0, second.1)

-- The part of Decode for a lost frame.
unfoldable pub decode_bad : Decoder → List ℤ × Decoder
decode_bad d =
    let lsp = Lsp.decode_erasure d.lsp in
    let started : Decoder = record d { lsp = lsp.1 } in
    let t1 = concealed_pitch_delay started in
    let t2 = next_concealed_pitch_delay t1 in
    let first = decode_erasure_subframe started lsp.0.0 t1 in
    let second = decode_erasure_subframe first.1 lsp.0.1 t2 in
    (first.0 ++ second.0, remember_pitch_delay (next_concealed_pitch_delay t2) second.1)

-- What Decode gives: an error, or nothing.
pub data Outcome : Type 0 where
  failed : Error → Outcome
  decoded : List ℤ → Decoder → Outcome

-- Decode behind its guards and Unpack.
unfoldable pub decode_unpacked :
    Decoder → Bitstream.Result Bitstream.Frame → Bool → List ℤ → Outcome
decode_unpacked d (Bitstream.err e) bad out = failed (from_unpack e)
decode_unpacked d (Bitstream.ok f) bad out =
    let r = if bad then decode_bad d else decode_good d f in
    decoded (r.0 ++ drop frame_samples out) r.1

unfoldable pub decode : Decoder → List ℕ → Bool → List ℤ → Outcome
decode d packed bad out =
    if ltb (length packed) Bitstream.frame_bytes
    then failed short_input
    else if ltb (length out) frame_samples
    then failed short_output
    else decode_unpacked d (Bitstream.unpack packed) bad out
