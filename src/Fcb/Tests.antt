-- ===== src/Fcb/Tests.antt =====
-- Runs of the fixed codebook at concrete inputs.
use g.Base.{
  ◌-◌, ◌≡◌, refl, arith, List, [], ◌∷◌, ◌||◌, ltb, if◌then◌else◌, replicate, ℤ, pos, negsuc, eqb_ℤ,
}
use g.Fixed.Saturate.{add}
use g.Fcb.{
  decode, decode_positions, pack_c, pack_s, build_code, clamp_pitch_gain, apply_pitch_enhancement,
  enhance_delta,
}
use g.Fcb.Fields.{on_tracks, decode-build_code}
use g.Fcb.Enhance.{at, enhancement_lem}

abbrev plus_minus : List ℤ
plus_minus = pos 4 ∷ negsuc 3 ∷ replicate 38 (pos 4)

abbrev flat : List ℤ
flat = replicate 40 (pos 100)

positions_test : decode_positions 0x1fff ≡ 35 ∷ 36 ∷ 37 ∷ 39 ∷ []
unfolding decode_positions
positions_test = refl

decode-build_code_example :
    decode
      (record {
        positions = pack_c (on_tracks 1 0 3 7 1);
        signs = pack_s (on_tracks 1 0 3 7 1) plus_minus;
      })
      (pos 30)
      (clamp_pitch_gain (pos 9000))
    ≡ build_code (on_tracks 1 0 3 7 1) plus_minus (pos 30) (pos 9000)
decode-build_code_example =
    decode-build_code 1 0 3 7 1 plus_minus (pos 30) (pos 9000) (omega arith) (omega arith)
      (omega arith) (omega arith) (omega arith)

enhancement_lem_example :
    let out = apply_pitch_enhancement flat (pos 30) (pos 9000) in
    at out 35 ≡ (
      if eqb_ℤ (pos 9000) (pos 0) || ltb 35 30
      then at flat 35
      else add (at flat 35) (enhance_delta (pos 9000) (at out (35 - 30))))
enhancement_lem_example =
    enhancement_lem flat 30 (pos 9000) 35 (omega arith) (omega arith) (omega arith)
