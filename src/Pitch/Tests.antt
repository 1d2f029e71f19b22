-- ===== src/Pitch/Tests.antt =====
-- Runs of the pitch codewords at concrete inputs.
use g.Base.{List, ℤ, replicate, ◌≡◌, refl, arith, true, ltb, pos, negsuc, ◌≤ℤ◌, ◌+ℤ◌, ◌-ℤ◌}
use g.Pitch.Delay.{
  decode_delay_subframe1, decode_delay_subframe2, encode_p1, encode_p2, window_start,
  subframe2_window,
}
use g.Pitch.Delay.RoundTrip.{
  kept_frac, encode_p1-decode, decode-encode_p1, encode_p2-decode, subframe2_window_lem,
}
use g.Pitch.Parity.{check_parity, flipped, encode_p0, check_parity-flipped}
use g.Fcb.{silence}
use g.Pitch.Adaptive.{adaptive_codebook, fir_interpolate_recursive_current}
use g.Pitch.Adaptive.Equal.{adaptive_codebook-recursive}

delay_test : decode_delay_subframe1 0 ≡ (pos 19, pos 1)
unfolding decode_delay_subframe1 ◌+ℤ◌ ◌-ℤ◌
delay_test = refl

encode_p1-decode_example :
    let (t_int, t_frac) = decode_delay_subframe1 200 in
    (encode_p1 t_int t_frac ≡ 200)
    × (pos 19 ≤ℤ t_int)
    × (t_int ≤ℤ pos 143)
    × (negsuc 0 ≤ℤ t_frac)
    × (t_frac ≤ℤ pos 1)
encode_p1-decode_example = encode_p1-decode 200 (omega arith)

decode-encode_p1_example :
    decode_delay_subframe1 (encode_p1 (pos 60) (negsuc 0)) ≡ (pos 60, kept_frac 60 (negsuc 0))
decode-encode_p1_example =
    decode-encode_p1 60 (negsuc 0) (omega arith) (omega arith) (omega arith) (omega arith)

encode_p2-decode_example :
    let (t_int, t_frac) = decode_delay_subframe2 17 (pos 141) in
    encode_p2 t_int t_frac (window_start (pos 141)) ≡ 17
encode_p2-decode_example = encode_p2-decode 17 (pos 141) (omega arith)

subframe2_window_lem_example :
    (subframe2_window (pos 21) ≡ (window_start (pos 21), window_start (pos 21) +ℤ pos 9))
    × (pos 20 ≤ℤ window_start (pos 21))
    × (window_start (pos 21) +ℤ pos 9 ≤ℤ pos 143)
subframe2_window_lem_example = subframe2_window_lem 21 (omega arith)

check_parity-flipped_example :
    (check_parity 90 (encode_p0 90) ≡ true) × (check_parity (flipped 90 5) (encode_p0 90) ≡ ltb 5 2)
check_parity-flipped_example = check_parity-flipped 90 5 (omega arith) (omega arith)

abbrev past : List ℤ
past = replicate 154 (pos 1200)

adaptive_codebook-recursive_example :
    adaptive_codebook (pos 60) (negsuc 0) past silence
    ≡ fir_interpolate_recursive_current (pos 60) (negsuc 0) past silence
adaptive_codebook-recursive_example = adaptive_codebook-recursive (pos 60) (negsuc 0) past silence
