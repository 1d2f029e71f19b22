-- ===== src/Pitch/Delay/RoundTrip.antt =====
-- The delay codewords of internal/pitch/closedloop/encode.go and their decoding in
-- internal/pitch/delay.go, one after the other.
use g.Base.{
  ℕ, ◌+◌, ◌/◌, ◌%◌, ◌-◌, ◌^◌, ◌≤◌, ◌<◌, ◌≡◌, arith, ℤ, pos, negsuc, ◌≤ℤ◌, ◌+ℤ◌, ◌-ℤ◌, ◌*ℤ◌, zero,
  suc, subst, Bool, true, ◌&&◌, refl, int_laws, eqb_ℤ, eqb_ℤ_sound, leb_ℤ, to_bits, all_below,
  at_all_below, ◌==◌, ==_iff, if◌then◌else◌, ltb,
}
use g.Pitch.Delay.{
  decode_delay_subframe1, decode_delay_subframe2, encode_p1, encode_p2, window_start,
  subframe2_window,
}

p1_table :
    all_below 256 (λ p1. let (t, f) = decode_delay_subframe1 p1 in encode_p1 t f == p1) ≡ true
unfolding all_below decode_delay_subframe1 encode_p1 ◌+ℤ◌ ◌-ℤ◌ ◌*ℤ◌
p1_table = refl

-- For every P1 below 256, EncodeP1 of the delay that DecodeDelaySubframe1 gives is P1, and that
-- delay has an integer part from 19 to 143 and a fraction from -1 to 1.
pub encode_p1-decode :
    (p1 : ℕ)
    → p1 < 256
    → let (t_int, t_frac) = decode_delay_subframe1 p1 in
      (encode_p1 t_int t_frac ≡ p1)
      × (pos 19 ≤ℤ t_int)
      × (t_int ≤ℤ pos 143)
      × (negsuc 0 ≤ℤ t_frac)
      × (t_frac ≤ℤ pos 1)
unfolding decode_delay_subframe1 ◌+ℤ◌ ◌-ℤ◌
encode_p1-decode p1 h = (
  (==_iff _ p1).0 (at_all_below 256 _ p1_table p1 h),
  ground arith,
  ground arith,
  ground arith,
  ground arith,
)

-- What P1 keeps of a delay: beyond 85 it has no thirds.
abbrev pub kept_frac : ℕ → ℤ → ℤ
kept_frac t f = if ltb t 85 then f else if t == 85 && leb_ℤ f (pos 0) then f else pos 0

lag_test : ℕ → ℤ → Bool
lag_test t f =
    let (t', f') = decode_delay_subframe1 (encode_p1 (pos (t + 20)) f) in
    eqb_ℤ t' (pos (t + 20)) && eqb_ℤ f' (kept_frac (t + 20) f)

lag_tables :
    (all_below 124 (λ t. lag_test t (negsuc 0)) ≡ true)
    × (all_below 124 (λ t. lag_test t (pos 0)) ≡ true)
    × (all_below 124 (λ t. lag_test t (pos 1)) ≡ true)
unfolding all_below lag_test decode_delay_subframe1 encode_p1 ◌+ℤ◌ ◌-ℤ◌ ◌*ℤ◌
lag_tables = (refl, refl, refl)

lag_tests : (t : ℕ) (f : ℤ) → t < 124 → negsuc 0 ≤ℤ f → f ≤ℤ pos 1 → lag_test t f ≡ true
lag_tests t (pos zero) h lo hi = at_all_below 124 (λ t. lag_test t (pos 0)) lag_tables.1 t h
lag_tests t (pos (suc zero)) h lo hi = at_all_below 124 (λ t. lag_test t (pos 1)) lag_tables.2 t h
lag_tests t (pos (suc (suc n))) h lo hi = absurd (omega arith)
lag_tests t (negsuc zero) h lo hi = at_all_below 124 (λ t. lag_test t (negsuc 0)) lag_tables.0 t h
lag_tests t (negsuc (suc n)) h lo hi = absurd (omega arith)

lag_test_sound :
    (t : ℕ) (f : ℤ)
    → lag_test t f ≡ true
    → decode_delay_subframe1 (encode_p1 (pos (t + 20)) f) ≡ (pos (t + 20), kept_frac (t + 20) f)
unfolding lag_test
lag_test_sound t f h =
    let code : ℤ × ℤ = decode_delay_subframe1 (encode_p1 (pos (t + 20)) f) in
    ground (arith, h, eqb_ℤ_sound code.0 (pos (t + 20)), eqb_ℤ_sound code.1 (kept_frac (t + 20) f))

-- For an integer lag from 20 to 143 and a fraction of -1, 0 or 1, DecodeDelaySubframe1 of what
-- EncodeP1 gives is the lag with its fraction below 85, with a fraction of -1 or 0 at 85, and with
-- the fraction 0 otherwise.
pub decode-encode_p1 :
    (t : ℕ) (f : ℤ)
    → 20 ≤ t
    → t ≤ 143
    → negsuc 0 ≤ℤ f
    → f ≤ℤ pos 1
    → decode_delay_subframe1 (encode_p1 (pos t) f) ≡ (pos t, kept_frac t f)
decode-encode_p1 t f lo hi flo fhi =
    subst (λ n. decode_delay_subframe1 (encode_p1 (pos n) f) ≡ (pos n, kept_frac n f))
      {x = t - 20 + 20} (omega arith)
      (lag_test_sound (t - 20) f (lag_tests (t - 20) f (omega arith) flo fhi))

-- For a lag of the first subframe from 0 to 32763, the encoder's window of the second subframe
-- starts where the decoder's does and ends nine later, and lies within 20 and 143.
pub subframe2_window_lem :
    (t : ℕ)
    → t < 2 ^ 15 - 4
    → (subframe2_window (pos t) ≡ (window_start (pos t), window_start (pos t) +ℤ pos 9))
      × (pos 20 ≤ℤ window_start (pos t))
      × (window_start (pos t) +ℤ pos 9 ≤ℤ pos 143)
unfolding subframe2_window window_start ◌+ℤ◌ ◌-ℤ◌
subframe2_window_lem t h = ground arith

delay_in_window : (w : ℤ) (a : ℕ) → w +ℤ pos a -ℤ pos 1 -ℤ w ≡ pos a -ℤ pos 1
delay_in_window w a = omega int_laws

p2_table :
    all_below 32 (λ p2.
      to_bits 8 (pos 3 *ℤ (pos ((p2 + 2) / 3) -ℤ pos 1) +ℤ (pos ((p2 + 2) % 3) -ℤ pos 1) +ℤ pos 2)
      == p2)
    ≡ true
unfolding all_below ◌+ℤ◌ ◌-ℤ◌ ◌*ℤ◌
p2_table = refl

-- For every P2 below 32 and every integer delay of the first subframe, EncodeP2, against the window
-- start of that delay, of the delay that DecodeDelaySubframe2 gives is P2.
pub encode_p2-decode :
    (p2 : ℕ) (t1 : ℤ)
    → p2 < 32
    → let (t_int, t_frac) = decode_delay_subframe2 p2 t1 in
      encode_p2 t_int t_frac (window_start t1) ≡ p2
unfolding decode_delay_subframe2 encode_p2
encode_p2-decode p2 t1 h =
    rw (delay_in_window (window_start t1) ((p2 + 2) / 3))
      ((==_iff _ p2).0 (at_all_below 32 _ p2_table p2 h))
