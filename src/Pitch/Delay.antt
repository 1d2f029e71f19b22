-- ===== src/Pitch/Delay.antt =====
-- internal/pitch/delay.go, internal/pitch/closedloop/encode.go and window.go: the fractional pitch
-- delays of the two subframes as codewords. A delay is a pair of its integer part and its thirds,
-- -1, 0 or 1.
pub mod RoundTrip
use g.Base.{
  ℕ, ◌+◌, ◌*◌, ◌/◌, ◌%◌, ◌-◌, ◌^◌, Bool, ◌&&◌, ◌||◌, if◌then◌else◌, ltb, leb, ◌==◌, ℤ, pos, negsuc,
  ◌+ℤ◌, ◌-ℤ◌, ◌*ℤ◌, ltb_ℤ, leb_ℤ, to_bits, wrap,
}

unfoldable pub decode_delay_subframe1 : ℕ → ℤ × ℤ
decode_delay_subframe1 p1 =
    if ltb p1 197
    then (let x = p1 + 2 in (pos 19 +ℤ pos (x / 3), pos (x % 3) -ℤ pos 1))
    else (pos p1 -ℤ pos 112, pos 0)

-- The start of the window of the second subframe.
unfoldable pub window_start : ℤ → ℤ
window_start t1_int =
    let t_min = t1_int -ℤ pos 5 in
    if ltb_ℤ t_min (pos 20) then pos 20 else if ltb_ℤ (pos 134) t_min then pos 134 else t_min

unfoldable pub decode_delay_subframe2 : ℕ → ℤ → ℤ × ℤ
decode_delay_subframe2 p2 t1_int =
    let y = p2 + 2 in (window_start t1_int +ℤ pos (y / 3) -ℤ pos 1, pos (y % 3) -ℤ pos 1)

-- The conversion to uint8 keeps the low eight bits, which int16 arithmetic has right even where it
-- wraps.
unfoldable pub encode_p1 : ℤ → ℤ → ℕ
encode_p1 int_lag frac =
    if ltb_ℤ int_lag (pos 85)
      || (leb_ℤ int_lag (pos 85) && leb_ℤ (pos 85) int_lag && leb_ℤ frac (pos 0))
    then to_bits 8 (pos 3 *ℤ (int_lag -ℤ pos 19) +ℤ frac -ℤ pos 1)
    else to_bits 8 (int_lag +ℤ pos 112)

unfoldable pub encode_p2 : ℤ → ℤ → ℤ → ℕ
encode_p2 int_t2 frac t_min = to_bits 8 (pos 3 *ℤ (int_t2 -ℤ t_min) +ℤ frac +ℤ pos 2)

abbrev pub pitch_min_int : ℤ
pitch_min_int = pos 20

abbrev pub pitch_max_int : ℤ
pitch_max_int = pos 143

-- The two windows, as (tmin, tmax). int16 arithmetic wraps only next to -32768, at no open-loop lag.
unfoldable pub subframe1_window : ℤ → ℤ × ℤ
subframe1_window top =
    let t_min = wrap 16 (top -ℤ pos 3) in
    let t_min = if ltb_ℤ t_min pitch_min_int then pitch_min_int else t_min in
    let t_max = wrap 16 (t_min +ℤ pos 6) in
    if ltb_ℤ pitch_max_int t_max
    then (wrap 16 (pitch_max_int -ℤ pos 6), pitch_max_int)
    else (t_min, t_max)

unfoldable pub subframe2_window : ℤ → ℤ × ℤ
subframe2_window int_t1 =
    let t_min = wrap 16 (int_t1 -ℤ pos 5) in
    let t_min = if ltb_ℤ t_min pitch_min_int then pitch_min_int else t_min in
    let t_max = wrap 16 (t_min +ℤ pos 9) in
    if ltb_ℤ pitch_max_int t_max
    then (wrap 16 (pitch_max_int -ℤ pos 9), pitch_max_int)
    else (t_min, t_max)
