-- ===== src/Fcb.antt =====
-- internal/fcb, the fixed codebook of the decoder (types.go, positions.go, signs.go, enhance.go,
-- decode.go), and the encoder's side of it in internal/fcbsearch (pack.go, code.go). A code vector
-- is a list of 40 samples in Q13, and pulse positions are a list of four indices.
pub mod Fields
pub mod Enhance
mod Tests
use g.Base.{
  ℕ, zero, suc, ◌+◌, ◌*◌, ◌/◌, ◌%◌, ◌-◌, ◌^◌, Bool, ◌||◌, List, [], ◌∷◌, if◌then◌else◌, ltb, ◌==◌,
  get_or, set, replicate, ℤ, pos, negsuc, ltb_ℤ, leb_ℤ, eqb_ℤ, pos_part,
}
use g.Base.Bits.{test_bit}
use g.Fixed.Saturate.{add, extract_h}
use g.Fixed.Shift.{l_shl}
use g.Fixed.Mult.{l_mult}
use Prim.Native.Nat.{bit_or, bit_and}

pub record Indices : Type 0 where
  pub positions : ℕ
  pub signs : ℕ

abbrev pub pulse_amplitude : ℤ
pulse_amplitude = pos 8191

abbrev pub negative_pulse_amplitude : ℤ
negative_pulse_amplitude = negsuc 8191

abbrev pub subframe_len : ℕ
subframe_len = 40

abbrev pub silence : List ℤ
silence = replicate subframe_len (pos 0)

unfoldable pub decode_positions : ℕ → List ℕ
decode_positions code =
    let i0 = bit_and code 0x07 in
    let i1 = bit_and (code / 2 ^ 3) 0x07 in
    let i2 = bit_and (code / 2 ^ 6) 0x07 in
    let jx = bit_and (code / 2 ^ 9) 0x01 in
    let i3 = bit_and (code / 2 ^ 10) 0x07 in
    (5 * i0) ∷ (5 * i1 + 1) ∷ (5 * i2 + 2) ∷ (5 * i3 + 3 + jx) ∷ []

-- The second loop of `placePulses`, from pulse `i` on.
unfoldable pub place_loop : List ℕ → ℕ → ℕ → List ℤ → List ℤ
place_loop [] i signs c = c
place_loop (p ∷ ps) i signs c =
    place_loop ps (i + 1) signs
      (set c p (if test_bit signs i == 1 then pulse_amplitude else negative_pulse_amplitude))

unfoldable pub place_pulses : List ℕ → ℕ → List ℤ
unfolding place_loop
place_pulses positions signs = place_loop positions 0 signs silence

abbrev pub beta_lower : ℤ
beta_lower = pos 3277

abbrev pub beta_upper : ℤ
beta_upper = pos 13017

unfoldable pub clamp_pitch_gain : ℤ → ℤ
clamp_pitch_gain gp_prev =
    if ltb_ℤ gp_prev beta_lower
    then beta_lower
    else if ltb_ℤ beta_upper gp_prev
    then beta_upper
    else gp_prev

-- What one round of the enhancement adds.
unfoldable pub enhance_delta : ℤ → ℤ → ℤ
enhance_delta beta x = extract_h (l_shl (l_mult beta x) (pos 1))

-- The loop of `ApplyPitchEnhancement` at index `n`, with `left` rounds to go.
unfoldable pub enhance_loop : ℕ → ℕ → ℕ → ℤ → List ℤ → List ℤ
enhance_loop zero n t beta c = c
enhance_loop (suc left) n t beta c =
    enhance_loop left (n + 1) t beta
      (set c n (add (get_or c n (pos 0)) (enhance_delta beta (get_or c (n - t) (pos 0)))))

unfoldable pub apply_pitch_enhancement : List ℤ → ℤ → ℤ → List ℤ
apply_pitch_enhancement c t beta =
    if ltb_ℤ t (pos 1) || leb_ℤ (pos 40) t
    then c
    else if eqb_ℤ beta (pos 0)
    then c
    else enhance_loop (40 - pos_part t) (pos_part t) (pos_part t) beta c

unfoldable pub decode : Indices → ℤ → ℤ → List ℤ
decode idx t beta =
    apply_pitch_enhancement (place_pulses (decode_positions idx.positions) idx.signs) t beta

-- The loop of `PackS`, from pulse `i` on.
unfoldable pub pack_s_loop : List ℕ → ℕ → List ℤ → ℕ → ℕ
pack_s_loop [] i signs s = s
pack_s_loop (p ∷ ps) i signs s =
    pack_s_loop ps (i + 1) signs
      (if ltb_ℤ (pos 0) (get_or signs p (pos 0)) then bit_or s (2 ^ i) else s)

unfoldable pub pack_s : List ℕ → List ℤ → ℕ
unfolding pack_s_loop
pack_s positions signs = pack_s_loop positions 0 signs 0

-- uint16 subtraction wraps, as does the shift.
unfoldable pub pack_c : List ℕ → ℕ
pack_c positions =
    let i0 = get_or positions 0 0 / 5 in
    let i1 = (get_or positions 1 0 + 2 ^ 16 - 1) % 2 ^ 16 / 5 in
    let i2 = (get_or positions 2 0 + 2 ^ 16 - 2) % 2 ^ 16 / 5 in
    let p3 = get_or positions 3 0 in
    let jx = if p3 % 5 == 4 then 1 else 0 in
    let i3 = (p3 + 2 ^ 16 - 3 - jx) % 2 ^ 16 / 5 in
    bit_or (bit_or (bit_or (bit_or i0 (i1 * 2 ^ 3 % 2 ^ 16)) (i2 * 2 ^ 6 % 2 ^ 16)) (jx * 2 ^ 9))
      (i3 * 2 ^ 10 % 2 ^ 16)

-- The second loop of `BuildSparseCode`.
unfoldable pub sparse_loop : List ℕ → List ℤ → List ℤ → List ℤ
sparse_loop [] signs c = c
sparse_loop (p ∷ ps) signs c = sparse_loop ps signs (
    set c p (
      if ltb_ℤ (pos 0) (get_or signs p (pos 0)) then pulse_amplitude else negative_pulse_amplitude))

unfoldable pub build_sparse_code : List ℕ → List ℤ → List ℤ
unfolding sparse_loop
build_sparse_code positions signs = sparse_loop positions signs silence

unfoldable pub build_code : List ℕ → List ℤ → ℤ → ℤ → List ℤ
build_code positions signs int_lag prev_gp =
    apply_pitch_enhancement (build_sparse_code positions signs) int_lag (clamp_pitch_gain prev_gp)
