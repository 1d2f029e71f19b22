-- ===== src/Fcb/Fields.antt =====
-- The C and S fields of internal/fcbsearch/pack.go, and the code vector that internal/fcb builds
-- from them.
use Prim.Native.Nat.{bit_or}
use g.Base.{
  ℕ, ◌+◌, ◌*◌, ◌/◌, ◌^◌, ◌<◌, ◌≡◌, refl, ap, sym, ◌∙◌, arith, Bool, true, List, [], ◌∷◌, ◌==◌,
  ==_iff, if◌then◌else◌, all_below, at_all_below, get_or, ℤ, pos, ltb_ℤ,
}
use g.Base.Bits.{test_bit, and_mask}
use g.Fcb.{
  decode_positions, place_pulses, decode, pack_s, pack_c, sparse_loop, build_sparse_code,
  build_code, clamp_pitch_gain,
}

code_table : all_below 8192 (λ code. pack_c (decode_positions code) == code) ≡ true
unfolding all_below pack_c decode_positions
code_table = refl

-- For every C below 2 ^ 13, PackC of the positions that decodePositions gives is C.
pub pack_c-decode_positions : (code : ℕ) → code < 2 ^ 13 → pack_c (decode_positions code) ≡ code
pack_c-decode_positions code h = (==_iff _ code).0 (at_all_below 8192 _ code_table code h)

-- The positions of four pulses on their tracks; the last track is a pair of tracks, chosen by `jx`.
abbrev pub on_tracks : ℕ → ℕ → ℕ → ℕ → ℕ → List ℕ
on_tracks a b c d jx = (5 * a) ∷ (5 * b + 1) ∷ (5 * c + 2) ∷ (5 * d + 3 + jx) ∷ []

module _ (a b c d jx : ℕ) (ha : a < 8) (hb : b < 8) (hc : c < 8) (hd : d < 8) (hj : jx < 2) where
  code : ℕ
  code = a + 8 * b + 64 * c + 512 * jx + 1024 * d

  decode_positions-code : decode_positions code ≡ on_tracks a b c d jx
  unfolding decode_positions code
  decode_positions-code = ground (
    arith,
    and_mask 3 code 7,
    and_mask 3 (code / 2 ^ 3) 7,
    and_mask 3 (code / 2 ^ 6) 7,
    and_mask 1 (code / 2 ^ 9) 1,
    and_mask 3 (code / 2 ^ 10) 7,
  )

  code-lt : code < 2 ^ 13
  unfolding code
  code-lt = omega arith

  -- Positions on the tracks come back from their C field.
  pub decode_positions-pack_c :
      decode_positions (pack_c (on_tracks a b c d jx)) ≡ on_tracks a b c d jx
  decode_positions-pack_c =
      ap (λ ps. decode_positions (pack_c ps)) (sym decode_positions-code)
      ∙ ap decode_positions (pack_c-decode_positions code code-lt)
      ∙ decode_positions-code

-- The number that `PackS` builds from four signs, and its bits.
abbrev sign_field : Bool → Bool → Bool → Bool → ℕ
sign_field a b c d =
    let s0 : ℕ = if a then bit_or 0 (2 ^ 0) else 0 in
    let s1 = if b then bit_or s0 (2 ^ 1) else s0 in
    let s2 = if c then bit_or s1 (2 ^ 2) else s1 in if d then bit_or s2 (2 ^ 3) else s2

HasSigns : ℕ → Bool → Bool → Bool → Bool → Type 0
HasSigns s a b c d =
    ((test_bit s 0 == 1) ≡ a)
    × ((test_bit s 1 == 1) ≡ b)
    × ((test_bit s 2 == 1) ≡ c)
    × ((test_bit s 3 == 1) ≡ d)

sign_field-HasSigns : (a b c d : Bool) → HasSigns (sign_field a b c d) a b c d
unfolding HasSigns
sign_field-HasSigns a b c d = ground arith

-- The bits of an S field are the signs that it was packed from.
module _ (p q r s : ℕ) (signs : List ℤ) where
  abbrev is_positive : ℕ → Bool
  is_positive m = ltb_ℤ (pos 0) (get_or signs m (pos 0))

  -- The decoder's pulses and the encoder's are the same, at any four positions.
  pub place_pulses-pack_s :
      place_pulses (p ∷ q ∷ r ∷ s ∷ []) (pack_s (p ∷ q ∷ r ∷ s ∷ []) signs)
      ≡ build_sparse_code (p ∷ q ∷ r ∷ s ∷ []) signs
  unfolding place_pulses pack_s build_sparse_code sparse_loop HasSigns
  place_pulses-pack_s =
      let bits =
        sign_field-HasSigns (is_positive p) (is_positive q) (is_positive r) (is_positive s) in
      rw (bits.0, bits.1, bits.2, bits.3) refl

-- For four pulses on their tracks, any list of signs, any lag and any gain of the previous
-- subframe: the decoder's Decode of the C and S fields that PackC and PackS make of the pulses,
-- with the gain clamped, is the code vector that the encoder's BuildCode makes of them.
pub decode-build_code :
    (a b c d jx : ℕ) (signs : List ℤ) (t gp_prev : ℤ)
    → a < 8
    → b < 8
    → c < 8
    → d < 8
    → jx < 2
    → let ps = on_tracks a b c d jx in
      decode
        (record { positions = pack_c ps; signs = pack_s ps signs })
        t
        (clamp_pitch_gain gp_prev)
      ≡ build_code ps signs t gp_prev
unfolding decode build_code
decode-build_code a b c d jx signs t gp_prev ha hb hc hd hj =
    rw
      (
        decode_positions-pack_c a b c d jx ha hb hc hd hj,
        place_pulses-pack_s (5 * a) (5 * b + 1) (5 * c + 2) (5 * d + 3 + jx) signs,
      )
      refl
