-- ===== src/Decoder/HpFilter.antt =====
-- internal/decoder/hpfilter.go: the high-pass filter at the output. The diagnostic taps and the
-- output before the scaling are left out.
use g.Base.{List, [], ◌∷◌, ℤ, pos, negsuc}
use g.Fixed.Saturate.{l_add, extract_h, extract_l, round}
use g.Fixed.Shift.{l_shl, l_shr}
use g.Fixed.Mult.{l_mult, l_mac, l_msu, mult}

-- The last two inputs and the last two accumulators.
pub record HpState : Type 0 where
  pub x1 : ℤ
  pub x2 : ℤ
  pub y1 : ℤ
  pub y2 : ℤ

unfoldable pub hp_l_extract : ℤ → ℤ × ℤ
hp_l_extract x = let hi = extract_h x in (hi, extract_l (l_msu (l_shr x (pos 1)) hi (pos 16384)))

unfoldable pub hp_mpy32_16 : ℤ → ℤ → ℤ
hp_mpy32_16 x n = let parts = hp_l_extract x in l_mac (l_mult parts.0 n) (mult parts.1 n) (pos 1)

-- The accumulator for a sample.
unfoldable pub hp_acc : HpState → ℤ → ℤ
hp_acc st xn =
    let ff = l_mac (l_mac (l_mult xn (pos 7699)) st.x1 (negsuc 15397)) st.x2 (pos 7699) in
    let fb = l_add (hp_mpy32_16 st.y1 (pos 15836)) (hp_mpy32_16 st.y2 (negsuc 7666)) in
    l_shl (l_add ff fb) (pos 2)

unfoldable pub hp_final_from_acc_native : ℤ → ℤ
hp_final_from_acc_native acc = round (l_shl acc (pos 1))

unfoldable pub hp_filter_final : HpState → List ℤ → List ℤ × HpState
hp_filter_final st [] = ([], st)
hp_filter_final st (xn ∷ xs) =
    let acc = hp_acc st xn in
    let next : HpState = record { x1 = xn; x2 = st.x1; y1 = acc; y2 = st.y1 } in
    let rest = hp_filter_final next xs in (hp_final_from_acc_native acc ∷ rest.0, rest.1)
