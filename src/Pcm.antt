-- ===== src/Pcm.antt =====
-- internal/pcm: the high-pass filter before the encoder (coeffs.go, preprocessor.go) and the scaling behind the
-- decoder (scale.go). A call takes as many samples as both slices hold.
pub mod Frames
pub mod Recursion
mod Tests
use g.Base.{
  ℕ, ◌-◌, List, [], ◌∷◌, ◌++◌, if◌then◌else◌, ltb, ltb_ℤ, length, take, drop, ℤ, pos, negsuc, ◌*ℤ◌,
  asr, wrap,
}
use g.Fixed.Saturate.{max32, min32, l_add, round}
use g.Fixed.Shift.{shl, l_shl}
use g.Fixed.Mult.{l_mac}

abbrev pub coeff_a1 : ℤ
coeff_a1 = pos 15614

abbrev pub coeff_a2 : ℤ
coeff_a2 = negsuc 7465

abbrev pub coeff_b0 : ℤ
coeff_b0 = pos 3798

abbrev pub coeff_b1 : ℤ
coeff_b1 = negsuc 7595

abbrev pub coeff_b2 : ℤ
coeff_b2 = pos 3798

pub record PreProcessor : Type 0 where
  pub x1 : ℤ
  pub x2 : ℤ
  pub y1 : ℤ
  pub y2 : ℤ

abbrev pub reset : PreProcessor
reset = record { x1 = pos 0; x2 = pos 0; y1 = pos 0; y2 = pos 0 }

unfoldable pub scale_feedback : ℤ → ℤ → ℤ
scale_feedback a y =
    let p = asr (a *ℤ y) 13 in
    if ltb_ℤ max32 p then max32 else if ltb_ℤ p min32 then min32 else wrap 32 p

-- One round of the loop of `Process`: the output sample and the new state.
unfoldable pub accumulate : PreProcessor → ℤ → ℤ
accumulate p x0 =
    let acc = l_mac (pos 0) coeff_b0 x0 in
    let acc = l_mac acc coeff_b1 (wrap 16 p.x1) in
    let acc = l_mac acc coeff_b2 (wrap 16 p.x2) in
    let acc = l_add acc (scale_feedback coeff_a1 p.y1) in l_add acc (scale_feedback coeff_a2 p.y2)

unfoldable pub process_sample : PreProcessor → ℤ → ℤ × PreProcessor
process_sample p x0 =
    let acc = accumulate p x0 in
    (round (l_shl acc (pos 2)), record { x1 = x0; x2 = p.x1; y1 = acc; y2 = p.y1 })

unfoldable pub process_loop : PreProcessor → List ℤ → List ℤ × PreProcessor
process_loop p [] = ([], p)
process_loop p (x ∷ xs) =
    let (y, p') = process_sample p x in let (ys, p'') = process_loop p' xs in (y ∷ ys, p'')

-- The samples that a call takes.
abbrev pub shorter : List ℤ → List ℤ → ℕ
shorter input out = if ltb (length out) (length input) then length out else length input

unfoldable pub process : PreProcessor → List ℤ → List ℤ → List ℤ × PreProcessor
process p input out =
    let n = shorter input out in
    let (ys, p') = process_loop p (take n input) in (ys ++ drop n out, p')

unfoldable pub scale_loop : List ℤ → List ℤ
scale_loop [] = []
scale_loop (x ∷ xs) = shl x (pos 1) ∷ scale_loop xs

unfoldable pub scale_up_sat : List ℤ → List ℤ → List ℤ
scale_up_sat input out = let n = shorter input out in scale_loop (take n input) ++ drop n out
