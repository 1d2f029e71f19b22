-- ===== src/Pcm/Frames.antt =====
-- The filter and the scaling of internal/pcm over frames.
use mathlib.Core.List.{append-nil}
use g.Base.{
  ℕ, zero, suc, ◌<◌, ◌≡◌, refl, ◌∙◌, sym, ap, arith, List, [], ◌∷◌, ◌++◌, All, if◌then◌else◌, ltb_ℤ,
  length, take, drop, get_or, length-append, ℤ, pos, negsuc, ◌*ℤ◌, asr, wrap,
}
use g.Fixed.Saturate.{max32, min32}
use g.Fixed.Saturate.Laws.{IsWord16, clamp}
use g.Fixed.Shift.Laws.{shl_lem}
use g.Pcm.{
  PreProcessor, scale_feedback, process_sample, process_loop, shorter, process, scale_loop,
  scale_up_sat,
}

-- For any two integers, scaleFeedback is their product divided by 2 ^ 13, rounded down and cut to
-- 32 bits.
pub scale_feedback_lem : (a y : ℤ) → scale_feedback a y ≡ clamp 32 (asr (a *ℤ y) 13)
unfolding scale_feedback
scale_feedback_lem a y = cut (asr (a *ℤ y) 13)
  where
    cut :
        (p : ℤ)
        → (if ltb_ℤ max32 p then max32 else if ltb_ℤ p min32 then min32 else wrap 32 p) ≡ clamp 32 p
    cut (pos n) = ground arith
    cut (negsuc n) = ground arith

take-length : (xs : List ℤ) → take (length xs) xs ≡ xs
take-length [] = refl
take-length (x ∷ xs) = ap (◌∷◌ x) (take-length xs)

drop-length : (xs : List ℤ) → drop (length xs) xs ≡ []
drop-length [] = refl
drop-length (x ∷ xs) = drop-length xs

pub process_exact :
    (p : PreProcessor) (xs out : List ℤ)
    → length out ≡ length xs
    → process p xs out ≡ process_loop p xs
unfolding process
process_exact p xs out h =
    let n : shorter xs out ≡ length xs = ground (arith, h) in
    let none_left : drop (length xs) out ≡ [] = ap (λ m. drop m out) (sym h) ∙ drop-length out in
    rw (n, take-length xs, none_left, append-nil (process_loop p xs).0) refl

process_loop-append :
    (p : PreProcessor) (xs ys : List ℤ)
    → let one = process_loop p xs in
      let two = process_loop one.1 ys in process_loop p (xs ++ ys) ≡ (one.0 ++ two.0, two.1)
unfolding process_loop
process_loop-append p [] ys = refl
process_loop-append p (x ∷ xs) ys =
    let (y, p') = process_sample p x in ap (λ r. (y ∷ r.0, r.1)) (process_loop-append p' xs ys)

-- For any filter state, two lists of samples and two output slices of the same lengths: one call of
-- Process on both lists in a row gives the outputs of a call on the first and then a call on the
-- second, in a row, and leaves the same state.
pub process-append :
    (p : PreProcessor) (xs ys out₁ out₂ : List ℤ)
    → length out₁ ≡ length xs
    → length out₂ ≡ length ys
    → let one = process p xs out₁ in
      let two = process one.1 ys out₂ in
      process p (xs ++ ys) (out₁ ++ out₂) ≡ (one.0 ++ two.0, two.1)
process-append p xs ys out₁ out₂ h k =
    rw
      (
        process_exact p (xs ++ ys) (out₁ ++ out₂)
            (omega (arith, h, k, length-append {0} out₁ out₂, length-append {0} xs ys)),
        process_exact p xs out₁ h,
        process_exact (process_loop p xs).1 ys out₂ k,
      )
      (process_loop-append p xs ys)

scale_loop_lem :
    (xs : List ℤ) (i : ℕ)
    → All IsWord16 xs
    → i < length xs
    → get_or (scale_loop xs) i (pos 0) ≡ clamp 16 (get_or xs i (pos 0) *ℤ pos 2)
unfolding scale_loop
scale_loop_lem [] i h k = absurd (omega arith)
scale_loop_lem (x ∷ xs) zero h k = (shl_lem x (pos 1) h.0).0
scale_loop_lem (x ∷ xs) (suc i) h k = scale_loop_lem xs i h.1 (omega arith)

-- For 16-bit samples, an output slice of the same length and an index within it, ScaleUpSat gives
-- twice the sample there cut to 16 bits.
pub scale_up_sat_lem :
    (xs out : List ℤ) (i : ℕ)
    → All IsWord16 xs
    → length out ≡ length xs
    → i < length xs
    → get_or (scale_up_sat xs out) i (pos 0) ≡ clamp 16 (get_or xs i (pos 0) *ℤ pos 2)
unfolding scale_up_sat
scale_up_sat_lem xs out i h e k =
    let n : shorter xs out ≡ length xs = ground (arith, e) in
    let none_left : drop (length xs) out ≡ [] = ap (λ m. drop m out) (sym e) ∙ drop-length out in
    rw (n, take-length xs, none_left, append-nil (scale_loop xs)) (scale_loop_lem xs i h k)
