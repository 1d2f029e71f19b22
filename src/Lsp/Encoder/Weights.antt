-- ===== src/Lsp/Encoder/Weights.antt =====
-- internal/lsp/encoder_weights.go: the weights are positive words.
use g.Base.{
  ℕ, zero, suc, ◌+◌, ◌*◌, ◌/◌, ◌^◌, ◌<◌, ◌≡◌, arith, int_laws, if-cases, if◌then◌else◌, List, set,
  ltb, length, length-set, ℤ, pos, negsuc, pos_part, ◌*ℤ◌, ltb_ℤ,
}
use g.Lsp.Stability.{at}
use g.Lsp.Stability.Sort.{at-set}
use g.Lsp.Predictor.{tabulate}
use g.Lsp.Predictor.Words.{length-tabulate}
use g.Lsp.Encoder.{weight_from_arg, boost12, plain_weight, weights_lsf, lsf_q11_one_two}
use g.Lsp.Encoder.Cost.{IsWeight}

weight_from_arg-IsWeight : (a : ℤ) → IsWeight (weight_from_arg a)
unfolding weight_from_arg
weight_from_arg-IsWeight a =
    let w = 2 ^ 37 / (10 * pos_part (a *ℤ a) + 2 ^ 26) in
    if-cases IsWeight (ltb_ℤ (pos 0) a) (λ above. omega arith) λ below. small w
  where
    small : (w : ℕ) → IsWeight (pos (if ltb 32767 w then 32767 else w))
    small w = ground arith

plain_weight-IsWeight : (lsf : List ℤ) (i : ℕ) → IsWeight (plain_weight lsf i)
unfolding plain_weight
plain_weight-IsWeight lsf zero = weight_from_arg-IsWeight _
plain_weight-IsWeight lsf (suc i) =
    if-cases IsWeight (ltb i 8) (λ inner. weight_from_arg-IsWeight _)
      λ last. weight_from_arg-IsWeight _

boosted : (w : ℕ) → pos w *ℤ lsf_q11_one_two ≡ pos (w * 2458)
unfolding ◌*ℤ◌
boosted w = grind int_laws

boost12-IsWeight : (w : ℤ) → IsWeight w → IsWeight (boost12 w)
unfolding boost12
boost12-IsWeight (pos w) h = rw (boosted w) (ground arith)
boost12-IsWeight (negsuc w) h = absurd (omega arith)

tabulate-IsWeight :
    (left i : ℕ) (f : ℕ → ℤ)
    → ((j : ℕ) → IsWeight (f j))
    → (k : ℕ) → IsWeight (at (tabulate left i f) k)
tabulate-IsWeight zero i f h k = omega arith
tabulate-IsWeight (suc left) i f h zero = h i
tabulate-IsWeight (suc left) i f h (suc k) = tabulate-IsWeight left (i + 1) f h k

set-IsWeight :
    (xs : List ℤ) (i : ℕ) (v : ℤ)
    → i < length xs
    → ((k : ℕ) → IsWeight (at xs k))
    → IsWeight v
    → (k : ℕ) → IsWeight (at (set xs i v) k)
set-IsWeight xs i v h w word k = ground (arith, at-set xs i k v h, w k)

pub weights_lsf-IsWeight : (lsf : List ℤ) (k : ℕ) → IsWeight (at (weights_lsf lsf) k)
unfolding weights_lsf
weights_lsf-IsWeight lsf =
    let w = tabulate 10 0 (plain_weight lsf) in
    let plain = tabulate-IsWeight 10 0 (plain_weight lsf) (plain_weight-IsWeight lsf) in
    let ten = length-tabulate 10 0 (plain_weight lsf) in
    let once = set w 4 (boost12 (at w 4)) in
    let first =
      set-IsWeight w 4 (boost12 (at w 4)) (omega (arith, ten)) plain
        (boost12-IsWeight (at w 4) (plain 4)) in
    set-IsWeight once 5 (boost12 (at once 5))
      (omega (arith, ten, length-set w 4 (boost12 (at w 4)))) first
      (boost12-IsWeight (at once 5) (first 5))
