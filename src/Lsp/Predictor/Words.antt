-- ===== src/Lsp/Predictor/Words.antt =====
-- internal/lsp/predictor.go: vectors of 16-bit words.
use g.Base.{
  ℕ, zero, suc, ◌+◌, ◌≡◌, refl, ap, arith, List, length, get_or, ℤ, pos, negsuc, asr, wrap,
}
use g.Fixed.Saturate.{extract_h}
use g.Fixed.Saturate.Laws.{IsWord16, saturate-InRange}
use g.Lsp.Stability.Sort.{Words}
use g.Lsp.Predictor.{
  tabulate, predicted, apply_predictor_coordinate, inverse_predictor_residual, inverse_coordinate,
}

pub wrap16-IsWord16 : (x : ℤ) → IsWord16 (wrap 16 x)
wrap16-IsWord16 (pos n) = ground arith
wrap16-IsWord16 (negsuc n) = ground arith

extract_h-IsWord16 : (x : ℤ) → IsWord16 (extract_h x)
unfolding extract_h
extract_h-IsWord16 x = wrap16-IsWord16 (asr x 16)

pub length-tabulate : (left i : ℕ) (f : ℕ → ℤ) → length (tabulate left i f) ≡ left
length-tabulate zero i f = refl
length-tabulate (suc left) i f = ap suc (length-tabulate left (i + 1) f)

pub tabulate-Words :
    (left i : ℕ) (f : ℕ → ℤ) → ((j : ℕ) → IsWord16 (f j)) → Words (tabulate left i f)
tabulate-Words zero i f h k = omega arith
tabulate-Words (suc left) i f h zero = h i
tabulate-Words (suc left) i f h (suc k) = tabulate-Words left (i + 1) f h k

coordinate-IsWord16 :
    (selector i : ℕ) (residual : ℤ) (past : List (List ℤ))
    → IsWord16 (apply_predictor_coordinate selector i residual past)
unfolding apply_predictor_coordinate
coordinate-IsWord16 selector i residual past = extract_h-IsWord16 _

inverse-IsWord16 :
    (selector i : ℕ) (target : ℤ) (past : List (List ℤ))
    → IsWord16 (inverse_coordinate selector i target past)
unfolding inverse_coordinate
inverse-IsWord16 selector i target past = saturate-InRange _

pub predicted-Words :
    (selector : ℕ) (residual : List ℤ) (past : List (List ℤ))
    → Words (predicted selector residual past)
unfolding predicted
predicted-Words selector residual past =
    tabulate-Words 10 0
      (λ i. apply_predictor_coordinate selector i (get_or residual i (pos 0)) past)
      λ j. coordinate-IsWord16 selector j (get_or residual j (pos 0)) past

pub length-predicted :
    (selector : ℕ) (residual : List ℤ) (past : List (List ℤ))
    → length (predicted selector residual past) ≡ 10
unfolding predicted
length-predicted selector residual past =
    length-tabulate 10 0 λ i. apply_predictor_coordinate selector i (get_or residual i (pos 0)) past

pub length-inverse :
    (selector : ℕ) (target : List ℤ) (past : List (List ℤ))
    → length (inverse_predictor_residual selector target past) ≡ 10
unfolding inverse_predictor_residual
length-inverse selector target past =
    length-tabulate 10 0 λ i. inverse_coordinate selector i (get_or target i (pos 0)) past

pub inverse-Words :
    (selector : ℕ) (target : List ℤ) (past : List (List ℤ))
    → Words (inverse_predictor_residual selector target past)
unfolding inverse_predictor_residual
inverse-Words selector target past =
    tabulate-Words 10 0 (λ i. inverse_coordinate selector i (get_or target i (pos 0)) past)
      λ j. inverse-IsWord16 selector j (get_or target j (pos 0)) past
