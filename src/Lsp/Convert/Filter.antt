-- ===== src/Lsp/Convert/Filter.antt =====
-- internal/lsp/lsp_lp.go: the shape of the filter.
use g.Base.{
  ℕ, zero, suc, ◌+◌, ◌-◌, ◌^◌, ◌<◌, ◌≤◌, ◌≡◌, refl, ◌∙◌, arith, List, length, set, replicate,
  length-set, ◌+ℤ◌, get_or-set_ne, ℤ, pos,
}
use g.Fixed.Saturate.Laws.{IsWord16}
use g.Lsp.Stability.{at}
use g.Lsp.Stability.Sort.{Words, Words-set}
use g.Lsp.Convert.{fill_loop, rounded_q12, lsp_to_lp, clipped}
use g.Lsp.Convert.Order.{clipped-IsWord16}

rounded-IsWord16 : (x : ℤ) → IsWord16 (rounded_q12 x)
unfolding rounded_q12
rounded-IsWord16 x = clipped-IsWord16 _

-- A filter of order 10 in Q12: eleven words, the first of them 1.0.
pub record IsFilter (a : List ℤ) : Type 0 where
  pub eleven : length a ≡ 11
  pub one : at a 0 ≡ pos 4096
  pub words : Words a

fill_loop-IsFilter :
    (left i : ℕ) (f1 f2 a : List ℤ)
    → 1 ≤ i
    → i + left ≤ 6
    → IsFilter a
    → IsFilter (fill_loop left i f1 f2 a)
unfolding fill_loop
fill_loop-IsFilter zero i f1 f2 a h l s = s
fill_loop-IsFilter (suc left) i f1 f2 a h l s =
    fill_loop-IsFilter left (i + 1) f1 f2 _ (omega arith) (omega arith) (
      put (11 - i) _ _ (omega arith) (omega arith) (rounded-IsWord16 _)
        (put i _ a h (omega arith) (rounded-IsWord16 _) s))
  where
    put :
        (i : ℕ) (v : ℤ) (a : List ℤ)
        → 1 ≤ i
        → i < 11
        → IsWord16 v
        → IsFilter a
        → IsFilter (set a i v)
    put i v a h l word s = record {
      eleven = length-set a i v ∙ s.eleven;
      one = get_or-set_ne a i 0 v (pos 0) (λ e. omega arith) ∙ s.one;
      words = Words-set a i v (omega (arith, s.eleven)) s.words word;
    }

zeros-Words : (n : ℕ) → Words (replicate n (pos 0))
zeros-Words zero k = omega arith
zeros-Words (suc n) zero = omega arith
zeros-Words (suc n) (suc k) = zeros-Words n k

one_q12 : rounded_q12 (pos (2 ^ 28)) ≡ pos 4096
unfolding rounded_q12 clipped ◌+ℤ◌
one_q12 = refl

start-IsFilter : IsFilter (set (replicate 11 (pos 0)) 0 (rounded_q12 (pos (2 ^ 28))))
start-IsFilter = record {
  eleven = refl;
  one = one_q12;
  words =
      Words-set (replicate 11 (pos 0)) 0 (rounded_q12 (pos (2 ^ 28))) (omega arith) (zeros-Words 11)
        (rounded-IsWord16 (pos (2 ^ 28)));
}

pub lsp_to_lp-IsFilter : (lsp : List ℤ) → IsFilter (lsp_to_lp lsp)
unfolding lsp_to_lp
lsp_to_lp-IsFilter lsp = fill_loop-IsFilter 5 1 _ _ _ (omega arith) (omega arith) start-IsFilter
