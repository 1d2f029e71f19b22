-- ===== src/Fcbsearch/Ready.antt =====
-- internal/fcbsearch: what CorrelationD, SignsFromD and PhiPrime put out are words of 32 bits, so that
-- the search from a target and an impulse response is exact.
use g.Base.{ℕ, zero, suc, ◌+◌, asr, ◌*ℤ◌, arith, List, [], ◌∷◌, map, ℤ, pos, negsuc}
use g.Fixed.Saturate.Laws.{IsWord32}
use g.Lsp.Stability.{at}
use g.Lsp.Predictor.{cell, tabulate}
use g.Fcbsearch.{signs_from_d, abs_of}
use g.Fcbsearch.Filters.{
  saturate_int64_to_int32, correlation_d, correlation_sum, phi_prime, phi_rows, phi_entry,
  phi_diagonal, phi_sum, phi_above,
}
use g.Fcbsearch.Sizes.{IsWords}

saturate-IsWord32 : (v : ℤ) → IsWord32 (saturate_int64_to_int32 v)
unfolding saturate_int64_to_int32
saturate-IsWord32 (pos n) = ground arith
saturate-IsWord32 (negsuc n) = ground arith

abs_of-IsWord32 : (v : ℤ) → IsWord32 v → IsWord32 (abs_of v)
unfolding abs_of
abs_of-IsWord32 v h = ground arith

-- All places of a list, and outside of it, hold words.
abbrev AllWords32 : List ℤ → Type 0
AllWords32 xs = (m : ℕ) → IsWord32 (at xs m)

nil-AllWords32 : AllWords32 []
nil-AllWords32 m = omega arith

tabulate-AllWords32 :
    (left i : ℕ) (f : ℕ → ℤ) → ((j : ℕ) → IsWord32 (f j)) → AllWords32 (tabulate left i f)
tabulate-AllWords32 zero i f h k = omega arith
tabulate-AllWords32 (suc left) i f h zero = h i
tabulate-AllWords32 (suc left) i f h (suc k) = tabulate-AllWords32 left (i + 1) f h k

abs-AllWords32 : (xs : List ℤ) → AllWords32 xs → AllWords32 (map abs_of xs)
abs-AllWords32 [] h k = omega arith
abs-AllWords32 (x ∷ xs) h zero = abs_of-IsWord32 x (h 0)
abs-AllWords32 (x ∷ xs) h (suc k) = abs-AllWords32 xs (λ m. h (suc m)) k

phi_entry-IsWord32 : (h signs : List ℤ) (i j : ℕ) → IsWord32 (phi_entry h signs i j)
unfolding phi_entry phi_diagonal phi_above
phi_entry-IsWord32 h signs i j = ground (
  arith,
  saturate-IsWord32 (asr (phi_sum h i i) 1),
  saturate-IsWord32 (phi_sum h i j *ℤ (at signs i *ℤ at signs j)),
  saturate-IsWord32 (phi_sum h j i *ℤ (at signs j *ℤ at signs i)),
)

phi_rows-IsWord32 :
    (left i : ℕ) (h signs : List ℤ) (m n : ℕ) → IsWord32 (cell (phi_rows left i h signs) m n)
unfolding phi_rows
phi_rows-IsWord32 zero i h signs m n = nil-AllWords32 n
phi_rows-IsWord32 (suc left) i h signs zero n =
    tabulate-AllWords32 40 0 (phi_entry h signs i) (phi_entry-IsWord32 h signs i) n
phi_rows-IsWord32 (suc left) i h signs (suc m) n = phi_rows-IsWord32 left (i + 1) h signs m n

pub prepared-IsWords :
    (x_prime h : List ℤ)
    → let s = signs_from_d (correlation_d x_prime h) in IsWords s.1 (phi_prime h s.0)
unfolding signs_from_d correlation_d phi_prime
prepared-IsWords x_prime h =
    let d = correlation_d x_prime h in
    record {
      d = abs-AllWords32 d (
          tabulate-AllWords32 40 0 (λ n. saturate_int64_to_int32 (correlation_sum x_prime h n))
            λ n. saturate-IsWord32 (correlation_sum x_prime h n));
      cells = phi_rows-IsWord32 40 0 h (signs_from_d d).0;
    }
