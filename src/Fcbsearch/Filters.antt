-- ===== src/Fcbsearch/Filters.antt =====
-- internal/fcbsearch, what comes before the search and after it: the target without the pitch
-- contribution and its correlation with the impulse response (correlation.go), the matrix of the
-- energies (phi.go) and the filtered code vector (filtcode.go). Sums of at most 40 products of
-- int16 in an int64 do not wrap.
use g.Base.{
  ℕ, zero, suc, ◌+◌, ◌-◌, ◌^◌, List, [], ◌∷◌, if◌then◌else◌, ltb, ◌==◌, ℤ, pos, negsuc, ◌+ℤ◌, ◌-ℤ◌,
  ◌*ℤ◌, ltb_ℤ, leb_ℤ, asr, wrap, for_range,
}
use g.Fixed.Saturate.{saturate}
use g.Lsp.Stability.{at}
use g.Lsp.Predictor.{tabulate}

unfoldable pub round_shift : ℤ → ℕ → ℤ
round_shift v shift =
    let add = wrap 32 (pos (2 ^ (shift - 1))) in
    if shift == 0
    then v
    else if leb_ℤ (pos 0) v
    then asr (wrap 32 (v +ℤ add)) shift
    else wrap 32 (pos 0 -ℤ asr (wrap 32 (wrap 32 (pos 0 -ℤ v) +ℤ add)) shift)

unfoldable pub round_shift64 : ℤ → ℕ → ℤ
round_shift64 v shift =
    let add = wrap 64 (pos (2 ^ (shift - 1))) in
    if shift == 0
    then v
    else if leb_ℤ (pos 0) v
    then asr (wrap 64 (v +ℤ add)) shift
    else wrap 64 (pos 0 -ℤ asr (wrap 64 (wrap 64 (pos 0 -ℤ v) +ℤ add)) shift)

unfoldable pub saturate_int64_to_int32 : ℤ → ℤ
saturate_int64_to_int32 v =
    if ltb_ℤ (pos 0x7fffffff) v
    then pos 0x7fffffff
    else if ltb_ℤ v (negsuc 0x7fffffff)
    then negsuc 0x7fffffff
    else wrap 32 v

unfoldable pub saturate_int64_to_int16 : ℤ → ℤ
saturate_int64_to_int16 v =
    if ltb_ℤ (pos 32767) v
    then pos 32767
    else if ltb_ℤ v (negsuc 32767)
    then negsuc 32767
    else wrap 16 v

unfoldable pub adjusted_target : List ℤ → List ℤ → ℤ → List ℤ
adjusted_target x y gp = tabulate 40 0 λ n. saturate (at x n -ℤ round_shift (gp *ℤ at y n) 14)

-- The sum for sample `n`, over `i` from `n` to 39.
unfoldable pub correlation_sum : List ℤ → List ℤ → ℕ → ℤ
correlation_sum x_prime h n =
    for_range (40 - n) n (λ i acc. acc +ℤ at x_prime i *ℤ at h (i - n)) (pos 0)

unfoldable pub correlation_d : List ℤ → List ℤ → List ℤ
correlation_d x_prime h = tabulate 40 0 λ n. saturate_int64_to_int32 (correlation_sum x_prime h n)

-- The sums of phi.go for `i` ≤ `j`, over `n` from `j` to 39; on the diagonal it is `diag`.
unfoldable pub phi_sum : List ℤ → ℕ → ℕ → ℤ
phi_sum h i j = for_range (40 - j) j (λ n acc. acc +ℤ at h (n - i) *ℤ at h (n - j)) (pos 0)

unfoldable pub phi_diagonal : List ℤ → ℕ → ℤ
phi_diagonal h i = saturate_int64_to_int32 (asr (phi_sum h i i) 1)

unfoldable pub phi_above : List ℤ → List ℤ → ℕ → ℕ → ℤ
phi_above h signs i j = saturate_int64_to_int32 (phi_sum h i j *ℤ (at signs i *ℤ at signs j))

-- What the loops leave in row `i` and column `j`.
unfoldable pub phi_entry : List ℤ → List ℤ → ℕ → ℕ → ℤ
phi_entry h signs i j =
    if i == j
    then phi_diagonal h i
    else if ltb i j
    then phi_above h signs i j
    else phi_above h signs j i

-- The rows from `i` on, with `left` to go.
unfoldable pub phi_rows : ℕ → ℕ → List ℤ → List ℤ → List (List ℤ)
phi_rows zero i h signs = []
phi_rows (suc left) i h signs = tabulate 40 0 (phi_entry h signs i) ∷ phi_rows left (i + 1) h signs

unfoldable pub phi_prime : List ℤ → List ℤ → List (List ℤ)
phi_prime h signs = phi_rows 40 0 h signs

unfoldable pub code_sum : List ℤ → List ℤ → ℕ → ℤ
code_sum c h n = for_range (n + 1) 0 (λ i acc. acc +ℤ at c i *ℤ at h (n - i)) (pos 0)

unfoldable pub filter_code : List ℤ → List ℤ → List ℤ
filter_code c h = tabulate 40 0 λ n. saturate_int64_to_int16 (round_shift64 (code_sum c h n) 13)
