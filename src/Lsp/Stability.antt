-- ===== src/Lsp/Stability.antt =====
-- internal/lsp/stability.go: the order and the gaps of an LSF vector.
pub mod Sort
pub mod Rounds
pub mod Bounds
pub mod Kept
use g.Base.{
  ℕ, zero, suc, ◌+◌, ◌-◌, Bool, ◌&&◌, true, List, [], ◌∷◌, if◌then◌else◌, leb, get_or, set, ℤ, pos,
  negsuc, ◌-ℤ◌, ltb_ℤ, asr, wrap,
}
use g.Fixed.Saturate.{add, sub}

abbrev pub lsf_min_edge : ℤ
lsf_min_edge = pos 41

abbrev pub lsf_min_gap : ℤ
lsf_min_gap = pos 321

abbrev pub lsf_max_edge : ℤ
lsf_max_edge = pos 25682

abbrev pub lsf_rearr_j1 : ℤ
lsf_rearr_j1 = pos 10

abbrev pub lsf_rearr_j2 : ℤ
lsf_rearr_j2 = pos 5

abbrev pub at : List ℤ → ℕ → ℤ
at xs i = get_or xs i (pos 0)

-- The inner loop of `insertionSort10` with `v` in hand: `j` is the source's j + 1.
unfoldable pub shift_loop : ℕ → ℤ → List ℤ → List ℤ
shift_loop zero v a = set a 0 v
shift_loop (suc j) v a =
    let rest = shift_loop j v (set a (suc j) (at a j)) in
    if ltb_ℤ v (at a j) then rest else set a (suc j) v

-- The outer loop from `i` on, with `left` rounds to go.
unfoldable pub sort_loop : ℕ → ℕ → List ℤ → List ℤ
sort_loop zero i a = a
sort_loop (suc left) i a = sort_loop left (i + 1) (shift_loop i (at a i) a)

unfoldable pub insertion_sort10 : List ℤ → List ℤ
insertion_sort10 a = sort_loop 9 1 a

-- A round of the loop that pushes coordinates up, where the source's i is `suc i`.
unfoldable pub raise : ℕ → List ℤ → List ℤ
raise i lsf =
    let min_next = add (at lsf i) lsf_min_gap in
    if ltb_ℤ (at lsf (suc i)) min_next then set lsf (suc i) min_next else lsf

unfoldable pub raise_loop : ℕ → ℕ → List ℤ → List ℤ
raise_loop zero i lsf = lsf
raise_loop (suc left) i lsf = raise_loop left (suc i) (raise i lsf)

-- A round of the loop that pushes them down.
unfoldable pub lower : ℕ → List ℤ → List ℤ
lower i lsf =
    let max_prev = sub (at lsf (suc i)) lsf_min_gap in
    if ltb_ℤ max_prev (at lsf i) then set lsf i max_prev else lsf

unfoldable pub lower_loop : ℕ → List ℤ → List ℤ
lower_loop zero lsf = lsf
lower_loop (suc i) lsf = lower_loop i (lower i lsf)

unfoldable pub ceiling : List ℤ → List ℤ
ceiling lsf = if ltb_ℤ lsf_max_edge (at lsf 9) then lower_loop 9 (set lsf 9 lsf_max_edge) else lsf

unfoldable pub enforce_lsf_stability : List ℤ → List ℤ
enforce_lsf_stability lsf =
    let sorted = insertion_sort10 lsf in
    let edged = if ltb_ℤ (at sorted 0) lsf_min_edge then set sorted 0 lsf_min_edge else sorted in
    ceiling (raise_loop 9 0 edged)

-- A round of `rearrangeAdjacent`, where the source's i is `suc i`. The gap and its correction are
-- int16, which wraps.
unfoldable pub rearrange : ℕ → ℤ → List ℤ → List ℤ
rearrange i j lsf =
    let gap = wrap 16 (at lsf (suc i) -ℤ at lsf i) in
    let correction = asr (wrap 16 (j -ℤ gap)) 1 in
    let lowered = set lsf i (sub (at lsf i) correction) in
    if ltb_ℤ gap j then set lowered (suc i) (add (at lowered (suc i)) correction) else lsf

unfoldable pub rearrange_loop : ℕ → ℕ → ℤ → List ℤ → List ℤ
rearrange_loop zero i j lsf = lsf
rearrange_loop (suc left) i j lsf = rearrange_loop left (suc i) j (rearrange i j lsf)

unfoldable pub rearrange_adjacent : List ℤ → ℤ → List ℤ
rearrange_adjacent lsf j = rearrange_loop 9 0 j lsf
