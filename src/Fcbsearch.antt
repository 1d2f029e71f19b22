-- ===== src/Fcbsearch.antt =====
-- internal/fcbsearch, the search of the fixed codebook: the signs and the absolute correlations
-- (signs.go) and the exhaustive search (search.go). Wide.antt holds the 128-bit products,
-- Threshold.antt and TopK.antt the two other searches, Filters.antt what comes before the search
-- (phi.go, correlation.go, filtcode.go). The packing of the result stands in Fcb.antt.
mod Tests
pub mod Wide
pub mod Filters
pub mod Threshold
pub mod TopK
pub mod Ratio
pub mod Sizes
pub mod Visit
pub mod Best
pub mod Scanned
pub mod Ready
pub mod Packed
pub mod Insertion
pub mod Ranked
use g.Base.{
  ℕ, List, [], ◌∷◌, map, Bool, true, false, ◌&&◌, if◌then◌else◌, ltb, get_or, ℤ, pos, negsuc, ◌+ℤ◌,
  ◌*ℤ◌, ◌-ℤ◌, ltb_ℤ, leb_ℤ, wrap, for_range,
}
use g.Lsp.Stability.{at}
use g.Lsp.Predictor.{cell}
use g.Fcbsearch.Wide.{ratio_greater, square_saturating_int64}

unfoldable pub track0 : List ℕ
track0 = 0 ∷ 5 ∷ 10 ∷ 15 ∷ 20 ∷ 25 ∷ 30 ∷ 35 ∷ []

unfoldable pub track1 : List ℕ
track1 = 1 ∷ 6 ∷ 11 ∷ 16 ∷ 21 ∷ 26 ∷ 31 ∷ 36 ∷ []

unfoldable pub track2 : List ℕ
track2 = 2 ∷ 7 ∷ 12 ∷ 17 ∷ 22 ∷ 27 ∷ 32 ∷ 37 ∷ []

unfoldable pub track3 : List ℕ
track3 = 3 ∷ 4 ∷ 8 ∷ 9 ∷ 13 ∷ 14 ∷ 18 ∷ 19 ∷ 23 ∷ 24 ∷ 28 ∷ 29 ∷ 33 ∷ 34 ∷ 38 ∷ 39 ∷ []

-- SignsFromD: the signs, and the absolute values.
unfoldable pub sign_of : ℤ → ℤ
sign_of v = if leb_ℤ (pos 0) v then pos 1 else negsuc 0

unfoldable pub abs_of : ℤ → ℤ
abs_of v = if leb_ℤ (pos 0) v then v else wrap 32 (pos 0 -ℤ v)

unfoldable pub signs_from_d : List ℤ → List ℤ × List ℤ
signs_from_d d = (map sign_of d, map abs_of d)

-- The correlation and the energy of the pulses, summed in the order of the loops.
unfoldable pub correlation3 : List ℤ → ℕ → ℕ → ℕ → ℤ
correlation3 d_abs m0 m1 m2 = at d_abs m0 +ℤ at d_abs m1 +ℤ at d_abs m2

unfoldable pub energy3 : List (List ℤ) → ℕ → ℕ → ℕ → ℤ
energy3 phi m0 m1 m2 =
    let e01 = cell phi m0 m0 +ℤ cell phi m1 m1 +ℤ cell phi m0 m1 in
    e01 +ℤ cell phi m2 m2 +ℤ cell phi m0 m2 +ℤ cell phi m1 m2

unfoldable pub correlation4 : List ℤ → ℕ → ℕ → ℕ → ℕ → ℤ
correlation4 d_abs m0 m1 m2 m3 = correlation3 d_abs m0 m1 m2 +ℤ at d_abs m3

unfoldable pub energy4 : List (List ℤ) → ℕ → ℕ → ℕ → ℕ → ℤ
energy4 phi m0 m1 m2 m3 =
    energy3 phi m0 m1 m2 +ℤ cell phi m3 m3 +ℤ cell phi m0 m3 +ℤ cell phi m1 m3 +ℤ cell phi m2 m3

-- `bestPos`, `bestC`, `bestE` and `found`.
pub record State : Type 0 where
  pub positions : List ℕ
  pub c : ℤ
  pub e : ℤ
  pub found : Bool

abbrev pub no_state : State
no_state = record { positions = 0 ∷ 1 ∷ 2 ∷ 3 ∷ []; c = pos 0; e = pos 0; found = false }

-- The body of the innermost loop.
unfoldable pub weigh : List ℤ → List (List ℤ) → ℕ → ℕ → ℕ → ℕ → State → State
weigh d_abs phi m0 m1 m2 m3 s =
    let c = correlation4 d_abs m0 m1 m2 m3 in
    let e = energy4 phi m0 m1 m2 m3 in
    let taken : State = record { positions = m0 ∷ m1 ∷ m2 ∷ m3 ∷ []; c = c; e = e; found = true } in
    if leb_ℤ e (pos 0)
    then s
    else if s.found
    then (if ratio_greater c e s.c s.e then taken else s)
    else taken

-- The pulse at a place of a track.
abbrev pub on_track : List ℕ → ℕ → ℕ
on_track track i = get_or track i 0

unfoldable pub search_all : List ℤ → List (List ℤ) → State
search_all d_abs phi =
    for_range 8 0
      (λ i0. for_range 8 0 λ i1. for_range 8 0 λ i2. for_range 16 0 λ i3.
        weigh d_abs phi (on_track track0 i0) (on_track track1 i1) (on_track track2 i2)
          (on_track track3 i3))
      no_state

-- The positions, and the two sums that the search puts out.
pub record Result : Type 0 where
  pub positions : List ℕ
  pub sum_c : ℤ
  pub sum_e : ℤ

unfoldable pub finish : State → Result
finish s = record { positions = s.positions; sum_c = square_saturating_int64 s.c; sum_e = s.e }

unfoldable pub search_depth_first : List ℤ → List (List ℤ) → Result
search_depth_first d_abs phi = finish (search_all d_abs phi)
