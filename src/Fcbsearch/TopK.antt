-- ===== src/Fcbsearch/TopK.antt =====
-- internal/fcbsearch/search.go: the best candidates in order. The list holds the entries up to the
-- count; what the caller's scratch array holds behind them is left out.
use g.Base.{
  ℕ, zero, suc, ◌+◌, ◌-◌, Bool, not, ◌&&◌, if◌then◌else◌, List, [], ◌∷◌, map, length, take, get_or,
  ℤ, pos, pos_part, leb_ℤ, ltb_ℤ, ltb, ◌==◌, for_range,
}
use g.Fcbsearch.{track0, track1, track2, track3, on_track, correlation4, energy4}
use g.Fcbsearch.Wide.{ratio_greater}

pub record Entry : Type 0 where
  pub positions : List ℕ
  pub c : ℤ
  pub e : ℤ

abbrev pub no_entry : Entry
no_entry = record { positions = []; c = pos 0; e = pos 0 }

abbrev pub beats : Entry → Entry → Bool
beats x r = ratio_greater x.c x.e r.c r.e

-- `for pos > 0 && ratioGreater(C, E, bestC[pos-1], bestE[pos-1])`.
unfoldable pub place_loop : ℕ → Entry → List Entry → ℕ
place_loop zero x rows = zero
place_loop (suc p) x rows =
    let rest = place_loop p x rows in if beats x (get_or rows p no_entry) then rest else suc p

-- The entries from `p` on move back by one.
unfoldable pub insert_at : ℕ → Entry → List Entry → List Entry
insert_at zero x rows = x ∷ rows
insert_at (suc p) x [] = x ∷ []
insert_at (suc p) x (r ∷ rows) = r ∷ insert_at p x rows

unfoldable pub insert : ℕ → Entry → List Entry → List Entry
insert limit x rows =
    let count = length rows in
    if (count == limit) && not (beats x (get_or rows (count - 1) no_entry))
    then rows
    else take (if ltb count limit then count + 1 else count)
        (insert_at (place_loop count x rows) x rows)

-- The body of the innermost loop.
unfoldable pub rank : List ℤ → List (List ℤ) → ℕ → ℕ → ℕ → ℕ → ℕ → List Entry → List Entry
rank d_abs phi limit m0 m1 m2 m3 rows =
    let c = correlation4 d_abs m0 m1 m2 m3 in
    let e = energy4 phi m0 m1 m2 m3 in
    if leb_ℤ e (pos 0)
    then rows
    else insert limit (record { positions = m0 ∷ m1 ∷ m2 ∷ m3 ∷ []; c = c; e = e }) rows

unfoldable pub rank_all : List ℤ → List (List ℤ) → ℕ → List Entry
rank_all d_abs phi limit =
    for_range 8 0
      (λ i0. for_range 8 0 λ i1. for_range 8 0 λ i2. for_range 16 0 λ i3.
        rank d_abs phi limit (on_track track0 i0) (on_track track1 i1) (on_track track2 i2)
          (on_track track3 i3))
      []

abbrev pub search_top_k_max : ℕ
search_top_k_max = 32

unfoldable pub clamp_limit : ℤ → ℕ
clamp_limit limit =
    let raised = if ltb_ℤ limit (pos 1) then pos 1 else limit in
    pos_part (if ltb_ℤ (pos search_top_k_max) raised then pos search_top_k_max else raised)

unfoldable pub search_top_k : List ℤ → List (List ℤ) → ℤ → List (List ℕ)
search_top_k d_abs phi limit =
    let rows = rank_all d_abs phi (clamp_limit limit) in
    if length rows == 0 then (0 ∷ 1 ∷ 2 ∷ 3 ∷ []) ∷ [] else map (λ (r : Entry). r.positions) rows
