-- ===== src/Fcbsearch/Threshold.antt =====
-- internal/fcbsearch/search.go: the search that enters the fourth loop only above a threshold, and
-- at most `limit` times. Sums of a few words in an int64 do not wrap.
use g.Base.{
  ℕ, ◌+◌, Bool, true, false, if◌then◌else◌, List, ℤ, pos, ◌+ℤ◌, ◌-ℤ◌, ◌*ℤ◌, quot, ltb_ℤ, leb_ℤ,
  ◌==◌, for_range,
}
use g.Fcbsearch.{
  track0, track1, track2, track3, on_track, correlation3, State, no_state, weigh, Result, finish,
  search_depth_first,
}

-- `sumC`, `maxC` and `first3Count`.
pub record Sums : Type 0 where
  pub sum_c : ℤ
  pub max_c : ℤ
  pub count : ℕ

abbrev no_sums : Sums
no_sums = record { sum_c = pos 0; max_c = pos 0; count = 0 }

unfoldable pub add_first3 : List ℤ → ℕ → ℕ → ℕ → Sums → Sums
add_first3 d_abs m0 m1 m2 s =
    let c = correlation3 d_abs m0 m1 m2 in
    record {
      sum_c = s.sum_c +ℤ c;
      max_c = if ltb_ℤ s.max_c c then c else s.max_c;
      count = s.count + 1;
    }

unfoldable pub first3 : List ℤ → Sums
first3 d_abs =
    for_range 8 0
      (λ i0. for_range 8 0 λ i1.
        for_range 8 0
          λ i2. add_first3 d_abs (on_track track0 i0) (on_track track1 i1) (on_track track2 i2))
      no_sums

unfoldable pub threshold_of : Sums → ℤ
threshold_of s = let avg = quot s.sum_c s.count in avg +ℤ quot (pos 4 *ℤ (s.max_c -ℤ avg)) 10

-- What the loops keep; `stopped` is set by `break scan`.
pub record Scan : Type 0 where
  pub best : State
  pub entered : ℕ
  pub stopped : Bool

abbrev pub no_scan : Scan
no_scan = record { best = no_state; entered = 0; stopped = false }

-- The loop over the fourth track.
unfoldable pub scan_fourth : List ℤ → List (List ℤ) → ℕ → ℕ → ℕ → State → State
scan_fourth d_abs phi m0 m1 m2 = for_range 16 0 λ i3. weigh d_abs phi m0 m1 m2 (on_track track3 i3)

unfoldable pub scan_prefix : List ℤ → List (List ℤ) → ℤ → ℤ → ℕ → ℕ → ℕ → Scan → Scan
scan_prefix d_abs phi threshold limit m0 m1 m2 s =
    if s.stopped
    then s
    else if leb_ℤ (correlation3 d_abs m0 m1 m2) threshold
    then s
    else if leb_ℤ limit (pos s.entered)
    then record { best = s.best; entered = s.entered; stopped = true }
    else record {
      best = scan_fourth d_abs phi m0 m1 m2 s.best;
      entered = s.entered + 1;
      stopped = false;
    }

unfoldable pub scan : List ℤ → List (List ℤ) → ℤ → ℤ → Scan
scan d_abs phi threshold limit =
    for_range 8 0
      (λ i0. for_range 8 0 λ i1. for_range 8 0 λ i2.
        scan_prefix d_abs phi threshold limit (on_track track0 i0) (on_track track1 i1)
          (on_track track2 i2))
      no_scan

unfoldable pub search_depth_first_threshold_scan_entered : List ℤ → List (List ℤ) → ℤ → Result × ℕ
search_depth_first_threshold_scan_entered d_abs phi limit =
    let sums = first3 d_abs in
    let s = scan d_abs phi (threshold_of sums) limit in
    if leb_ℤ limit (pos 0)
    then (search_depth_first d_abs phi, 0)
    else if sums.count == 0
    then (search_depth_first d_abs phi, 0)
    else if s.best.found
    then (finish s.best, s.entered)
    else (search_depth_first d_abs phi, s.entered)

unfoldable pub search_depth_first_threshold_scan : List ℤ → List (List ℤ) → ℤ → Result
search_depth_first_threshold_scan d_abs phi limit =
    (search_depth_first_threshold_scan_entered d_abs phi limit).0
