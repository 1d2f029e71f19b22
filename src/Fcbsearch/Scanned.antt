-- ===== src/Fcbsearch/Scanned.antt =====
-- internal/fcbsearch/search.go: what the search above a threshold finds, and how often it enters the
-- fourth loop.
use g.Base.{
  ℕ, ◌+◌, ◌<◌, ◌≤◌, ◌≡◌, refl, ap, arith, ◌⊎◌, if-cases, Bool-cases, inl, inr, true, false, ◌==◌,
  List, ℤ, pos, pos_part, leb_ℤ, for_range, Covers, Rounds, for_range-Covers,
}
use g.Fcbsearch.{Result, search_depth_first, finish, on_track, track0, track1, track2, correlation3}
use g.Fcbsearch.Sizes.{Places, Inside, IsWords, e_of}
use g.Fcbsearch.Visit.{start-IsState, IsFound, IsState, Beaten}
use g.Fcbsearch.Best.{
  Chosen, NotBetter, default_result, finish-Chosen, Beaten-NotBetter, search_depth_first-IsBest,
  fourth-Covers,
}
use g.Fcbsearch.Threshold.{
  Scan, no_scan, scan_fourth, scan_prefix, scan, first3, threshold_of,
  search_depth_first_threshold_scan_entered,
}

-- The correlation of the first three pulses.
abbrev pub c3_of : List ℤ → ℕ → ℕ → ℕ → ℤ
c3_of d_abs i0 i1 i2 =
    correlation3 d_abs (on_track track0 i0) (on_track track1 i1) (on_track track2 i2)

abbrev prefix : List ℤ → List (List ℤ) → ℤ → ℤ → ℕ → ℕ → ℕ → Scan → Scan
prefix d_abs phi threshold limit i0 i1 i2 =
    scan_prefix d_abs phi threshold limit (on_track track0 i0) (on_track track1 i1)
      (on_track track2 i2)

module _ (d_abs : List ℤ) (phi : List (List ℤ)) (w : IsWords d_abs phi) (threshold limit : ℤ) where
  record IsScan (s : Scan) : Type 0 where
    best : IsState d_abs phi s.best
    few : s.entered ≤ pos_part limit
    full : s.stopped ≡ true → s.entered ≡ pos_part limit

  -- Unless the scan has stopped, pulses whose first three are above the threshold are not better.
  record Scanned (x : Places) (s : Scan) : Type 0 where
    beaten :
        s.stopped ≡ false
        → leb_ℤ (c3_of d_abs x.i0 x.i1 x.i2) threshold ≡ false
        → Beaten d_abs phi x s.best

  abbrev stop : Scan → Scan
  stop s = record { best = s.best; entered = s.entered; stopped = true }

  abbrev enter : ℕ → ℕ → ℕ → Scan → Scan
  enter i0 i1 i2 s = record {
    best =
        scan_fourth d_abs phi (on_track track0 i0) (on_track track1 i1) (on_track track2 i2) s.best;
    entered = s.entered + 1;
    stopped = false;
  }

  -- The branches of a prefix.
  prefix-cases {ℓ} :
      (P : Scan → Type ℓ) (i0 i1 i2 : ℕ) (s : Scan)
      → (s.stopped ≡ true → P s)
      → (leb_ℤ (c3_of d_abs i0 i1 i2) threshold ≡ true → P s)
      → (pos_part limit ≤ s.entered → P (stop s))
      → (s.stopped ≡ false → s.entered < pos_part limit → P (enter i0 i1 i2 s))
      → P (prefix d_abs phi threshold limit i0 i1 i2 s)
  unfolding scan_prefix
  prefix-cases P i0 i1 i2 s stopped low full entered = if-cases P s.stopped stopped λ going.
      if-cases P (leb_ℤ (c3_of d_abs i0 i1 i2) threshold) low λ high.
        if-cases P (leb_ℤ limit (pos s.entered)) (λ h. full (ground arith))
          λ h. entered going (ground arith)

  abbrev OfPrefix : ℕ → ℕ → ℕ → Places → Type 0
  OfPrefix i0 i1 i2 x = (i3 : ℕ) × (i3 < 16) × (x ≡ record { i0 = i0; i1 = i1; i2 = i2; i3 = i3 })

  prefix-Covers :
      (i0 i1 i2 : ℕ)
      → i0 < 8
      → i1 < 8
      → i2 < 8
      → Covers IsScan Scanned (OfPrefix i0 i1 i2) (prefix d_abs phi threshold limit i0 i1 i2)
  unfolding scan_fourth
  prefix-Covers i0 i1 i2 h0 h1 h2 =
      let fourth = fourth-Covers d_abs phi w i0 i1 i2 h0 h1 h2 in
      record {
        state = λ s p.
            prefix-cases IsScan i0 i1 i2 s (λ e. p) (λ e. p)
              (λ e. record { best = p.best; few = p.few; full = λ _. omega (arith, p.few) })
              λ e l. record {
                best = fourth.state s.best p.best;
                few = omega arith;
                full = λ f. ground arith;
              };
        keeps = λ x s p b.
            prefix-cases (Scanned x) i0 i1 i2 s (λ e. b) (λ e. b)
              (λ e. record { beaten = λ f. ground arith })
              λ e l. record { beaten = λ f h. fourth.keeps x s.best p.best (b.beaten e h) };
        reaches = λ x s p k.
            prefix-cases (Scanned x) i0 i1 i2 s (λ e. record { beaten = λ f. ground arith })
              (λ e. record {
                beaten = λ f h.
                    let same = ap (λ y. leb_ℤ (c3_of d_abs y.i0 y.i1 y.i2) threshold) k.2 in
                    absurd (ground arith);
              })
              (λ e. record { beaten = λ f. ground arith })
              λ e l. record {
                beaten = λ f h. fourth.reaches x s.best p.best (k.0, omega arith, k.1, k.2);
              };
      }

  abbrev All : Places → Type 0
  All =
      Rounds IsScan Scanned 8 0
        λ i0. Rounds IsScan Scanned 8 0 λ i1. Rounds IsScan Scanned 8 0 λ i2. OfPrefix i0 i1 i2

  IsScan-Covers : Covers IsScan Scanned All (
      for_range 8 0
        λ i0. for_range 8 0 λ i1. for_range 8 0 λ i2. prefix d_abs phi threshold limit i0 i1 i2)
  IsScan-Covers = for_range-Covers IsScan Scanned 8 0 _ _ λ i0 _ h0.
      for_range-Covers IsScan Scanned 8 0 _ _ λ i1 _ h1.
        for_range-Covers IsScan Scanned 8 0 _ _ λ i2 _ h2. prefix-Covers i0 i1 i2 h0 h1 h2

  start-IsScan : IsScan no_scan
  start-IsScan = record {
    best = start-IsState d_abs phi w;
    few = omega arith;
    full = λ f. ground arith;
  }

  scan-IsScan : IsScan (scan d_abs phi threshold limit)
  unfolding scan
  scan-IsScan = IsScan-Covers.state no_scan start-IsScan

  scan-Scanned : (x : Places) → Inside x → Scanned x (scan d_abs phi threshold limit)
  unfolding scan
  scan-Scanned x h = IsScan-Covers.reaches x no_scan start-IsScan (
    x.i0,
    omega arith,
    h.h0,
    (x.i1, omega arith, h.h1, (x.i2, omega arith, h.h2, (x.i3, h.h3, refl))),
  )

-- The pulses `x` are not better than those chosen, or the scan has left them out.
abbrev pub NotMissed : List ℤ → List (List ℤ) → ℤ → ℕ → Places → Places → Type 0
NotMissed d_abs phi limit entered x q =
    (entered ≡ pos_part limit)
    ⊎ (leb_ℤ (c3_of d_abs x.i0 x.i1 x.i2) (threshold_of (first3 d_abs)) ≡ true)
    ⊎ NotBetter d_abs phi x q

abbrev pub Outcome : List ℤ → List (List ℤ) → ℤ → Places → Result × ℕ → Type 0
Outcome d_abs phi limit x out =
    (out.1 ≤ pos_part limit)
    × (((pos_part (e_of phi x) ≡ 0) × (out.0 ≡ default_result))
        ⊎ ((k : Chosen d_abs phi out.0) × NotMissed d_abs phi limit out.1 x k.places))

module _ (d_abs : List ℤ) (phi : List (List ℤ)) (w : IsWords d_abs phi) (limit : ℤ) (x : Places)
    (h : Inside x) where
  -- The exhaustive search, after some prefixes.
  whole :
      (entered : ℕ)
      → entered ≤ pos_part limit
      → Outcome d_abs phi limit x (search_depth_first d_abs phi, entered)
  whole entered l = elim (search_depth_first-IsBest d_abs phi x w h) [
    | inl nothing ↦ (l, inl nothing)
    | inr best ↦ (l, inr (best.0, inr (inr best.1)))
  ]

  abbrev scanned : Scan
  scanned = scan d_abs phi (threshold_of (first3 d_abs)) limit

  scanned-Outcome :
      IsFound d_abs phi scanned.best
      → Outcome d_abs phi limit x (finish scanned.best, scanned.entered)
  scanned-Outcome f =
      let threshold = threshold_of (first3 d_abs) in
      let p = scan-IsScan d_abs phi w threshold limit in
      let not_missed : NotMissed d_abs phi limit scanned.entered x f.places =
        elim (Bool-cases scanned.stopped) [
          | inl stopped ↦ inl (p.full stopped)
          | inr going ↦ elim (Bool-cases (leb_ℤ (c3_of d_abs x.i0 x.i1 x.i2) threshold)) [
            | inl low ↦ inr (inl low)
            | inr high ↦ inr (
                inr (
                  Beaten-NotBetter d_abs phi scanned.best x f
                    ((scan-Scanned d_abs phi w threshold limit x h).beaten going high)))
          ]
        ] in
      (
        p.few,
        inr (
            finish-Chosen d_abs phi scanned.best (NotMissed d_abs phi limit scanned.entered x) f
              not_missed),
      )

-- For absolute correlations and energies of 32 bits, any limit and pulses at any places of the four
-- tracks: SearchDepthFirstThresholdScanEntered enters the fourth loop at most as often as the limit
-- says, and puts out either the default positions, where the energy of these pulses is not
-- positive, or pulses of the four tracks of a positive energy with their sums; then the given
-- pulses have no larger ratio of squared correlation and energy, or no positive energy, or their
-- first three are not above the threshold, or the fourth loop was entered as often as the limit
-- says.
pub search_depth_first_threshold_scan_entered_lem :
    (d_abs : List ℤ) (phi : List (List ℤ)) (limit : ℤ) (x : Places)
    → IsWords d_abs phi
    → Inside x
    → Outcome d_abs phi limit x (search_depth_first_threshold_scan_entered d_abs phi limit)
unfolding search_depth_first_threshold_scan_entered
search_depth_first_threshold_scan_entered_lem d_abs phi limit x w h =
    let P = Outcome d_abs phi limit x in
    let s = scan d_abs phi (threshold_of (first3 d_abs)) limit in
    let p = scan-IsScan d_abs phi w (threshold_of (first3 d_abs)) limit in
    if-cases P (leb_ℤ limit (pos 0)) (λ _. whole d_abs phi w limit x h 0 (omega arith))
      λ _.
        if-cases P ((first3 d_abs).count == 0) (λ _. whole d_abs phi w limit x h 0 (omega arith))
          λ _.
            if-cases P s.best.found
              (λ found. scanned-Outcome d_abs phi w limit x h (p.best.own found))
              λ _. whole d_abs phi w limit x h s.entered p.few
