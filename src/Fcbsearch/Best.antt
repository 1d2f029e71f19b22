-- ===== src/Fcbsearch/Best.antt =====
-- internal/fcbsearch/search.go: what the exhaustive search finds.
use g.Base.{
  ℕ, ◌<◌, ◌≤◌, ◌≡◌, refl, ap, arith, ◌⊎◌, Bool-cases, inl, inr, ltb, List, [], ◌∷◌, ℤ, pos,
  pos_part, ◌*ℤ◌, for_range, Covers, Rounds, for_range-Covers,
}
use g.Fcbsearch.{State, Result, no_state, search_all, search_depth_first, finish}
use g.Fcbsearch.Wide.{square_saturating_int64}
use g.Fcbsearch.Ratio.{weighed}
use g.Fcbsearch.Sizes.{Places, Inside, pulses, IsWords, c_of, e_of}
use g.Fcbsearch.Visit.{start-IsState, IsFound, IsState, Beaten, visit, visit-Covers}

module _ (d_abs : List ℤ) (phi : List (List ℤ)) (w : IsWords d_abs phi) where
  -- The loop over the fourth track.
  pub fourth-Covers :
      (i0 i1 i2 : ℕ)
      → i0 < 8
      → i1 < 8
      → i2 < 8
      → Covers
          (IsState d_abs phi)
          (Beaten d_abs phi)
          (Rounds
            (IsState d_abs phi)
            (Beaten d_abs phi)
            16
            0
            (λ k x. x ≡ record { i0 = i0; i1 = i1; i2 = i2; i3 = k }))
          (for_range 16 0 (λ k. visit d_abs phi (record { i0 = i0; i1 = i1; i2 = i2; i3 = k })))
  fourth-Covers i0 i1 i2 h0 h1 h2 =
      for_range-Covers (IsState d_abs phi) (Beaten d_abs phi) 16 0 _ _ λ k a b.
        visit-Covers d_abs phi w (record { i0 = i0; i1 = i1; i2 = i2; i3 = k })
          (record { h0 = h0; h1 = h1; h2 = h2; h3 = b })

  -- The four loops.
  abbrev All : Places → Type 0
  All = Rounds (IsState d_abs phi) (Beaten d_abs phi) 8 0 λ i0.
      Rounds (IsState d_abs phi) (Beaten d_abs phi) 8 0 λ i1.
        Rounds (IsState d_abs phi) (Beaten d_abs phi) 8 0 λ i2.
          Rounds (IsState d_abs phi) (Beaten d_abs phi) 16 0
            λ i3 x. x ≡ record { i0 = i0; i1 = i1; i2 = i2; i3 = i3 }

  loops-Covers : Covers (IsState d_abs phi) (Beaten d_abs phi) All (
      for_range 8 0 λ i0. for_range 8 0 λ i1.
        for_range 8 0 λ i2.
          for_range 16 0 λ i3. visit d_abs phi (record { i0 = i0; i1 = i1; i2 = i2; i3 = i3 }))
  loops-Covers = for_range-Covers (IsState d_abs phi) (Beaten d_abs phi) 8 0 _ _ λ i0 _ h0.
      for_range-Covers (IsState d_abs phi) (Beaten d_abs phi) 8 0 _ _ λ i1 _ h1.
        for_range-Covers (IsState d_abs phi) (Beaten d_abs phi) 8 0 _ _
          λ i2 _ h2. fourth-Covers i0 i1 i2 h0 h1 h2

  pub search_all-IsState : IsState d_abs phi (search_all d_abs phi)
  unfolding search_all
  search_all-IsState = loops-Covers.state no_state (start-IsState d_abs phi w)

  search_all-Beaten : (x : Places) → Inside x → Beaten d_abs phi x (search_all d_abs phi)
  unfolding search_all
  search_all-Beaten x h = loops-Covers.reaches x no_state (start-IsState d_abs phi w) (
    x.i0,
    omega arith,
    h.h0,
    (x.i1, omega arith, h.h1, (x.i2, omega arith, h.h2, (x.i3, omega arith, h.h3, refl))),
  )

-- What the search puts out when no pulses have a positive energy.
abbrev pub default_result : Result
default_result = record { positions = 0 ∷ 1 ∷ 2 ∷ 3 ∷ []; sum_c = pos 0; sum_e = pos 0 }

-- The result is pulses on the tracks, of a positive energy, with their two sums.
pub record Chosen (d_abs : List ℤ) (phi : List (List ℤ)) (r : Result) : Type 0 where
  pub places : Places
  pub inside : Inside places
  pub at_places : r.positions ≡ pulses places
  pub own_c : r.sum_c ≡ square_saturating_int64 (c_of d_abs places)
  pub own_e : r.sum_e ≡ e_of phi places
  pub positive : 0 < pos_part (e_of phi places)

-- The pulses `x` have no positive energy, or no larger ratio of squared correlation and energy than
-- the pulses `q`.
abbrev pub NotBetter : List ℤ → List (List ℤ) → Places → Places → Type 0
NotBetter d_abs phi x q =
    (pos_part (e_of phi x) ≡ 0)
    ⊎ (weighed (c_of d_abs x) (e_of phi q) ≤ weighed (c_of d_abs q) (e_of phi x))

module _ (d_abs : List ℤ) (phi : List (List ℤ)) (s : State) where
  -- What holds of the places that the state keeps holds of those that it puts out.
  pub finish-Chosen :
      (Q : Places → Type 0) (f : IsFound d_abs phi s)
      → Q f.places
      → (k : Chosen d_abs phi (finish s)) × Q k.places
  unfolding finish
  finish-Chosen Q f h = (
    record {
      places = f.places;
      inside = f.inside;
      at_places = f.at_places;
      own_c = ap square_saturating_int64 f.own_c;
      own_e = f.own_e;
      positive = rw (← f.own_e) f.positive;
    },
    h,
  )

  pub Beaten-NotBetter :
      (x : Places) (f : IsFound d_abs phi s) → Beaten d_abs phi x s → NotBetter d_abs phi x f.places
  Beaten-NotBetter x f b = elim (Bool-cases (ltb 0 (pos_part (e_of phi x)))) [
    | inl positive ↦ inr (rw (← f.own_c, ← f.own_e) (b.under (ground arith)))
    | inr lacking ↦ inl (ground arith)
  ]

-- For absolute correlations and energies of 32 bits and pulses at any places of the four tracks:
-- SearchDepthFirst puts out either 0, 1, 2, 3 and two sums of 0, where the energy of these pulses
-- is not positive, or pulses of the four tracks whose energy is positive, with the square of their
-- correlation (cut to 64 bits) and their energy as sums; and where it puts out these and the energy
-- of the given pulses is positive, their ratio of squared correlation and energy is no larger.
pub search_depth_first-IsBest :
    (d_abs : List ℤ) (phi : List (List ℤ)) (x : Places)
    → IsWords d_abs phi
    → Inside x
    → let r = search_depth_first d_abs phi in
      ((pos_part (e_of phi x) ≡ 0) × (r ≡ default_result))
      ⊎ ((k : Chosen d_abs phi r) × NotBetter d_abs phi x k.places)
unfolding search_depth_first finish square_saturating_int64 ◌*ℤ◌
search_depth_first-IsBest d_abs phi x w h =
    let s = search_all d_abs phi in
    let p = search_all-IsState d_abs phi w in
    let beaten = search_all-Beaten d_abs phi w x h in
    elim (Bool-cases s.found) [
      | inl found ↦
          let f = p.own found in
          inr (
            finish-Chosen d_abs phi s (NotBetter d_abs phi x) f
              (Beaten-NotBetter d_abs phi s x f beaten))
      | inr fresh ↦ inl (ground (arith, beaten.has), rw (p.fresh fresh) refl)
    ]
