-- ===== src/Fcbsearch/Ranked.antt =====
-- internal/fcbsearch/search.go: the first candidate of SearchTopK is that of SearchDepthFirst.
use g.Base.{
  ℕ, ◌<◌, ◌≤◌, ◌≡◌, ◌↔◌, refl, ap, arith, Bool-cases, inl, inr, true, false, if◌then◌else◌, List,
  [], ◌∷◌, map, length, get_or, ℤ, pos_part, ◌==◌, min, max, length-map, for_range_relates,
}
use g.Fcbsearch.{
  State, no_state, on_track, track0, track1, track2, track3, search_all, search_depth_first, finish,
}
use g.Fcbsearch.Ratio.{weighed, ratio_greater_iff}
use g.Fcbsearch.Sizes.{Places, Inside, pulses, IsWords, c_of, e_of}
use g.Fcbsearch.Visit.{
  start-IsState, IsState, visit, visit-cases, visit-IsState, places-IsSmall, found-IsSmall,
}
use g.Fcbsearch.TopK.{Entry, beats, insert, rank, rank_all, clamp_limit, search_top_k}
use g.Fcbsearch.Insertion.{Leads, first-Leads, better-Leads, worse-Leads}

abbrev entry_of : State → Entry
entry_of s = record { positions = s.positions; c = s.c; e = s.e }

abbrev entry_at : List ℤ → List (List ℤ) → Places → Entry
entry_at d_abs phi q = record { positions = pulses q; c = c_of d_abs q; e = e_of phi q }

abbrev rank_at : List ℤ → List (List ℤ) → ℕ → Places → List Entry → List Entry
rank_at d_abs phi limit q rows =
    rank d_abs phi limit (on_track track0 q.i0) (on_track track1 q.i1) (on_track track2 q.i2)
      (on_track track3 q.i3) rows

-- What both searches hold after the same pulses.
record Ranks (d_abs : List ℤ) (phi : List (List ℤ)) (limit : ℕ) (s : State) (rows : List Entry)
    : Type 0 where
  state : IsState d_abs phi s
  nothing : s.found ≡ false → rows ≡ []
  something : s.found ≡ true → Leads limit (entry_of s) rows

module _ (d_abs : List ℤ) (phi : List (List ℤ)) (w : IsWords d_abs phi) (limit : ℕ)
    (h : 1 ≤ limit) where
  rank_skips :
      (q : Places) (rows : List Entry)
      → pos_part (e_of phi q) ≡ 0
      → rank_at d_abs phi limit q rows ≡ rows
  unfolding rank
  rank_skips q rows e = ground arith

  rank_takes :
      (q : Places) (rows : List Entry)
      → 0 < pos_part (e_of phi q)
      → rank_at d_abs phi limit q rows ≡ insert limit (entry_at d_abs phi q) rows
  unfolding rank
  rank_takes q rows e = ground arith

  -- A list that an entry leads is not empty.
  inserted :
      (P : List Entry → Type 0) (x s : Entry) (rows : List Entry)
      → Leads limit s rows
      → ((r : Entry) (rest : List Entry) → Leads limit s (r ∷ rest) → P (insert limit x (r ∷ rest)))
      → P (insert limit x rows)
  inserted P x s [] l f = absurd (omega (arith, l.some))
  inserted P x s (r ∷ rest) l f = f r rest l

  compares :
      (q : Places) (s : State) (p : IsState d_abs phi s)
      → 0 < pos_part (e_of phi q)
      → s.found ≡ true
      → (beats (entry_at d_abs phi q) (entry_of s) ≡ true)
        ↔ (weighed s.c (e_of phi q) < weighed (c_of d_abs q) s.e)
  compares q s p e f =
      ratio_greater_iff (c_of d_abs q) (e_of phi q) s.c s.e (places-IsSmall d_abs phi w q e)
        (found-IsSmall d_abs phi w s (p.own f))

  rank-Ranks :
      (q : Places) (s : State) (rows : List Entry)
      → Inside q
      → Ranks d_abs phi limit s rows
      → Ranks d_abs phi limit (visit d_abs phi q s) (rank_at d_abs phi limit q rows)
  rank-Ranks q s rows i r =
      let x = entry_at d_abs phi q in
      visit-cases d_abs phi w
        (λ t. IsState d_abs phi t → Ranks d_abs phi limit t (rank_at d_abs phi limit q rows)) q s
        r.state (λ e _. rw (rank_skips q rows e) r)
        (λ e f p. record {
          state = p;
          nothing = λ g. ground arith;
          something = λ g.
              rw (rank_takes q rows e, r.nothing f)
                (first-Leads limit x (places-IsSmall d_abs phi w q e) e h);
        })
        (λ e f b p. record {
          state = p;
          nothing = λ g. ground arith;
          something = λ g. rw (rank_takes q rows e) (
              inserted (Leads limit x) x (entry_of s) rows (r.something f) λ t rest l.
                better-Leads limit x (places-IsSmall d_abs phi w q e) e (entry_of s) t rest l
                  (found-IsSmall d_abs phi w s (r.state.own f)) (r.state.own f).positive
                  ((compares q s r.state e f).1 b));
        })
        (λ e f b p. record {
          state = p;
          nothing = λ g. ground arith;
          something = λ g. rw (rank_takes q rows e) (
              inserted (Leads limit (entry_of s)) x (entry_of s) rows (r.something f) λ t rest l.
                worse-Leads limit x (places-IsSmall d_abs phi w q e) e (entry_of s) t rest l
                  (found-IsSmall d_abs phi w s (r.state.own f))
                  (ground (arith, (compares q s r.state e f).0)));
        })
        (visit-IsState d_abs phi w q s i r.state)

  all-Ranks : Ranks d_abs phi limit (search_all d_abs phi) (rank_all d_abs phi limit)
  unfolding search_all rank_all
  all-Ranks =
      let R = Ranks d_abs phi limit in
      for_range_relates R 8 0 _ _ no_state []
        (λ i0 s0 r0 _ h0. for_range_relates R 8 0 _ _ s0 r0 λ i1 s1 r1 _ h1.
          for_range_relates R 8 0 _ _ s1 r1 λ i2 s2 r2 _ h2.
            for_range_relates R 16 0 _ _ s2 r2 λ i3 s3 r3 _ h3.
              rank-Ranks (record { i0 = i0; i1 = i1; i2 = i2; i3 = i3 }) s3 r3
                (record { h0 = h0; h1 = h1; h2 = h2; h3 = h3 }))
        (record {
          state = start-IsState d_abs phi w;
          nothing = λ _. refl;
          something = λ f. ground arith;
        })

clamped :
    (limit : ℤ) → (1 ≤ clamp_limit limit) × (clamp_limit limit ≤ max 1 (min 32 (pos_part limit)))
unfolding clamp_limit
clamped limit = ground arith

head_positions :
    (limit : ℕ) (s : Entry) (rows : List Entry)
    → Leads limit s rows
    → let out =
        if length rows == 0
        then (0 ∷ 1 ∷ 2 ∷ 3 ∷ []) ∷ []
        else map (λ (r : Entry). r.positions) rows in
      (get_or out 0 [] ≡ s.positions) × (1 ≤ length out) × (length out ≤ limit)
head_positions limit s [] l = absurd (omega (arith, l.some))
head_positions limit s (r ∷ rows) l =
    let full : (length (r ∷ rows) == 0) ≡ false = ground arith in
    let positions = length-map (λ (t : Entry). t.positions) rows in
    rw full (ap (λ (t : Entry). t.positions) l.head, omega arith, omega (arith, positions, l.few))

-- For absolute correlations and energies of 32 bits and any limit: the first candidate of
-- SearchTopK is the positions of SearchDepthFirst, and there are from 1 to the limit of them, where
-- the limit is cut to the range from 1 to 32.
pub search_top_k-search_depth_first :
    (d_abs : List ℤ) (phi : List (List ℤ)) (limit : ℤ)
    → IsWords d_abs phi
    → let out = search_top_k d_abs phi limit in
      (get_or out 0 [] ≡ (search_depth_first d_abs phi).positions)
      × (1 ≤ length out)
      × (length out ≤ max 1 (min 32 (pos_part limit)))
unfolding search_top_k search_depth_first finish
search_top_k-search_depth_first d_abs phi limit w =
    let s = search_all d_abs phi in
    let bound = clamped limit in
    let r = all-Ranks d_abs phi w (clamp_limit limit) bound.0 in
    elim (Bool-cases s.found) [
      | inl found ↦
          let h =
            head_positions (clamp_limit limit) (entry_of s) (rank_all d_abs phi (clamp_limit limit))
              (r.something found) in
          (h.0, h.1, omega (arith, h.2, bound))
      | inr fresh ↦ rw (r.nothing fresh, r.state.fresh fresh) (refl, omega arith, omega arith)
    ]
