-- ===== src/Fcbsearch/Visit.antt =====
-- internal/fcbsearch/search.go: the innermost loop of the searches keeps the best of the pulses that it
-- has seen.
use g.Base.{
  ◌*◌, ◌<◌, ◌≤◌, ◌≡◌, refl, arith, if-cases, true, false, List, ℤ, pos, pos_part, neg_part, leb_ℤ,
  Covers,
}
use g.Fcbsearch.{no_state, track0, track1, track2, track3, on_track, State, no_state, weigh}
use g.Fcbsearch.Wide.{magnitude, ratio_greater}
use g.Fcbsearch.Ratio.{IsSmall, weighed, ratio_greater_iff, ratio_trans}
use g.Fcbsearch.Sizes.{Places, Inside, pulses, IsWords, correlation4_size, energy4_size, c_of, e_of}

-- What the search keeps, once it has found some pulses: their places and their sums.
pub record IsFound (d_abs : List ℤ) (phi : List (List ℤ)) (s : State) : Type 0 where
  pub places : Places
  pub inside : Inside places
  pub at_places : s.positions ≡ pulses places
  pub own_c : s.c ≡ c_of d_abs places
  pub own_e : s.e ≡ e_of phi places
  pub positive : 0 < pos_part s.e

pub record IsState (d_abs : List ℤ) (phi : List (List ℤ)) (s : State) : Type 0 where
  pub fresh : s.found ≡ false → s ≡ no_state
  pub own : s.found ≡ true → IsFound d_abs phi s

-- The pulses at these places, if their energy is positive, are not better than those kept.
pub record Beaten (d_abs : List ℤ) (phi : List (List ℤ)) (q : Places) (s : State) : Type 0 where
  pub has : 0 < pos_part (e_of phi q) → s.found ≡ true
  pub under : 0 < pos_part (e_of phi q) → weighed (c_of d_abs q) s.e ≤ weighed s.c (e_of phi q)

-- The pulses at four places, taken.
abbrev taken : List ℤ → List (List ℤ) → Places → State
taken d_abs phi q = record { positions = pulses q; c = c_of d_abs q; e = e_of phi q; found = true }

-- The body of the innermost loop at four places.
abbrev pub visit : List ℤ → List (List ℤ) → Places → State → State
visit d_abs phi q s =
    weigh d_abs phi (on_track track0 q.i0) (on_track track1 q.i1) (on_track track2 q.i2)
      (on_track track3 q.i3) s

not_negative : (e : ℤ) → 0 < pos_part e → neg_part e ≡ 0
not_negative e h = ground arith

module _ (d_abs : List ℤ) (phi : List (List ℤ)) (w : IsWords d_abs phi) where
  pub places-IsSmall :
      (q : Places) → 0 < pos_part (e_of phi q) → IsSmall (c_of d_abs q) (e_of phi q)
  places-IsSmall q h =
      let c =
        correlation4_size d_abs phi w (on_track track0 q.i0) (on_track track1 q.i1)
          (on_track track2 q.i2) (on_track track3 q.i3) in
      let e =
        energy4_size d_abs phi w (on_track track0 q.i0) (on_track track1 q.i1)
          (on_track track2 q.i2) (on_track track3 q.i3) in
      (c, not_negative (e_of phi q) h, omega arith)

  pub found-IsSmall : (s : State) → IsFound d_abs phi s → IsSmall s.c s.e
  found-IsSmall s f = rw (f.own_c, f.own_e) (places-IsSmall f.places (rw (← f.own_e) f.positive))

  taken-IsState :
      (q : Places) → Inside q → 0 < pos_part (e_of phi q) → IsState d_abs phi (taken d_abs phi q)
  taken-IsState q h e = record {
    fresh = λ f. ground arith;
    own = λ f. record {
      places = q;
      inside = h;
      at_places = refl;
      own_c = refl;
      own_e = refl;
      positive = e;
    };
  }

  -- The three branches of a visit.
  pub visit-cases {ℓ} :
      (P : State → Type ℓ) (q : Places) (s : State)
      → IsState d_abs phi s
      → (pos_part (e_of phi q) ≡ 0 → P s)
      → (0 < pos_part (e_of phi q) → s.found ≡ false → P (taken d_abs phi q))
      → (0 < pos_part (e_of phi q)
          → s.found ≡ true
          → weighed s.c (e_of phi q) < weighed (c_of d_abs q) s.e
          → P (taken d_abs phi q))
      → (0 < pos_part (e_of phi q)
          → s.found ≡ true
          → weighed (c_of d_abs q) s.e ≤ weighed s.c (e_of phi q)
          → P s)
      → P (visit d_abs phi q s)
  unfolding weigh
  visit-cases P q s p skip first better worse =
      if-cases P (leb_ℤ (e_of phi q) (pos 0)) (λ e. skip (ground arith))
        λ e.
          let positive : 0 < pos_part (e_of phi q) = ground arith in
          if-cases P s.found
            (λ f.
              let iff =
                ratio_greater_iff (c_of d_abs q) (e_of phi q) s.c s.e (places-IsSmall q positive)
                  (found-IsSmall s (p.own f)) in
              if-cases P (ratio_greater (c_of d_abs q) (e_of phi q) s.c s.e)
                (λ r. better positive f (iff.0 r)) λ r. worse positive f (ground (arith, iff.1)))
            λ f. first positive f

  pub visit-IsState :
      (q : Places) (s : State)
      → Inside q
      → IsState d_abs phi s
      → IsState d_abs phi (visit d_abs phi q s)
  visit-IsState q s h p =
      visit-cases (IsState d_abs phi) q s p (λ e. p) (λ e f. taken-IsState q h e)
        (λ e f r. taken-IsState q h e) λ e f r. p

  visit-keeps :
      (x q : Places) (s : State)
      → IsState d_abs phi s
      → Beaten d_abs phi x s
      → Beaten d_abs phi x (visit d_abs phi q s)
  visit-keeps x q s p b =
      visit-cases (Beaten d_abs phi x) q s p (λ e. b)
        (λ e f. record { has = λ h. refl; under = λ h. ground (arith, b.has h) })
        (λ e f r. record {
          has = λ h. refl;
          under = λ h.
              ratio_trans (magnitude (c_of d_abs x) * magnitude (c_of d_abs x)) (pos_part s.e)
                (magnitude s.c * magnitude s.c) (pos_part (e_of phi x))
                (magnitude (c_of d_abs q) * magnitude (c_of d_abs q)) (pos_part (e_of phi q))
                (p.own f).positive (b.under h) (omega arith);
        })
        λ e f r. b

  visit-reaches :
      (q : Places) (s : State) → IsState d_abs phi s → Beaten d_abs phi q (visit d_abs phi q s)
  visit-reaches q s p =
      visit-cases (Beaten d_abs phi q) q s p
        (λ e. record { has = λ h. absurd (omega arith); under = λ h. absurd (omega arith) })
        (λ e f. record { has = λ h. refl; under = λ h. omega arith })
        (λ e f r. record { has = λ h. refl; under = λ h. omega arith })
        λ e f r. record { has = λ h. f; under = λ h. r }

  pub visit-Covers :
      (q : Places)
      → Inside q
      → Covers (IsState d_abs phi) (Beaten d_abs phi) (λ x. x ≡ q) (visit d_abs phi q)
  visit-Covers q h = record {
    state = λ s p. visit-IsState q s h p;
    keeps = λ x s p b. visit-keeps x q s p b;
    reaches = λ x s p k. rw k (visit-reaches q s p);
  }

  pub start-IsState : IsState d_abs phi no_state
  start-IsState = record { fresh = λ f. refl; own = λ f. ground arith }
