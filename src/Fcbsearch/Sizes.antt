-- ===== src/Fcbsearch/Sizes.antt =====
-- internal/fcbsearch/search.go: the places of four pulses, and the sizes of their sums.
use g.Base.{ℕ, ◌+◌, ◌^◌, ◌<◌, ◌≤◌, arith, List, [], ◌∷◌, ℤ, ◌+ℤ◌}
use g.Fixed.Saturate.Laws.{IsWord32}
use g.Lsp.Stability.{at}
use g.Lsp.Predictor.{cell}
use g.Fcbsearch.{
  track0, track1, track2, track3, on_track, correlation3, correlation4, energy3, energy4,
}
use g.Fcbsearch.Wide.{magnitude}

-- The places of four pulses on the tracks.
pub record Places : Type 0 where
  pub i0 : ℕ
  pub i1 : ℕ
  pub i2 : ℕ
  pub i3 : ℕ

pub record Inside (q : Places) : Type 0 where
  pub h0 : q.i0 < 8
  pub h1 : q.i1 < 8
  pub h2 : q.i2 < 8
  pub h3 : q.i3 < 16

abbrev pub pulses : Places → List ℕ
pulses q =
    on_track track0 q.i0 ∷ on_track track1 q.i1 ∷ on_track track2 q.i2 ∷ on_track track3 q.i3 ∷ []

magnitude_sum : (a b : ℤ) → magnitude (a +ℤ b) ≤ magnitude a + magnitude b
unfolding ◌+ℤ◌
magnitude_sum a b = ground arith

-- A word adds at most its bound to a sum.
plus_word : (n : ℕ) (a b : ℤ) → magnitude a ≤ n → IsWord32 b → magnitude (a +ℤ b) ≤ n + 2 ^ 31
plus_word n a b h k = ground (arith, magnitude_sum a b)

plus_words :
    (n : ℕ) (a b c d : ℤ)
    → magnitude a ≤ n
    → IsWord32 b
    → IsWord32 c
    → IsWord32 d
    → magnitude (a +ℤ b +ℤ c +ℤ d) ≤ n + 2 ^ 33
plus_words n a b c d h hb hc hd =
    let two = plus_word (n + 2 ^ 31) (a +ℤ b) c (plus_word n a b h hb) hc in
    omega (arith, plus_word (n + 2 ^ 31 + 2 ^ 31) (a +ℤ b +ℤ c) d two hd)

word_size : (v : ℤ) → IsWord32 v → magnitude v ≤ 2 ^ 31
word_size v h = ground arith

-- Weights of 32 bits, and the sums that they give.
pub record IsWords (d_abs : List ℤ) (phi : List (List ℤ)) : Type 0 where
  pub d : (m : ℕ) → IsWord32 (at d_abs m)
  pub cells : (m n : ℕ) → IsWord32 (cell phi m n)

module _ (d_abs : List ℤ) (phi : List (List ℤ)) (w : IsWords d_abs phi) where
  pub correlation4_size : (m0 m1 m2 m3 : ℕ) → magnitude (correlation4 d_abs m0 m1 m2 m3) ≤ 2 ^ 34
  unfolding correlation4 correlation3
  correlation4_size m0 m1 m2 m3 = omega (
    arith,
    plus_words (2 ^ 31) (at d_abs m0) (at d_abs m1) (at d_abs m2) (at d_abs m3)
        (word_size (at d_abs m0) (w.d m0)) (w.d m1) (w.d m2) (w.d m3),
  )

  pub energy4_size : (m0 m1 m2 m3 : ℕ) → magnitude (energy4 phi m0 m1 m2 m3) ≤ 2 ^ 36
  unfolding energy4 energy3
  energy4_size m0 m1 m2 m3 =
      let e = w.cells in
      let two =
        plus_word (2 ^ 31) (cell phi m0 m0) (cell phi m1 m1) (word_size (cell phi m0 m0) (e m0 m0))
          (e m1 m1) in
      let three =
        plus_word (2 ^ 31 + 2 ^ 31) (cell phi m0 m0 +ℤ cell phi m1 m1) (cell phi m0 m1) two
          (e m0 m1) in
      let six =
        plus_words (2 ^ 31 + 2 ^ 31 + 2 ^ 31) (cell phi m0 m0 +ℤ cell phi m1 m1 +ℤ cell phi m0 m1)
          (cell phi m2 m2) (cell phi m0 m2) (cell phi m1 m2) three (e m2 m2) (e m0 m2) (e m1 m2) in
      let nine =
        plus_words (2 ^ 31 + 2 ^ 31 + 2 ^ 31 + 2 ^ 33) (energy3 phi m0 m1 m2) (cell phi m3 m3)
          (cell phi m0 m3) (cell phi m1 m3) six (e m3 m3) (e m0 m3) (e m1 m3) in
      omega (
        arith,
        plus_word (2 ^ 31 + 2 ^ 31 + 2 ^ 31 + 2 ^ 33 + 2 ^ 33)
            (energy3 phi m0 m1 m2 +ℤ cell phi m3 m3 +ℤ cell phi m0 m3 +ℤ cell phi m1 m3)
            (cell phi m2 m3) nine (e m2 m3),
      )

-- The sums of the pulses at four places.
abbrev pub c_of : List ℤ → Places → ℤ
c_of d_abs q =
    correlation4 d_abs (on_track track0 q.i0) (on_track track1 q.i1) (on_track track2 q.i2)
      (on_track track3 q.i3)

abbrev pub e_of : List (List ℤ) → Places → ℤ
e_of phi q =
    energy4 phi (on_track track0 q.i0) (on_track track1 q.i1) (on_track track2 q.i2)
      (on_track track3 q.i3)
