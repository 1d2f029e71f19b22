-- ===== src/Gainquant/Peaks.antt =====
-- internal/gainquant/conjugate.go: the sizes of the gains that are tried, and of the correlations.
use native.Mathlib.Nat.{mul-le-mul}
use g.Base.{
  ℕ, zero, suc, ◌+◌, ◌*◌, ◌/◌, ◌%◌, ◌^◌, ◌<◌, ◌≤◌, ◌≡◌, refl, arith, Bool, true, ◌&&◌, ltb, List,
  get_or, all_below, at_all_below, ℤ, pos, negsuc, pos_part, neg_part, ◌+ℤ◌, ◌*ℤ◌, asr, wrap,
  InRange, eqb_ℤ, eqb_ℤ_sound, for_range, Covers, Rounds, for_range-Covers,
}
use g.Fixed.Saturate.{saturate}
use g.Fixed.Saturate.Laws.{IsWord32}
use g.Tables.Gain.{gain_gbk1, gain_gbk2}
use g.Lsp.Stability.{at}
use g.Lsp.Stability.Sort.{Words}
use g.Gainquant.{gp_sum, gamma_sum}
use g.Gainquant.Search.{
  Correlations, Peaks, abs_i64, gc_q12, raise_peaks, peaks, correlate, gain_search_correlations,
}
use g.Gainquant.Bounds.{IsSums, abs_mul, abs_sum}

-- Every pair of entries, tested.
pair_test : ℕ → ℕ → Bool
pair_test ga gb =
    ltb (abs_i64 (gp_sum ga gb)) (2 ^ 15)
    && ltb (abs_i64 (gamma_sum ga gb)) (2 ^ 16)
    && eqb_ℤ (wrap 16 (gp_sum ga gb)) (saturate (gp_sum ga gb))

abbrev nth_test : ℕ → Bool
nth_test k = pair_test (k / 16) (k % 16)

pair_table : all_below 128 nth_test ≡ true
unfolding all_below pair_test gp_sum gamma_sum gain_gbk1 gain_gbk2 saturate abs_i64 ◌+ℤ◌
pair_table = refl

pub record IsGain (ga gb : ℕ) : Type 0 where
  pub gp : abs_i64 (gp_sum ga gb) < 2 ^ 15
  pub gamma : abs_i64 (gamma_sum ga gb) < 2 ^ 16
  pub word : wrap 16 (gp_sum ga gb) ≡ saturate (gp_sum ga gb)

pub pair-IsGain : (ga gb : ℕ) → ga < 8 → gb < 16 → IsGain ga gb
unfolding pair_test
pair-IsGain ga gb h l =
    let k = ga * 16 + gb in
    let test = at_all_below 128 nth_test pair_table k (omega arith) in
    let ea : k / 16 ≡ ga = omega arith in
    let eb : k % 16 ≡ gb = omega arith in
    let passed : pair_test ga gb ≡ true = rw (ea, eb) at test in
    record {
      gp = ground (arith, passed);
      gamma = ground (arith, passed);
      word =
          eqb_ℤ_sound (wrap 16 (gp_sum ga gb)) (saturate (gp_sum ga gb)) (ground (arith, passed));
    }

word_size : (v : ℤ) → IsWord32 v → abs_i64 v ≤ 2 ^ 31
unfolding abs_i64
word_size v h = ground arith

half_shift : (v : ℤ) → abs_i64 v ≤ 2 ^ 47 → abs_i64 (asr v 13) < 2 ^ 35
unfolding abs_i64
half_shift (pos n) h = omega arith
half_shift (negsuc n) h = omega arith

gc_size :
    (gpc : ℤ) (ga gb : ℕ) → IsWord32 gpc → ga < 8 → gb < 16 → abs_i64 (gc_q12 gpc ga gb) < 2 ^ 35
unfolding gc_q12
gc_size gpc ga gb w h l =
    let gain = pair-IsGain ga gb h l in
    let word : abs_i64 gpc ≤ 2 ^ 31 = word_size gpc w in
    let gamma : abs_i64 (gamma_sum ga gb) ≤ 2 ^ 16 = omega (arith, gain.gamma) in
    let product : abs_i64 (gamma_sum ga gb) * abs_i64 gpc ≤ 2 ^ 16 * 2 ^ 31 =
      mul-le-mul gamma word in
    half_shift (gamma_sum ga gb *ℤ gpc) (omega (arith, abs_mul (gamma_sum ga gb) gpc, product))

-- The largest gains, over all pairs.
module _ (gpc : ℤ) (gas gbs : List ℕ) where
  record IsPeaks (m : Peaks) : Type 0 where
    gp : m.gp < 2 ^ 15
    gc : m.gc < 2 ^ 35

  record Below (p : ℕ × ℕ) (m : Peaks) : Type 0 where
    gp : abs_i64 (gp_sum (get_or gas p.0 0) (get_or gbs p.1 0)) ≤ m.gp
    gc : abs_i64 (gc_q12 gpc (get_or gas p.0 0) (get_or gbs p.1 0)) ≤ m.gc

  module _ (w : IsWord32 gpc) (hg : (i : ℕ) → get_or gas i 0 < 8)
      (lg : (j : ℕ) → get_or gbs j 0 < 16) where
    raise_peaks-Covers :
        (i j : ℕ) → Covers IsPeaks Below (λ p. p ≡ (i, j)) (raise_peaks gpc gas gbs i j)
    unfolding raise_peaks
    raise_peaks-Covers i j =
        let gain = pair-IsGain (get_or gas i 0) (get_or gbs j 0) (hg i) (lg j) in
        let gc = gc_size gpc (get_or gas i 0) (get_or gbs j 0) w (hg i) (lg j) in
        record {
          state = λ m p. record { gp = omega (arith, p.gp, gain.gp); gc = omega (arith, p.gc, gc) };
          keeps = λ x m p b. record { gp = omega (arith, b.gp); gc = omega (arith, b.gc) };
          reaches = λ x m p k. rw k (record { gp = omega arith; gc = omega arith });
        }

    IsPeaks-Covers :
        Covers IsPeaks Below
          (Rounds IsPeaks Below 4 0 λ i. Rounds IsPeaks Below 8 0 λ j p. p ≡ (i, j))
          (for_range 4 0 λ i. for_range 8 0 (raise_peaks gpc gas gbs i))
    IsPeaks-Covers =
        for_range-Covers IsPeaks Below 4 0 _ _
          λ i _ _. for_range-Covers IsPeaks Below 8 0 _ _ λ j _ _. raise_peaks-Covers i j

    start-IsPeaks : IsPeaks (record { gp = 0; gc = 0 })
    start-IsPeaks = record { gp = omega arith; gc = omega arith }

    pub peaks_lem :
        (i j : ℕ)
        → i < 4
        → j < 8
        → let m = peaks gpc gas gbs in
          (m.gp < 2 ^ 15)
          × (m.gc < 2 ^ 35)
          × (abs_i64 (gp_sum (get_or gas i 0) (get_or gbs j 0)) ≤ m.gp)
          × (abs_i64 (gc_q12 gpc (get_or gas i 0) (get_or gbs j 0)) ≤ m.gc)
    unfolding peaks
    peaks_lem i j hi hj =
        let p = IsPeaks-Covers.state (record { gp = 0; gc = 0 }) start-IsPeaks in
        let b =
          IsPeaks-Covers.reaches (i, j) (record { gp = 0; gc = 0 }) start-IsPeaks
            (i, omega arith, hi, (j, omega arith, hj, refl)) in
        (p.gp, p.gc, b.gp, b.gc)

-- The sums of the correlations after some of the rounds.
record IsSum (n : ℕ) (s : Correlations) : Type 0 where
  a : abs_i64 s.a ≤ n * 2 ^ 54
  b : pos_part s.b ≤ n * 2 ^ 54
  b_square : neg_part s.b ≡ 0
  c : abs_i64 s.c ≤ n * 2 ^ 54
  d : abs_i64 s.d ≤ n * 2 ^ 54
  f : abs_i64 s.f ≤ n * 2 ^ 54

half_size : (v : ℤ) → InRange 16 v → abs_i64 v ≤ 2 ^ 15
unfolding abs_i64
half_size v h = ground arith

square_positive : (v : ℤ) → neg_part (v *ℤ v) ≡ 0
unfolding ◌*ℤ◌
square_positive (pos n) = ground arith
square_positive (negsuc n) = ground arith

sum_positive : (a b : ℤ) → neg_part a ≡ 0 → neg_part b ≡ 0 → neg_part (a +ℤ b) ≡ 0
unfolding ◌+ℤ◌
sum_positive a b h k = ground arith

module _ (x y z : List ℤ) (wx : Words x) (wy : Words y) (wz : Words z) where
  product_words : (p q : List ℤ) (i : ℕ) → Words p → Words q → abs_i64 (at p i *ℤ at q i) ≤ 2 ^ 30
  product_words p q i hp hq =
      let product = mul-le-mul (half_size (at p i) (hp i)) (half_size (at q i) (hq i)) in
      omega (arith, abs_mul (at p i) (at q i), product)

  summed :
      (v p q : ℤ) (n k : ℕ)
      → abs_i64 v ≤ n * 2 ^ 54
      → abs_i64 (p *ℤ q) ≤ 2 ^ 30
      → k ≤ 2 ^ 24
      → abs_i64 (v +ℤ p *ℤ q *ℤ pos k) ≤ (n + 1) * 2 ^ 54
  summed v p q n k h l b =
      let part : abs_i64 (p *ℤ q) * k ≤ 2 ^ 30 * 2 ^ 24 = mul-le-mul l b in
      omega (arith, abs_sum v (p *ℤ q *ℤ pos k), abs_mul (p *ℤ q) (pos k), part)

  correlate-IsSum : (n i : ℕ) (s : Correlations) → IsSum n s → IsSum (n + 1) (correlate x y z i s)
  unfolding correlate
  correlate-IsSum n i s p = record {
    a = summed s.a (at y i) (at y i) n (2 ^ 24) p.a (product_words y y i wy wy) (omega arith);
    b = omega (arith, abs_sum s.b (at z i *ℤ at z i), p.b, p.b_square, product_words z z i wz wz);
    b_square = sum_positive s.b (at z i *ℤ at z i) p.b_square (square_positive (at z i));
    c = summed s.c (at y i) (at z i) n (2 ^ 12) p.c (product_words y z i wy wz) (omega arith);
    d = summed s.d (at x i) (at y i) n (2 ^ 24) p.d (product_words x y i wx wy) (omega arith);
    f = summed s.f (at x i) (at z i) n (2 ^ 12) p.f (product_words x z i wx wz) (omega arith);
  }

  rounds-IsSum :
      (n i m : ℕ) (s : Correlations) → IsSum m s → IsSum (m + n) (for_range n i (correlate x y z) s)
  unfolding for_range
  rounds-IsSum zero i m s p = let same : m + zero ≡ m = omega arith in rw same p
  rounds-IsSum (suc n) i m s p =
      let same : m + suc n ≡ m + 1 + n = omega arith in
      rw same (rounds-IsSum n (i + 1) (m + 1) (correlate x y z i s) (correlate-IsSum m i s p))

  pub correlations-IsSums : IsSums (gain_search_correlations x y z)
  unfolding gain_search_correlations
  correlations-IsSums =
      let start : Correlations = record { a = pos 0; b = pos 0; c = pos 0; d = pos 0; f = pos 0 } in
      let sum = rounds-IsSum 40 0 0 start (record {
        a = omega arith;
        b = omega arith;
        b_square = refl;
        c = omega arith;
        d = omega arith;
        f = omega arith;
      }) in
      record {
        a = omega (arith, sum.a);
        b = omega (arith, sum.b);
        b_square = sum.b_square;
        c = omega (arith, sum.c);
        d = omega (arith, sum.d);
        f = omega (arith, sum.f);
      }
