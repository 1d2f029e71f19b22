-- ===== src/Gainquant/Bounds.antt =====
-- internal/gainquant/conjugate.go: the shift of the correlations keeps the costs within 64 bits.
use native.Mathlib.Nat.{mul-le-mul, one-le-pow, div-lt_iff_lt-mul, pow-le-pow_right, pow-suc}
use g.Base.{
  ℕ, zero, suc, ◌+◌, ◌-◌, ◌*◌, ◌/◌, ◌^◌, ◌<◌, ◌≤◌, ◌≡◌, inl, inr, arith, if-cases, Bool-cases, ◌==◌,
  leb, ℤ, pos, negsuc, pos_part, neg_part, ◌+ℤ◌, ◌-ℤ◌, ◌*ℤ◌, asr, wrap, eq_of_parts,
}
use g.Gainquant.Search.{Correlations, bit_len_loop, bit_len_abs, abs_i64, gain_search_term_shift}

-- The length in bits of a number is the least that its power of 2 is above.
pub bit_len_above : (fuel n : ℕ) → n < 2 ^ fuel → n < 2 ^ bit_len_loop fuel n
unfolding bit_len_loop
bit_len_above zero n h = h
bit_len_above (suc fuel) n h =
    let halves : n / 2 < 2 ^ fuel = omega (arith, pow-suc 2 fuel) in
    let rest = bit_len_above fuel (n / 2) halves in
    if-cases (λ k. n < 2 ^ k) (n == 0) (λ e. ground arith)
      λ e. omega (arith, pow-suc 2 (bit_len_loop fuel (n / 2)), rest)

pub bit_len_least : (fuel n k : ℕ) → n < 2 ^ k → bit_len_loop fuel n ≤ k
unfolding bit_len_loop
bit_len_least zero n k h = omega arith
bit_len_least (suc fuel) n zero h =
    if-cases (λ b. b ≤ 0) (n == 0) (λ e. omega arith) λ e. absurd (ground arith)
bit_len_least (suc fuel) n (suc k) h =
    let rest = bit_len_least fuel (n / 2) k (omega (arith, pow-suc 2 k)) in
    if-cases (λ b. b ≤ suc k) (n == 0) (λ e. omega arith) λ e. omega arith

pub abs_mul : (a b : ℤ) → abs_i64 (a *ℤ b) ≡ abs_i64 a * abs_i64 b
unfolding ◌*ℤ◌
abs_mul (pos a) (pos b) = grind arith
abs_mul (pos a) (negsuc b) = grind arith
abs_mul (negsuc a) (pos b) = grind arith
abs_mul (negsuc a) (negsuc b) = grind arith

pub abs_sum : (a b : ℤ) → abs_i64 (a +ℤ b) ≤ abs_i64 a + abs_i64 b
unfolding ◌+ℤ◌
abs_sum a b = ground arith

abs_diff : (a b : ℤ) → abs_i64 (a -ℤ b) ≤ abs_i64 a + abs_i64 b
unfolding ◌-ℤ◌
abs_diff a b = ground arith

pow_sum : (a b : ℕ) → 2 ^ (a + b) ≡ 2 ^ a * 2 ^ b
pow_sum zero b = let same : 0 + b ≡ b = omega arith in rw same (omega arith)
pow_sum (suc a) b =
    let next : suc a + b ≡ suc (a + b) = omega arith in
    rw next (grind (arith, pow-suc 2 (a + b), pow-suc 2 a, pow_sum a b))

-- A shift takes its count off the length.
div_shift : (n b s : ℕ) → n < 2 ^ b → n / 2 ^ s < 2 ^ (b - s)
div_shift n b s h =
    let some : 0 < 2 ^ s = one-le-pow s 2 (omega arith) in
    let more : 2 ^ b ≤ 2 ^ (b - s + s) = pow-le-pow_right (omega arith) (omega arith) in
    (div-lt_iff_lt-mul some).1 (omega (arith, pow_sum (b - s) s))

asr_size : (v : ℤ) (s : ℕ) → abs_i64 v < 2 ^ 64 → abs_i64 (asr v s) ≤ 2 ^ (bit_len_abs v - s)
unfolding bit_len_abs abs_i64
asr_size (pos n) s h =
    let k = bit_len_loop 64 (n + 0) in
    omega (arith, div_shift n k s (omega (arith, bit_len_above 64 (n + 0) h)))
asr_size (negsuc n) s h =
    let k = bit_len_loop 64 (0 + suc n) in
    omega (arith, div_shift n k s (omega (arith, bit_len_above 64 (0 + suc n) h)))

-- A factor, a shifted correlation and a further power of 2.
product_size : (f m e fb k : ℕ) → f ≤ 2 ^ fb → m ≤ 2 ^ k → fb + k + e ≤ 58 → f * m * 2 ^ e ≤ 2 ^ 58
product_size f m e fb k h l b =
    let two : f * m ≤ 2 ^ fb * 2 ^ k = mul-le-mul h l in
    let same : 2 ^ e ≤ 2 ^ e = omega arith in
    let three : f * m * 2 ^ e ≤ 2 ^ fb * 2 ^ k * 2 ^ e = mul-le-mul two same in
    let all : 2 ^ (fb + k + e) ≤ 2 ^ 58 = pow-le-pow_right (omega arith) b in
    let small : 2 ^ fb * 2 ^ k * 2 ^ e ≤ 2 ^ 58 = rw (pow_sum (fb + k) e, pow_sum fb k) at all in
    omega (arith, three, small)

-- The shift of a term is enough for it.
term_size :
    (corr : ℤ) (f fb e s : ℕ)
    → abs_i64 corr < 2 ^ 64
    → f ≤ 2 ^ fb
    → fb + e ≤ 58
    → gain_search_term_shift corr fb e ≤ s
    → f * abs_i64 (asr corr s) * 2 ^ e ≤ 2 ^ 58
unfolding gain_search_term_shift
term_size corr f fb e s h l b t =
    product_size f (abs_i64 (asr corr s)) e fb (bit_len_abs corr - s) l (asr_size corr s h)
      (ground arith)

-- The same for a number that is not negative, whatever the length of the factor.
square_term_size :
    (n f fb e s : ℕ)
    → n < 2 ^ 64
    → f ≤ 2 ^ fb
    → gain_search_term_shift (pos n) fb e ≤ s
    → f * abs_i64 (asr (pos n) s) * 2 ^ e ≤ 2 ^ 58
unfolding gain_search_term_shift bit_len_abs
square_term_size n f fb e s h l t =
    let k = bit_len_loop 64 (n + 0) in
    let less : n / 2 ^ s < 2 ^ (k - s) =
      div_shift n k s (omega (arith, bit_len_above 64 (n + 0) (omega arith))) in
    elim (Bool-cases (leb k s)) [
      | inl gone ↦
          let none : k - s ≡ 0 = ground arith in
          let below : n / 2 ^ s < 2 ^ 0 = rw none at less in
          let zero_left : n / 2 ^ s ≡ 0 = omega arith in rw zero_left (omega arith)
      | inr some ↦
          product_size f (abs_i64 (asr (pos n) s)) e fb (k - s) l (omega arith) (ground arith)
    ]

wrap64_small : (v : ℤ) → abs_i64 v < 2 ^ 63 → wrap 64 v ≡ v
wrap64_small (pos n) h = ground arith
wrap64_small (negsuc n) h = ground arith

-- Correlations of 40 words, and that of a vector with itself.
pub record IsSums (s : Correlations) : Type 0 where
  pub a : abs_i64 s.a < 2 ^ 64
  pub b : pos_part s.b < 2 ^ 64
  pub b_square : neg_part s.b ≡ 0
  pub c : abs_i64 s.c < 2 ^ 64
  pub d : abs_i64 s.d < 2 ^ 64
  pub f : abs_i64 s.f < 2 ^ 64

module _ (s : Correlations) (gp gc : ℤ) (gp_bits gc_bits n : ℕ) where
  -- The five terms of a cost.
  abbrev term_a : ℤ
  term_a = gp *ℤ gp *ℤ asr s.a n

  abbrev term_b : ℤ
  term_b = gc *ℤ gc *ℤ asr s.b n *ℤ pos (2 ^ 4)

  abbrev term_c : ℤ
  term_c = pos 2 *ℤ gp *ℤ gc *ℤ asr s.c n *ℤ pos (2 ^ 2)

  abbrev term_d : ℤ
  term_d = pos 2 *ℤ gp *ℤ asr s.d n *ℤ pos (2 ^ 14)

  abbrev term_f : ℤ
  term_f = pos 2 *ℤ gc *ℤ asr s.f n *ℤ pos (2 ^ 16)

  module _ (k : IsSums s) (h : abs_i64 gp ≤ 2 ^ gp_bits) (l : abs_i64 gc ≤ 2 ^ gc_bits)
      (hb : gp_bits ≤ 15) (lb : gc_bits ≤ 35) where
    factor :
        (x y : ℤ) (a b : ℕ)
        → abs_i64 x ≤ 2 ^ a
        → abs_i64 y ≤ 2 ^ b
        → abs_i64 x * abs_i64 y ≤ 2 ^ (a + b)
    factor x y a b hx hy = rw (pow_sum a b) (mul-le-mul hx hy)

    term_a_size : gain_search_term_shift s.a (gp_bits + gp_bits) 0 ≤ n → abs_i64 term_a ≤ 2 ^ 58
    term_a_size t =
        let small =
          term_size s.a (abs_i64 gp * abs_i64 gp) (gp_bits + gp_bits) 0 n k.a
            (factor gp gp gp_bits gp_bits h h) (omega arith) t in
        rw (abs_mul (gp *ℤ gp) (asr s.a n), abs_mul gp gp) (omega (arith, small))

    term_b_size : gain_search_term_shift s.b (gc_bits + gc_bits) 4 ≤ n → abs_i64 term_b ≤ 2 ^ 58
    term_b_size t =
        let same : s.b ≡ pos (pos_part s.b) =
          eq_of_parts s.b (pos (pos_part s.b)) (omega (arith, k.b_square)) in
        let small =
          square_term_size (pos_part s.b) (abs_i64 gc * abs_i64 gc) (gc_bits + gc_bits) 4 n k.b
            (factor gc gc gc_bits gc_bits l l) (rw (← same) t) in
        rw
          (
            abs_mul (gc *ℤ gc *ℤ asr s.b n) (pos (2 ^ 4)),
            abs_mul (gc *ℤ gc) (asr s.b n),
            abs_mul gc gc,
            same,
          )
          (omega (arith, small))

    term_c_size : gain_search_term_shift s.c (gp_bits + gc_bits) 3 ≤ n → abs_i64 term_c ≤ 2 ^ 58
    term_c_size t =
        let small =
          term_size s.c (abs_i64 gp * abs_i64 gc) (gp_bits + gc_bits) 3 n k.c
            (factor gp gc gp_bits gc_bits h l) (omega arith) t in
        rw
          (
            abs_mul (pos 2 *ℤ gp *ℤ gc *ℤ asr s.c n) (pos (2 ^ 2)),
            abs_mul (pos 2 *ℤ gp *ℤ gc) (asr s.c n),
            abs_mul (pos 2 *ℤ gp) gc,
            abs_mul (pos 2) gp,
          )
          (grind (arith, small))

    term_d_size : gain_search_term_shift s.d gp_bits 15 ≤ n → abs_i64 term_d ≤ 2 ^ 58
    term_d_size t =
        let small = term_size s.d (abs_i64 gp) gp_bits 15 n k.d h (omega arith) t in
        rw
          (
            abs_mul (pos 2 *ℤ gp *ℤ asr s.d n) (pos (2 ^ 14)),
            abs_mul (pos 2 *ℤ gp) (asr s.d n),
            abs_mul (pos 2) gp,
          )
          (grind (arith, small))

    term_f_size : gain_search_term_shift s.f gc_bits 17 ≤ n → abs_i64 term_f ≤ 2 ^ 58
    term_f_size t =
        let small = term_size s.f (abs_i64 gc) gc_bits 17 n k.f l (omega arith) t in
        rw
          (
            abs_mul (pos 2 *ℤ gc *ℤ asr s.f n) (pos (2 ^ 16)),
            abs_mul (pos 2 *ℤ gc) (asr s.f n),
            abs_mul (pos 2) gc,
          )
          (grind (arith, small))

    -- The sum of the terms does not wrap, and stays below the start value of the search.
    pub terms_size :
        gain_search_term_shift s.a (gp_bits + gp_bits) 0 ≤ n
        → gain_search_term_shift s.b (gc_bits + gc_bits) 4 ≤ n
        → gain_search_term_shift s.c (gp_bits + gc_bits) 3 ≤ n
        → gain_search_term_shift s.d gp_bits 15 ≤ n
        → gain_search_term_shift s.f gc_bits 17 ≤ n
        → let sum = term_a +ℤ term_b +ℤ term_c -ℤ term_d -ℤ term_f in
          (wrap 64 sum ≡ sum) × (abs_i64 sum ≤ 5 * 2 ^ 58)
    terms_size ta tb tc td tf =
        let size : abs_i64 (term_a +ℤ term_b +ℤ term_c -ℤ term_d -ℤ term_f) ≤ 5 * 2 ^ 58 = omega (
          arith,
          term_a_size ta,
          term_b_size tb,
          term_c_size tc,
          term_d_size td,
          term_f_size tf,
          abs_sum term_a term_b,
          abs_sum (term_a +ℤ term_b) term_c,
          abs_diff (term_a +ℤ term_b +ℤ term_c) term_d,
          abs_diff (term_a +ℤ term_b +ℤ term_c -ℤ term_d) term_f,
        ) in
        (wrap64_small (term_a +ℤ term_b +ℤ term_c -ℤ term_d -ℤ term_f) (omega (arith, size)), size)
