-- ===== src/Gain/Split/Exact.antt =====
-- internal/gain/pow2.go: a quantized gain against its mantissa and exponent.
use native.Mathlib.Nat.{pow-suc, pow-le-pow_right}
use native.Mathlib.Decide.{dec_le}
use g.Base.{
  ℕ, zero, suc, ◌+◌, ◌-◌, ◌*◌, ◌/◌, ◌^◌, ◌<◌, ◌≤◌, ◌≡◌, ◌⊎◌, refl, ap, ◌∙◌, arith, inl, inr,
  if-cases, ltb, ℤ, pos, ◌-ℤ◌, ◌*ℤ◌, ◌≤ℤ◌, leb_ℤ, wrap, pos_part, neg_part, int_laws, min,
}
use g.Gain.Split.{
  Scaled, halve_loop, double_loop, split_positive, quantize_fixed_gain_q1, split_gain_q14,
}

-- Halving a number of at most 15 bits that stands before `j` zeros loses nothing.
record Halved (left g : ℕ) (r : ℕ × ℕ) : Type 0 where
  k : ℕ
  exponent : r.1 ≡ 127 - left + k
  kept : r.0 * 2 ^ k ≡ g
  small : r.0 ≤ 32767
  positive : 0 < r.0
  full : (k ≡ 0) ⊎ (16384 ≤ r.0)

stopped : (left g : ℕ) → g ≤ 32767 → 0 < g → left ≤ 127 → Halved left g (g, 127 - left)
stopped left g h p l = record {
  k = 0;
  exponent = omega arith;
  kept = omega arith;
  small = h;
  positive = p;
  full = inl refl;
}

halve_loop-Halved :
    (j n g left : ℕ)
    → g ≡ n * 2 ^ j
    → 0 < g
    → n ≤ 32767
    → j ≤ left
    → left ≤ 127
    → Halved left g (halve_loop left g)
unfolding halve_loop
halve_loop-Halved zero n g zero e p h l m = stopped 0 g (omega arith) (omega arith) (omega arith)
halve_loop-Halved zero n g (suc left) e p h l m =
    if-cases (Halved (suc left) g) (ltb 32767 g) (λ large. absurd (ground arith))
      λ small. stopped (suc left) g (omega arith) (omega arith) (omega arith)
halve_loop-Halved (suc j) n g zero e p h l m = absurd (omega arith)
halve_loop-Halved (suc j) n g (suc left) e p h l m =
    let twice : g ≡ n * 2 ^ j * 2 = omega (arith, e, ap (λ (t : ℕ). n * t) (pow-suc 2 j)) in
    if-cases (Halved (suc left) g) (ltb 32767 g)
      (λ large.
        let rest =
          halve_loop-Halved j n (g / 2) left (omega arith) (ground arith) h (omega arith)
            (omega arith) in
        record {
          k = suc rest.k;
          exponent = omega (arith, rest.exponent);
          kept = omega (
            arith,
            rest.kept,
            ap (λ (t : ℕ). (halve_loop left (g / 2)).0 * t) (pow-suc 2 rest.k),
          );
          small = rest.small;
          positive = rest.positive;
          full = inr (grind (arith, rest.full, rest.kept));
        })
      λ small. stopped (suc left) g (ground arith) p (omega arith)

-- Doubling, with rounds left for the missing bits.
record Doubled (left g : ℕ) (r : ℕ × ℤ) : Type 0 where
  k : ℕ
  exponent : r.1 ≡ pos left -ℤ pos 128 -ℤ pos k
  kept : r.0 ≡ g * 2 ^ k
  small : r.0 ≤ 32767
  full : 16384 ≤ r.0
  none : 16384 ≤ g → k ≡ 0

double_loop-Doubled :
    (left g : ℕ) → 0 < g → g ≤ 32767 → 16384 ≤ g * 2 ^ left → Doubled left g (double_loop left g)
unfolding double_loop
double_loop-Doubled zero g p h l = record {
  k = 0;
  exponent = grind int_laws;
  kept = omega arith;
  small = h;
  full = omega arith;
  none = λ m. refl;
}
double_loop-Doubled (suc left) g p h l =
    let twice : g * 2 ^ suc left ≡ g * 2 * 2 ^ left =
      omega (arith, ap (λ (t : ℕ). g * t) (pow-suc 2 left)) in
    if-cases (Doubled (suc left) g) (ltb g 16384)
      (λ less.
        let rest =
          double_loop-Doubled left (g * 2) (omega arith) (ground arith) (omega (arith, twice, l)) in
        record {
          k = suc rest.k;
          exponent = grind (int_laws, rest.exponent);
          kept = omega (arith, rest.kept, ap (λ (t : ℕ). g * t) (pow-suc 2 rest.k));
          small = rest.small;
          full = rest.full;
          none = λ m. absurd (ground arith);
        })
      λ enough. record {
        k = 0;
        exponent = grind int_laws;
        kept = omega arith;
        small = h;
        full = ground arith;
        none = λ m. refl;
      }

quantized : (g : ℕ) → quantize_fixed_gain_q1 (pos g) ≡ pos (min 32767 (g / 2 ^ 13) * 2 ^ 13)
unfolding quantize_fixed_gain_q1 ◌*ℤ◌
quantized g = ground arith

-- The value of a mantissa with its exponent is `q`.
abbrev pub IsExactly : Scaled → ℤ → Type 0
IsExactly s q = pos_part s.mant * 2 ^ pos_part s.exp ≡ pos_part q * 2 ^ neg_part s.exp

exponents :
    (k l : ℕ) (x : ℤ)
    → k ≤ 127
    → l ≤ 127
    → (k ≡ 0) ⊎ (l ≡ 0)
    → x ≡ pos (k + 128) -ℤ pos 128 -ℤ pos l
    → (pos_part (wrap 8 x) ≡ k) × (neg_part (wrap 8 x) ≡ l)
unfolding ◌-ℤ◌
exponents k l x h m e f = ground arith

split_gain_q14-positive : (q : ℕ) → 0 < q → split_gain_q14 (pos q) ≡ split_positive q
unfolding split_gain_q14
split_gain_q14-positive q h =
    if-cases (λ s. s ≡ split_positive q) (leb_ℤ (pos q) (pos 0)) (λ e. absurd (ground arith))
      λ e. refl

below_power : (x k b : ℕ) → 0 < x → x * 2 ^ k < 2 ^ b → k < b
below_power x k b p h = elim (dec_le b k) [
  | yes le ↦ absurd (grind (arith, pow-le-pow_right {n = 2} (omega arith) {i = b} {j = k} le))
  | no gt ↦ omega arith
]

enough_rounds : (x m : ℕ) → 0 < x → 14 ≤ m → 16384 ≤ x * 2 ^ m
enough_rounds x m p h = grind (arith, pow-le-pow_right {n = 2} (omega arith) {i = 14} {j = m} h)

-- The two loops together: one of them leaves the gain alone.
joined :
    (q : ℕ) (r : ℕ × ℕ) (t : ℕ × ℤ)
    → q < 2 ^ 28
    → Halved 127 q r
    → Doubled (r.1 + 128) r.0 t
    → let s : Scaled = record { mant = wrap 16 (pos t.0); exp = wrap 8 t.1 } in
      (pos 16384 ≤ℤ s.mant) × (s.mant ≤ℤ pos 32767) × IsExactly s (pos q)
joined q r t h down up =
    let down_few = below_power r.0 down.k 28 down.positive (omega (arith, down.kept, h)) in
    let up_few = below_power r.0 up.k 15 down.positive (omega (arith, up.kept, up.small)) in
    let one : (down.k ≡ 0) ⊎ (up.k ≡ 0) = elim down.full [
      | inl none ↦ inl none
      | inr full ↦ inr (up.none full)
    ] in
    let shift : r.1 ≡ down.k = omega (arith, down.exponent) in
    let e =
      exponents down.k up.k t.1 (omega arith) (omega arith) one
        (up.exponent ∙ ap (λ (n : ℕ). pos (n + 128) -ℤ pos 128 -ℤ pos up.k) shift) in
    let mant : wrap 16 (pos t.0) ≡ pos t.0 = ground (arith, up.small) in
    rw (mant, e.0, e.1) (ground (arith, up.full), ground (arith, up.small), exact one)
  where
    exact : (down.k ≡ 0) ⊎ (up.k ≡ 0) → t.0 * 2 ^ down.k ≡ q * 2 ^ up.k
    exact (inl none) = ground (arith, none, down.kept, up.kept)
    exact (inr none) = ground (arith, none, down.kept, up.kept)

-- For a gain of at least 8192 in Q14: quantizeFixedGainQ1 gives the whole multiples of 2 ^ 13 in
-- it, at most 32767 of them, and splitGainQ14 of the result gives a mantissa from 16384 to 32767
-- and an exponent that stand for exactly that value.
pub split_quantized_lem :
    (g : ℕ)
    → 8192 ≤ g
    → let q = quantize_fixed_gain_q1 (pos g) in
      let s = split_gain_q14 q in
      (q ≡ pos (min 32767 (g / 2 ^ 13) * 2 ^ 13))
      × (pos 16384 ≤ℤ s.mant)
      × (s.mant ≤ℤ pos 32767)
      × IsExactly s q
unfolding split_positive
split_quantized_lem g h =
    let n = min 32767 (g / 2 ^ 13) in
    let q = n * 2 ^ 13 in
    let r = halve_loop 127 q in
    let down =
      halve_loop-Halved 13 n q 127 refl (omega arith) (omega arith) (omega arith) (omega arith) in
    let up =
      double_loop-Doubled (r.1 + 128) r.0 down.positive down.small
        (enough_rounds r.0 (r.1 + 128) down.positive (omega arith)) in
    let both = joined q r (double_loop (r.1 + 128) r.0) (omega arith) down up in
    rw (quantized g, split_gain_q14-positive q (omega arith)) (refl, both.0, both.1, both.2)
