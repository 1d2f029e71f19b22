-- ===== src/Pitch/Adaptive/Equal.antt =====
-- internal/pitch/adaptive.go: the two ways to the adaptive codebook vector, compared.
use g.Base.{
  ℕ, zero, suc, ◌+◌, ◌<◌, ◌≤◌, ◌≡◌, refl, ap, sym, ◌∙◌, inl, inr, Bool-cases, arith, List, length,
  ℤ, pos, negsuc, ◌+ℤ◌, ◌-ℤ◌, ◌≤ℤ◌, leb_ℤ, int_laws,
}
use g.Fixed.Saturate.{round}
use g.Pitch.Adaptive.{
  Taps, taps_of, sample, adaptive_source, fir_loop, past_sample, current_sample,
  fir_interpolate_loop, fir_interpolate, recursive_loop, fir_interpolate_recursive_current,
  adaptive_codebook,
}

-- The loop over the taps reads its functions only at the taps.
fir_loop-ext :
    (left i : ℕ) (taps : Taps) (back back' fwd fwd' : ℕ → ℤ) (acc : ℤ)
    → ((j : ℕ) → j < i + left → (back j ≡ back' j) × (fwd j ≡ fwd' j))
    → fir_loop left i taps back fwd acc ≡ fir_loop left i taps back' fwd' acc
unfolding fir_loop
fir_loop-ext zero i taps back back' fwd fwd' acc h = refl
fir_loop-ext (suc left) i taps back back' fwd fwd' acc h =
    let here = h i (omega arith) in
    rw (here.0, here.1)
      (fir_loop-ext left (i + 1) taps back back' fwd fwd' _ (λ j l. h j (omega arith)))

-- A source before the subframe is a read of the past.
before :
    (r : ℤ) (past v : List ℤ)
    → r ≤ℤ negsuc 0
    → adaptive_source r past v ≡ sample past (pos (length past) +ℤ r)
unfolding adaptive_source
before (pos r) past v h = absurd (omega arith)
before (negsuc m) past v h = refl

back_index : (l k n i : ℤ) → l -ℤ k +ℤ n -ℤ i ≡ l +ℤ (n -ℤ k -ℤ i)
back_index l k n i = grind int_laws

fwd_index : (l k n i : ℤ) → l -ℤ k +ℤ n +ℤ pos 1 +ℤ i ≡ l +ℤ (n -ℤ k +ℤ pos 1 +ℤ i)
fwd_index l k n i = grind int_laws

past_sample-current_sample :
    (taps : Taps) (past v : List ℤ) (n : ℕ)
    → pos 50 ≤ℤ taps.k
    → n < 40
    → past_sample taps past n ≡ current_sample taps past v n
unfolding past_sample current_sample
past_sample-current_sample taps past v n h k = ap round (
    fir_loop-ext 10 0 taps _ _ _ _ (pos 0) λ i l. (
      ap (sample past) (back_index (pos (length past)) taps.k (pos n) (pos i))
          ∙ sym (before (pos n -ℤ taps.k -ℤ pos i) past v (grind int_laws)),
      ap (sample past) (fwd_index (pos (length past)) taps.k (pos n) (pos i))
          ∙ sym (before (pos n -ℤ taps.k +ℤ pos 1 +ℤ pos i) past v (grind int_laws)),
    ))

loops :
    (left n : ℕ) (taps : Taps) (past v : List ℤ)
    → pos 50 ≤ℤ taps.k
    → n + left ≤ 40
    → fir_interpolate_loop left n taps past v ≡ recursive_loop left n taps past v
unfolding fir_interpolate_loop recursive_loop
loops zero n taps past v h k = refl
loops (suc left) n taps past v h k =
    rw (past_sample-current_sample taps past v n h (omega arith))
      (loops left (n + 1) taps past _ h (omega arith))

taps_of_k : (t f : ℤ) → pos 50 ≤ℤ t → pos 50 ≤ℤ (taps_of t f).k
unfolding taps_of ◌+ℤ◌
taps_of_k t f h = ground arith

-- For every lag, fraction, past excitation and vector, AdaptiveCodebook gives what the loop that
-- reads back its own samples gives, so that the loop over the past alone, taken for lags from 50
-- on, never misses a sample of the subframe.
pub adaptive_codebook-recursive :
    (t_int t_frac : ℤ) (past_exc v : List ℤ)
    → adaptive_codebook t_int t_frac past_exc v
      ≡ fir_interpolate_recursive_current t_int t_frac past_exc v
unfolding adaptive_codebook fir_interpolate fir_interpolate_recursive_current
adaptive_codebook-recursive t_int t_frac past_exc v = elim (Bool-cases (leb_ℤ t_int (pos 49))) [
  | inl short ↦ rw short refl
  | inr long ↦ elim (Bool-cases (leb_ℤ (pos 40) t_int)) [
    | inl far ↦
        rw (long, far)
          (loops 40 0 (taps_of t_int t_frac) past_exc v (taps_of_k t_int t_frac (ground arith))
            (omega arith))
    | inr near ↦ absurd (ground arith)
  ]
]
