-- ===== src/Fcb/Enhance.antt =====
-- The pitch enhancement of internal/fcb/enhance.go, sample by sample.
use native.Mathlib.Nat.{mul-le-mul, mul_comm}
use native.Mathlib.Decide.{ℕ_discrete}
use g.Base.{
  ℕ, zero, suc, ◌+◌, ◌-◌, ◌*◌, ◌^◌, ◌<◌, ◌≤◌, ◌≡◌, refl, ◌∙◌, inl, inr, Bool-cases, arith, ◌||◌,
  List, ltb, if◌then◌else◌, length, get_or, set, length-set, get_or-set_self, get_or-set_ne, ℤ, pos,
  negsuc, pos_part, neg_part, ◌≤ℤ◌, ◌*ℤ◌, asr, eqb_ℤ, ltb_ℤ, mul_pos_pos, mul_negsuc_pos, *ℤ_comm,
}
use g.Fixed.Saturate.{add, extract_h}
use g.Fixed.Saturate.Laws.{IsWord16, clamp}
use g.Fixed.Shift.{l_shl}
use g.Fixed.Shift.Laws.{l_shl-scaled}
use g.Fixed.Mult.Laws.{l_mult-clamp}
use g.Fcb.{
  enhance_delta, enhance_loop, apply_pitch_enhancement, clamp_pitch_gain, beta_lower, beta_upper,
}

abbrev pub at : List ℤ → ℕ → ℤ
at c i = get_or c i (pos 0)

-- `out` is `c` after the rounds from `n` up to `n + left`.
record Enhanced (t : ℕ) (beta : ℤ) (n left : ℕ) (c out : List ℤ) : Type 0 where
  same_length : length out ≡ length c
  before : (j : ℕ) → j < n → at out j ≡ at c j
  inside :
      (j : ℕ) → n ≤ j → j < n + left → at out j ≡ add (at c j) (enhance_delta beta (at out (j - t)))

enhance_loop-Enhanced :
    (left n t : ℕ) (beta : ℤ) (c : List ℤ)
    → 1 ≤ t
    → t ≤ n
    → n + left ≤ length c
    → Enhanced t beta n left c (enhance_loop left n t beta c)
unfolding enhance_loop
enhance_loop-Enhanced zero n t beta c h k fits = record {
  same_length = refl;
  before = λ j l. refl;
  inside = λ j l m. absurd (omega arith);
}
enhance_loop-Enhanced (suc left) n t beta c h k fits =
    let v = add (at c n) (enhance_delta beta (at c (n - t))) in
    let rest =
      enhance_loop-Enhanced left (n + 1) t beta (set c n v) h (omega arith)
        (rw length-set (omega arith)) in
    record {
      same_length = rest.same_length ∙ length-set c n v;
      before = λ j l. ground (arith, rest.before j, get_or-set_ne c n j v (pos 0));
      inside = λ j l m. elim (ℕ_discrete j n) [
        | yes e ↦ ground (
          arith,
          rest.before n,
          rest.before (n - t),
          get_or-set_self c n v (pos 0),
          get_or-set_ne c n (n - t) v (pos 0),
        )
        | no ne ↦ ground (arith, rest.inside j, get_or-set_ne c n j v (pos 0))
      ];
    }

-- For a code vector of 40 samples, a lag from 1 on, any coefficient and a sample below 40:
-- ApplyPitchEnhancement leaves the sample where the coefficient is 0 or the sample comes before the
-- lag; elsewhere it is the saturated sum of the sample and of what the filter takes from the
-- enhanced sample one lag before.
pub enhancement_lem :
    (c : List ℤ) (t : ℕ) (beta : ℤ) (j : ℕ)
    → length c ≡ 40
    → 1 ≤ t
    → j < 40
    → let out = apply_pitch_enhancement c (pos t) beta in
      at out j ≡ (
        if eqb_ℤ beta (pos 0) || ltb j t
        then at c j
        else add (at c j) (enhance_delta beta (at out (j - t))))
unfolding apply_pitch_enhancement
enhancement_lem c t beta j len h k = elim (Bool-cases (ltb t 40)) [
  | inl short ↦
      let e = enhance_loop-Enhanced (40 - t) t t beta c h (omega arith) (ground arith) in
      elim (Bool-cases (ltb j t)) [
        | inl early ↦ ground (arith, e.before j)
        | inr late ↦ ground (arith, e.inside j)
      ]
  | inr long ↦ ground arith
]

bounded : (b m : ℕ) → b ≤ 13017 → m ≤ 2 ^ 15 → b * m ≤ 13017 * 2 ^ 15
bounded b m h k = mul-le-mul h k

-- Two shifts left and one right by 16 are one right by 14, for what fits.
shifted :
    (y : ℤ)
    → pos_part y < 2 ^ 29
    → neg_part y ≤ 2 ^ 29
    → extract_h (l_shl (clamp 32 (y *ℤ pos 2)) (pos 1)) ≡ asr y 14
unfolding extract_h ◌*ℤ◌
shifted (pos n) h k = ground (arith, l_shl-scaled (pos (n * 2)) (pos 1))
shifted (negsuc n) h k = ground (arith, l_shl-scaled (negsuc (suc n * 2 - 1)) (pos 1))

enhance_delta_pos :
    (b : ℕ) (x : ℤ) → b ≤ 13017 → 1 ≤ b → IsWord16 x → enhance_delta (pos b) x ≡ asr (pos b *ℤ x) 14
unfolding enhance_delta
enhance_delta_pos b (pos m) h l k = rw (l_mult-clamp (pos b) (pos m) (ground arith) k) (
    shifted (pos b *ℤ pos m) (ground (arith, mul_pos_pos b m, bounded b m))
      (ground (arith, mul_pos_pos b m)))
enhance_delta_pos b (negsuc m) h l k =
    let e = *ℤ_comm (pos b) (negsuc m) ∙ mul_negsuc_pos m b l in
    rw (l_mult-clamp (pos b) (negsuc m) (ground arith) k) (
      shifted (pos b *ℤ negsuc m) (ground (arith, e))
        (ground (arith, e, bounded b (suc m), mul_comm b (suc m))))

-- For 16-bit words as gain and sample, the clamped gain is within its two bounds, and what a round
-- of the enhancement adds is the exact product of clamped gain and sample divided by 2 ^ 14 and
-- rounded down.
pub enhance_delta_lem :
    (gp x : ℤ)
    → IsWord16 gp
    → IsWord16 x
    → (beta_lower ≤ℤ clamp_pitch_gain gp)
      × (clamp_pitch_gain gp ≤ℤ beta_upper)
      × (enhance_delta (clamp_pitch_gain gp) x ≡ asr (clamp_pitch_gain gp *ℤ x) 14)
unfolding clamp_pitch_gain
enhance_delta_lem gp x h k = elim (Bool-cases (ltb_ℤ gp beta_lower)) [
  | inl low ↦ ground (arith, enhance_delta_pos 3277 x)
  | inr rest ↦ elim (Bool-cases (ltb_ℤ beta_upper gp)) [
    | inl high ↦ ground (arith, enhance_delta_pos 13017 x)
    | inr inside ↦ ground (arith, enhance_delta_pos (pos_part gp) x)
  ]
]
