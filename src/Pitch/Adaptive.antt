-- ===== src/Pitch/Adaptive.antt =====
-- internal/pitch/adaptive.go, the adaptive codebook vector. The two loops over the taps of the
-- filter read their samples through functions of the tap's number.
pub mod Equal
use g.Base.{
  ℕ, zero, suc, ◌+◌, ◌-◌, ◌*◌, List, [], ◌∷◌, if◌then◌else◌, ltb, length, get_or, set, ℤ, pos,
  negsuc, ◌+ℤ◌, ◌-ℤ◌, ltb_ℤ, leb_ℤ, eqb_ℤ,
}
use g.Fixed.Saturate.{round}
use g.Fixed.Mult.{l_mac}
use g.Tables.PitchInterp.{pitch_interp_fir}

abbrev pub linter : ℕ
linter = 10

-- A delay as the filter takes it: whole samples and the phases of its two halves.
pub record Taps : Type 0 where
  pub k : ℤ
  pub pos_phase : ℕ
  pub neg_phase : ℕ

unfoldable pub taps_of : ℤ → ℤ → Taps
taps_of t_int t_frac =
    if eqb_ℤ t_frac (pos 0)
    then record { k = t_int; pos_phase = 0; neg_phase = 3 }
    else if ltb_ℤ t_frac (pos 0)
    then record { k = t_int; pos_phase = 1; neg_phase = 2 }
    else record { k = t_int +ℤ pos 1; pos_phase = 2; neg_phase = 1 }

-- A read that gives 0 outside of the list.
abbrev pub sample : List ℤ → ℤ → ℤ
sample xs (pos i) = get_or xs i (pos 0)
sample xs (negsuc m) = pos 0

unfoldable pub adaptive_source : ℤ → List ℤ → List ℤ → ℤ
adaptive_source (negsuc m) past_exc v = sample past_exc (pos (length past_exc) +ℤ negsuc m)
adaptive_source (pos r) past_exc v = if ltb r 40 then get_or v r (pos 0) else pos 0

-- The loop over the taps from `i` on, with `left` rounds to go.
unfoldable pub fir_loop : ℕ → ℕ → Taps → (ℕ → ℤ) → (ℕ → ℤ) → ℤ → ℤ
fir_loop zero i taps back fwd acc = acc
fir_loop (suc left) i taps back fwd acc = fir_loop left (i + 1) taps back fwd (
    l_mac (l_mac acc (get_or pitch_interp_fir (taps.pos_phase + 3 * i) (pos 0)) (back i))
      (get_or pitch_interp_fir (taps.neg_phase + 3 * i) (pos 0)) (fwd i))

-- The sample that the past alone gives, the buffer read from its start.
unfoldable pub past_sample : Taps → List ℤ → ℕ → ℤ
past_sample taps past_exc n =
    let base = pos (length past_exc) -ℤ taps.k in
    round (
      fir_loop linter 0 taps (λ i. sample past_exc (base +ℤ pos n -ℤ pos i))
        (λ i. sample past_exc (base +ℤ pos n +ℤ pos 1 +ℤ pos i)) (pos 0))

unfoldable pub fir_interpolate_loop : ℕ → ℕ → Taps → List ℤ → List ℤ → List ℤ
fir_interpolate_loop zero n taps past_exc v = v
fir_interpolate_loop (suc left) n taps past_exc v =
    fir_interpolate_loop left (n + 1) taps past_exc (set v n (past_sample taps past_exc n))

unfoldable pub fir_interpolate : ℤ → ℤ → List ℤ → List ℤ → ℕ → ℕ → List ℤ
fir_interpolate t_int t_frac past_exc v start end =
    fir_interpolate_loop (end - start) start (taps_of t_int t_frac) past_exc v

-- The sample that the past and the samples made before give.
unfoldable pub current_sample : Taps → List ℤ → List ℤ → ℕ → ℤ
current_sample taps past_exc v n = round (
    fir_loop linter 0 taps (λ i. adaptive_source (pos n -ℤ taps.k -ℤ pos i) past_exc v)
      (λ i. adaptive_source (pos n -ℤ taps.k +ℤ pos 1 +ℤ pos i) past_exc v) (pos 0))

unfoldable pub recursive_loop : ℕ → ℕ → Taps → List ℤ → List ℤ → List ℤ
recursive_loop zero n taps past_exc v = v
recursive_loop (suc left) n taps past_exc v =
    recursive_loop left (n + 1) taps past_exc (set v n (current_sample taps past_exc v n))

unfoldable pub fir_interpolate_recursive_current : ℤ → ℤ → List ℤ → List ℤ → List ℤ
fir_interpolate_recursive_current t_int t_frac past_exc v =
    recursive_loop 40 0 (taps_of t_int t_frac) past_exc v

unfoldable pub adaptive_codebook : ℤ → ℤ → List ℤ → List ℤ → List ℤ
adaptive_codebook t_int t_frac past_exc v =
    if leb_ℤ t_int (pos (40 + linter - 1))
    then fir_interpolate_recursive_current t_int t_frac past_exc v
    else if leb_ℤ (pos 40) t_int
    then fir_interpolate t_int t_frac past_exc v 0 40
    else if eqb_ℤ t_frac (pos 0)
    then fir_interpolate_recursive_current t_int t_frac past_exc v
    else fir_interpolate_recursive_current t_int t_frac past_exc v
