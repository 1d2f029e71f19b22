-- ===== src/Postfilter/LongTerm.antt =====
-- internal/postfilter/longterm.go: the pitch filter. `history` is the residual of the past, 143
-- samples, and of the subframe behind it.
use g.Base.{
  ℕ, zero, suc, ◌+◌, ◌-◌, ◌*◌, ◌^◌, List, [], ◌∷◌, Bool, true, false, ◌||◌, if◌then◌else◌, ltb,
  get_or, take, drop, ℤ, pos, negsuc, pos_part, ◌+ℤ◌, ◌-ℤ◌, ◌*ℤ◌, ltb_ℤ, leb_ℤ, eqb_ℤ, asr, wrap,
}
use g.Fixed.Div.{div_s}

abbrev at : List ℤ → ℕ → ℤ
at xs i = get_or xs i (pos 0)

pub record Weights : Type 0 where
  pub g0_q14 : ℤ
  pub g1_q14 : ℤ
  pub gamma_scaled_gain_q15 : ℤ
  pub enabled : Bool

unfoldable pub scaled_product : ℤ → ℤ → ℤ
scaled_product a b = pos 2 *ℤ asr a 2 *ℤ asr b 2

-- The sum over the subframe of the products at the lag `t`, from sample `n` on.
unfoldable pub correlation : ℕ → ℕ → List ℤ → ℕ → ℤ → ℤ
correlation zero n history t sum = sum
correlation (suc left) n history t sum =
    correlation left (n + 1) history t
      (sum +ℤ scaled_product (at history (143 + n)) (at history (143 + n - t)))

-- The search over the lags from `t` on, with `left` to go.
unfoldable pub refine_loop : ℕ → ℕ → List ℤ → ℕ → ℤ → ℕ
refine_loop zero t history best_t best_corr = best_t
refine_loop (suc left) t history best_t best_corr =
    let r = correlation 40 0 history t (pos 0) in
    let better = ltb_ℤ best_corr r in
    refine_loop left (t + 1) history (if better then t else best_t)
      (if better then r else best_corr)

-- The bounds of the search.
unfoldable pub refine_low : ℤ → ℕ
refine_low t_int =
    let center = if ltb_ℤ (pos 140) t_int then pos 140 else t_int in
    if ltb_ℤ (center -ℤ pos 3) (pos 17) then 17 else pos_part (center -ℤ pos 3)

unfoldable pub refine_high : ℤ → ℤ
refine_high t_int =
    let center = if ltb_ℤ (pos 140) t_int then pos 140 else t_int in
    if ltb_ℤ (pos 143) (center +ℤ pos 3) then pos 143 else center +ℤ pos 3

unfoldable pub refine_pitch : List ℤ → ℤ → ℕ
refine_pitch history t_int =
    let lo = refine_low t_int in
    refine_loop (pos_part (refine_high t_int +ℤ pos 1 -ℤ pos lo)) lo history lo
      (negsuc (2 ^ 63 - 1))

-- The energy of the delayed samples, and of the subframe.
unfoldable pub delayed_energy : ℕ → ℕ → List ℤ → ℕ → ℤ → ℤ
delayed_energy zero n history t sum = sum
delayed_energy (suc left) n history t sum =
    delayed_energy left (n + 1) history t
      (sum +ℤ scaled_product (at history (143 + n - t)) (at history (143 + n - t)))

unfoldable pub current_energy : List ℤ → ℤ → ℤ
current_energy [] sum = sum
current_energy (x ∷ r) sum = current_energy r (sum +ℤ scaled_product x x)

-- `for max < 0x40000000 { max <<= 1; shift++ }`, with fuel for the bits of the limit.
unfoldable pub norm_shift_loop : ℕ → ℕ → ℕ
norm_shift_loop zero m = 0
norm_shift_loop (suc fuel) m =
    let rest = norm_shift_loop fuel (m * 2) in if ltb m 0x40000000 then suc rest else 0

abbrev larger : ℤ → ℤ → ℤ
larger m v = if ltb_ℤ m v then v else m

unfoldable pub long_term_norm_shift : ℤ → ℤ → ℤ → ℕ
long_term_norm_shift r delayed_e current_e =
    let m = larger (larger (larger (pos 0) r) delayed_e) current_e in
    if leb_ℤ m (pos 0) then 0 else norm_shift_loop 30 (pos_part m)

unfoldable pub long_term_rounded_norm_q15 : ℤ → ℕ → ℤ
long_term_rounded_norm_q15 v shift =
    let norm = asr (wrap 64 (v *ℤ pos (2 ^ shift) +ℤ pos 0x8000)) 16 in
    if ltb_ℤ (pos 32767) norm then pos 32767 else wrap 16 norm

abbrev pub long_term_max_gamma_scaled_gain_q15 : ℤ
long_term_max_gamma_scaled_gain_q15 = pos 10923

abbrev identity_weights : Bool → Weights
identity_weights enabled = record {
  g0_q14 = pos 16383;
  g1_q14 = pos 0;
  gamma_scaled_gain_q15 = pos 0;
  enabled = enabled;
}

-- The weights from the three normalized numbers.
unfoldable pub weights_of : ℤ → ℤ → ℤ → Weights
weights_of r_norm delayed_norm current_norm =
    let gamma_scaled_r = asr r_norm 2 in
    let gain_den = asr delayed_norm 1 +ℤ gamma_scaled_r in
    let gain =
      (if leb_ℤ r_norm delayed_norm
        then div_s gamma_scaled_r gain_den
        else long_term_max_gamma_scaled_gain_q15) in
    if ltb_ℤ (r_norm *ℤ r_norm) (asr (pos 16384 *ℤ delayed_norm *ℤ current_norm) 15)
    then identity_weights false
    else if eqb_ℤ r_norm (pos 0) || eqb_ℤ delayed_norm (pos 0)
    then identity_weights true
    else record {
      g0_q14 = pos 16383 -ℤ asr gain 1;
      g1_q14 = asr gain 1;
      gamma_scaled_gain_q15 = gain;
      enabled = true;
    }

unfoldable pub compute_long_term_gain_weights : List ℤ → List ℤ → ℕ → Weights
compute_long_term_gain_weights history r t =
    let sum = correlation 40 0 history t (pos 0) in
    let delayed_e = delayed_energy 40 0 history t (pos 1) in
    let current_e = current_energy r (pos 1) in
    let shift = long_term_norm_shift sum delayed_e current_e in
    if ltb_ℤ sum (pos 0) || eqb_ℤ delayed_e (pos 0) || eqb_ℤ current_e (pos 0)
    then identity_weights false
    else weights_of (long_term_rounded_norm_q15 sum shift)
        (long_term_rounded_norm_q15 delayed_e shift) (long_term_rounded_norm_q15 current_e shift)

unfoldable pub clipped : ℤ → ℤ
clipped x =
    if ltb_ℤ (pos 32767) x then pos 32767 else if ltb_ℤ x (negsuc 32767) then negsuc 32767 else x

unfoldable pub long_term_loop : ℕ → ℕ → List ℤ → ℕ → ℤ → ℤ → List ℤ
long_term_loop zero n history t g0_q15 g1_q15 = []
long_term_loop (suc left) n history t g0_q15 g1_q15 =
    clipped (asr (g0_q15 *ℤ at history (143 + n)) 15 +ℤ asr (g1_q15 *ℤ at history (143 + n - t)) 15)
    ∷ long_term_loop left (n + 1) history t g0_q15 g1_q15

unfoldable pub apply_long_term_with_gain_q15 : List ℤ → ℕ → Weights → List ℤ
apply_long_term_with_gain_q15 history t weights =
    let gain = weights.gamma_scaled_gain_q15 in
    let base = if eqb_ℤ gain long_term_max_gamma_scaled_gain_q15 then pos (2 ^ 15) else pos 32767 in
    if weights.enabled
    then long_term_loop 40 0 history t (base -ℤ gain) gain
    else take 40 (drop 143 history)
