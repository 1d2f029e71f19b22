-- ===== src/Postfilter.antt =====
-- internal/postfilter: the chain of filters behind the synthesis. LongTerm.antt, Tilt.antt and
-- Agc.antt model longterm.go, tilt.go and agc.go; this file models types.go, bandwidth.go,
-- residual.go, shortterm.go and postfilter.go. The diagnostic taps are left out.
mod Tests
pub mod Correlation
pub mod Lag
pub mod LongTerm
pub mod Tilt
pub mod Agc
pub mod Root
use g.Base.{
  ℕ, zero, suc, ◌+◌, ◌-◌, ◌^◌, List, [], ◌∷◌, ◌++◌, Bool, true, false, if◌then◌else◌, get_or, set,
  take, drop, replicate, ℤ, pos, ◌+ℤ◌, ◌*ℤ◌, asr, wrap,
}
use g.Fixed.Saturate.{round}
use g.Fixed.Shift.{l_shl}
use g.Fixed.Mult.{l_mult, l_mac, l_msu}
use g.Postfilter.LongTerm.{
  refine_pitch, compute_long_term_gain_weights, apply_long_term_with_gain_q15,
}
use g.Postfilter.Tilt.{compute_tilt_mu, apply_tilt_with_mu}
use g.Postfilter.Agc.{compute_agc_target_gain, apply_agc}

abbrev at : List ℤ → ℕ → ℤ
at xs i = get_or xs i (pos 0)

abbrev pub gamma_num_q15 : ℤ
gamma_num_q15 = pos 18022

abbrev pub gamma_den_q15 : ℤ
gamma_den_q15 = pos 22938

pub record Postfilter : Type 0 where
  pub past_s : List ℤ
  pub past_residual : List ℤ
  pub past_synth_post : List ℤ
  pub past_tilt_input : ℤ
  pub agc_gain_prev : ℤ
  pub initialized : Bool

abbrev pub reset : Postfilter
reset = record {
  past_s = replicate 10 (pos 0);
  past_residual = replicate 183 (pos 0);
  past_synth_post = replicate 10 (pos 0);
  past_tilt_input = pos 0;
  agc_gain_prev = pos 0;
  initialized = false;
}

-- A product in Q15, rounded.
abbrev pub product_q15 : ℤ → ℤ → ℤ
product_q15 a b = wrap 16 (asr (a *ℤ b +ℤ pos (2 ^ 14)) 15)

-- The coefficients behind the first, with the power of gamma for the next.
unfoldable pub expand_loop : List ℤ → ℤ → ℤ → List ℤ
expand_loop [] gamma_pow gamma_q15 = []
expand_loop (x ∷ a) gamma_pow gamma_q15 =
    product_q15 x gamma_pow ∷ expand_loop a (product_q15 gamma_pow gamma_q15) gamma_q15

unfoldable pub expand_bandwidth : List ℤ → ℤ → List ℤ
expand_bandwidth [] gamma_q15 = []
expand_bandwidth (x ∷ a) gamma_q15 = x ∷ expand_loop a gamma_q15 gamma_q15

unfoldable pub residual_taps : ℕ → ℕ → ℕ → List ℤ → List ℤ → ℤ → ℤ
residual_taps zero i n a_num work l_temp = l_temp
residual_taps (suc left) i n a_num work l_temp =
    residual_taps left (i + 1) n a_num work (l_mac l_temp (at a_num i) (at work (10 + n - i)))

-- The samples of `computeResidual` from `n` on.
unfoldable pub residual_loop : ℕ → ℕ → List ℤ → List ℤ → List ℤ
residual_loop zero n a_num work = []
residual_loop (suc left) n a_num work =
    round (l_shl (residual_taps 10 1 n a_num work (l_mult (at a_num 0) (at work (10 + n)))) (pos 3))
    ∷ residual_loop left (n + 1) a_num work

unfoldable pub compute_residual : List ℤ → List ℤ → List ℤ → List ℤ
compute_residual past_s a_num s = residual_loop 40 0 a_num (past_s ++ s)

unfoldable pub short_term_taps : ℕ → ℕ → ℕ → List ℤ → List ℤ → ℤ → ℤ
short_term_taps zero i n a_den work l_temp = l_temp
short_term_taps (suc left) i n a_den work l_temp =
    short_term_taps left (i + 1) n a_den work (l_msu l_temp (at a_den i) (at work (10 + n - i)))

unfoldable pub short_term_loop : ℕ → ℕ → List ℤ → List ℤ → List ℤ → List ℤ
short_term_loop zero n a_den r_in work = work
short_term_loop (suc left) n a_den r_in work = short_term_loop left (n + 1) a_den r_in (
    set work (10 + n)
      (round (l_shl (short_term_taps 10 1 n a_den work (l_mult (at r_in n) (at a_den 0))) (pos 3))))

-- The work buffer that `applyShortTerm` fills.
unfoldable pub apply_short_term : List ℤ → List ℤ → List ℤ → List ℤ
apply_short_term past_synth_post a_den r_in =
    short_term_loop 40 0 a_den r_in (past_synth_post ++ replicate 40 (pos 0))

unfoldable pub filter : Postfilter → List ℤ → ℤ → List ℤ → List ℤ × Postfilter
filter pf a t_int s =
    let a_num = expand_bandwidth a gamma_num_q15 in
    let a_den = expand_bandwidth a gamma_den_q15 in
    let r = compute_residual pf.past_s a_num s in
    let history = take 143 pf.past_residual ++ r in
    let t = refine_pitch history t_int in
    let weights = compute_long_term_gain_weights history r t in
    let r_out = apply_long_term_with_gain_q15 history t weights in
    let s_tilt = apply_tilt_with_mu pf.past_tilt_input (compute_tilt_mu a_num a_den) r_out in
    let work = apply_short_term pf.past_synth_post a_den s_tilt in
    let s_st = drop 10 work in
    let agc =
      apply_agc (if pf.initialized then pf.agc_gain_prev else pos (2 ^ 24)) s_st
        (compute_agc_target_gain s s_st) in
    (
      agc.0,
      record {
        past_s = drop 40 (pf.past_s ++ s);
        past_residual = take 143 (drop 40 history) ++ r;
        past_synth_post = drop 40 work;
        past_tilt_input = at r_out 39;
        agc_gain_prev = agc.1;
        initialized = true;
      },
    )
