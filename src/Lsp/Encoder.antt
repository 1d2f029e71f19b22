-- ===== src/Lsp/Encoder.antt =====
-- internal/lsp, the encoder's side: the start-up values (encoder_init.go), the predictor over the
-- memory that the caller owns (encoder_predictor.go) and the weights of the search
-- (encoder_weights.go). Search.antt and Quantize.antt model encoder_vq.go.
mod Tests
pub mod Search
pub mod Quantize
pub mod Sync
pub mod Cost
pub mod Weights
pub mod Wide
pub mod Roots
pub mod Brackets
pub mod Grid
pub mod Angle
pub mod Nearest
use g.Base.{
  ℕ, zero, suc, ◌+◌, ◌-◌, ◌*◌, ◌/◌, ◌^◌, List, [], ◌∷◌, ltb, if◌then◌else◌, get_or, replicate, ℤ,
  pos, negsuc, pos_part, ◌*ℤ◌, ltb_ℤ, asr, wrap, quot, pos_part, set,
}
use g.Fixed.Saturate.{saturate, sub, extract_h, l_deposit_h}
use g.Fixed.Mult.{l_msu}
use g.Tables.LspMa.{ma_predictors_lsp, ma_predictor_inv_sum_lsp}
use g.Lsp.{initial_past_residual, initial_prev_lsp}
use g.Lsp.Stability.{at}
use g.Lsp.Predictor.{cell, tabulate, predicted, shifted}

abbrev pub init_freq_prev : List (List ℤ)
init_freq_prev = replicate 4 initial_past_residual

abbrev pub init_lsp_old : List ℤ
init_lsp_old = initial_prev_lsp

-- The decoder's predictor computes the same coordinates over its own FIFO.
unfoldable pub apply_predictor_with_memory : ℕ → List (List ℤ) → List ℤ → List ℤ
apply_predictor_with_memory selector mem residual = predicted selector residual mem

unfoldable pub target_coordinate : ℕ → List (List ℤ) → List ℤ → ℕ → ℤ
target_coordinate selector mem omega i =
    let preds = get_or ma_predictors_lsp selector [] in
    let comp = cell ma_predictor_inv_sum_lsp selector i in
    let acc0 = l_msu (l_deposit_h (at omega i)) (cell preds 0 i) (cell mem 0 i) in
    let acc1 = l_msu acc0 (cell preds 1 i) (cell mem 1 i) in
    let acc2 = l_msu acc1 (cell preds 2 i) (cell mem 2 i) in
    let n_q13 = extract_h (l_msu acc2 (cell preds 3 i) (cell mem 3 i)) in
    saturate (quot (n_q13 *ℤ pos (2 ^ 15)) (pos_part comp))

unfoldable pub compute_target_lsf : ℕ → List (List ℤ) → List ℤ → List ℤ
compute_target_lsf selector mem omega = tabulate 10 0 (target_coordinate selector mem omega)

unfoldable pub commit_predictor_memory : List (List ℤ) → List ℤ → List (List ℤ)
commit_predictor_memory mem residual = shifted residual mem

abbrev pub lsf_q13_pi04 : ℤ
lsf_q13_pi04 = pos 1029

abbrev pub lsf_q13_pi92 : ℤ
lsf_q13_pi92 = pos 23676

abbrev pub lsf_q13_one : ℤ
lsf_q13_one = pos 8192

abbrev pub lsf_q11_one : ℤ
lsf_q11_one = pos 2048

abbrev pub lsf_q11_one_two : ℤ
lsf_q11_one_two = pos 2458

unfoldable pub weight_from_arg : ℤ → ℤ
weight_from_arg arg_q13 =
    let w_q11 = 2 ^ 37 / (10 * pos_part (arg_q13 *ℤ arg_q13) + 2 ^ 26) in
    if ltb_ℤ (pos 0) arg_q13 then lsf_q11_one else pos (if ltb 32767 w_q11 then 32767 else w_q11)

unfoldable pub boost12 : ℤ → ℤ
boost12 w_q11 =
    let v = asr (w_q11 *ℤ lsf_q11_one_two) 11 in
    if ltb_ℤ (pos 32767) v then pos 32767 else if ltb_ℤ v (negsuc 32767) then negsuc 32767 else v

-- A weight before the boost.
unfoldable pub plain_weight : List ℤ → ℕ → ℤ
plain_weight omega zero = weight_from_arg (sub (sub (at omega 1) lsf_q13_pi04) lsf_q13_one)
plain_weight omega (suc i) =
    if ltb i 8
    then weight_from_arg (sub (sub (at omega (i + 2)) (at omega i)) lsf_q13_one)
    else weight_from_arg (sub (sub lsf_q13_pi92 (at omega 8)) lsf_q13_one)

unfoldable pub weights_lsf : List ℤ → List ℤ
weights_lsf omega =
    let w = tabulate 10 0 (plain_weight omega) in
    let boosted = set w 4 (boost12 (at w 4)) in set boosted 5 (boost12 (at boosted 5))
