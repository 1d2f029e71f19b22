-- ===== src/Lsp/Predictor.antt =====
-- internal/lsp/codebook.go and predictor.go: the residual that the indices name, and the
-- predictor of order 4.
pub mod Words
use g.Base.{
  ℕ, zero, suc, ◌+◌, ◌-◌, List, [], ◌∷◌, ltb, if◌then◌else◌, get_or, ℤ, pos, ◌*ℤ◌, asr, take, wrap,
}
use g.Fixed.Saturate.{add, saturate, extract_h, l_deposit_h}
use g.Fixed.Mult.{l_mac, l_msu}
use g.Tables.LspL1.{lsp_codebook_l1}
use g.Tables.LspL2.{lsp_codebook_l2}
use g.Tables.LspL3.{lsp_codebook_l3}
use g.Tables.LspMa.{ma_predictors_lsp, ma_predictor_inv_sum_lsp}

-- A coordinate of a row.
abbrev pub cell : List (List ℤ) → ℕ → ℕ → ℤ
cell rows r i = get_or (get_or rows r []) i (pos 0)

-- Ten coordinates, by what each is.
abbrev pub tabulate : ℕ → ℕ → (ℕ → ℤ) → List ℤ
tabulate zero i f = []
tabulate (suc left) i f = f i ∷ tabulate left (i + 1) f

unfoldable pub combined : ℕ → ℕ → ℕ → ℕ → ℤ
combined l1 l2 l3 i =
    if ltb i 5
    then add (cell lsp_codebook_l1 l1 i) (cell lsp_codebook_l2 l2 i)
    else add (cell lsp_codebook_l1 l1 i) (cell lsp_codebook_l3 l3 (i - 5))

unfoldable pub combine_residual : ℕ → ℕ → ℕ → List ℤ
combine_residual l1 l2 l3 = tabulate 10 0 (combined l1 l2 l3)

unfoldable pub apply_predictor_coordinate : ℕ → ℕ → ℤ → List (List ℤ) → ℤ
apply_predictor_coordinate selector i residual past =
    let preds = get_or ma_predictors_lsp selector [] in
    let acc0 = l_mac (pos 0) (cell ma_predictor_inv_sum_lsp selector i) residual in
    let acc1 = l_mac acc0 (cell preds 0 i) (cell past 0 i) in
    let acc2 = l_mac acc1 (cell preds 1 i) (cell past 1 i) in
    let acc3 = l_mac acc2 (cell preds 2 i) (cell past 2 i) in
    extract_h (l_mac acc3 (cell preds 3 i) (cell past 3 i))

-- The vector that `applyPredictor` fills, and the FIFO that it leaves.
unfoldable pub predicted : ℕ → List ℤ → List (List ℤ) → List ℤ
predicted selector residual past =
    tabulate 10 0 λ i. apply_predictor_coordinate selector i (get_or residual i (pos 0)) past

unfoldable pub shifted : List ℤ → List (List ℤ) → List (List ℤ)
shifted residual past = residual ∷ get_or past 0 [] ∷ get_or past 1 [] ∷ get_or past 2 [] ∷ []

abbrev pub ma_predictor_inv_sum_reciprocal_lsp : List (List ℤ)
ma_predictor_inv_sum_reciprocal_lsp =
    (pos 17210
      ∷ pos 15888
      ∷ pos 16357
      ∷ pos 16183
      ∷ pos 16516
      ∷ pos 15833
      ∷ pos 15888
      ∷ pos 15421
      ∷ pos 14840
      ∷ pos 15597
      ∷ [])
    ∷ (pos 9202
        ∷ pos 7320
        ∷ pos 6788
        ∷ pos 7738
        ∷ pos 8170
        ∷ pos 8154
        ∷ pos 8856
        ∷ pos 8818
        ∷ pos 8366
        ∷ pos 8544
        ∷ [])
    ∷ []

unfoldable pub inverse_coordinate : ℕ → ℕ → ℤ → List (List ℤ) → ℤ
inverse_coordinate selector i target past =
    let preds = get_or ma_predictors_lsp selector [] in
    let acc0 = l_msu (l_deposit_h target) (cell preds 0 i) (cell past 0 i) in
    let acc1 = l_msu acc0 (cell preds 1 i) (cell past 1 i) in
    let acc2 = l_msu acc1 (cell preds 2 i) (cell past 2 i) in
    let n_q13 = extract_h (l_msu acc2 (cell preds 3 i) (cell past 3 i)) in
    saturate (wrap 32 (asr (n_q13 *ℤ cell ma_predictor_inv_sum_reciprocal_lsp selector i) 12))

unfoldable pub inverse_predictor_residual : ℕ → List ℤ → List (List ℤ) → List ℤ
inverse_predictor_residual selector target past =
    tabulate 10 0 λ i. inverse_coordinate selector i (get_or target i (pos 0)) past
