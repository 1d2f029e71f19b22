-- ===== src/Lsp/Encoder/Search.antt =====
-- internal/lsp/encoder_vq.go: the searches of the three codebooks, one after the other.
use g.Base.{
  ℕ, suc, ◌||◌, List, ltb, if◌then◌else◌, set, ℤ, pos, negsuc, ◌+ℤ◌, ◌-ℤ◌, ◌*ℤ◌, ltb_ℤ, wrap, quot,
  for_range,
}
use g.Fixed.Saturate.{add}
use g.Tables.LspL1.{lsp_codebook_l1}
use g.Tables.LspL2.{lsp_codebook_l2}
use g.Lsp.Stability.{at, lsf_rearr_j1, rearrange_adjacent}
use g.Lsp.Predictor.{cell, tabulate, combine_residual}
use g.Lsp.Encoder.{apply_predictor_with_memory}

-- `bestIdx` and `bestMSE`.
pub record Best : Type 0 where
  pub idx : ℕ
  pub mse : ℤ

abbrev pub no_best : Best
no_best = record { idx = 0; mse = negsuc 0 }

-- The end of a round of each search.
unfoldable pub consider : (ℕ → ℤ) → ℕ → Best → Best
consider cost row b =
    if ltb_ℤ b.mse (pos 0) || ltb_ℤ (cost row) b.mse
    then record { idx = row; mse = cost row }
    else b

-- The search of `rows` rows by their costs.
unfoldable pub search : ℕ → (ℕ → ℤ) → Best
search rows cost = for_range rows 0 (consider cost) no_best

unfoldable pub l1_cost : List ℤ → ℕ → ℤ
l1_cost target row =
    for_range 10 0
      (λ i sum.
        let diff = at target i -ℤ cell lsp_codebook_l1 row i in wrap 32 (sum +ℤ diff *ℤ diff))
      (pos 0)

unfoldable pub search_l1 : List ℤ → Best
search_l1 target = search 128 (l1_cost target)

-- The sum over `n` coordinates from `i` on, with the sum so far.
unfoldable pub weighted_cost : ℕ → ℕ → List ℤ → List ℤ → List ℤ → ℤ
weighted_cost n i omega weights omega_hat =
    for_range n i
      (λ k sum. let d = at omega k -ℤ at omega_hat k in wrap 64 (sum +ℤ at weights k *ℤ d *ℤ d))
      (pos 0)

-- A round of the rearrangement of the lower half, where the source's i is `suc i`.
unfoldable pub rearrange_pair : ℕ → List ℤ → List ℤ
rearrange_pair i omega_hat =
    let sum = at omega_hat (suc i) +ℤ at omega_hat i in
    if ltb_ℤ (wrap 16 (at omega_hat (suc i) -ℤ at omega_hat i)) lsf_rearr_j1
    then set (set omega_hat i (wrap 16 (quot (sum -ℤ lsf_rearr_j1) 2))) (suc i)
        (wrap 16 (quot (sum +ℤ lsf_rearr_j1) 2))
    else omega_hat

unfoldable pub lower_half : ℕ → ℕ → List ℤ
lower_half l1 row =
    tabulate 10 0
      λ i. if ltb i 5 then add (cell lsp_codebook_l1 l1 i) (cell lsp_codebook_l2 row i) else pos 0

unfoldable pub l2_cost : ℕ → ℕ → List (List ℤ) → List ℤ → List ℤ → ℕ → ℤ
l2_cost l1 selector mem omega weights row =
    weighted_cost 5 0 omega weights
      (for_range 4 0 rearrange_pair (apply_predictor_with_memory selector mem (lower_half l1 row)))

unfoldable pub search_l2 : ℕ → ℕ → List (List ℤ) → List ℤ → List ℤ → Best
search_l2 l1 selector mem omega weights = search 32 (l2_cost l1 selector mem omega weights)

unfoldable pub l3_cost : ℕ → ℕ → ℕ → List (List ℤ) → List ℤ → List ℤ → ℕ → ℤ
l3_cost l1 l2 selector mem omega weights row = weighted_cost 5 5 omega weights (
    rearrange_adjacent (apply_predictor_with_memory selector mem (combine_residual l1 l2 row))
      lsf_rearr_j1)

unfoldable pub search_l3 : ℕ → ℕ → ℕ → List (List ℤ) → List ℤ → List ℤ → Best
search_l3 l1 l2 selector mem omega weights = search 32 (l3_cost l1 l2 selector mem omega weights)
