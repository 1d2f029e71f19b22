-- ===== src/Lsp/Encoder/Tests.antt =====
-- Runs of the encoder's side of internal/lsp.
use g.Base.{get_or, ◌≤ℤ◌, length, ◌≡◌, ◌≤◌, arith, List, [], ◌∷◌, ℤ, pos, negsuc}
use g.Lsp.{Indices, initial_past_residual, past_residuals_of, prev_lsf_of, reset, decode}
use g.Lsp.Convert.{lsf_to_lsp}
use g.Lsp.Frames.{All-Words}
use g.Lsp.Encoder.{compute_target_lsf, init_freq_prev, weights_lsf}
use g.Lsp.Encoder.Search.{weighted_cost}
use g.Lsp.Encoder.Wide.{quantize_least}
use g.Lsp.Encoder.Quantize.{
  quantize, quantize_top_k, greedy, search_l1_top_k, clamp_top_k, none_row,
  tuple_cost_for_diagnostic,
}
use g.Lsp.Encoder.Sync.{search_l1_top_k-some, wide, quantize_all, decode_all, in_step_lem}
use g.Lsp.Encoder.Angle.{lsp_to_lsf_of, distance}
use g.Lsp.Encoder.Nearest.{lsp_to_lsf_of_lem}
use g.Lsp.Encoder.Roots.{compute_f1f2, find_lsp_roots}
use g.Lsp.Encoder.Grid.{IsOutcome, find_lsp_roots-IsOutcome}

abbrev speech : List ℤ
speech =
    pos 1500
    ∷ pos 3000
    ∷ pos 5200
    ∷ pos 8000
    ∷ pos 11000
    ∷ pos 14100
    ∷ pos 16900
    ∷ pos 19000
    ∷ pos 21800
    ∷ pos 24000
    ∷ []

abbrev words : Indices
words = record { l0 = 1; l1 = 17; l2 = 5; l3 = 30 }

in_step_lem_example :
    let frames = speech ∷ initial_past_residual ∷ [] in
    let mem = past_residuals_of reset in
    (past_residuals_of (decode_all reset (quantize_all (wide 1) frames mem).0)
      ≡ (quantize_all (wide 1) frames mem).1)
    × (past_residuals_of reset ≡ init_freq_prev)
    × (tuple_cost_for_diagnostic speech mem words
        ≡ weighted_cost 10 0 speech (weights_lsf speech) (prev_lsf_of (decode reset words).1))
in_step_lem_example = in_step_lem (wide 1) (speech ∷ initial_past_residual ∷ []) reset speech words

lsp_to_lsf_of_lem_example :
    (lsp_to_lsf_of (pos 20000) ≤ 25736)
    × (distance (pos 20000) (lsp_to_lsf_of (pos 20000)) ≤ distance (pos 20000) 403)
    × (lsf_to_lsp (pos (lsp_to_lsf_of (lsf_to_lsp (pos 403)))) ≡ lsf_to_lsp (pos 403))
lsp_to_lsf_of_lem_example = lsp_to_lsf_of_lem (pos 20000) 403 (omega arith)

abbrev filter : List ℤ
filter = pos 4096 ∷ negsuc 6999 ∷ pos 4200 ∷ negsuc 899 ∷ pos 300 ∷ negsuc 120 ∷ []

find_lsp_roots-IsOutcome_example :
    let f = compute_f1f2 filter in IsOutcome f.0 f.1 (find_lsp_roots f.0 f.1)
find_lsp_roots-IsOutcome_example =
    find_lsp_roots-IsOutcome (compute_f1f2 filter).0 (compute_f1f2 filter).1

some_row : (target : List ℤ) → 1 ≤ length (search_l1_top_k target (clamp_top_k 1))
unfolding clamp_top_k
some_row target = search_l1_top_k-some target 1 (omega arith)

quantize_least_example :
    let cost = tuple_cost_for_diagnostic speech init_freq_prev in
    let rows = search_l1_top_k (compute_target_lsf 1 init_freq_prev speech) (clamp_top_k 1) in
    (cost (quantize_top_k speech init_freq_prev 1).0
      ≤ℤ cost (record { l0 = 1; l1 = (get_or rows 0 none_row).row; l2 = 5; l3 = 30 }))
    × (cost (quantize speech init_freq_prev).0 ≤ℤ cost (greedy speech init_freq_prev 1))
    × (pos 0 ≤ℤ cost (record { l0 = 1; l1 = 100; l2 = 31; l3 = 7 }))
quantize_least_example =
    quantize_least speech init_freq_prev (record { l0 = 1; l1 = 100; l2 = 31; l3 = 7 }) 1 1 0 5 30
      (All-Words speech (omega arith)) (omega arith)
      (some_row (compute_target_lsf 1 init_freq_prev speech)) (omega arith) (omega arith)
