-- ===== src/Lsp/Encoder/Quantize.antt =====
-- internal/lsp/encoder_vq.go: Quantize, QuantizeTopK and the cost of a whole set of codewords.
use g.Base.{
  ℕ, zero, suc, ◌||◌, List, [], ◌∷◌, ◌++◌, leb, if◌then◌else◌, ℤ, pos, negsuc, ltb_ℤ, length,
  get_or, take, drop, for_range, min, max,
}
use g.Lsp
use g.Lsp.{Indices, residual_of}
use g.Lsp.Stability.{enforce_lsf_stability}
use g.Lsp.Encoder.{
  apply_predictor_with_memory, compute_target_lsf, commit_predictor_memory, weights_lsf,
}
use g.Lsp.Encoder.Search.{search_l1, search_l2, search_l3, l1_cost, weighted_cost}

-- The cost of the vector that the decoder makes of the codewords.
unfoldable pub final_quantized_lsf_cost : Indices → List (List ℤ) → List ℤ → List ℤ → ℤ
final_quantized_lsf_cost idx mem omega weights =
    weighted_cost 10 0 omega weights
      (enforce_lsf_stability (apply_predictor_with_memory idx.l0 mem (residual_of idx)))

-- The best codewords so far, with their residual and cost.
pub record Choice : Type 0 where
  pub idx : Indices
  pub residual : List ℤ
  pub cost : ℤ

abbrev pub no_choice : Choice
no_choice = record {
  idx = record { l0 = 0; l1 = 0; l2 = 0; l3 = 0 };
  residual = Lsp.zero_vector;
  cost = negsuc 0;
}

unfoldable pub weigh : List (List ℤ) → List ℤ → Indices → Choice → Choice
weigh mem omega idx best =
    let cost = final_quantized_lsf_cost idx mem omega (weights_lsf omega) in
    if ltb_ℤ best.cost (pos 0) || ltb_ℤ cost best.cost
    then record { idx = idx; residual = residual_of idx; cost = cost }
    else best

-- The codewords that the greedy search finds for a predictor.
unfoldable pub greedy : List ℤ → List (List ℤ) → ℕ → Indices
greedy omega freq_prev sel =
    let weights = weights_lsf omega in
    let l1 = (search_l1 (compute_target_lsf sel freq_prev omega)).idx in
    let l2 = (search_l2 l1 sel freq_prev omega weights).idx in
    let l3 = (search_l3 l1 l2 sel freq_prev omega weights).idx in
    record { l0 = sel; l1 = l1; l2 = l2; l3 = l3 }

-- A result of the quantizers: the codewords, and the caller's memory.
abbrev pub Quantized : Type 0
Quantized = Indices × List (List ℤ)

unfoldable pub finish : List (List ℤ) → Choice → Quantized
finish freq_prev best = (best.idx, commit_predictor_memory freq_prev best.residual)

-- The loop over the predictors.
unfoldable pub quantize_choice : List ℤ → List (List ℤ) → Choice
quantize_choice omega freq_prev =
    for_range 2 0 (λ sel best. weigh freq_prev omega (greedy omega freq_prev sel) best) no_choice

unfoldable pub quantize : List ℤ → List (List ℤ) → Quantized
quantize omega freq_prev = finish freq_prev (quantize_choice omega freq_prev)

-- A row of the first stage with its cost.
pub record Row : Type 0 where
  pub row : ℕ
  pub cost : ℤ

abbrev pub none_row : Row
none_row = record { row = 0; cost = pos 0 }

-- The place of a row, by the walk back from the end.
unfoldable pub place : ℕ → ℤ → List Row → ℕ
place zero sum rows = zero
place (suc p) sum rows =
    let rest = place p sum rows in if ltb_ℤ sum (get_or rows p none_row).cost then rest else suc p

unfoldable pub insert_row : ℕ → Row → List Row → List Row
insert_row top_k r rows =
    let p = place (length rows) r.cost rows in
    if leb top_k p then rows else take top_k (take p rows ++ r ∷ drop p rows)

unfoldable pub search_l1_top_k : List ℤ → ℕ → List Row
search_l1_top_k target top_k =
    for_range 128 0
      (λ row rows. insert_row top_k (record { row = row; cost = l1_cost target row }) rows) []

abbrev pub quantize_top_k_max : ℕ
quantize_top_k_max = 16

unfoldable pub clamp_top_k : ℕ → ℕ
clamp_top_k top_k = min (max top_k 1) quantize_top_k_max

-- The loops over the second stage for a predictor and a row of the first.
unfoldable pub second_stage : List (List ℤ) → List ℤ → ℕ → ℕ → Choice → Choice
second_stage freq_prev omega sel l1 best =
    for_range 32 0
      (λ l2 b2.
        for_range 32 0
          (λ l3 b3. weigh freq_prev omega (record { l0 = sel; l1 = l1; l2 = l2; l3 = l3 }) b3) b2)
      best

unfoldable pub first_stage : List (List ℤ) → List ℤ → ℕ → ℕ → Choice → Choice
first_stage freq_prev omega top_k sel best =
    let rows = search_l1_top_k (compute_target_lsf sel freq_prev omega) top_k in
    for_range (length rows) 0
      (λ li b. second_stage freq_prev omega sel (get_or rows li none_row).row b) best

unfoldable pub quantize_top_k_choice : List ℤ → List (List ℤ) → ℕ → Choice
quantize_top_k_choice omega freq_prev top_k =
    for_range 2 0 (λ sel b. first_stage freq_prev omega (clamp_top_k top_k) sel b) no_choice

unfoldable pub quantize_top_k : List ℤ → List (List ℤ) → ℕ → Quantized
quantize_top_k omega freq_prev top_k =
    finish freq_prev (quantize_top_k_choice omega freq_prev top_k)

unfoldable pub tuple_cost_for_diagnostic : List ℤ → List (List ℤ) → Indices → ℤ
tuple_cost_for_diagnostic omega freq_prev idx =
    final_quantized_lsf_cost idx freq_prev omega (weights_lsf omega)

unfoldable pub commit_indices_for_diagnostic : List (List ℤ) → Indices → List (List ℤ)
commit_indices_for_diagnostic freq_prev idx = commit_predictor_memory freq_prev (residual_of idx)
