-- ===== src/Lsp/Encoder/Wide.antt =====
-- internal/lsp/encoder_vq.go: what Quantize and QuantizeTopK choose.
use g.Base.{
  ℕ, zero, suc, ◌-◌, ◌≤◌, ◌<◌, ◌≡◌, refl, arith, if-cases, Bool-cases, inl, inr, ◌||◌, List, [],
  ◌∷◌, length, get_or, ℤ, pos, ◌≤ℤ◌, ltb_ℤ, ltb, for_range_keeps, for_range_reaches,
}
use g.Lsp.{Indices, residual_of}
use g.Lsp.Frames.{within, positive}
use g.Lsp.Predictor.{predicted}
use g.Lsp.Predictor.Words.{predicted-Words, length-predicted}
use g.Lsp.Stability.{at, enforce_lsf_stability}
use g.Lsp.Stability.Sort.{Words}
use g.Lsp.Stability.Bounds.{IsStable, enforce_lsf_stability-IsStable}
use g.Lsp.Encoder.{weights_lsf, compute_target_lsf, apply_predictor_with_memory}
use g.Lsp.Encoder.Cost.{weighted_cost_real}
use g.Lsp.Encoder.Weights.{weights_lsf-IsWeight}
use g.Lsp.Encoder.Quantize.{
  Choice, no_choice, weigh, greedy, quantize, quantize_choice, quantize_top_k,
  quantize_top_k_choice, second_stage, first_stage, finish, clamp_top_k, search_l1_top_k, none_row,
  final_quantized_lsf_cost, tuple_cost_for_diagnostic,
}
use g.Lsp.Encoder.Sync.{quantized-IsOwn, quantized_top_k-IsOwn}

beyond : (xs : List ℤ) (k : ℕ) → length xs ≤ k → at xs k ≡ pos 0
beyond [] k h = refl
beyond (x ∷ xs) zero h = absurd (omega arith)
beyond (x ∷ xs) (suc k) h = beyond xs k (omega arith)

IsStable-Words : (lsf : List ℤ) → IsStable lsf → Words lsf
IsStable-Words lsf s k = elim (Bool-cases (ltb k 10)) [
  | inl inner ↦
      ground (arith, within lsf s (9 - k) k (ground arith), positive lsf s k (ground arith))
  | inr outer ↦ ground (arith, beyond lsf k (ground (arith, s.ten)))
]

-- No cost is negative.
cost_real :
    (lsf : List ℤ) (mem : List (List ℤ)) (idx : Indices)
    → Words lsf
    → pos 0 ≤ℤ tuple_cost_for_diagnostic lsf mem idx
unfolding tuple_cost_for_diagnostic final_quantized_lsf_cost apply_predictor_with_memory
cost_real lsf mem idx w =
    let lsf_hat = predicted idx.l0 (residual_of idx) mem in
    weighted_cost_real 10 0 lsf (weights_lsf lsf) (enforce_lsf_stability lsf_hat) (omega arith) w
      (weights_lsf-IsWeight lsf)
      (IsStable-Words _ (
        enforce_lsf_stability-IsStable lsf_hat (length-predicted idx.l0 (residual_of idx) mem)
          (predicted-Words idx.l0 (residual_of idx) mem)))

-- At most the cost of a set of codewords, and not the start value.
pub record Beats (lsf : List ℤ) (mem : List (List ℤ)) (idx : Indices) (c : Choice) : Type 0 where
  pub real : pos 0 ≤ℤ c.cost
  pub under : c.cost ≤ℤ tuple_cost_for_diagnostic lsf mem idx

module _ (lsf : List ℤ) (mem : List (List ℤ)) (w : Words lsf) where
  weigh_reaches : (idx : Indices) (c : Choice) → Beats lsf mem idx (weigh mem lsf idx c)
  unfolding weigh tuple_cost_for_diagnostic
  weigh_reaches idx c =
      let cost = tuple_cost_for_diagnostic lsf mem idx in
      let real = cost_real lsf mem idx w in
      if-cases (Beats lsf mem idx) (ltb_ℤ c.cost (pos 0) || ltb_ℤ cost c.cost) {y = c}
        (λ better. record { real = real; under = omega arith })
        λ worse. record { real = ground arith; under = ground arith }

  weigh_keeps :
      (old idx : Indices) (c : Choice)
      → Beats lsf mem old c
      → Beats lsf mem old (weigh mem lsf idx c)
  unfolding weigh tuple_cost_for_diagnostic
  weigh_keeps old idx c b =
      let cost = tuple_cost_for_diagnostic lsf mem idx in
      let real = cost_real lsf mem idx w in
      if-cases (Beats lsf mem old) (ltb_ℤ c.cost (pos 0) || ltb_ℤ cost c.cost)
        (λ better. record { real = real; under = ground (arith, b.real, b.under) }) λ worse. b

  -- The loops over the second stage.
  abbrev Second : ℕ → ℕ → ℕ → Choice → Type 0
  Second sel l1 l2 c =
      (l3 : ℕ) → l3 < 32 → Beats lsf mem (record { l0 = sel; l1 = l1; l2 = l2; l3 = l3 }) c

  second_stage_keeps :
      (sel l1 : ℕ) (old : Indices) (c : Choice)
      → Beats lsf mem old c
      → Beats lsf mem old (second_stage mem lsf sel l1 c)
  unfolding second_stage
  second_stage_keeps sel l1 old c b =
      for_range_keeps (Beats lsf mem old) 32 0 _ c
        (λ l2 t _ _ b2.
          for_range_keeps (Beats lsf mem old) 32 0 _ t
            (λ l3 u _ _ b3. weigh_keeps old (record { l0 = sel; l1 = l1; l2 = l2; l3 = l3 }) u b3)
            b2)
        b

  second_stage_reaches :
      (sel l1 : ℕ) (c : Choice) (l2 : ℕ)
      → l2 < 32
      → Second sel l1 l2 (second_stage mem lsf sel l1 c)
  unfolding second_stage
  second_stage_reaches sel l1 c l2 h =
      for_range_reaches (Second sel l1) 32 0 _ c
        (λ k t _ _ l3 l.
          for_range_reaches (λ j u. Beats lsf mem (record { l0 = sel; l1 = l1; l2 = k; l3 = j }) u)
            32 0 _ t (λ j u _ _. weigh_reaches (record { l0 = sel; l1 = l1; l2 = k; l3 = j }) u)
            (λ i j u _ _ b.
              weigh_keeps (record { l0 = sel; l1 = l1; l2 = k; l3 = i })
                (record { l0 = sel; l1 = l1; l2 = k; l3 = j }) u b)
            l3 (omega arith) (omega arith))
        (λ j k t _ _ b l3 l.
          for_range_keeps (Beats lsf mem (record { l0 = sel; l1 = l1; l2 = j; l3 = l3 })) 32 0 _ t
            (λ i u _ _ b3.
              weigh_keeps (record { l0 = sel; l1 = l1; l2 = j; l3 = l3 })
                (record { l0 = sel; l1 = l1; l2 = k; l3 = i }) u b3)
            (b l3 l))
        l2 (omega arith) (omega arith)

  -- The row that the first stage keeps at a place.
  abbrev row_at : ℕ → ℕ → ℕ → ℕ
  row_at top_k sel li =
      (get_or (search_l1_top_k (compute_target_lsf sel mem lsf) top_k) li none_row).row

  abbrev rows_kept : ℕ → ℕ → ℕ
  rows_kept top_k sel = length (search_l1_top_k (compute_target_lsf sel mem lsf) top_k)

  first_stage_keeps :
      (top_k sel : ℕ) (old : Indices) (c : Choice)
      → Beats lsf mem old c
      → Beats lsf mem old (first_stage mem lsf top_k sel c)
  unfolding first_stage
  first_stage_keeps top_k sel old c b =
      for_range_keeps (Beats lsf mem old) (rows_kept top_k sel) 0 _ c
        (λ li t _ _ b1. second_stage_keeps sel (row_at top_k sel li) old t b1) b

  first_stage_reaches :
      (top_k sel : ℕ) (c : Choice) (li l2 l3 : ℕ)
      → li < rows_kept top_k sel
      → l2 < 32
      → l3 < 32
      → Beats lsf mem
          (record { l0 = sel; l1 = row_at top_k sel li; l2 = l2; l3 = l3 })
          (first_stage mem lsf top_k sel c)
  unfolding first_stage
  first_stage_reaches top_k sel c li l2 l3 h k l =
      for_range_reaches
        (λ i t. Beats lsf mem (record { l0 = sel; l1 = row_at top_k sel i; l2 = l2; l3 = l3 }) t)
        (rows_kept top_k sel) 0 _ c
        (λ i t _ _. second_stage_reaches sel (row_at top_k sel i) t l2 k l3 l)
        (λ j i t _ _ b. second_stage_keeps sel (row_at top_k sel i) _ t b) li (omega arith)
        (omega arith)

  wide_reaches :
      (top_k sel li l2 l3 : ℕ)
      → sel < 2
      → li < rows_kept (clamp_top_k top_k) sel
      → l2 < 32
      → l3 < 32
      → Beats lsf mem
          (record { l0 = sel; l1 = row_at (clamp_top_k top_k) sel li; l2 = l2; l3 = l3 })
          (quantize_top_k_choice lsf mem top_k)
  unfolding quantize_top_k_choice
  wide_reaches top_k sel li l2 l3 s h k l =
      let n = clamp_top_k top_k in
      (for_range_reaches
          (λ i t.
            (li l2 l3 : ℕ)
            → li < rows_kept n i
            → l2 < 32
            → l3 < 32
            → Beats lsf mem (record { l0 = i; l1 = row_at n i li; l2 = l2; l3 = l3 }) t)
          2 0 _ no_choice (λ i t _ _. first_stage_reaches n i t)
          (λ j i t _ _ b li l2 l3 h k l. first_stage_keeps n i _ t (b li l2 l3 h k l)) sel
          (omega arith) (omega arith))
        li l2 l3 h k l

  greedy_reaches :
      (sel : ℕ) → sel < 2 → Beats lsf mem (greedy lsf mem sel) (quantize_choice lsf mem)
  unfolding quantize_choice
  greedy_reaches sel h =
      for_range_reaches (λ i t. Beats lsf mem (greedy lsf mem i) t) 2 0 _ no_choice
        (λ i t _ _. weigh_reaches (greedy lsf mem i) t)
        (λ j i t _ _ b. weigh_keeps (greedy lsf mem j) (greedy lsf mem i) t b) sel (omega arith)
        (omega arith)

-- For an LSF vector of 16-bit words and any memory: no pair of predictor, row that the first stage
-- has kept for it and rows of the two second stages costs less than what QuantizeTopK gives,
-- whatever the breadth, neither greedy search costs less than what Quantize gives, and the cost of
-- any set of codewords is not negative, where a cost is that of TupleCostForDiagnostic.
pub quantize_least :
    (lsf : List ℤ) (mem : List (List ℤ)) (other : Indices) (top_k sel li l2 l3 : ℕ)
    → Words lsf
    → sel < 2
    → li < length (search_l1_top_k (compute_target_lsf sel mem lsf) (clamp_top_k top_k))
    → l2 < 32
    → l3 < 32
    → let cost = tuple_cost_for_diagnostic lsf mem in
      let rows = search_l1_top_k (compute_target_lsf sel mem lsf) (clamp_top_k top_k) in
      (cost (quantize_top_k lsf mem top_k).0
        ≤ℤ cost (record { l0 = sel; l1 = (get_or rows li none_row).row; l2 = l2; l3 = l3 }))
      × (cost (quantize lsf mem).0 ≤ℤ cost (greedy lsf mem sel))
      × (pos 0 ≤ℤ cost other)
unfolding quantize quantize_top_k finish
quantize_least lsf mem other top_k sel li l2 l3 w s h k l =
    let wide = wide_reaches lsf mem w top_k sel li l2 l3 s h k l in
    let narrow = greedy_reaches lsf mem w sel s in
    (
      rw (← (quantized_top_k-IsOwn lsf mem top_k).cost) wide.under,
      rw (← (quantized-IsOwn lsf mem).cost) narrow.under,
      cost_real lsf mem other w,
    )
