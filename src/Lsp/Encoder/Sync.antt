-- ===== src/Lsp/Encoder/Sync.antt =====
-- internal/lsp: the encoder's memory of residuals and the decoder's.
use g.Base.{
  ℕ, zero, suc, ◌≤◌, ◌≡◌, refl, ap, ◌∙◌, sym, arith, if-cases, List, [], ◌∷◌, ◌++◌, get_or, length,
  ℤ, pos, min, max, take, drop, length-take, length-append, leb, ltb_ℤ, ◌||◌, for_range_keeps,
  for_range_starts, ◌⊎◌, inl, inr,
}
use g.Lsp.{Indices, Decoder, residual_of, past_residuals_of, prev_lsf_of, reset, decode}
use g.Lsp.Predictor.{shifted}
use g.Lsp.Encoder.{
  weights_lsf, commit_predictor_memory, init_freq_prev, apply_predictor_with_memory,
}
use g.Lsp.Encoder.Search.{weighted_cost}
use g.Lsp.Encoder.Quantize
use g.Lsp.Encoder.Quantize.{
  Choice, no_choice, weigh, greedy, quantize, quantize_choice, quantize_top_k,
  quantize_top_k_choice, Quantized, second_stage, first_stage, final_quantized_lsf_cost, finish,
  clamp_top_k, tuple_cost_for_diagnostic, search_l1_top_k, insert_row, none_row, place,
}

-- The residual and the cost of a choice are those of its codewords.
pub record IsOwn (mem : List (List ℤ)) (lsf : List ℤ) (c : Choice) : Type 0 where
  pub residual : c.residual ≡ residual_of c.idx
  pub cost : c.cost ≡ tuple_cost_for_diagnostic lsf mem c.idx

weigh-IsOwn :
    (mem : List (List ℤ)) (lsf : List ℤ) (idx : Indices) (c : Choice)
    → IsOwn mem lsf c
    → IsOwn mem lsf (weigh mem lsf idx c)
unfolding weigh tuple_cost_for_diagnostic
weigh-IsOwn mem lsf idx c h =
    if-cases (IsOwn mem lsf)
      (ltb_ℤ c.cost (pos 0) || ltb_ℤ (tuple_cost_for_diagnostic lsf mem idx) c.cost)
      (λ better. record { residual = refl; cost = refl }) (λ worse. h)

-- The first candidate is taken whatever it costs.
weigh_first :
    (mem : List (List ℤ)) (lsf : List ℤ) (idx : Indices)
    → IsOwn mem lsf (weigh mem lsf idx no_choice)
unfolding weigh tuple_cost_for_diagnostic
weigh_first mem lsf idx = record { residual = refl; cost = refl }

pub quantized-IsOwn : (lsf : List ℤ) (mem : List (List ℤ)) → IsOwn mem lsf (quantize_choice lsf mem)
unfolding quantize_choice
quantized-IsOwn lsf mem =
    for_range_starts (IsOwn mem lsf) 2 0 (λ sel best. weigh mem lsf (greedy lsf mem sel) best)
      no_choice (omega arith) (weigh_first mem lsf (greedy lsf mem 0))
      (λ k t a b. weigh-IsOwn mem lsf (greedy lsf mem k) t)

-- The first stage of the wide search keeps at least one row.
place-le : (n : ℕ) (sum : ℤ) (rows : List Quantize.Row) → place n sum rows ≤ n
unfolding place
place-le zero sum rows = omega arith
place-le (suc n) sum rows =
    if-cases (λ (p : ℕ). p ≤ suc n) (ltb_ℤ sum (get_or rows n none_row).cost)
      (λ before. omega (arith, place-le n sum rows)) λ behind. omega arith

insert_row_some :
    (top_k : ℕ) (r : Quantize.Row) (rows : List Quantize.Row)
    → 1 ≤ top_k
    → 1 ≤ length (insert_row top_k r rows)
unfolding insert_row
insert_row_some top_k r rows h =
    let p = place (length rows) r.cost rows in
    let le = place-le (length rows) r.cost rows in
    if-cases (λ (l : List Quantize.Row). 1 ≤ length l) (leb top_k p) (λ full. ground arith)
      λ fits. omega (
        arith,
        length-take top_k (take p rows ++ r ∷ drop p rows),
        length-append (take p rows) (r ∷ drop p rows),
      )

pub search_l1_top_k-some :
    (target : List ℤ) (top_k : ℕ) → 1 ≤ top_k → 1 ≤ length (search_l1_top_k target top_k)
unfolding search_l1_top_k
search_l1_top_k-some target top_k h =
    for_range_starts (λ (rows : List Quantize.Row). 1 ≤ length rows) 128 0 _ [] (omega arith)
      (insert_row_some top_k _ [] h) (λ k t a b p. insert_row_some top_k _ t h)

second_stage-IsOwn :
    (mem : List (List ℤ)) (lsf : List ℤ) (sel l1 : ℕ) (c : Choice)
    → (IsOwn mem lsf c ⊎ (c ≡ no_choice))
    → IsOwn mem lsf (second_stage mem lsf sel l1 c)
unfolding second_stage
second_stage-IsOwn mem lsf sel l1 c h =
    for_range_starts (IsOwn mem lsf) 32 0 _ c (omega arith)
      (for_range_starts (IsOwn mem lsf) 32 0 _ c (omega arith) (started h)
        (λ k t a b. weigh-IsOwn mem lsf _ t))
      (λ k t a b p. for_range_keeps (IsOwn mem lsf) 32 0 _ t (λ m u d e. weigh-IsOwn mem lsf _ u) p)
  where
    started :
        (IsOwn mem lsf c ⊎ (c ≡ no_choice))
        → IsOwn mem lsf (weigh mem lsf (record { l0 = sel; l1 = l1; l2 = 0; l3 = 0 }) c)
    started (inl own) = weigh-IsOwn mem lsf _ c own
    started (inr fresh) = rw fresh (weigh_first mem lsf _)

first_stage-IsOwn :
    (mem : List (List ℤ)) (lsf : List ℤ) (top_k sel : ℕ) (c : Choice)
    → 1 ≤ top_k
    → (IsOwn mem lsf c ⊎ (c ≡ no_choice))
    → IsOwn mem lsf (first_stage mem lsf top_k sel c)
unfolding first_stage
first_stage-IsOwn mem lsf top_k sel c h start =
    for_range_starts (IsOwn mem lsf) _ 0 _ c (search_l1_top_k-some _ top_k h)
      (second_stage-IsOwn mem lsf sel _ c start)
      (λ k t a b p. second_stage-IsOwn mem lsf sel _ t (inl p))

pub quantized_top_k-IsOwn :
    (lsf : List ℤ) (mem : List (List ℤ)) (top_k : ℕ)
    → IsOwn mem lsf (quantize_top_k_choice lsf mem top_k)
unfolding quantize_top_k_choice clamp_top_k
quantized_top_k-IsOwn lsf mem top_k =
    let k = min (max top_k 1) 16 in
    let some : 1 ≤ k = omega arith in
    for_range_starts (IsOwn mem lsf) 2 0 (λ sel b. first_stage mem lsf k sel b) no_choice
      (omega arith) (first_stage-IsOwn mem lsf k 0 no_choice some (inr refl))
      (λ j t a b p. first_stage-IsOwn mem lsf k j t some (inl p))

-- The quantizers: Quantize, and QuantizeTopK with its breadth.
pub data Search : Type 0 where
  narrow : Search
  wide : ℕ → Search

unfoldable pub quantize_by : Search → List ℤ → List (List ℤ) → Quantized
quantize_by narrow lsf mem = quantize lsf mem
quantize_by (wide top_k) lsf mem = quantize_top_k lsf mem top_k

-- Frame after frame, with the codewords in order.
pub quantize_all : Search → List (List ℤ) → List (List ℤ) → List Indices × List (List ℤ)
quantize_all how [] mem = ([], mem)
quantize_all how (lsf ∷ frames) mem =
    let q = quantize_by how lsf mem in
    let rest = quantize_all how frames q.1 in (q.0 ∷ rest.0, rest.1)

pub decode_all : Decoder → List Indices → Decoder
decode_all d [] = d
decode_all d (idx ∷ rest) = decode_all (decode d idx).1 rest

quantize_by_lem :
    (how : Search) (lsf : List ℤ) (mem : List (List ℤ))
    → (quantize_by how lsf mem).1 ≡ shifted (residual_of (quantize_by how lsf mem).0) mem
unfolding quantize_by quantize quantize_top_k finish commit_predictor_memory
quantize_by_lem narrow lsf mem =
    ap (λ (r : List ℤ). shifted r mem) (quantized-IsOwn lsf mem).residual
quantize_by_lem (wide top_k) lsf mem =
    ap (λ (r : List ℤ). shifted r mem) (quantized_top_k-IsOwn lsf mem top_k).residual

decode_past :
    (d : Decoder) (idx : Indices)
    → past_residuals_of (decode d idx).1 ≡ shifted (residual_of idx) (past_residuals_of d)
unfolding decode past_residuals_of
decode_past d idx = refl

in_step :
    (how : Search) (frames : List (List ℤ)) (d : Decoder) (mem : List (List ℤ))
    → past_residuals_of d ≡ mem
    → past_residuals_of (decode_all d (quantize_all how frames mem).0)
      ≡ (quantize_all how frames mem).1
unfolding quantize_all decode_all
in_step how [] d mem h = h
in_step how (lsf ∷ frames) d mem h =
    let q = quantize_by how lsf mem in
    in_step how frames (decode d q.0).1 q.1 (
      decode_past d q.0
      ∙ ap (λ (m : List (List ℤ)). shifted (residual_of q.0) m) h
      ∙ sym (quantize_by_lem how lsf mem))

-- For either quantizer, any LSF vectors of successive frames and any state of the decoder: if the
-- encoder starts with the residuals that the decoder remembers, as it does with a new decoder, then
-- after decoding the codewords of all the frames the decoder remembers just what the encoder does;
-- and the cost that the quantizers give a set of codewords is that of the LSF vector that the
-- decoder makes of it.
pub in_step_lem :
    (how : Search) (frames : List (List ℤ)) (d : Decoder) (lsf : List ℤ) (idx : Indices)
    → let mem = past_residuals_of d in
      (past_residuals_of (decode_all d (quantize_all how frames mem).0)
        ≡ (quantize_all how frames mem).1)
      × (past_residuals_of reset ≡ init_freq_prev)
      × (tuple_cost_for_diagnostic lsf mem idx
          ≡ weighted_cost 10 0 lsf (weights_lsf lsf) (prev_lsf_of (decode d idx).1))
unfolding tuple_cost_for_diagnostic final_quantized_lsf_cost apply_predictor_with_memory decode
    prev_lsf_of past_residuals_of
in_step_lem how frames d lsf idx = (in_step how frames d (past_residuals_of d) refl, refl, refl)
