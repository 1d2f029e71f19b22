-- ===== src/Gainquant/Tried.antt =====
-- internal/gainquant/conjugate.go: the entries that the search tries, and the cheapest of their pairs.
use g.Base.{
  ℕ, zero, suc, ◌+◌, ◌-◌, ◌^◌, ◌<◌, ◌≤◌, ◌≡◌, ◌⊎◌, inl, inr, refl, ap, arith, if-cases, List, [],
  ◌∷◌, map, length, take, drop, get_or, All, All-take, All-drop, All-append, All-get_or, ℤ, pos,
  ◌≤ℤ◌, pos_part, neg_part, ltb_ℤ, for_range, Covers, Rounds, for_range-Covers,
}
use g.Gainquant.{gp_sum, gamma_sum}
use g.Gainquant.Search.{
  Correlations, Near, Best, no_best, slot, insert_near, sort_by_dist, near_list, idx_of, cost_of,
  try_pair, try_all,
}

-- Sorting keeps what holds of every entry.
module _ (P : Near → Type 0) where
  All-insert_near : (x : Near) (rows : List Near) → P x → All P rows → All P (insert_near x rows)
  unfolding insert_near
  All-insert_near x rows px h =
      let p = slot (length rows) x.dist rows in
      All-append P (take p rows) (x ∷ drop p rows) (All-take P p rows h) (px, All-drop P p rows h)

  All-sort_by_dist :
      (front rest : List Near) → All P front → All P rest → All P (sort_by_dist front rest)
  unfolding sort_by_dist
  All-sort_by_dist front [] h k = h
  All-sort_by_dist front (x ∷ rest) h k =
      All-sort_by_dist (insert_near x front) rest (All-insert_near x front k.0 h) k.1

-- Entries of a codebook of `n` rows.
abbrev IsBelow : ℕ → Near → Type 0
IsBelow n x = x.idx < n

near_list-IsBelow :
    (n left i : ℕ) (dist : ℕ → ℕ) → i + left ≤ n → All (IsBelow n) (near_list left i dist)
unfolding near_list
near_list-IsBelow n zero i dist h = tt
near_list-IsBelow n (suc left) i dist h =
    (omega arith, near_list-IsBelow n left (i + 1) dist (omega arith))

All-idx_of : (n : ℕ) (xs : List Near) → All (IsBelow n) xs → All (λ k. k < n) (map idx_of xs)
All-idx_of n [] h = tt
All-idx_of n (x ∷ xs) h = (h.0, All-idx_of n xs h.1)

-- The entries that are tried stand in the codebook.
pub candidates :
    (n m k : ℕ) (dist : ℕ → ℕ)
    → 0 < n
    → get_or (map idx_of (take m (sort_by_dist [] (near_list n 0 dist)))) k 0 < n
candidates n m k dist h =
    let sorted = sort_by_dist [] (near_list n 0 dist) in
    All-get_or (λ j. j < n) (map idx_of (take m sorted)) k 0 h
      (All-idx_of n (take m sorted) (
        All-take (IsBelow n) m sorted (
          All-sort_by_dist (IsBelow n) [] (near_list n 0 dist) tt
            (near_list-IsBelow n n 0 dist (omega arith)))))

module _ (s : Correlations) (gpc_pred_q12 : ℤ) (gas gbs : List ℕ) where
  abbrev pub pair_cost : ℕ → ℕ → ℤ
  pair_cost i j = cost_of s gpc_pred_q12 (get_or gas i 0) (get_or gbs j 0)

  -- A pair that has been tried, with its sums and its cost.
  pub record IsPair (best : Best) : Type 0 where
    pub i : ℕ
    pub j : ℕ
    pub hi : i < 4
    pub hj : j < 8
    pub ga : best.ga ≡ get_or gas i 0
    pub gb : best.gb ≡ get_or gbs j 0
    pub gp : best.gp ≡ gp_sum best.ga best.gb
    pub gam : best.gam ≡ gamma_sum best.ga best.gb
    pub cost : best.cost ≡ pair_cost i j

  abbrev IsTried : Best → Type 0
  IsTried best = (best ≡ no_best) ⊎ IsPair best

  abbrev NoMore : ℕ × ℕ → Best → Type 0
  NoMore p best = best.cost ≤ℤ pair_cost p.0 p.1

  try_pair-Covers :
      (i j : ℕ)
      → i < 4
      → j < 8
      → Covers IsTried NoMore (λ p. p ≡ (i, j)) (try_pair s gpc_pred_q12 gas gbs i j)
  unfolding try_pair
  try_pair-Covers i j hi hj = record {
    state = λ b t.
        if-cases IsTried (ltb_ℤ (pair_cost i j) b.cost) {y = b}
          (λ better. inr (record {
            i = i;
            j = j;
            hi = hi;
            hj = hj;
            ga = refl;
            gb = refl;
            gp = refl;
            gam = refl;
            cost = refl;
          }))
          λ worse. t;
    keeps = λ p b t h.
        if-cases (NoMore p) (ltb_ℤ (pair_cost i j) b.cost) (λ better. ground (arith, h)) λ worse. h;
    reaches = λ p b t k. rw k (
        if-cases (NoMore (i, j)) (ltb_ℤ (pair_cost i j) b.cost) {y = b} (λ better. omega arith)
          λ worse. ground arith);
  }

  abbrev AllPairs : ℕ × ℕ → Type 0
  AllPairs = Rounds IsTried NoMore 4 0 λ i. Rounds IsTried NoMore 8 0 λ j p. p ≡ (i, j)

  try_all-Covers :
      Covers IsTried NoMore AllPairs
        (for_range 4 0 λ i. for_range 8 0 (try_pair s gpc_pred_q12 gas gbs i))
  try_all-Covers =
      for_range-Covers IsTried NoMore 4 0 _ _
        λ i _ hi. for_range-Covers IsTried NoMore 8 0 _ _ λ j _ hj. try_pair-Covers i j hi hj

  start : IsTried no_best
  start = inl refl

  -- Where the first pair costs less than the start value, the search takes a pair, and none of the
  -- others costs less.
  pub try_all-IsPair : pair_cost 0 0 ≤ℤ pos (2 ^ 62 - 1) → IsPair (try_all s gpc_pred_q12 gas gbs)
  unfolding try_all
  try_all-IsPair h =
      let first =
        try_all-Covers.reaches (0, 0) no_best start
          (0, omega arith, omega arith, (0, omega arith, omega arith, refl)) in
      elim (try_all-Covers.state no_best start) [
        | inl none_tried ↦ absurd (
            omega (
              arith,
              ap (λ (b : Best). pos_part b.cost) none_tried,
              ap (λ (b : Best). neg_part b.cost) none_tried,
              first,
              h,
            ))
        | inr p ↦ p
      ]

  pub try_all_least :
      (i j : ℕ) → i < 4 → j < 8 → (try_all s gpc_pred_q12 gas gbs).cost ≤ℤ pair_cost i j
  unfolding try_all
  try_all_least i j hi hj =
      try_all-Covers.reaches (i, j) no_best start (i, omega arith, hi, (j, omega arith, hj, refl))
