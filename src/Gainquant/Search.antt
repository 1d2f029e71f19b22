-- ===== src/Gainquant/Search.antt =====
-- internal/gainquant/conjugate.go: the search of the two gain codebooks. The centre in floating point
-- (floatGainOptimumCenter) is left out. Sums and differences of products are int64 numbers, whose
-- wrap is written once around each.
use g.Base.{
  ℕ, zero, suc, ◌+◌, ◌-◌, ◌/◌, ◌^◌, max, min, if◌then◌else◌, ltb, ◌==◌, List, [], ◌∷◌, ◌++◌, length,
  take, drop, get_or, map, ℤ, pos, pos_part, neg_part, ◌+ℤ◌, ◌-ℤ◌, ◌*ℤ◌, ltb_ℤ, asr, wrap, quot,
  for_range,
}
use g.Tables.Gain.{gain_gbk1, gain_gbk2}
use g.Gain.{cell}
use g.Lsp.Stability.{at}
use g.Gainquant.{gp_sum, gamma_sum}

-- bits.Len64, by at most 64 halvings.
unfoldable pub bit_len_loop : ℕ → ℕ → ℕ
bit_len_loop zero n = 0
bit_len_loop (suc fuel) n = let rest = bit_len_loop fuel (n / 2) in if n == 0 then 0 else suc rest

unfoldable pub bit_len_abs : ℤ → ℕ
bit_len_abs v = bit_len_loop 64 (pos_part v + neg_part v)

abbrev pub abs_i64 : ℤ → ℕ
abs_i64 v = pos_part v + neg_part v

-- The correlations A, B, C, D and F.
pub record Correlations : Type 0 where
  pub a : ℤ
  pub b : ℤ
  pub c : ℤ
  pub d : ℤ
  pub f : ℤ

unfoldable pub correlate : List ℤ → List ℤ → List ℤ → ℕ → Correlations → Correlations
correlate x y z i s = record {
  a = s.a +ℤ at y i *ℤ at y i *ℤ pos (2 ^ 24);
  b = s.b +ℤ at z i *ℤ at z i;
  c = s.c +ℤ at y i *ℤ at z i *ℤ pos (2 ^ 12);
  d = s.d +ℤ at x i *ℤ at y i *ℤ pos (2 ^ 24);
  f = s.f +ℤ at x i *ℤ at z i *ℤ pos (2 ^ 12);
}

unfoldable pub gain_search_correlations : List ℤ → List ℤ → List ℤ → Correlations
gain_search_correlations x y z =
    for_range 40 0 (correlate x y z)
      (record { a = pos 0; b = pos 0; c = pos 0; d = pos 0; f = pos 0 })

-- All five shifted to the right.
unfoldable pub shifted_by : ℕ → Correlations → Correlations
shifted_by n s = record {
  a = asr s.a n;
  b = asr s.b n;
  c = asr s.c n;
  d = asr s.d n;
  f = asr s.f n;
}

unfoldable pub largest : Correlations → ℕ
largest s =
    max (max (max (max (abs_i64 s.a) (abs_i64 s.b)) (abs_i64 s.c)) (abs_i64 s.d)) (abs_i64 s.f)

unfoldable pub center_shift : ℕ → Correlations → ℕ
center_shift target_bits s = bit_len_loop 64 (largest s) - target_bits

-- gpOptQ14 and gcOptQ12.
pub record Center : Type 0 where
  pub gp : ℤ
  pub gc : ℤ

unfoldable pub at_least_zero : ℤ → ℤ
at_least_zero v = if ltb_ℤ v (pos 0) then pos 0 else v

unfoldable pub solve : Correlations → Center
solve s =
    let det = wrap 64 (s.a *ℤ s.b -ℤ s.c *ℤ s.c) in
    let num_gp = s.d *ℤ s.b -ℤ s.f *ℤ s.c in
    let num_gc = s.f *ℤ s.a -ℤ s.d *ℤ s.c in
    if ltb_ℤ (pos 0) det
    then record {
      gp = quot (wrap 64 (num_gp *ℤ pos (2 ^ 14))) (pos_part det);
      gc = quot (wrap 64 (num_gc *ℤ pos (2 ^ 12))) (pos_part det);
    }
    else if ltb_ℤ (pos 0) s.a
    then record { gp = quot (wrap 64 (s.d *ℤ pos (2 ^ 14))) (pos_part s.a); gc = pos 0 }
    else if ltb_ℤ (pos 0) s.b
    then record { gp = pos 0; gc = quot (wrap 64 (s.f *ℤ pos (2 ^ 12))) (pos_part s.b) }
    else record { gp = pos 0; gc = pos 0 }

unfoldable pub center_of : ℕ → Correlations → Center
center_of target_bits s =
    let c = solve (shifted_by (center_shift target_bits s) s) in
    record { gp = at_least_zero c.gp; gc = at_least_zero c.gc }

-- An index with its distance.
pub record Near : Type 0 where
  pub idx : ℕ
  pub dist : ℕ

abbrev no_near : Near
no_near = record { idx = 0; dist = 0 }

-- `for j >= 0 && dist[j] > di`, where `j + 1` entries stand in front.
unfoldable pub slot : ℕ → ℕ → List Near → ℕ
slot zero dist rows = zero
slot (suc j) dist rows =
    let rest = slot j dist rows in if ltb dist (get_or rows j no_near).dist then rest else suc j

unfoldable pub insert_near : Near → List Near → List Near
insert_near x rows = let p = slot (length rows) x.dist rows in take p rows ++ x ∷ drop p rows

-- sortByDist8 and sortByDist16: the entries of the rest go one by one into the sorted front.
unfoldable pub sort_by_dist : List Near → List Near → List Near
sort_by_dist front [] = front
sort_by_dist front (x ∷ rest) = sort_by_dist (insert_near x front) rest

-- The entries from `i` on, with `left` to go.
unfoldable pub near_list : ℕ → ℕ → (ℕ → ℕ) → List Near
near_list zero i dist = []
near_list (suc left) i dist = record { idx = i; dist = dist i } ∷ near_list left (i + 1) dist

unfoldable pub ga_dist : ℤ → Center → ℕ → ℕ
ga_dist gpc_pred_q12 c i = abs_i64 (asr (cell gain_gbk1 i 1 *ℤ gpc_pred_q12) 13 -ℤ c.gc)

unfoldable pub gb_dist : Center → ℕ → ℕ
gb_dist c j = abs_i64 (cell gain_gbk2 j 0 -ℤ c.gp)

abbrev pub idx_of : Near → ℕ
idx_of n = n.idx

unfoldable pub ga_cands : ℤ → Center → List ℕ
ga_cands gpc_pred_q12 c =
    map idx_of (take 4 (sort_by_dist [] (near_list 8 0 (ga_dist gpc_pred_q12 c))))

unfoldable pub gb_cands : Center → List ℕ
gb_cands c = map idx_of (take 8 (sort_by_dist [] (near_list 16 0 (gb_dist c))))

unfoldable pub gc_q12 : ℤ → ℕ → ℕ → ℤ
gc_q12 gpc_pred_q12 ga gb = asr (gamma_sum ga gb *ℤ gpc_pred_q12) 13

-- maxGp and maxGc.
pub record Peaks : Type 0 where
  pub gp : ℕ
  pub gc : ℕ

unfoldable pub raise_peaks : ℤ → List ℕ → List ℕ → ℕ → ℕ → Peaks → Peaks
raise_peaks gpc_pred_q12 gas gbs i j m =
    let ga = get_or gas i 0 in
    let gb = get_or gbs j 0 in
    record {
      gp = max m.gp (abs_i64 (gp_sum ga gb));
      gc = max m.gc (abs_i64 (gc_q12 gpc_pred_q12 ga gb));
    }

unfoldable pub peaks : ℤ → List ℕ → List ℕ → Peaks
peaks gpc_pred_q12 gas gbs =
    for_range 4 0 (λ i. for_range 8 0 (raise_peaks gpc_pred_q12 gas gbs i))
      (record { gp = 0; gc = 0 })

unfoldable pub gain_search_term_shift : ℤ → ℕ → ℕ → ℕ
gain_search_term_shift corr factor_bits extra_shift =
    let corr_bits = bit_len_abs corr in
    if corr_bits == 0 then 0 else corr_bits + factor_bits + extra_shift - 58

unfoldable pub gain_search_cost_shift : Correlations → ℤ → List ℕ → List ℕ → ℕ
gain_search_cost_shift s gpc_pred_q12 gas gbs =
    let m = peaks gpc_pred_q12 gas gbs in
    let gp_bits = bit_len_loop 64 (max m.gp 1) in
    let gc_bits = bit_len_loop 64 (max m.gc 1) in
    max
      (max
        (max
          (max (gain_search_term_shift s.a (gp_bits + gp_bits) 0)
            (gain_search_term_shift s.b (gc_bits + gc_bits) 4))
          (gain_search_term_shift s.c (gp_bits + gc_bits) 3))
        (gain_search_term_shift s.d gp_bits 15))
      (gain_search_term_shift s.f gc_bits 17)

-- The cost of a pair, on the shifted correlations.
unfoldable pub cost_of : Correlations → ℤ → ℕ → ℕ → ℤ
cost_of s gpc_pred_q12 ga gb =
    let gp = gp_sum ga gb in
    let gc = gc_q12 gpc_pred_q12 ga gb in
    wrap 64 (
      gp *ℤ gp *ℤ s.a
      +ℤ gc *ℤ gc *ℤ s.b *ℤ pos (2 ^ 4)
      +ℤ pos 2 *ℤ gp *ℤ gc *ℤ s.c *ℤ pos (2 ^ 2)
      -ℤ pos 2 *ℤ gp *ℤ s.d *ℤ pos (2 ^ 14)
      -ℤ pos 2 *ℤ gc *ℤ s.f *ℤ pos (2 ^ 16))

-- bestCost, bestGA, bestGB, bestGp and bestGam.
pub record Best : Type 0 where
  pub cost : ℤ
  pub ga : ℕ
  pub gb : ℕ
  pub gp : ℤ
  pub gam : ℤ

abbrev pub no_best : Best
no_best = record { cost = pos (2 ^ 62); ga = 0; gb = 0; gp = pos 0; gam = pos 0 }

unfoldable pub try_pair : Correlations → ℤ → List ℕ → List ℕ → ℕ → ℕ → Best → Best
try_pair s gpc_pred_q12 gas gbs i j best =
    let ga = get_or gas i 0 in
    let gb = get_or gbs j 0 in
    let cost = cost_of s gpc_pred_q12 ga gb in
    if ltb_ℤ cost best.cost
    then record { cost = cost; ga = ga; gb = gb; gp = gp_sum ga gb; gam = gamma_sum ga gb }
    else best

unfoldable pub try_all : Correlations → ℤ → List ℕ → List ℕ → Best
try_all s gpc_pred_q12 gas gbs =
    for_range 4 0 (λ i. for_range 8 0 (try_pair s gpc_pred_q12 gas gbs i)) no_best

-- The four results.
pub record Chosen : Type 0 where
  pub ga : ℕ
  pub gb : ℕ
  pub gp_q14 : ℤ
  pub gamma_c_q13 : ℤ

unfoldable pub select_from_center : Correlations → ℤ → Center → Chosen
select_from_center s gpc_pred_q12 center =
    let gas = ga_cands gpc_pred_q12 center in
    let gbs = gb_cands center in
    let shifted = shifted_by (gain_search_cost_shift s gpc_pred_q12 gas gbs) s in
    let best = try_all shifted gpc_pred_q12 gas gbs in
    record { ga = best.ga; gb = best.gb; gp_q14 = wrap 16 best.gp; gamma_c_q13 = best.gam }

unfoldable pub search_target_bits : List ℤ → List ℤ → List ℤ → ℤ → ℕ → Chosen
search_target_bits x y z gpc_pred_q12 target_bits =
    let s = gain_search_correlations x y z in
    select_from_center s gpc_pred_q12 (center_of target_bits s)

unfoldable pub search_conjugate : List ℤ → List ℤ → List ℤ → ℤ → Chosen
search_conjugate x y z gpc_pred_q12 = search_target_bits x y z gpc_pred_q12 14

unfoldable pub search_conjugate_preselect_target_bits : List ℤ → List ℤ → List ℤ → ℤ → ℕ → Chosen
search_conjugate_preselect_target_bits x y z gpc_pred_q12 target_bits =
    search_target_bits x y z gpc_pred_q12 (min (if target_bits == 0 then 1 else target_bits) 24)
