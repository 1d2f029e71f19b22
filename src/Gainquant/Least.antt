-- ===== src/Gainquant/Least.antt =====
-- internal/gainquant/conjugate.go: what the search of the codebooks chooses.
use g.Base.{
  ℕ, ◌*◌, ◌^◌, ◌<◌, ◌≤◌, ◌≡◌, ap, ◌∙◌, wrap, arith, List, get_or, ℤ, pos, max, ◌+ℤ◌, ◌-ℤ◌, ◌*ℤ◌,
  ◌≤ℤ◌,
}
use g.Fixed.Saturate.{saturate}
use g.Fixed.Saturate.Laws.{IsWord32}
use g.Lsp.Stability.Sort.{Words}
use g.Gain.{decode_vq}
use g.Gainquant.{gp_sum, gamma_sum, pack_gains, reconstruct_wide}
use g.Gainquant.Sync.{decode_vq-pack_gains}
use g.Gainquant.Search.{
  Correlations, Center, Best, ga_dist, gb_dist, ga_cands, gb_cands, cost_of, try_all,
  select_from_center, search_target_bits, gain_search_correlations, center_of,
  gain_search_cost_shift, gc_q12, shifted_by, bit_len_loop, peaks, abs_i64,
}
use g.Gainquant.Bounds.{IsSums, terms_size, bit_len_above, bit_len_least}
use g.Gainquant.Peaks.{peaks_lem, pair-IsGain, correlations-IsSums}
use g.Gainquant.Tried.{candidates, IsPair, try_all-IsPair, try_all_least}

-- The entries that the search tries for a center, and the correlations on which it compares them.
module _ (s : Correlations) (gpc_pred_q12 : ℤ) (center : Center) where
  abbrev pub gas : List ℕ
  gas = ga_cands gpc_pred_q12 center

  abbrev pub gbs : List ℕ
  gbs = gb_cands center

  abbrev pub shift : ℕ
  shift = gain_search_cost_shift s gpc_pred_q12 gas gbs

  ga-lt : (i : ℕ) → get_or gas i 0 < 8
  unfolding ga_cands
  ga-lt i = candidates 8 4 i (ga_dist gpc_pred_q12 center) (omega arith)

  gb-lt : (j : ℕ) → get_or gbs j 0 < 16
  unfolding gb_cands
  gb-lt j = candidates 16 8 j (gb_dist center) (omega arith)

  -- The cost of a pair without a wrap.
  abbrev pub exact_cost : ℕ → ℕ → ℤ
  exact_cost ga gb =
      let gp = gp_sum ga gb in
      let gc = gc_q12 gpc_pred_q12 ga gb in
      let t = shifted_by shift s in
      gp *ℤ gp *ℤ t.a
      +ℤ gc *ℤ gc *ℤ t.b *ℤ pos (2 ^ 4)
      +ℤ pos 2 *ℤ gp *ℤ gc *ℤ t.c *ℤ pos (2 ^ 2)
      -ℤ pos 2 *ℤ gp *ℤ t.d *ℤ pos (2 ^ 14)
      -ℤ pos 2 *ℤ gc *ℤ t.f *ℤ pos (2 ^ 16)

  module _ (k : IsSums s) (w : IsWord32 gpc_pred_q12) where
    cost-exact :
        (i j : ℕ)
        → i < 4
        → j < 8
        → let ga = get_or gas i 0 in
          let gb = get_or gbs j 0 in
          (cost_of (shifted_by shift s) gpc_pred_q12 ga gb ≡ exact_cost ga gb)
          × (abs_i64 (exact_cost ga gb) ≤ 5 * 2 ^ 58)
    unfolding cost_of shifted_by gain_search_cost_shift
    cost-exact i j hi hj =
        let ga = get_or gas i 0 in
        let gb = get_or gbs j 0 in
        let m = peaks gpc_pred_q12 gas gbs in
        let gp_bits = bit_len_loop 64 (max m.gp 1) in
        let gc_bits = bit_len_loop 64 (max m.gc 1) in
        let p = peaks_lem gpc_pred_q12 gas gbs w ga-lt gb-lt i j hi hj in
        let gp_up = bit_len_above 64 (max m.gp 1) (omega (arith, p.0)) in
        let gc_up = bit_len_above 64 (max m.gc 1) (omega (arith, p.1)) in
        let gp_low = bit_len_least 64 (max m.gp 1) 15 (omega (arith, p.0)) in
        let gc_low = bit_len_least 64 (max m.gc 1) 35 (omega (arith, p.1)) in
        terms_size s (gp_sum ga gb) (gc_q12 gpc_pred_q12 ga gb) gp_bits gc_bits shift k
          (omega (arith, p.2, gp_up)) (omega (arith, p.3, gc_up)) gp_low gc_low (omega arith)
          (omega arith) (omega arith) (omega arith) (omega arith)

  module _ (k : IsSums s) (w : IsWord32 gpc_pred_q12) where
    abbrev best_pair : Best
    best_pair = try_all (shifted_by shift s) gpc_pred_q12 gas gbs

    best-IsPair : IsPair (shifted_by shift s) gpc_pred_q12 gas gbs best_pair
    best-IsPair =
        let first = cost-exact k w 0 0 (omega arith) (omega arith) in
        try_all-IsPair (shifted_by shift s) gpc_pred_q12 gas gbs
          (rw first.0 (ground (arith, first.1)))

    -- What the search puts out: entries of the codebooks with their sums, and no pair is cheaper.
    pub select-least :
        (i j : ℕ)
        → i < 4
        → j < 8
        → let r = select_from_center s gpc_pred_q12 center in
          (r.ga < 8)
          × (r.gb < 16)
          × (r.gp_q14 ≡ saturate (gp_sum r.ga r.gb))
          × (r.gamma_c_q13 ≡ gamma_sum r.ga r.gb)
          × (exact_cost r.ga r.gb ≤ℤ exact_cost (get_or gas i 0) (get_or gbs j 0))
    unfolding select_from_center
    select-least i j hi hj =
        let p = best-IsPair in
        let ga : best_pair.ga < 8 = rw p.ga (ga-lt p.i) in
        let gb : best_pair.gb < 16 = rw p.gb (gb-lt p.j) in
        let gain = pair-IsGain best_pair.ga best_pair.gb ga gb in
        let own = cost-exact k w p.i p.j p.hi p.hj in
        let other = cost-exact k w i j hi hj in
        let least = try_all_least (shifted_by shift s) gpc_pred_q12 gas gbs i j hi hj in
        (
          ga,
          gb,
          ap (λ v. wrap 16 v) p.gp ∙ gain.word,
          p.gam,
          rw (p.ga, p.gb, ← own.0, ← other.0, ← p.cost) least,
        )

-- For a target, an adaptive and a fixed vector of 16-bit words, a predicted gain of 32 bits and any
-- number of target bits: the search of searchConjugatePreselectTargetBits gives entries of the two
-- codebooks whose codewords the decoder's decodeVQ turns into the pitch gain and the correction
-- that the search gives, and none of the four times eight preselected pairs has a smaller cost than
-- they, where costs are the exact sums of the five terms on the shifted correlations.
pub search_target_bits_lem :
    (x y z : List ℤ) (gpc_pred_q12 : ℤ) (target_bits i j : ℕ)
    → Words x
    → Words y
    → Words z
    → IsWord32 gpc_pred_q12
    → i < 4
    → j < 8
    → let s = gain_search_correlations x y z in
      let center = center_of target_bits s in
      let r = search_target_bits x y z gpc_pred_q12 target_bits in
      let cost = exact_cost s gpc_pred_q12 center in
      (r.ga < 8)
      × (r.gb < 16)
      × (decode_vq (pack_gains r.ga r.gb) ≡ (r.gp_q14, r.gamma_c_q13))
      × (cost r.ga r.gb
          ≤ℤ cost (get_or (ga_cands gpc_pred_q12 center) i 0) (get_or (gb_cands center) j 0))
unfolding search_target_bits reconstruct_wide
search_target_bits_lem x y z gpc_pred_q12 target_bits i j wx wy wz w hi hj =
    let s = gain_search_correlations x y z in
    let r =
      select-least s gpc_pred_q12 (center_of target_bits s) (correlations-IsSums x y z wx wy wz) w i
        j hi hj in
    let chosen = search_target_bits x y z gpc_pred_q12 target_bits in
    (r.0, r.1, rw (r.2, r.3) (decode_vq-pack_gains chosen.ga chosen.gb r.0 r.1), r.4)
