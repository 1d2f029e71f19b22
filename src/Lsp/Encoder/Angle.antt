-- ===== src/Lsp/Encoder/Angle.antt =====
-- internal/lsp/lsp_lsf.go: the angle of a cosine, by bisection and a scan around.
use g.Base.{
  ℕ, zero, suc, ◌+◌, ◌-◌, ◌/◌, true, false, ◌&&◌, ◌||◌, ◌==◌, List, map, ltb, if◌then◌else◌, get_or,
  ℤ, pos, pos_part, neg_part, ◌-ℤ◌, ltb_ℤ, leb_ℤ, for_range,
}
use g.Tables.LspCos.{cos_lsp}
use g.Lsp.Convert.{lsf_to_lsp}

abbrev pub lsp_pi_q13 : ℕ
lsp_pi_q13 = 25736

unfoldable pub abs_int32 : ℤ → ℕ
abs_int32 x = pos_part x + neg_part x

unfoldable pub distance : ℤ → ℕ → ℕ
distance q omega_q13 = abs_int32 (q -ℤ lsf_to_lsp (pos omega_q13))

-- The ends of the bisection.
unfoldable pub bisect_loop : ℕ → ℤ → ℕ → ℕ → ℕ × ℕ
bisect_loop zero q lo hi = (lo, hi)
bisect_loop (suc fuel) q lo hi =
    let mid = (lo + hi) / 2 in
    let above = ltb_ℤ q (lsf_to_lsp (pos mid)) in
    elim (ltb 1 (hi - lo)) [
      | true ↦ bisect_loop fuel q (if above then mid else lo) (if above then hi else mid)
      | false ↦ (lo, hi)
    ]

pub record Near : Type 0 where
  pub omega_q13 : ℕ
  pub diff : ℕ

unfoldable pub scan_round : ℤ → ℕ → Near → Near
scan_round q omega_q13 best =
    let diff = distance q omega_q13 in
    let tie_break =
      (leb_ℤ (pos 0) q && ltb best.omega_q13 omega_q13)
      || (ltb_ℤ q (pos 0) && ltb omega_q13 best.omega_q13) in
    if ltb diff best.diff || ((diff == best.diff) && tie_break)
    then record { omega_q13 = omega_q13; diff = diff }
    else best

unfoldable pub scan : ℤ → ℕ → ℕ → Near
scan q lo hi =
    let end = if ltb lsp_pi_q13 (hi + 128) then lsp_pi_q13 else hi + 128 in
    for_range (end + 1 - (lo - 128)) (lo - 128) (scan_round q)
      (record { omega_q13 = lo; diff = distance q lo })

-- The bisection has fuel for the bits of the range.
unfoldable pub lsp_to_lsf_of : ℤ → ℕ
lsp_to_lsf_of q =
    let ends = bisect_loop 15 q 0 lsp_pi_q13 in
    if leb_ℤ (get_or cos_lsp 0 (pos 0)) q
    then 0
    else if leb_ℤ q (get_or cos_lsp 64 (pos 0))
    then lsp_pi_q13
    else (scan q ends.0 ends.1).omega_q13

-- LSPToLSF.
unfoldable pub lsp_to_lsf : List ℤ → List ℤ
lsp_to_lsf q = map (λ x. pos (lsp_to_lsf_of x)) q
