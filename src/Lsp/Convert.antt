-- ===== src/Lsp/Convert.antt =====
-- internal/lsp/lsf_lsp.go, interpolate.go and lsp_lp.go: from LSF over LSP to the coefficients of
-- the filter.
pub mod Cells
pub mod Order
pub mod Filter
use g.Base.{
  ℕ, zero, suc, ◌+◌, ◌-◌, ◌*◌, ◌/◌, ◌%◌, ◌^◌, List, [], ◌∷◌, ltb, if◌then◌else◌, ◌==◌, get_or, set,
  ℤ, pos, negsuc, ◌+ℤ◌, ◌-ℤ◌, ◌*ℤ◌, ltb_ℤ, asr, wrap, neg, pos_part, replicate,
}
use g.Tables.LspCos.{cos_lsp, cos_lsp_slope}

abbrev pub lsp_lsf_to_cos_scale_q15 : ℕ
lsp_lsf_to_cos_scale_q15 = 20861

abbrev pub lsp_num_cells : ℕ
lsp_num_cells = 64

abbrev pub lsp_frac_bits : ℕ
lsp_frac_bits = 8

-- The cut to 16 bits that both conversions end with.
unfoldable pub clipped : ℤ → ℤ
clipped x =
    if ltb_ℤ (pos 32767) x then pos 32767 else if ltb_ℤ x (negsuc 32767) then negsuc 32767 else x

-- The coordinate in the table.
unfoldable pub table_coordinate : ℤ → ℕ
table_coordinate omega_q13 =
    let w = if ltb_ℤ omega_q13 (pos 0) then 0 else pos_part omega_q13 in
    let q = w * lsp_lsf_to_cos_scale_q15 / 2 ^ 15 in
    let max_q = lsp_num_cells * 2 ^ lsp_frac_bits - 1 in if ltb max_q q then max_q else q

-- The parts of the conversion: the cell, the fraction, the cell's base and slope, the result.
pub record Parts : Type 0 where
  pub index : ℕ
  pub frac : ℕ
  pub base : ℤ
  pub slope : ℤ
  pub out : ℤ

-- The value in cell `idx` at the fraction `f`.
unfoldable pub interpolated : ℕ → ℕ → ℤ
interpolated idx f =
    get_or cos_lsp idx (pos 0) +ℤ asr (get_or cos_lsp_slope idx (pos 0) *ℤ pos f) 12

unfoldable pub lsf_to_lsp_parts : ℤ → Parts
lsf_to_lsp_parts omega_q13 =
    let q = table_coordinate omega_q13 in
    let idx = q / 2 ^ lsp_frac_bits in
    let f = q % 2 ^ lsp_frac_bits in
    let interp = interpolated idx f in
    record {
      index = idx;
      frac = f;
      base = get_or cos_lsp idx (pos 0);
      slope = get_or cos_lsp_slope idx (pos 0);
      out = clipped interp;
    }

unfoldable pub lsf_to_lsp : ℤ → ℤ
lsf_to_lsp omega_q13 = (lsf_to_lsp_parts omega_q13).out

unfoldable pub interpolate_lsp_sf1 : List ℤ → List ℤ → List ℤ
interpolate_lsp_sf1 [] curr = []
interpolate_lsp_sf1 (p ∷ prev) [] = []
interpolate_lsp_sf1 (p ∷ prev) (c ∷ curr) =
    wrap 16 (asr p 1 +ℤ asr c 1) ∷ interpolate_lsp_sf1 prev curr

unfoldable pub interpolate_lsp_sf2 : List ℤ → List ℤ → List ℤ
interpolate_lsp_sf2 prev curr = curr

-- int64 products that fit.
unfoldable pub lsp_poly_product_q24 : ℤ → ℤ → ℤ
lsp_poly_product_q24 q coeff = wrap 64 (asr (wrap 64 (q *ℤ coeff)) 16 *ℤ pos (2 ^ 2))

abbrev pub coeff : List ℤ → ℕ → ℤ
coeff f i = get_or f i (pos 0)

-- The loop over j from `j` down to 1, which reads `old` and writes `next`.
unfoldable pub poly_row : ℕ → ℕ → ℤ → List ℤ → List ℤ → List ℤ
poly_row step zero q old next = next
poly_row step (suc j) q old next =
    let plain = coeff old j in
    let twice = if suc j == step then wrap 64 (plain *ℤ pos 2) else plain in
    poly_row step j q old (
      set next (suc j + 1)
        (wrap 64 (coeff old (suc j + 1) -ℤ lsp_poly_product_q24 q (coeff old (suc j)) +ℤ twice)))

unfoldable pub poly_step : ℕ → ℤ → List ℤ → List ℤ
poly_step step q old =
    let next0 = set (replicate 6 (pos 0)) 0 (coeff old 0) in
    let next1 = set next0 1 (wrap 64 (coeff old 1 -ℤ lsp_poly_product_q24 q (coeff old 0))) in
    poly_row step step q old next1

-- The loop over the steps from `step` on.
unfoldable pub poly_loop : ℕ → ℕ → List ℤ → ℕ → List ℤ → List ℤ
poly_loop zero step lsp offset f = f
poly_loop (suc left) step lsp offset f =
    poly_loop left (step + 1) lsp offset (poly_step step (coeff lsp (2 * step + offset)) f)

unfoldable pub build_lsp_poly_q24 : List ℤ → ℕ → List ℤ
build_lsp_poly_q24 lsp offset =
    let f0 = pos (2 ^ 24) in
    let start =
      set (set (replicate 6 (pos 0)) 0 f0) 1
        (wrap 64 (pos 0 -ℤ lsp_poly_product_q24 (coeff lsp offset) f0)) in
    poly_loop 4 1 lsp offset start

-- The loop of the transforms by 1 + z^-1 and 1 - z^-1, from `i` down to 1.
unfoldable pub transform_sum : ℕ → List ℤ → List ℤ
transform_sum zero f = f
transform_sum (suc i) f = transform_sum i (set f (suc i) (wrap 64 (coeff f (suc i) +ℤ coeff f i)))

unfoldable pub transform_difference : ℕ → List ℤ → List ℤ
transform_difference zero f = f
transform_difference (suc i) f =
    transform_difference i (set f (suc i) (wrap 64 (coeff f (suc i) -ℤ coeff f i)))

-- What `setA` stores.
unfoldable pub rounded_q12 : ℤ → ℤ
rounded_q12 sum_q28 = clipped (asr (wrap 64 (sum_q28 +ℤ pos (2 ^ 15))) 16)

-- The loop that fills both ends of the coefficients, from `i` on.
unfoldable pub fill_loop : ℕ → ℕ → List ℤ → List ℤ → List ℤ → List ℤ
fill_loop zero i f1 f2 a = a
fill_loop (suc left) i f1 f2 a =
    let low = set a i (rounded_q12 (wrap 64 ((coeff f1 i +ℤ coeff f2 i) *ℤ pos (2 ^ 3)))) in
    fill_loop left (i + 1) f1 f2
      (set low (11 - i) (rounded_q12 (wrap 64 ((coeff f1 i -ℤ coeff f2 i) *ℤ pos (2 ^ 3)))))

unfoldable pub lsp_to_lp : List ℤ → List ℤ
lsp_to_lp lsp =
    let f1 = transform_sum 5 (build_lsp_poly_q24 lsp 0) in
    let f2 = transform_difference 5 (build_lsp_poly_q24 lsp 1) in
    fill_loop 5 1 f1 f2 (set (replicate 11 (pos 0)) 0 (rounded_q12 (pos (2 ^ 28))))
