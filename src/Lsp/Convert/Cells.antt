-- ===== src/Lsp/Convert/Cells.antt =====
-- internal/lsp/lsf_lsp.go: how the interpolated cosine falls from cell to cell.
use native.Mathlib.Nat.{mul-le-mul}
use native.Mathlib.Decide.{ℕ_discrete}
use g.Base.{
  Bool, ℕ, zero, suc, ◌+◌, ◌-◌, ◌*◌, ◌/◌, ◌%◌, ◌<◌, ◌≤◌, ◌≡◌, refl, ◌&&◌, true, inl, inr,
  Bool-cases, arith, get_or, ℤ, pos, negsuc, leb, pos_part, neg_part, ◌+ℤ◌, ◌*ℤ◌, ◌≤ℤ◌, leb_ℤ, asr,
  mul_negsuc_pos, all_below, at_all_below, int_laws,
}
use g.Tables.LspCos.{cos_lsp, cos_lsp_slope}
use g.Lsp.Convert.{interpolated}

abbrev pub base : ℕ → ℤ
base idx = get_or cos_lsp idx (pos 0)

-- The slope of a cell is negative, and its size is at least 631.
slope_test : ℕ → Bool
slope_test idx = leb_ℤ (get_or cos_lsp_slope idx (pos 0)) (negsuc 630)

slope_tests : all_below 64 slope_test ≡ true
unfolding all_below slope_test cos_lsp_slope
slope_tests = refl

-- The bases fall, and the end of a cell lies at most two below the base of the next one.
next_test : ℕ → Bool
next_test idx =
    leb_ℤ (base (suc idx)) (interpolated idx 255 +ℤ pos 2)
    && leb_ℤ (base (suc idx) +ℤ pos 5) (base idx)

next_tests : all_below 63 next_test ≡ true
unfolding all_below next_test interpolated ◌+ℤ◌ ◌*ℤ◌ cos_lsp cos_lsp_slope
next_tests = refl

-- What a cell adds falls with the fraction, and falls by at least one over seven steps.
fall : ℕ → ℕ → ℤ
fall n f = asr (negsuc n *ℤ pos f) 12

fall_parts :
    (n f : ℕ) → (pos_part (fall n f) ≡ 0) × (neg_part (fall n f) ≡ (suc n * f + 4095) / 4096)
unfolding fall ◌*ℤ◌
fall_parts n zero = ground arith
fall_parts n (suc f) = rw (mul_negsuc_pos n (suc f) (omega arith)) (ground arith)

fall_le : (n f f' : ℕ) → f ≤ f' → fall n f' ≤ℤ fall n f
fall_le n f f' h =
    let same : suc n ≤ suc n = omega arith in
    let products : suc n * f ≤ suc n * f' = mul-le-mul same h in
    ground (arith, fall_parts n f, fall_parts n f', products)

fall_lt : (n f f' : ℕ) → 630 ≤ n → f + 33 ≤ f' → fall n f' +ℤ pos 5 ≤ℤ fall n f
unfolding ◌+ℤ◌
fall_lt n f f' h l =
    let step : 631 * 33 ≤ suc n * 33 = omega arith in
    let same : suc n ≤ suc n = omega arith in
    let products : suc n * (f + 33) ≤ suc n * f' = mul-le-mul same l in
    let split : suc n * (f + 33) ≡ suc n * f + suc n * 33 = grind arith in
    ground (arith, fall_parts n f, fall_parts n f', products, step, split)

negsuc_of : (x : ℤ) → leb_ℤ x (negsuc 630) ≡ true → (n : ℕ) × (x ≡ negsuc n) × (630 ≤ n)
negsuc_of (pos n) h = absurd (ground arith)
negsuc_of (negsuc n) h = (n, refl, ground arith)

slope_of :
    (idx : ℕ) → idx < 64 → (n : ℕ) × (get_or cos_lsp_slope idx (pos 0) ≡ negsuc n) × (630 ≤ n)
unfolding slope_test
slope_of idx h = negsuc_of _ (at_all_below 64 slope_test slope_tests idx h)

pub cell_le : (idx f f' : ℕ) → idx < 64 → f ≤ f' → interpolated idx f' ≤ℤ interpolated idx f
unfolding interpolated fall
cell_le idx f f' h l =
    let slope = slope_of idx h in rw slope.1 (grind (int_laws, fall_le slope.0 f f' l))

cell_lt :
    (idx f f' : ℕ) → idx < 64 → f + 33 ≤ f' → interpolated idx f' +ℤ pos 5 ≤ℤ interpolated idx f
unfolding interpolated fall
cell_lt idx f f' h l =
    let slope = slope_of idx h in rw slope.1 (grind (int_laws, fall_lt slope.0 f f' slope.2 l))

plus_zero : (b x : ℤ) → b +ℤ asr (x *ℤ pos 0) 12 ≡ b
unfolding ◌+ℤ◌ ◌*ℤ◌
plus_zero b x = ground arith

pub base_eq : (idx : ℕ) → interpolated idx 0 ≡ base idx
unfolding interpolated
base_eq idx = plus_zero _ _

pub next_le :
    (idx : ℕ)
    → idx < 63
    → (base (suc idx) ≤ℤ interpolated idx 255 +ℤ pos 2) × (base (suc idx) +ℤ pos 5 ≤ℤ base idx)
unfolding next_test
next_le idx h = (
  ground (arith, at_all_below 63 next_test next_tests idx h),
  ground (arith, at_all_below 63 next_test next_tests idx h),
)

pub base_le : (d idx : ℕ) → idx + d < 64 → base (idx + d) ≤ℤ base idx
base_le zero idx h = grind arith
base_le (suc d) idx h =
    grind (int_laws, base_le d (suc idx) (omega arith), (next_le idx (omega arith)).1)

-- The value at a coordinate of the table.
abbrev pub value : ℕ → ℤ
value q = interpolated (q / 256) (q % 256)

-- One cell, two neighbours, and cells further apart.
same_cell :
    (idx f f' : ℕ) → idx < 64 → f + 66 ≤ f' → interpolated idx f' +ℤ pos 3 ≤ℤ interpolated idx f
same_cell idx f f' h l = grind (int_laws, cell_lt idx f f' h (omega arith))

neighbours :
    (idx f f' : ℕ)
    → suc idx < 64
    → f < 256
    → f + 66 ≤ f' + 256
    → interpolated (suc idx) f' +ℤ pos 3 ≤ℤ interpolated idx f
neighbours idx f f' h l m =
    let upper = (next_le idx (omega arith)).0 in
    let lower = base_eq (suc idx) in
    elim (Bool-cases (leb 33 f')) [
      | inl large ↦ grind (
        int_laws,
        upper,
        lower,
        cell_lt (suc idx) 0 f' h (ground arith),
        cell_le idx f 255 (omega arith) (omega arith),
      )
      | inr small ↦ grind (
        int_laws,
        upper,
        lower,
        cell_le (suc idx) 0 f' h (omega arith),
        cell_lt idx f 255 (omega arith) (ground arith),
      )
    ]

far_cells :
    (idx d f f' : ℕ)
    → idx + 2 + d < 64
    → f < 256
    → interpolated (idx + 2 + d) f' +ℤ pos 3 ≤ℤ interpolated idx f
far_cells idx d f f' h l =
    let first = next_le idx (omega arith) in
    let second = next_le (suc idx) (omega arith) in
    grind (
      int_laws,
      first,
      second.1,
      base_eq (idx + 2 + d),
      cell_le (idx + 2 + d) 0 f' h (omega arith),
      base_le d (idx + 2) (omega arith),
      cell_le idx f 255 (omega arith) (omega arith),
    )

cells_lt :
    (idx f idx' f' : ℕ)
    → idx' < 64
    → f < 256
    → f' < 256
    → 256 * idx + f + 66 ≤ 256 * idx' + f'
    → interpolated idx' f' +ℤ pos 3 ≤ℤ interpolated idx f
cells_lt idx f idx' f' h l l' m = elim (ℕ_discrete idx' idx) [
  | yes e ↦ rw e (same_cell idx f f' (omega arith) (omega arith))
  | no ne ↦ elim (ℕ_discrete idx' (suc idx)) [
    | yes e ↦ rw e (neighbours idx f f' (omega arith) l (omega arith))
    | no far ↦
        let e : idx' ≡ idx + 2 + (idx' - idx - 2) = omega arith in
        rw e (far_cells idx (idx' - idx - 2) f f' (omega arith) l)
  ]
]

pub value_lt : (q q' : ℕ) → q + 66 ≤ q' → q' < 16384 → value q' +ℤ pos 3 ≤ℤ value q
value_lt q q' h l =
    cells_lt (q / 256) (q % 256) (q' / 256) (q' % 256) (omega arith) (omega arith) (omega arith)
      (omega arith)
