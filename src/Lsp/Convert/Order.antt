-- ===== src/Lsp/Convert/Order.antt =====
-- internal/lsp/lsf_lsp.go: how the cosine turns the order of angles around.
use g.Base.{
  ℕ, suc, ◌+◌, ◌-◌, ◌*◌, ◌/◌, ◌%◌, ◌^◌, ◌<◌, ◌≤◌, ◌≡◌, refl, ap, ◌∙◌, inl, inr, Bool-cases, arith,
  ℤ, pos, negsuc, leb, ltb, if◌then◌else◌, ◌+ℤ◌, ◌*ℤ◌, ◌≤ℤ◌, int_laws,
}
use g.Fixed.Saturate.Laws.{IsWord16}
use g.Tables.LspCos.{cos_lsp, cos_lsp_slope}
use g.Lsp.Convert.{clipped, interpolated, table_coordinate, lsf_to_lsp_parts, lsf_to_lsp}
use g.Lsp.Convert.Cells.{base, value, cell_le, base_eq, next_le, base_le, value_lt}

-- The ends of the table.
ends : (base 0 ≡ pos 32767) × (base 63 ≡ negsuc 32728) × (interpolated 63 221 ≡ negsuc 32763)
unfolding cos_lsp cos_lsp_slope interpolated ◌+ℤ◌ ◌*ℤ◌
ends = (refl, refl, refl)

value_upper : (q : ℕ) → q < 16384 → value q ≤ℤ pos 32767
value_upper q h = grind (
  int_laws,
  ends.0,
  base_le (q / 256) 0 (omega arith),
  base_eq (q / 256),
  cell_le (q / 256) 0 (q % 256) (omega arith) (omega arith),
)

value_lower : (q : ℕ) → q < 16350 → negsuc 32766 ≤ℤ value q
value_lower q h = elim (Bool-cases (leb 63 (q / 256))) [
  | inl last ↦
      let e : q / 256 ≡ 63 = ground arith in
      rw e (grind (int_laws, ends.2, cell_le 63 (q % 256) 221 (omega arith) (omega arith)))
  | inr early ↦
      let upper = (next_le (q / 256) (ground arith)).0 in
      let lower = base_le (62 - q / 256) (suc (q / 256)) (ground arith) in
      let e : suc (q / 256) + (62 - q / 256) ≡ 63 = ground arith in
      grind (
        int_laws,
        ends.1,
        upper,
        lower,
        e,
        cell_le (q / 256) (q % 256) 255 (omega arith) (omega arith),
      )
]

clipped_same : (x : ℤ) → x ≤ℤ pos 32767 → negsuc 32766 ≤ℤ x → clipped x ≡ x
unfolding clipped
clipped_same x h l = ground arith

pub clipped-IsWord16 : (x : ℤ) → IsWord16 (clipped x)
unfolding clipped
clipped-IsWord16 (pos n) = ground arith
clipped-IsWord16 (negsuc n) = ground arith

-- The conversion of an angle up to the edge.
coordinate : (w : ℕ) → w ≤ 25682 → table_coordinate (pos w) ≡ w * 20861 / 2 ^ 15
unfolding table_coordinate
coordinate w h = ground arith

lsf_to_lsp-value : (w : ℕ) → w ≤ 25682 → lsf_to_lsp (pos w) ≡ value (w * 20861 / 2 ^ 15)
unfolding lsf_to_lsp lsf_to_lsp_parts
lsf_to_lsp-value w h =
    ap (λ q. clipped (value q)) (coordinate w h)
    ∙ clipped_same _ (value_upper (w * 20861 / 2 ^ 15) (omega arith))
        (value_lower (w * 20861 / 2 ^ 15) (omega arith))

pub lsf_to_lsp-IsWord16 : (w : ℤ) → IsWord16 (lsf_to_lsp w)
unfolding lsf_to_lsp lsf_to_lsp_parts
lsf_to_lsp-IsWord16 w =
    clipped-IsWord16 (interpolated (table_coordinate w / 256) (table_coordinate w % 256))

-- Angles that are apart by 129 or more, up to the last one.
last_coordinate :
    (w : ℕ)
    → w ≤ 25736
    → table_coordinate (pos w)
      ≡ (if ltb 16383 (w * 20861 / 2 ^ 15) then 16383 else w * 20861 / 2 ^ 15)
unfolding table_coordinate
last_coordinate w h = ground arith

clipped_lt :
    (x y : ℤ)
    → y +ℤ pos 3 ≤ℤ x
    → x ≤ℤ pos 32767
    → negsuc 32766 ≤ℤ x
    → clipped y +ℤ pos 1 ≤ℤ clipped x
unfolding clipped ◌+ℤ◌
clipped_lt x y h k l = ground arith

pub lsf_to_lsp_fall :
    (a b : ℕ) → a + 129 ≤ b → b ≤ 25736 → lsf_to_lsp (pos b) +ℤ pos 1 ≤ℤ lsf_to_lsp (pos a)
unfolding lsf_to_lsp lsf_to_lsp_parts
lsf_to_lsp_fall a b h l =
    let qa = table_coordinate (pos a) in
    let qb = table_coordinate (pos b) in
    let near = last_coordinate a (omega arith) in
    let far = last_coordinate b l in
    let apart : qa + 66 ≤ qb = ground (arith, near, far) in
    let fits : qb < 16384 = ground (arith, far) in
    clipped_lt (value qa) (value qb) (value_lt qa qb apart fits) (value_upper qa (omega arith))
      (value_lower qa (omega arith))

-- For two angles from 0 to 25682 that are at least 321 apart, lsfToLSP of the larger is at least
-- three below lsfToLSP of the smaller.
pub lsf_to_lsp_lem :
    (a b : ℤ)
    → pos 0 ≤ℤ a
    → a +ℤ pos 321 ≤ℤ b
    → b ≤ℤ pos 25682
    → lsf_to_lsp b +ℤ pos 3 ≤ℤ lsf_to_lsp a
unfolding ◌+ℤ◌
lsf_to_lsp_lem (negsuc a) b h l m = absurd (omega arith)
lsf_to_lsp_lem (pos a) (negsuc b) h l m = absurd (ground arith)
lsf_to_lsp_lem (pos a) (pos b) h l m =
    rw (lsf_to_lsp-value a (ground arith), lsf_to_lsp-value b (ground arith))
      (value_lt _ _ (ground arith) (ground arith))
