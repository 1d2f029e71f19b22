-- ===== src/Lsp/Tests.antt =====
-- internal/lsp on concrete vectors.
use g.Base.{◌≡◌, refl, ◌*ℤ◌, ◌↔◌, arith, List, [], ◌∷◌, ℤ, pos, negsuc, ◌+ℤ◌, ◌≤ℤ◌}
use g.Lsp.{Indices, Decoder, reset, decode, decode_erasure, prev_lsp_of, prev_lsf_of}
use g.Lsp.Stability.{enforce_lsf_stability}
use g.Lsp.Stability.Bounds.{IsStable}
use g.Lsp.Stability.Kept.{enforce_lsf_stability_iff}
use g.Tables.LspCos.{cos_lsp, cos_lsp_slope}
use g.Lsp.Convert.{lsf_to_lsp, lsf_to_lsp_parts, table_coordinate, interpolated, clipped}
use g.Lsp.Convert.Filter.{IsFilter}
use g.Lsp.Frames.{IsDecoder, Reach, Step, All-Words, frames_lem, erasure_lem}

abbrev first_frame : Indices
first_frame = record { l0 = 1; l1 = 105; l2 = 17; l3 = 0 }

abbrev second_frame : Indices
second_frame = record { l0 = 0; l1 = 3; l2 = 30; l3 = 12 }

abbrev warm : Decoder
warm = (decode reset first_frame).1

abbrev crowded : List ℤ
crowded =
    pos 300
    ∷ negsuc 4
    ∷ pos 310
    ∷ pos 9000
    ∷ pos 8000
    ∷ pos 12000
    ∷ pos 25800
    ∷ pos 25700
    ∷ pos 25600
    ∷ pos 30000
    ∷ []

frames_lem_example :
    IsDecoder (decode_erasure warm).1
    × IsFilter (decode_erasure warm).0.0
    × IsFilter (decode_erasure warm).0.1
frames_lem_example =
    frames_lem (Reach.next Reach.here (Step.frame reset first_frame)) (Step.erasure warm)

erasure_lem_example :
    let lost = decode_erasure warm in
    (prev_lsp_of lost.1 ≡ prev_lsp_of warm)
    × (prev_lsf_of lost.1 ≡ prev_lsf_of warm)
    × ((decode_erasure lost.1).0 ≡ lost.0)
    × ((decode_erasure (decode warm second_frame).1).0.1 ≡ (decode warm second_frame).0.1)
erasure_lem_example = erasure_lem warm second_frame

enforce_lsf_stability_iff_example :
    IsStable (enforce_lsf_stability crowded)
    × ((enforce_lsf_stability crowded ≡ crowded) ↔ IsStable crowded)
enforce_lsf_stability_iff_example =
    enforce_lsf_stability_iff crowded refl (All-Words crowded (omega arith))

gap_holds : pos 400 +ℤ pos 321 ≤ℤ pos 721
unfolding ◌+ℤ◌
gap_holds = omega arith

-- Two angles next to one another, with the larger cosine at the larger angle.
lsf_to_lsp_example : (lsf_to_lsp (pos 402) ≡ pos 32727) × (lsf_to_lsp (pos 403) ≡ pos 32729)
unfolding lsf_to_lsp lsf_to_lsp_parts table_coordinate interpolated clipped cos_lsp cos_lsp_slope
    ◌+ℤ◌ ◌*ℤ◌
lsf_to_lsp_example = (refl, refl)
