-- ===== src/Lsp.antt =====
-- internal/lsp, the decoder's side: the LSF vector of a frame (codebook.go, predictor.go), its
-- stability rules (stability.go), the conversions to filter coefficients (lsf_lsp.go,
-- interpolate.go, lsp_lp.go) and the decoder's state (decoder.go, types.go). A vector of ten
-- coordinates is a list, and the FIFO of the predictor is a list of four vectors.
mod Tests
pub mod Stability
pub mod Predictor
pub mod Convert
pub mod Residual
pub mod Frames
pub mod Encoder
use g.Base.{ℕ, Bool, true, false, List, [], ◌∷◌, if◌then◌else◌, replicate, ℤ, pos, neg}
use mathlib.Core.List.{map}
use g.Lsp.Stability.{lsf_rearr_j1, lsf_rearr_j2, rearrange_adjacent, enforce_lsf_stability}
use g.Lsp.Predictor.{combine_residual, predicted, shifted, inverse_predictor_residual}
use g.Lsp.Convert.{lsf_to_lsp, interpolate_lsp_sf1, interpolate_lsp_sf2, lsp_to_lp}

pub record Indices : Type 0 where
  pub l0 : ℕ
  pub l1 : ℕ
  pub l2 : ℕ
  pub l3 : ℕ

pub record Decoder : Type 0 where
  pub past_residuals : List (List ℤ)
  pub prev_lsp : List ℤ
  pub prev_lsf : List ℤ
  pub last_selector : ℕ
  pub last_lsf_after_predictor : List ℤ
  pub last_lsf_after_stability : List ℤ
  pub last_curr_lsp : List ℤ
  pub initialized : Bool

abbrev pub zero_vector : List ℤ
zero_vector = replicate 10 (pos 0)

abbrev pub initial_prev_lsp : List ℤ
initial_prev_lsp =
    pos 30000
    ∷ pos 26000
    ∷ pos 21000
    ∷ pos 15000
    ∷ pos 8000
    ∷ pos 0
    ∷ neg 8000
    ∷ neg 15000
    ∷ neg 21000
    ∷ neg 26000
    ∷ []

abbrev pub initial_past_residual : List ℤ
initial_past_residual =
    pos 2339
    ∷ pos 4679
    ∷ pos 7018
    ∷ pos 9358
    ∷ pos 11698
    ∷ pos 14037
    ∷ pos 16377
    ∷ pos 18717
    ∷ pos 21056
    ∷ pos 23396
    ∷ []

abbrev pub initial_fifo : List (List ℤ)
initial_fifo = replicate 4 initial_past_residual

-- The zero value.
abbrev pub reset : Decoder
reset = record {
  past_residuals = replicate 4 zero_vector;
  prev_lsp = zero_vector;
  prev_lsf = zero_vector;
  last_selector = 0;
  last_lsf_after_predictor = zero_vector;
  last_lsf_after_stability = zero_vector;
  last_curr_lsp = zero_vector;
  initialized = false;
}

unfoldable pub prev_lsp_of : Decoder → List ℤ
prev_lsp_of d = if d.initialized then d.prev_lsp else initial_prev_lsp

unfoldable pub prev_lsf_of : Decoder → List ℤ
prev_lsf_of d = if d.initialized then d.prev_lsf else initial_past_residual

unfoldable pub past_residuals_of : Decoder → List (List ℤ)
past_residuals_of d = if d.initialized then d.past_residuals else initial_fifo

-- The LP coefficients of the two subframes.
abbrev pub Filters : Type 0
Filters = List ℤ × List ℤ

unfoldable pub residual_of : Indices → List ℤ
residual_of idx =
    rearrange_adjacent (rearrange_adjacent (combine_residual idx.l1 idx.l2 idx.l3) lsf_rearr_j1)
      lsf_rearr_j2

unfoldable pub decode : Decoder → Indices → Filters × Decoder
decode d idx =
    let past = if d.initialized then d.past_residuals else initial_fifo in
    let residual = residual_of idx in
    let predicted_lsf = predicted idx.l0 residual past in
    let lsf = enforce_lsf_stability predicted_lsf in
    let lsp = map lsf_to_lsp lsf in
    let prev = if d.initialized then d.prev_lsp else initial_prev_lsp in
    (
      (lsp_to_lp (interpolate_lsp_sf1 prev lsp), lsp_to_lp (interpolate_lsp_sf2 prev lsp)),
      record {
        past_residuals = shifted residual past;
        prev_lsp = lsp;
        prev_lsf = lsf;
        last_selector = idx.l0;
        last_lsf_after_predictor = predicted_lsf;
        last_lsf_after_stability = lsf;
        last_curr_lsp = lsp;
        initialized = true;
      },
    )

-- The start of `DecodeErasure`.
unfoldable pub started : Decoder → Decoder
started d = if d.initialized then d else record d {
  past_residuals = initial_fifo;
  prev_lsp = initial_prev_lsp;
  prev_lsf = initial_past_residual;
  initialized = true;
}

unfoldable pub advance_erasure_predictor : Decoder → List ℤ → Decoder
advance_erasure_predictor d lsf = record d {
  past_residuals =
      shifted (inverse_predictor_residual d.last_selector lsf d.past_residuals) d.past_residuals;
}

unfoldable pub decode_erasure : Decoder → Filters × Decoder
unfolding started advance_erasure_predictor
decode_erasure d =
    let s = started d in
    let marked : Decoder = record s {
      last_lsf_after_predictor = s.prev_lsf;
      last_lsf_after_stability = s.prev_lsf;
      last_curr_lsp = s.prev_lsp;
    } in
    (
      (
        lsp_to_lp (interpolate_lsp_sf1 s.prev_lsp s.prev_lsp),
        lsp_to_lp (interpolate_lsp_sf2 s.prev_lsp s.prev_lsp),
      ),
      advance_erasure_predictor marked s.prev_lsf,
    )
