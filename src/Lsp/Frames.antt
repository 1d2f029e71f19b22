-- ===== src/Lsp/Frames.antt =====
-- internal/lsp/decoder.go: what holds between frames, good or lost.
use mathlib.Core.List.{map}
use g.Base.{
  ℕ, zero, suc, ◌+◌, ◌-◌, ◌<◌, ◌≡◌, refl, ap, ◌∙◌, true, inl, inr, Bool-cases, Bool, arith, List,
  [], ◌∷◌, length, All, ℤ, pos, ◌+ℤ◌, ◌≤ℤ◌, leb_ℤ, all_below, at_all_below, int_laws, if◌then◌else◌,
}
use g.Fixed.Saturate.Laws.{IsWord16}
use g.Lsp.Stability.{at, enforce_lsf_stability}
use g.Lsp.Stability.Sort.{Words}
use g.Lsp.Stability.Bounds.{IsStable, enforce_lsf_stability-IsStable}
use g.Lsp.Predictor.{predicted, shifted}
use g.Lsp.Predictor.Words.{length-predicted, length-inverse, predicted-Words, inverse-Words}
use g.Lsp.Convert.{lsf_to_lsp, interpolate_lsp_sf2}
use g.Lsp.Convert.Order.{lsf_to_lsp-IsWord16, lsf_to_lsp_lem}
use g.Lsp.Convert.Filter.{IsFilter, lsp_to_lp-IsFilter}
use g.Lsp.Residual.{IsVector, residual-IsVector}
use g.Lsp.{
  Indices, Decoder, Filters, reset, decode, decode_erasure, started, advance_erasure_predictor,
  residual_of, prev_lsp_of, prev_lsf_of, past_residuals_of, initial_fifo, initial_prev_lsp,
  initial_past_residual,
}

-- Ten words, each at least three below the one before.
pub record IsFalling (lsp : List ℤ) : Type 0 where
  pub vector : IsVector lsp
  pub falls : (k : ℕ) → k < 9 → at lsp (suc k) +ℤ pos 3 ≤ℤ at lsp k

-- Four vectors of words.
abbrev pub IsFifo : List (List ℤ) → Type 0
IsFifo past = (length past ≡ 4) × All IsVector past

-- What a decoder's state satisfies, seen through its accessors.
pub record IsDecoder (d : Decoder) : Type 0 where
  pub fifo : IsFifo (past_residuals_of d)
  pub stable : IsStable (prev_lsf_of d)
  pub falling : IsFalling (prev_lsp_of d)

length-map : (f : ℤ → ℤ) (xs : List ℤ) → length (map f xs) ≡ length xs
length-map f [] = refl
length-map f (x ∷ xs) = ap suc (length-map f xs)

at-map : (f : ℤ → ℤ) (xs : List ℤ) (k : ℕ) → k < length xs → at (map f xs) k ≡ f (at xs k)
at-map f [] k h = absurd (omega arith)
at-map f (x ∷ xs) zero h = refl
at-map f (x ∷ xs) (suc k) h = at-map f xs k (omega arith)

map-Words : (f : ℤ → ℤ) (xs : List ℤ) → ((x : ℤ) → IsWord16 (f x)) → Words (map f xs)
map-Words f [] h k = omega arith
map-Words f (x ∷ xs) h zero = h x
map-Words f (x ∷ xs) h (suc k) = map-Words f xs h k

-- The coordinates of a stable vector are not negative, and none is above the edge.
pub within : (lsf : List ℤ) → IsStable lsf → (left k : ℕ) → k + left ≡ 9 → at lsf k ≤ℤ pos 25682
within lsf s zero k e = let nine : k ≡ 9 = omega arith in rw nine s.last
within lsf s (suc left) k e =
    grind (int_laws, s.gaps k (omega arith), within lsf s left (suc k) (omega arith))

pub positive : (lsf : List ℤ) → IsStable lsf → (k : ℕ) → k < 10 → pos 0 ≤ℤ at lsf k
positive lsf s zero h = grind (int_laws, s.first)
positive lsf s (suc k) h = grind (int_laws, s.gaps k (omega arith), positive lsf s k (omega arith))

pub IsStable-IsFalling : (lsf : List ℤ) → IsStable lsf → IsFalling (map lsf_to_lsp lsf)
IsStable-IsFalling lsf s = record {
  vector = record {
    ten = length-map lsf_to_lsp lsf ∙ s.ten;
    words = map-Words lsf_to_lsp lsf lsf_to_lsp-IsWord16;
  };
  falls = λ k h.
      rw
        (
          at-map lsf_to_lsp lsf k (omega (arith, s.ten)),
          at-map lsf_to_lsp lsf (suc k) (omega (arith, s.ten)),
        )
        (lsf_to_lsp_lem (at lsf k) (at lsf (suc k)) (positive lsf s k (omega arith)) (s.gaps k h)
          (within lsf s (8 - k) (suc k) (omega arith)));
}

-- A step is a good frame or a lost one.
pub data Step : Decoder → Filters → Decoder → Type 0 where
  frame : (d : Decoder) (idx : Indices) → Step d (decode d idx).0 (decode d idx).1
  erasure : (d : Decoder) → Step d (decode_erasure d).0 (decode_erasure d).1

pub data Reach (s : Decoder) : Decoder → Type 0 where
  here : Reach s s
  next : {d e : Decoder} {out : Filters} → Reach s d → Step d out e → Reach s e

shifted-IsFifo :
    (residual : List ℤ) (past : List (List ℤ))
    → IsVector residual
    → IsFifo past
    → IsFifo (shifted residual past)
unfolding shifted
shifted-IsFifo residual (a ∷ b ∷ c ∷ past) v f = (refl, (v, (f.1.0, (f.1.1.0, (f.1.1.1.0, tt)))))
shifted-IsFifo residual _ v f = absurd (omega arith)

decode-IsDecoder : (d : Decoder) (idx : Indices) → IsDecoder d → IsDecoder (decode d idx).1
unfolding decode past_residuals_of prev_lsf_of prev_lsp_of
decode-IsDecoder d idx v =
    let past = if d.initialized then d.past_residuals else initial_fifo in
    let lsf = predicted idx.l0 (residual_of idx) past in
    let stable =
      enforce_lsf_stability-IsStable lsf (length-predicted idx.l0 (residual_of idx) past)
        (predicted-Words idx.l0 (residual_of idx) past) in
    record {
      fifo = shifted-IsFifo (residual_of idx) past (residual-IsVector idx) v.fifo;
      stable = stable;
      falling = IsStable-IsFalling (enforce_lsf_stability lsf) stable;
    }

-- The start of a concealed frame leaves what the accessors give.
started_lem :
    (d : Decoder)
    → ((started d).past_residuals ≡ past_residuals_of d)
      × ((started d).prev_lsf ≡ prev_lsf_of d)
      × ((started d).prev_lsp ≡ prev_lsp_of d)
      × ((started d).initialized ≡ true)
unfolding started past_residuals_of prev_lsf_of prev_lsp_of
started_lem d = elim (Bool-cases d.initialized) [
  | inl warm ↦ rw warm (refl, refl, refl, refl)
  | inr cold ↦ rw cold (refl, refl, refl, refl)
]

decode_erasure-IsDecoder : (d : Decoder) → IsDecoder d → IsDecoder (decode_erasure d).1
unfolding decode_erasure advance_erasure_predictor past_residuals_of prev_lsf_of prev_lsp_of
decode_erasure-IsDecoder d v =
    let s = started_lem d in
    rw s.3 (record {
      fifo =
          shifted-IsFifo _ _ (record { ten = length-inverse _ _ _; words = inverse-Words _ _ _ })
            (rw s.0 v.fifo);
      stable = rw s.1 v.stable;
      falling = rw s.2 v.falling;
    })

pub All-Words : (xs : List ℤ) → All IsWord16 xs → Words xs
All-Words [] h k = omega arith
All-Words (x ∷ xs) h zero = h.0
All-Words (x ∷ xs) h (suc k) = All-Words xs h.1 k

-- The start-up values, tested.
gap_test : ℕ → Bool
gap_test k = leb_ℤ (at initial_past_residual k +ℤ pos 321) (at initial_past_residual (suc k))

fall_test : ℕ → Bool
fall_test k = leb_ℤ (at initial_prev_lsp (suc k) +ℤ pos 3) (at initial_prev_lsp k)

start_tests : (all_below 9 gap_test ≡ true) × (all_below 9 fall_test ≡ true)
unfolding all_below gap_test fall_test ◌+ℤ◌
start_tests = (refl, refl)

initial-IsVector : IsVector initial_past_residual × IsVector initial_prev_lsp
initial-IsVector = (
  record { ten = refl; words = All-Words initial_past_residual (omega arith) },
  record { ten = refl; words = All-Words initial_prev_lsp (omega arith) },
)

pub reset-IsDecoder : IsDecoder reset
unfolding past_residuals_of prev_lsf_of prev_lsp_of gap_test fall_test
reset-IsDecoder = record {
  fifo = let v = initial-IsVector.0 in (refl, (v, (v, (v, (v, tt)))));
  stable = record {
    ten = refl;
    first = omega arith;
    gaps = λ k h. ground (arith, at_all_below 9 gap_test start_tests.0 k h);
    last = omega arith;
  };
  falling = record {
    vector = initial-IsVector.1;
    falls = λ k h. ground (arith, at_all_below 9 fall_test start_tests.1 k h);
  };
}

pub Step-IsDecoder :
    {d e : Decoder} {out : Filters}
    → Step d out e
    → IsDecoder d
    → IsDecoder e × IsFilter out.0 × IsFilter out.1
unfolding decode decode_erasure
Step-IsDecoder (frame d idx) v =
    (decode-IsDecoder d idx v, lsp_to_lp-IsFilter _, lsp_to_lp-IsFilter _)
Step-IsDecoder (erasure d) v =
    (decode_erasure-IsDecoder d v, lsp_to_lp-IsFilter _, lsp_to_lp-IsFilter _)

reached : {d : Decoder} → Reach reset d → IsDecoder d
reached here = reset-IsDecoder
reached (next r s) = (Step-IsDecoder s (reached r)).0

-- From Reset through any sequence of good and lost frames, each next frame, good or lost, gives two
-- filters of eleven 16-bit words of which the first is 4096, and leaves a state in which the FIFO
-- holds four vectors of ten 16-bit words, the previous LSF vector satisfies the stability rules,
-- and the previous LSP vector is ten 16-bit words that fall by at least three from one to the next.
pub frames_lem :
    {d e : Decoder} {out : Filters}
    → Reach reset d
    → Step d out e
    → IsDecoder e × IsFilter out.0 × IsFilter out.1
frames_lem r s = Step-IsDecoder s (reached r)

-- For any state of the LSP decoder and any frame: DecodeErasure leaves the previous LSP and LSF
-- vectors that the accessors give as they are, a second one in a row gives the same filters, and
-- the one after a good frame repeats the filter of that frame's second subframe as its own second.
pub erasure_lem :
    (d : Decoder) (idx : Indices)
    → let lost = decode_erasure d in
      (prev_lsp_of lost.1 ≡ prev_lsp_of d)
      × (prev_lsf_of lost.1 ≡ prev_lsf_of d)
      × ((decode_erasure lost.1).0 ≡ lost.0)
      × ((decode_erasure (decode d idx).1).0.1 ≡ (decode d idx).0.1)
unfolding decode_erasure advance_erasure_predictor started decode prev_lsp_of prev_lsf_of
    interpolate_lsp_sf2
erasure_lem d idx = elim (Bool-cases d.initialized) [
  | inl warm ↦ rw warm (refl, refl, refl, refl)
  | inr cold ↦ rw cold (refl, refl, refl, refl)
]
