-- ===== src/Decoder/Frames.antt =====
-- internal/decoder: Decode on whole frames.
use g.Base.{
  ℕ, ◌≤◌, ◌<◌, ◌≡◌, refl, sym, subst, if-cases, arith, Bool, List, ◌++◌, length, take, drop,
  if◌then◌else◌, ltb, length-append, length-drop, take-append_exact, drop-append_exact, ℤ,
}
use g.Lsp
use g.Gain
use g.Lsp.Stability.Sort.{Words}
use g.Lsp.Frames.{Step, Step-IsDecoder, reset-IsDecoder, IsDecoder}
use g.Bitstream
use g.Bitstream.RoundTrip.{unpack_total}
use g.Synth.Memory.{append-Words, zeros-Words}
use g.Decoder.{Outcome, failed, decoded, decode, decode_good, decode_bad, decode_unpacked}
use g.Decoder.State.{Decoder, short_input, short_output, from_unpack, reset, remember_pitch_delay}
use g.Decoder.Valid.{IsValid, IsOutput, decode_subframe-IsOutput, decode_erasure_subframe-IsOutput}

with_lsp-IsValid :
    (d : Decoder) (l : Lsp.Decoder) → IsValid d → IsDecoder l → IsValid (record d { lsp = l })
with_lsp-IsValid d l v w = record {
  lsp = w;
  errors = v.errors;
  memory = v.memory;
  post = v.post;
  history = v.history;
}

with_delay-IsValid : (d : Decoder) (t : ℤ) → IsValid d → IsValid (remember_pitch_delay t d)
unfolding remember_pitch_delay
with_delay-IsValid d t v = record {
  lsp = v.lsp;
  errors = v.errors;
  memory = v.memory;
  post = v.post;
  history = v.history;
}

-- Two subframes make a frame.
joined-IsOutput :
    (first second : List ℤ × Decoder) (e : Decoder)
    → IsOutput 40 first
    → IsOutput 40 second
    → IsValid e
    → IsOutput 80 (first.0 ++ second.0, e)
joined-IsOutput first second e f s v = record {
  count = omega (arith, length-append first.0 second.0, f.count, s.count);
  words = append-Words first.0 second.0 f.words s.words;
  valid = v;
}

decode_bad-IsOutput : (d : Decoder) → IsValid d → IsOutput 80 (decode_bad d)
unfolding decode_bad
decode_bad-IsOutput d v =
    let step = Step-IsDecoder (Step.erasure d.lsp) v.lsp in
    let first =
      decode_erasure_subframe-IsOutput _ _ _ (with_lsp-IsValid d _ v step.0) step.1.words in
    let second = decode_erasure_subframe-IsOutput _ _ _ first.valid step.2.words in
    joined-IsOutput _ _ _ first second (with_delay-IsValid _ _ second.valid)

decode_good-IsOutput :
    (d : Decoder) (f : Bitstream.Frame) → IsValid d → IsOutput 80 (decode_good d f)
unfolding decode_good
decode_good-IsOutput d f v =
    let step = Step-IsDecoder (Step.frame d.lsp _) v.lsp in
    let first = decode_subframe-IsOutput _ _ _ _ _ _ (with_lsp-IsValid d _ v step.0) step.1.words in
    let second = decode_subframe-IsOutput _ _ _ _ _ _ first.valid step.2.words in
    joined-IsOutput _ _ _ first second second.valid

-- The state of NewDecoder.
reset-IsValid : IsValid reset
unfolding Gain.predictor_errors
reset-IsValid = record {
  lsp = reset-IsDecoder;
  errors = omega arith;
  memory = record { ten = refl; words = zeros-Words 10 };
  post = record { input = refl; residual = refl; output = refl };
  history = record { full = refl; words = zeros-Words 153 };
}

-- What Decode gives for a packed frame and an output slice: an error, or the samples in the first
-- 80 places of the slice with the state for the next frame.
unfoldable pub IsOutcome : List ℕ → List ℤ → Outcome → Type 0
IsOutcome packed out (failed short_input) = length packed < 10
IsOutcome packed out (failed short_output) = (10 ≤ length packed) × (length out < 80)
IsOutcome packed out (failed (from_unpack e)) = ⊥
IsOutcome packed out (decoded after e) =
    (10 ≤ length packed)
    × (80 ≤ length out)
    × (length after ≡ length out)
    × Words (take 80 after)
    × (drop 80 after ≡ drop 80 out)
    × IsValid e

written :
    (packed : List ℕ) (out : List ℤ) (r : List ℤ × Decoder)
    → 10 ≤ length packed
    → 80 ≤ length out
    → IsOutput 80 r
    → IsOutcome packed out (decoded (r.0 ++ drop 80 out) r.1)
unfolding IsOutcome
written packed out r h k o = (
  h,
  k,
  omega (arith, length-append r.0 (drop 80 out), length-drop 80 out, o.count),
  subst Words (sym (take-append_exact 80 r.0 (drop 80 out) o.count)) o.words,
  drop-append_exact 80 r.0 (drop 80 out) o.count,
  o.valid,
)

valid_decode-IsOutcome :
    (d : Decoder) (packed : List ℕ) (bad : Bool) (out : List ℤ)
    → IsValid d
    → IsOutcome packed out (decode d packed bad out)
unfolding decode decode_unpacked IsOutcome
valid_decode-IsOutcome d packed bad out v =
    if-cases (IsOutcome packed out) (ltb (length packed) 10) (λ short. ground arith)
      λ ten.
        if-cases (IsOutcome packed out) (ltb (length out) 80)
          (λ short. (ground arith, ground arith))
          λ eighty.
            let (f, e) = unpack_total packed (ground arith) in
            rw e (written packed out _ (ground arith) (ground arith) (frame f))
  where
    frame : (f : Bitstream.Frame) → IsOutput 80 (if bad then decode_bad d else decode_good d f)
    frame f =
        if-cases (IsOutput 80) bad (λ lost. decode_bad-IsOutput d v)
          λ good. decode_good-IsOutput d f v

-- The states that calls of Decode lead to.
pub data Reach (s : Decoder) : Decoder → Type 0 where
  here : Reach s s
  next :
      {d e : Decoder} {after : List ℤ}
      → (packed : List ℕ) (bad : Bool) (out : List ℤ) → Reach s d
      → decode d packed bad out ≡ decoded after e
      → Reach s e

reached : {d : Decoder} → Reach reset d → IsValid d
unfolding IsOutcome
reached here = reset-IsValid
reached (next packed bad out r e) =
    (subst (IsOutcome packed out) e (valid_decode-IsOutcome _ packed bad out (reached r))).5

-- For a decoder that any sequence of successful calls of Decode has led to from Reset, any packed
-- slice, flag and output slice: Decode fails with a short input exactly where the packed slice has
-- fewer than 10 bytes, and otherwise with a short output exactly where the output has fewer than 80
-- places; in all other cases, a wrong parity bit included, it succeeds, puts 80 16-bit words in
-- front of the rest of the output, and leaves a state whose LSP decoder, gain errors, filter
-- memories and past excitation have their lengths and are 16-bit words where the stages read them
-- as such.
pub decode-IsOutcome :
    {d : Decoder}
    → (packed : List ℕ) (bad : Bool) (out : List ℤ) → Reach reset d
    → IsOutcome packed out (decode d packed bad out)
decode-IsOutcome packed bad out r = valid_decode-IsOutcome _ packed bad out (reached r)
