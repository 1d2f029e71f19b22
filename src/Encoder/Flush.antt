-- ===== src/Encoder/Flush.antt =====
-- `Flush` of encoder_streaming.go: the buffered samples and silence as one more frame.
use mathlib.Core.List.{append-nil, append_assoc}
use g.Base.{
  ℕ, zero, suc, ◌+◌, ◌-◌, ◌<◌, ◌≡◌, refl, ◌∙◌, sym, ap, subst, ◌⊎◌, inl, inr, arith, List, [], ◌∷◌,
  ◌++◌, Option, some, none, Option-cases, if◌then◌else◌, ◌==◌, length, take, drop, set, replicate,
  ℤ, pos, length-append, length-take, length-set, take-append_exact, false, length-replicate,
}
use g.Bitstream.{Frame}
use g.Encoder.{Error, Encoder, zero_loop, emit, flush}
use g.Encoder.Buffer.{pending, IsValid, take_all, drop-length}
use g.Encoder.Stream.{stream, stream_short, stream_stop, stream_step}

take-set :
    (buf : List ℤ) (i : ℕ)
    → i < length buf
    → take (suc i) (set buf i (pos 0)) ≡ take i buf ++ pos 0 ∷ []
take-set [] i h = absurd (omega arith)
take-set (x ∷ xs) zero h = refl
take-set (x ∷ xs) (suc i) h = ap (◌∷◌ x) (take-set xs i (omega arith))

zero_loop_lem :
    (n i : ℕ) (buf : List ℤ)
    → i + n ≡ length buf
    → zero_loop n i buf ≡ take i buf ++ replicate n (pos 0)
unfolding zero_loop
zero_loop_lem zero i buf h = sym (append-nil (take i buf) ∙ take_all buf i (omega arith))
zero_loop_lem (suc n) i buf h =
    zero_loop_lem n (i + 1) (set buf i (pos 0)) (omega (arith, length-set buf i (pos 0)))
    ∙ ap (λ m. take m (set buf i (pos 0)) ++ replicate n (pos 0)) {y = suc i} (omega arith)
    ∙ ap (λ zs. zs ++ replicate n (pos 0)) (take-set buf i (omega arith))
    ∙ append_assoc (take i buf) (pos 0 ∷ []) (replicate n (pos 0))

not_empty : (n : ℕ) → (suc n == 0) ≡ false
not_empty n = ground arith

-- What `Flush` has to encode: nothing, or the pending samples with zeros up to a frame.
abbrev pub padded : ℕ → List ℤ → List ℤ
padded len buf = if len == 0 then [] else take len buf ++ replicate (80 - len) (pos 0)

module _ {S T : Type 0} (steps : S → List ℤ → S × (Error ⊎ Frame))
    (sink_write : T → List ℕ → T × Option Error) where
  -- What `Flush` leaves: the stream of what it has to encode, and nothing buffered unless it fails.
  pub record Flushed (e : Encoder S T) (t : T) (err : Option Error) (e' : Encoder S T)
      : Type 0 where
    pub same_core :
        e'.core ≡ (stream steps sink_write e.core t (padded e.stream_buf_len e.stream_buf)).0
    pub same_sink :
        e'.stream_sink
        ≡ some (stream steps sink_write e.core t (padded e.stream_buf_len e.stream_buf)).1
    pub same_error :
        err ≡ (stream steps sink_write e.core t (padded e.stream_buf_len e.stream_buf)).3
    pub kept :
        ((err ≡ none) × (pending e' ≡ []))
        ⊎ ((x : Error) × (err ≡ some x) × (pending e' ≡ pending e))
    pub valid : IsValid e'

  flushed :
      (core : S) (t : T) (buf : List ℤ) (len : ℕ)
      → length buf ≡ 80
      → len < 80
      → let e : Encoder S T = record {
        core = core;
        stream_sink = some t;
        stream_buf = buf;
        stream_buf_len = len;
      } in
        let res = flush steps sink_write e in Flushed e t res.0 res.1
  unfolding flush
  flushed core t buf zero h k =
      let stays = stream_short steps sink_write core t [] (omega arith) in
      record {
        same_core = sym (ap (λ s. s.0) stays);
        same_sink = ap some (sym (ap (λ s. s.1) stays));
        same_error = sym (ap (λ s. s.3) stays);
        kept = inl (refl, refl);
        valid = (h, k);
      }
  flushed core t buf (suc k') h k =
      let len : ℕ = suc k' in
      let p : List ℤ = zero_loop (80 - len) len buf in
      let zeros : List ℤ = replicate (80 - len) (pos 0) in
      let front : length (take len buf) ≡ len = omega (arith, length-take len buf, h, k) in
      let split : p ≡ take len buf ++ zeros =
        zero_loop_lem (80 - len) len buf (omega (arith, h, k)) in
      let full : length p ≡ 80 =
        ap length split
        ∙ omega (
          arith,
          length-append {0} (take len buf) zeros,
          front,
          length-replicate {0} (80 - len) (pos 0),
          k,
        ) in
      let whole : take 80 p ≡ p = take_all p 80 (omega (arith, full)) in
      let rest : drop 80 p ≡ [] = ap (λ n. drop n p) (sym full) ∙ drop-length p in
      let same : padded len buf ≡ p = rw (not_empty k') (sym split) in
      let r : S × T × Option Error = emit steps sink_write core t p in
      elim (Option-cases r.2) [
        | inl e ↦
            let goes : stream steps sink_write core t (padded len buf) ≡ (r.0, r.1, [], none) =
              ap (stream steps sink_write core t) same
              ∙ subst
                  (λ fr.
                    let r = emit steps sink_write core t fr in
                    r.2 ≡ none
                    → stream steps sink_write core t p
                      ≡ stream steps sink_write r.0 r.1 (drop 80 p))
                  whole (stream_step steps sink_write core t p (omega (arith, full))) e
              ∙ ap (stream steps sink_write r.0 r.1) rest
              ∙ stream_short steps sink_write r.0 r.1 [] (omega arith) in
            rw (not_empty k', e)
              (record {
                same_core = sym (ap (λ s. s.0) goes);
                same_sink = ap some (sym (ap (λ s. s.1) goes));
                same_error = sym (ap (λ s. s.3) goes);
                kept = inl (refl, refl);
                valid = (full, omega arith);
              })
        | inr (x, e) ↦
            let stops : stream steps sink_write core t (padded len buf) ≡ (r.0, r.1, p, some x) =
              ap (stream steps sink_write core t) same
              ∙ subst
                  (λ fr.
                    let r = emit steps sink_write core t fr in
                    r.2 ≡ some x → stream steps sink_write core t p ≡ (r.0, r.1, p, some x))
                  whole (stream_stop steps sink_write core t p x (omega (arith, full))) e in
            rw (not_empty k', e)
              (record {
                same_core = sym (ap (λ s. s.0) stops);
                same_sink = ap some (sym (ap (λ s. s.1) stops));
                same_error = sym (ap (λ s. s.3) stops);
                kept = inr (
                  x,
                  refl,
                  ap (take len) split ∙ take-append_exact len (take len buf) zeros front,
                );
                valid = (full, k);
              })
      ]

  -- For a valid encoder with a sink and any search: Flush leaves the codec state, the sink and the
  -- error of the stream of the pending samples padded with zeros to a frame, or of nothing where
  -- none are pending; without an error nothing is pending afterwards, with one the pending samples
  -- are kept, and the encoder stays valid.
  pub flush_lem :
      (e : Encoder S T) (t : T)
      → IsValid e
      → e.stream_sink ≡ some t
      → let res = flush steps sink_write e in Flushed e t res.0 res.1
  flush_lem e t valid h =
      subst
        (λ s.
          let e' : Encoder S T = record e { stream_sink = s } in
          let res = flush steps sink_write e' in Flushed e' t res.0 res.1)
        (sym h) (flushed e.core t e.stream_buf e.stream_buf_len valid.0 valid.1)
