-- ===== src/Encoder/Chunks.antt =====
-- `Write` of encoder_streaming.go against one stream of samples.
use mathlib.Core.List.{append_assoc, append-nil}
use g.Base.{
  [], ℕ, zero, suc, ◌+◌, ◌-◌, ◌<◌, ◌≤◌, ◌≡◌, refl, ◌∙◌, sym, ap, ap₂, subst, ◌⊎◌, inl, inr,
  Bool-cases, Option-cases, arith, List, ◌++◌, Option, some, none, ltb, length, take, drop, ℤ,
  length-append, length-take, length-drop,
}
use g.Bitstream.{Frame}
use g.Encoder.{Error, Encoder, copy_at, emit, write}
use g.Encoder.Buffer.{
  IsValid, pending, drop-add, drop-length, positive, copy_at_front, length-copy_at, filled_length,
  filled_front, filled_lem, others_lem,
}
use g.Encoder.Stream.{
  unlike, stream-append, stream, Streamed, stream_short, stream_stop, stream_step, aligned-Streamed,
}

module _ {S T : Type 0} (steps : S → List ℤ → S × (Error ⊎ Frame))
    (sink_write : T → List ℕ → T × Option Error) where
  write-Streamed :
      (core : S) (t : T) (buf : List ℤ) (len : ℕ) (xs : List ℤ)
      → length buf ≡ 80
      → len < 80
      → (n : ℕ) × (err : Option Error) × (e : Encoder S T) × (write steps sink_write
            (record { core = core; stream_sink = some t; stream_buf = buf; stream_buf_len = len })
            xs
          ≡ (n, err, e))
        × Streamed steps sink_write core t (take len buf ++ xs) xs n err e
  unfolding write
  write-Streamed core t buf zero xs h k =
      let (n, err, e, same, st) = aligned-Streamed steps sink_write core t buf xs 0 h in
      (n, err, e, same ∙ ap (λ m. (m, err, e)) (omega arith), st)
  write-Streamed core t buf (suc k') xs h k =
      let len : ℕ = suc k' in
      let need : ℕ = 80 - len in
      let front : List ℤ = take len buf in
      let all : List ℤ = front ++ xs in
      let size : length all ≡ len + length xs =
        omega (arith, length-append {0} front xs, length-take len buf) in
      elim (Bool-cases (ltb (length xs) need)) [
        | inl few ↦
            let fits : len + length xs < 80 = ground (arith, few) in
            let stays = stream_short steps sink_write core t all (omega (arith, size, fits)) in
            (
              length xs,
              none,
              record {
                core = core;
                stream_sink = some t;
                stream_buf = copy_at buf len xs;
                stream_buf_len = len + length xs;
              },
              rw (positive k', few) refl,
              record {
                same_core = sym (ap (λ s. s.0) stays);
                same_sink = ap some (sym (ap (λ s. s.1) stays));
                kept =
                    ap₂ ◌++◌ (copy_at_front buf xs len (omega (arith, h, fits))) (drop-length xs)
                    ∙ append-nil all
                    ∙ sym (ap (λ s. s.2) stays);
                same_error = sym (ap (λ s. s.3) stays);
                taken = omega arith;
                all_taken = inl refl;
                valid = (length-copy_at buf xs len (omega (arith, h, fits)) ∙ h, fits);
              },
            )
        | inr enough ↦
            let room : need ≤ length xs = ground (arith, enough) in
            let filled = copy_at buf len (take need xs) in
            let r : S × T × Option Error = emit steps sink_write core t filled in
            let whole : filled ≡ take 80 all = filled_lem buf xs len h k room in
            let others : drop 80 all ≡ drop need xs = others_lem buf xs len h k room in
            let full : length filled ≡ 80 = filled_length buf xs len h k room in
            let many : 80 ≤ length all = omega (arith, size, room, k) in
            elim (Option-cases r.2) [
              | inl e ↦
                  let (n, err, out, same, st) =
                    aligned-Streamed steps sink_write r.0 r.1 filled (drop need xs) need full in
                  let goes : stream steps sink_write core t all
                      ≡ stream steps sink_write r.0 r.1 (drop need xs) =
                    subst
                      (λ fr.
                        let r = emit steps sink_write core t fr in
                        r.2 ≡ none
                        → stream steps sink_write core t all
                          ≡ stream steps sink_write r.0 r.1 (drop 80 all))
                      (sym whole) (stream_step steps sink_write core t all many) e
                    ∙ ap (stream steps sink_write r.0 r.1) others in
                  (
                    need + n,
                    err,
                    out,
                    rw (positive k', enough, e) same,
                    record {
                      same_core = st.same_core ∙ sym (ap (λ s. s.0) goes);
                      same_sink = st.same_sink ∙ ap some (sym (ap (λ s. s.1) goes));
                      kept =
                          ap (λ ys. pending out ++ ys) (drop-add need n xs)
                          ∙ st.kept
                          ∙ sym (ap (λ s. s.2) goes);
                      same_error = st.same_error ∙ sym (ap (λ s. s.3) goes);
                      taken = omega (arith, st.taken, length-drop need xs, room);
                      all_taken = elim st.all_taken [
                        | inl every ↦ inl (omega (arith, every, length-drop need xs, room))
                        | inr failed ↦ inr failed
                      ];
                      valid = st.valid;
                    },
                  )
              | inr (x, e) ↦
                  let stops : stream steps sink_write core t all ≡ (r.0, r.1, all, some x) =
                    subst
                      (λ fr.
                        let r = emit steps sink_write core t fr in
                        r.2 ≡ some x → stream steps sink_write core t all ≡ (r.0, r.1, all, some x))
                      (sym whole) (stream_stop steps sink_write core t all x many) e in
                  (
                    0,
                    some x,
                    record {
                      core = r.0;
                      stream_sink = some r.1;
                      stream_buf = filled;
                      stream_buf_len = len;
                    },
                    rw (positive k', enough, e) refl,
                    record {
                      same_core = sym (ap (λ s. s.0) stops);
                      same_sink = ap some (sym (ap (λ s. s.1) stops));
                      kept =
                          ap (λ ys. ys ++ xs) (filled_front buf xs len h k room)
                          ∙ sym (ap (λ s. s.2) stops);
                      same_error = sym (ap (λ s. s.3) stops);
                      taken = omega arith;
                      all_taken = inr (x, refl);
                      valid = (full, k);
                    },
                  )
            ]
      ]

  streamed :
      (e : Encoder S T) (t : T) (xs : List ℤ)
      → IsValid e
      → e.stream_sink ≡ some t
      → (n : ℕ) × (err : Option Error) × (e' : Encoder S T) × (write steps sink_write e xs
          ≡ (n, err, e'))
        × Streamed steps sink_write e.core t (pending e ++ xs) xs n err e'
  streamed e t xs valid h =
      subst
        (λ s.
          (n : ℕ) × (err : Option Error) × (e' : Encoder S T) × (write steps sink_write
              (record e { stream_sink = s }) xs
            ≡ (n, err, e'))
          × Streamed steps sink_write e.core t (pending e ++ xs) xs n err e')
        (sym h) (write-Streamed e.core t e.stream_buf e.stream_buf_len xs valid.0 valid.1)

  -- For a valid encoder with a sink, any search and any samples: Write leaves the codec state, the
  -- sink and the error of the stream of the samples pending before and the new ones, encoded frame
  -- by frame; what it keeps buffered and the samples that it has not taken are together what is
  -- left of the stream, it takes at most the samples given and all of them unless there is an
  -- error, and the encoder stays valid.
  pub write_lem :
      (e : Encoder S T) (t : T) (xs : List ℤ)
      → IsValid e
      → e.stream_sink ≡ some t
      → let res = write steps sink_write e xs in
        Streamed steps sink_write e.core t (pending e ++ xs) xs res.0 res.1 res.2
  write_lem e t xs valid h =
      let (n, err, e', same, st) = streamed e t xs valid h in
      subst (λ res. Streamed steps sink_write e.core t (pending e ++ xs) xs res.0 res.1 res.2)
        (sym same) st

  -- Two states that a caller cannot tell apart: `n` samples of `xs`, and `m` of `ys`, are taken.
  pub record Same (e : Encoder S T) (xs : List ℤ) (n : ℕ) (e' : Encoder S T) (ys : List ℤ) (m : ℕ)
      : Type 0 where
    pub core : e.core ≡ e'.core
    pub sink : e.stream_sink ≡ e'.stream_sink
    pub kept : pending e ++ drop n xs ≡ pending e' ++ drop m ys

  -- For a valid encoder with a sink, any search and two lists of samples of which the first is
  -- written without an error: that Write takes all its samples, and a Write of the second list
  -- after it gives the same error, codec state and sink as one Write of both lists at once, and the
  -- same samples are left, buffered or not taken.
  pub write-append :
      (e e₁ : Encoder S T) (t : T) (xs ys : List ℤ) (n₁ : ℕ)
      → IsValid e
      → e.stream_sink ≡ some t
      → write steps sink_write e xs ≡ (n₁, none, e₁)
      → let one = write steps sink_write e (xs ++ ys) in
        let two = write steps sink_write e₁ ys in
        (n₁ ≡ length xs) × (one.1 ≡ two.1) × Same one.2 (xs ++ ys) one.0 two.2 ys two.0
  write-append e e₁ t xs ys n₁ valid h first =
      let all = pending e ++ xs in
      let f : S × T × List ℤ × Option Error = stream steps sink_write e.core t all in
      let st : Streamed steps sink_write e.core t all xs n₁ none e₁ =
        subst (λ res. Streamed steps sink_write e.core t all xs res.0 res.1 res.2) first
          (write_lem e t xs valid h) in
      let every : n₁ ≡ length xs = elim st.all_taken [
        | inl q ↦ q
        | inr (x, q) ↦ absurd (unlike x (sym q))
      ] in
      let nothing : drop n₁ xs ≡ [] = ap (λ n. drop n xs) every ∙ drop-length xs in
      let rest : f.2 ≡ pending e₁ =
        sym st.kept ∙ ap (λ zs. pending e₁ ++ zs) nothing ∙ append-nil (pending e₁) in
      let goes : stream steps sink_write e.core t (pending e ++ (xs ++ ys))
          ≡ stream steps sink_write e₁.core f.1 (pending e₁ ++ ys) =
        ap (stream steps sink_write e.core t) (sym (append_assoc (pending e) xs ys))
        ∙ stream-append steps sink_write e.core t all ys (sym st.same_error)
        ∙ ap₂ (λ c zs. stream steps sink_write c f.1 (zs ++ ys)) (sym st.same_core) rest in
      let one = write_lem e t (xs ++ ys) valid h in
      let two = write_lem e₁ f.1 ys st.valid st.same_sink in
      (
        every,
        one.same_error ∙ ap (λ s. s.3) goes ∙ sym two.same_error,
        record {
          core = one.same_core ∙ ap (λ s. s.0) goes ∙ sym two.same_core;
          sink = one.same_sink ∙ ap (λ s. some s.1) goes ∙ sym two.same_sink;
          kept = one.kept ∙ ap (λ s. s.2) goes ∙ sym two.kept;
        },
      )
