-- ===== src/Encoder/Stream.antt =====
-- The samples as one stream to the frame encoder, and the loop of `Write` in encoder_streaming.go
-- against it.
use mathlib.Core.List.{append-nil}
use g.Base.{
  subst, length-append, ℕ, zero, suc, ◌+◌, ◌-◌, ◌<◌, ◌≤◌, ◌≡◌, refl, ◌∙◌, sym, ap, ap₂, ◌⊎◌, inl,
  inr, Bool-cases, Option-cases, arith, List, ◌++◌, Option, some, none, if◌then◌else◌, ltb, ltb→lt,
  length, take, drop, ℤ, length-drop,
}
use g.Bitstream.{Frame}
use g.Encoder.{Error, Encoder, copy_at, emit, frames_loop, write_aligned, buffer_rest}
use g.Encoder.Buffer.{
  take-take_append, drop-drop_append, pending, IsValid, drop-add, drop-length, below, not_below,
  copy_at_front, length-copy_at,
}

pub unlike : (x : Error) → ¬ (some x ≡ none)
unlike x e = ground (arith, e)

module _ {S T : Type 0} (steps : S → List ℤ → S × (Error ⊎ Frame))
    (sink_write : T → List ℕ → T × Option Error) where
  -- The samples as one stream: frame by frame to the sink, until less than a frame is left or an
  -- error stops it at the frame that failed.
  unfoldable pub feed : ℕ → S → T → List ℤ → S × T × List ℤ × Option Error
  feed zero core t xs = (core, t, xs, none)
  feed (suc fuel) core t xs =
      if ltb (length xs) 80
      then (core, t, xs, none)
      else (let r = emit steps sink_write core t (take 80 xs) in
          elim r.2 [ some e ↦ (r.0, r.1, xs, some e) | none ↦ feed fuel r.0 r.1 (drop 80 xs) ])

  pub stream : S → T → List ℤ → S × T × List ℤ × Option Error
  stream core t xs = feed (suc (length xs)) core t xs

  -- More fuel than samples changes nothing.
  pub feed_fuel :
      (f g : ℕ) (core : S) (t : T) (xs : List ℤ)
      → length xs < f
      → length xs < g
      → feed f core t xs ≡ feed g core t xs
  unfolding feed
  feed_fuel zero g core t xs h k = absurd (omega arith)
  feed_fuel (suc f) zero core t xs h k = absurd (omega arith)
  feed_fuel (suc f) (suc g) core t xs h k = elim (Bool-cases (ltb (length xs) 80)) [
    | inl short ↦ rw short refl
    | inr long ↦
        let r : S × T × Option Error = emit steps sink_write core t (take 80 xs) in
        let shorter : length (drop 80 xs) < length xs = ground (arith, long, length-drop 80 xs) in
        ground (arith, long, feed_fuel f g r.0 r.1 (drop 80 xs) (omega arith) (omega arith))
  ]

  -- The loop of `Write` is the stream of its samples, and counts what it takes.
  record Fed (fuel : ℕ) (core : S) (t : T) (xs : List ℤ) (out : S × T × List ℤ × Option Error)
      : Type 0 where
    loop :
        (c : ℕ)
        → frames_loop steps sink_write fuel core t xs c
          ≡ (out.0, out.1, out.2, c + (length xs - length out.2), out.3)
    fewer : length out.2 ≤ length xs
    suffix : drop (length xs - length out.2) xs ≡ out.2
    short : out.3 ≡ none → length xs < fuel → length out.2 < 80

  Fed-rest :
      (fuel : ℕ) (core : S) (t : T) (xs : List ℤ) (out : S × T × List ℤ × Option Error)
      → length out.2 ≤ length xs - 80
      → 80 ≤ length xs
      → drop (length xs - 80 - length out.2) (drop 80 xs) ≡ out.2
      → drop (length xs - length out.2) xs ≡ out.2
  Fed-rest fuel core t xs out h k e =
      ap (λ n. drop n xs) (omega arith) ∙ drop-add 80 (length xs - 80 - length out.2) xs ∙ e

  feed-Fed : (fuel : ℕ) (core : S) (t : T) (xs : List ℤ) → Fed fuel core t xs (feed fuel core t xs)
  unfolding feed frames_loop
  feed-Fed zero core t xs = record {
    loop = λ c. ground arith;
    fewer = omega arith;
    suffix = ground arith;
    short = λ e h. absurd (omega arith);
  }
  feed-Fed (suc fuel) core t xs = elim (Bool-cases (ltb (length xs) 80)) [
    | inl few ↦ record {
      loop = λ c. ground (arith, few);
      fewer = ground (arith, few);
      suffix = rw few (ap (λ n. drop n xs) {y = 0} (omega arith));
      short = λ e h. rw few (ltb→lt (length xs) 80 few);
    }
    | inr many ↦
        let r : S × T × Option Error = emit steps sink_write core t (take 80 xs) in
        let rest = feed-Fed fuel r.0 r.1 (drop 80 xs) in
        let out = feed fuel r.0 r.1 (drop 80 xs) in
        let dropped : length (drop 80 xs) ≡ length xs - 80 = length-drop 80 xs in
        let fits : 80 ≤ length xs = ground (arith, many) in
        elim (Option-cases r.2) [
          | inl e ↦ record {
            loop = λ c.
                rw (many, e, rest.loop (c + 80))
                  (ap (λ n. (out.0, out.1, out.2, n, out.3))
                    (omega (arith, dropped, fits, rest.fewer)));
            fewer = ground (arith, many, e, rest.fewer, dropped);
            suffix =
                rw (many, e)
                  (Fed-rest fuel core t xs out (omega (arith, dropped, rest.fewer)) fits
                    (ap (λ n. drop (n - length out.2) (drop 80 xs)) (sym dropped) ∙ rest.suffix));
            short = λ fine h. ground (arith, many, e, rest.short, dropped);
          }
          | inr (x, e) ↦ record {
            loop = λ c. ground (arith, many, e);
            fewer = ground (arith, many, e);
            suffix = rw (many, e) (ap (λ n. drop n xs) {y = 0} (omega arith));
            short = λ fine h. ground (arith, many, e, fine);
          }
        ]
  ]

  stream-eq-feed :
      (core : S) (t : T) (xs : List ℤ) → stream core t xs ≡ feed (suc (length xs)) core t xs
  unfolding stream
  stream-eq-feed core t xs = refl

  -- What a call leaves, after it has taken `n` samples: the stream of `all`, of which it keeps back
  -- what it buffers.
  pub record Streamed (core : S) (t : T) (all xs : List ℤ) (n : ℕ) (err : Option Error)
      (e : Encoder S T) : Type 0 where
    pub same_core : e.core ≡ (stream core t all).0
    pub same_sink : e.stream_sink ≡ some (stream core t all).1
    pub kept : pending e ++ drop n xs ≡ (stream core t all).2
    pub same_error : err ≡ (stream core t all).3
    pub taken : n ≤ length xs
    pub all_taken : (n ≡ length xs) ⊎ ((x : Error) × (err ≡ some x))
    pub valid : IsValid e

  pub aligned-Streamed :
      (core : S) (t : T) (buf xs : List ℤ) (c : ℕ)
      → length buf ≡ 80
      → (n : ℕ) × (err : Option Error) × (e : Encoder S T) × (write_aligned steps sink_write core t
            buf xs c
          ≡ (c + n, err, e))
        × Streamed core t xs xs n err e
  unfolding write_aligned buffer_rest stream
  aligned-Streamed core t buf xs c h =
      let f = feed (suc (length xs)) core t xs in
      let fed = feed-Fed (suc (length xs)) core t xs in
      let left : List ℤ = f.2 in
      let gone : ℕ = length xs - length left in
      let empty : Encoder S T = record {
        core = f.0;
        stream_sink = some f.1;
        stream_buf = buf;
        stream_buf_len = 0;
      } in
      let full : Encoder S T = record {
        core = f.0;
        stream_sink = some f.1;
        stream_buf = copy_at buf 0 left;
        stream_buf_len = length left;
      } in
      elim (Option-cases f.3) [
        | inl e ↦
            let short : length left < 80 = fed.short e (omega arith) in
            elim (Bool-cases (ltb 0 (length left))) [
              | inl some_left ↦ (
                length xs,
                none,
                full,
                ap (buffer_rest steps sink_write buf) (fed.loop c)
                    ∙ rw (e, some_left) (ap (λ m. (m, none, full)) (omega (arith, fed.fewer))),
                record {
                  same_core = refl;
                  same_sink = refl;
                  kept =
                      ap₂ ◌++◌
                        (ap (λ m. take m (copy_at buf 0 left)) (omega arith)
                          ∙ copy_at_front buf left 0 (omega (arith, h, short)))
                        (drop-length xs)
                      ∙ append-nil left;
                  same_error = sym e;
                  taken = omega arith;
                  all_taken = inl refl;
                  valid = (length-copy_at buf left 0 (omega (arith, h, short)) ∙ h, short);
                },
              )
              | inr none_left ↦ (
                gone,
                none,
                empty,
                ap (buffer_rest steps sink_write buf) (fed.loop c) ∙ rw (e, none_left) refl,
                record {
                  same_core = refl;
                  same_sink = refl;
                  kept = fed.suffix;
                  same_error = sym e;
                  taken = omega arith;
                  all_taken = inl (ground (arith, none_left));
                  valid = (h, omega arith);
                },
              )
            ]
        | inr (x, e) ↦ (
          gone,
          some x,
          empty,
          ap (buffer_rest steps sink_write buf) (fed.loop c) ∙ rw e refl,
          record {
            same_core = refl;
            same_sink = refl;
            kept = fed.suffix;
            same_error = sym e;
            taken = omega arith;
            all_taken = inr (x, refl);
            valid = (h, omega arith);
          },
        )
      ]

  pub stream_short :
      (core : S) (t : T) (xs : List ℤ) → length xs < 80 → stream core t xs ≡ (core, t, xs, none)
  unfolding stream feed
  stream_short core t xs h = rw (below (length xs) h) refl

  pub stream_stop :
      (core : S) (t : T) (xs : List ℤ) (x : Error)
      → 80 ≤ length xs
      → let r = emit steps sink_write core t (take 80 xs) in
        r.2 ≡ some x → stream core t xs ≡ (r.0, r.1, xs, some x)
  unfolding stream feed
  stream_stop core t xs x h e = rw (not_below (length xs) h, e) refl

  pub stream_step :
      (core : S) (t : T) (xs : List ℤ)
      → 80 ≤ length xs
      → let r = emit steps sink_write core t (take 80 xs) in
        r.2 ≡ none → stream core t xs ≡ stream r.0 r.1 (drop 80 xs)
  unfolding stream feed
  stream_step core t xs h e =
      let r : S × T × Option Error = emit steps sink_write core t (take 80 xs) in
      let shorter : length (drop 80 xs) ≡ length xs - 80 = length-drop 80 xs in
      let fuel : feed (length xs) r.0 r.1 (drop 80 xs)
          ≡ feed (suc (length (drop 80 xs))) r.0 r.1 (drop 80 xs) =
        feed_fuel (length xs) (suc (length (drop 80 xs))) r.0 r.1 (drop 80 xs)
          (omega (arith, shorter, h)) (omega arith) in
      rw (not_below (length xs) h, e) fuel

  -- A stream takes its first frame, whatever comes behind the samples.
  stream_step_append :
      (core : S) (t : T) (xs ys : List ℤ)
      → 80 ≤ length xs
      → let r = emit steps sink_write core t (take 80 xs) in
        r.2 ≡ none → stream core t (xs ++ ys) ≡ stream r.0 r.1 (drop 80 xs ++ ys)
  stream_step_append core t xs ys h e =
      subst
        (λ fr.
          let r = emit steps sink_write core t fr in
          r.2 ≡ none → stream core t (xs ++ ys) ≡ stream r.0 r.1 (drop 80 (xs ++ ys)))
        (take-take_append xs ys 80 h)
        (stream_step core t (xs ++ ys) (omega (arith, length-append {0} xs ys))) e
      ∙ ap (λ zs. let r = emit steps sink_write core t (take 80 xs) in stream r.0 r.1 zs)
          (drop-drop_append xs ys 80 h)

  -- More samples at the end go on where the stream of the others stopped for want of samples.
  feed-append :
      (fuel : ℕ) (core : S) (t : T) (xs ys : List ℤ) (f : S × T × List ℤ × Option Error)
      → length xs < fuel
      → feed fuel core t xs ≡ f
      → f.3 ≡ none
      → stream core t (xs ++ ys) ≡ stream f.0 f.1 (f.2 ++ ys)
  unfolding feed
  feed-append zero core t xs ys f h q fine = absurd (omega arith)
  feed-append (suc fuel) core t xs ys f h q fine = elim (Bool-cases (ltb (length xs) 80)) [
    | inl few ↦
        let done : (core, t, xs, none) ≡ f = sym (rw few refl) ∙ q in
        ap (λ g. stream g.0 g.1 (g.2 ++ ys)) done
    | inr many ↦
        let r : S × T × Option Error = emit steps sink_write core t (take 80 xs) in
        let fits : 80 ≤ length xs = ground (arith, many) in
        elim (Option-cases r.2) [
          | inl e ↦
              let later : feed fuel r.0 r.1 (drop 80 xs) ≡ f = sym (rw (many, e) refl) ∙ q in
              stream_step_append core t xs ys fits e
              ∙ feed-append fuel r.0 r.1 (drop 80 xs) ys f (omega (arith, length-drop 80 xs, fits))
                  later fine
          | inr (x, e) ↦
              let stopped : (r.0, r.1, xs, some x) ≡ f = sym (rw (many, e) refl) ∙ q in
              absurd (unlike x (ap (λ g. g.3) stopped ∙ fine))
        ]
  ]

  pub stream-append :
      (core : S) (t : T) (xs ys : List ℤ)
      → let f = stream core t xs in
        f.3 ≡ none → stream core t (xs ++ ys) ≡ stream f.0 f.1 (f.2 ++ ys)
  unfolding stream
  stream-append core t xs ys fine =
      feed-append (suc (length xs)) core t xs ys (stream core t xs) (omega arith) refl fine
