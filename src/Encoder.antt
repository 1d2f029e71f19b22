-- ===== src/Encoder.antt =====
-- The root package around the frame encoder: `EncodeFrame` of encoder.go, `Write` and `Flush` of
-- encoder_streaming.go. The search for the parameters of a frame (`lpcStep`, `openloopStep`,
-- `closedloopStep` and `buildBitstreamFrame`) is the parameter `steps`: from the codec state and the samples to the new
-- state and the frame or an error. The sink is the parameter `sink_write`, a call of its `Write`. The
-- scratch bytes `streamPacked` are written before each use and not kept here.
pub mod Buffer
pub mod Stream
pub mod Chunks
pub mod Flush
mod Tests
use g.Base.{
  ℕ, zero, suc, ◌+◌, ◌-◌, ◌<◌, ◌≡◌, ◌⊎◌, inl, inr, Bool, true, false, not, List, [], ◌∷◌, ◌++◌,
  Option, some, none, if◌then◌else◌, ltb, leb, ◌==◌, length, take, drop, set, replicate, ℤ, pos,
}
use g.Bitstream.{Frame, pack}
use g.Bitstream

abbrev pub frame_samples : ℕ
frame_samples = 80

abbrev pub frame_bytes : ℕ
frame_bytes = 10

-- `packing` passes on what Pack returns, `analysis` an error of the first step, and `sink` an error
-- of the sink.
pub data Error : Type 0 where
  short_pcm short_output no_stream_sink : Error
  packing : Bitstream.Error → Error
  analysis sink : ℕ → Error

pub record Encoder (S T : Type 0) : Type 0 where
  pub core : S
  pub stream_sink : Option T
  pub stream_buf : List ℤ
  pub stream_buf_len : ℕ

-- Go's `copy(dst[off:], src)`.
abbrev pub copy_at : List ℤ → ℕ → List ℤ → List ℤ
copy_at dst off src = take off dst ++ take (length dst - off) src ++ drop (off + length src) dst

-- The loop of `Flush` from index `i` on, with `n` rounds left.
unfoldable pub zero_loop : ℕ → ℕ → List ℤ → List ℤ
zero_loop zero i buf = buf
zero_loop (suc n) i buf = zero_loop n (i + 1) (set buf i (pos 0))

module _ {S T : Type 0} (steps : S → List ℤ → S × (Error ⊎ Frame))
    (sink_write : T → List ℕ → T × Option Error) where
  -- The new state, and the error or the new `out`.
  unfoldable pub encode_frame : S → List ℤ → List ℕ → S × (Error ⊎ List ℕ)
  encode_frame core pcm out =
      if not (length pcm == frame_samples)
      then (core, inl short_pcm)
      else if ltb (length out) frame_bytes
      then (core, inl short_output)
      else (let (core', searched) = steps core pcm in
          (
            core',
            elim searched [
              | inl e ↦ inl e
              | inr frame ↦ elim (pack frame out) [
                | Bitstream.ok packed ↦ inr packed
                | Bitstream.err e ↦ inl (packing e)
              ]
            ],
          ))

  -- One frame encoded and handed to the sink.
  unfoldable pub emit : S → T → List ℤ → S × T × Option Error
  emit core t frame =
      let (core', packed) = encode_frame core frame (replicate frame_bytes 0) in
      elim packed [
        | inl e ↦ (core', t, some e)
        | inr bytes ↦ let (t', e) = sink_write t bytes in (core', t', e)
      ]

  -- The loop of `Write` over whole frames, with fuel: the samples left and the samples consumed.
  unfoldable pub frames_loop : ℕ → S → T → List ℤ → ℕ → S × T × List ℤ × ℕ × Option Error
  frames_loop zero core t samples consumed = (core, t, samples, consumed, none)
  frames_loop (suc fuel) core t samples consumed =
      if ltb (length samples) frame_samples
      then (core, t, samples, consumed, none)
      else (let r = emit core t (take frame_samples samples) in
          elim r.2 [
            | some e ↦ (r.0, r.1, samples, consumed, some e)
            | none ↦
                frames_loop fuel r.0 r.1 (drop frame_samples samples) (consumed + frame_samples)
          ])

  -- The end of `Write` after the loop: an error, or the samples left are buffered. A result is the
  -- samples consumed, the error and the new state.
  unfoldable pub buffer_rest :
      List ℤ → S × T × List ℤ × ℕ × Option Error → ℕ × Option Error × Encoder S T
  buffer_rest buf (core, t, left, consumed, e) =
      let unbuffered : Encoder S T = record {
        core = core;
        stream_sink = some t;
        stream_buf = buf;
        stream_buf_len = 0;
      } in
      elim e [
        | some x ↦ (consumed, some x, unbuffered)
        | none ↦
            if ltb 0 (length left)
            then (
              consumed + length left,
              none,
              record unbuffered { stream_buf = copy_at buf 0 left; stream_buf_len = length left },
            )
            else (consumed, none, unbuffered)
      ]

  -- `Write` from the loop on, where nothing is buffered any more.
  unfoldable pub write_aligned : S → T → List ℤ → List ℤ → ℕ → ℕ × Option Error × Encoder S T
  write_aligned core t buf samples consumed =
      buffer_rest buf (frames_loop (suc (length samples)) core t samples consumed)

  unfoldable pub write : Encoder S T → List ℤ → ℕ × Option Error × Encoder S T
  write e samples = elim e.stream_sink [
    | none ↦ (0, some no_stream_sink, e)
    | some t ↦
        let need = frame_samples - e.stream_buf_len in
        let filled = copy_at e.stream_buf e.stream_buf_len (take need samples) in
        if not (ltb 0 e.stream_buf_len)
        then write_aligned e.core t e.stream_buf samples 0
        else if ltb (length samples) need
        then (
          length samples,
          none,
          record e {
            stream_buf = copy_at e.stream_buf e.stream_buf_len samples;
            stream_buf_len = e.stream_buf_len + length samples;
          },
        )
        else (let r = emit e.core t filled in
            elim r.2 [
              | some x ↦
                  (0, some x, record e { core = r.0; stream_sink = some r.1; stream_buf = filled })
              | none ↦ write_aligned r.0 r.1 filled (drop need samples) need
            ])
  ]

  unfoldable pub flush : Encoder S T → Option Error × Encoder S T
  flush e = elim e.stream_sink [
    | none ↦ (some no_stream_sink, e)
    | some t ↦
        let padded = zero_loop (frame_samples - e.stream_buf_len) e.stream_buf_len e.stream_buf in
        if e.stream_buf_len == 0
        then (none, e)
        else (let r = emit e.core t padded in
            elim r.2 [
              | some x ↦
                  (some x, record e { core = r.0; stream_sink = some r.1; stream_buf = padded })
              | none ↦ (
                none,
                record {
                  core = r.0;
                  stream_sink = some r.1;
                  stream_buf = padded;
                  stream_buf_len = 0;
                },
              )
            ])
  ]
