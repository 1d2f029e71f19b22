-- ===== src/Encoder/Tests.antt =====
-- Runs of the streaming encoder with a search that packs the count of the frames before it.
use g.Base.{
  ℕ, ◌+◌, ◌≡◌, refl, arith, ◌⊎◌, inl, inr, List, [], ◌∷◌, ◌++◌, Option, some, none, length,
  replicate, ℤ, pos,
}
use g.Bitstream.{Frame}
use g.Encoder.{
  Error, Encoder, short_pcm, encode_frame, frames_loop, buffer_rest, write_aligned, write, flush,
}
use g.Encoder.Buffer.{pending}
use g.Encoder.Stream.{Streamed}
use g.Encoder.Chunks.{Same, write_lem, write-append}
use g.Encoder.Flush.{Flushed, flush_lem}

abbrev numbered : ℕ → Frame
numbered k = record {
  l0 = 0;
  l1 = k;
  l2 = 0;
  l3 = 0;
  p1 = 0;
  p0 = 0;
  c1 = 0;
  s1 = 0;
  ga1 = 0;
  gb1 = 0;
  p2 = 0;
  c2 = 0;
  s2 = 0;
  ga2 = 0;
  gb2 = 0;
}

abbrev count_steps : ℕ → List ℤ → ℕ × (Error ⊎ Frame)
count_steps k pcm = (k + 1, inr (numbered k))

abbrev list_sink : List (List ℕ) → List ℕ → List (List ℕ) × Option Error
list_sink t bytes = (t ++ bytes ∷ [], none)

abbrev fresh : Encoder ℕ (List (List ℕ))
fresh = record {
  core = 0;
  stream_sink = some [];
  stream_buf = replicate 80 (pos 0);
  stream_buf_len = 0;
}

abbrev some_samples : List ℤ
some_samples = replicate 50 (pos 3)

abbrev fifty : Encoder ℕ (List (List ℕ))
fifty = record fresh { stream_buf = some_samples ++ replicate 30 (pos 0); stream_buf_len = 50 }

short_test : encode_frame count_steps list_sink 0 some_samples (replicate 10 0) ≡ (0, inl short_pcm)
unfolding encode_frame
short_test = refl

fifty_test : write count_steps list_sink fresh some_samples ≡ (50, none, fifty)
unfolding write write_aligned buffer_rest frames_loop
fifty_test = refl

write_lem_example :
    let res = write count_steps list_sink fifty some_samples in
    Streamed count_steps list_sink 0 []
      (pending fifty ++ some_samples)
      some_samples
      res.0
      res.1
      res.2
write_lem_example = write_lem count_steps list_sink fifty [] some_samples (refl, omega arith) refl

write-append_example :
    let one = write count_steps list_sink fresh (some_samples ++ some_samples) in
    let two = write count_steps list_sink fifty some_samples in
    (50 ≡ length some_samples)
    × (one.1 ≡ two.1)
    × Same count_steps list_sink one.2 (some_samples ++ some_samples) one.0 two.2 some_samples two.0
write-append_example =
    write-append count_steps list_sink fresh fifty [] some_samples some_samples 50
      (refl, omega arith) refl fifty_test

flush_lem_example :
    let res = flush count_steps list_sink fifty in
    Flushed count_steps list_sink fifty [] res.0 res.1
flush_lem_example = flush_lem count_steps list_sink fifty [] (refl, omega arith) refl
