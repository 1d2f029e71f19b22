-- ===== src/Bitstream/G192/Tests.antt =====
-- Runs of internal/bitstream/g192.go at concrete inputs.
use g.Base.{
  ℕ, ◌≡◌, refl, arith, List, [], ◌∷◌, ◌++◌, Bool, true, false, take, drop, length, replicate,
}
use g.Bitstream.{ok, err, bad_g192_bit, bad_g192_sync, eof}
use g.Bitstream.G192.{
  write_g192_frame, data_words, read_words, and_then, read_with_policy, read_g192_frame,
  read_g192_frame_lenient, read_g192_file,
}
use g.Bitstream.G192.RoundTrip.{
  written, read-write, file_of, frames_of, flags_of, end_of, read_g192_file-file_of,
}
use g.Bitstream.G192.Policy.{undetermined, lenient-strict, undetermined_lem}

abbrev wire : List ℕ
wire = 0xd5 ∷ 0x8a ∷ 0xe9 ∷ 0x72 ∷ 0x34 ∷ 0x9b ∷ 0x9f ∷ 0xf6 ∷ 0xed ∷ 0x27 ∷ []

abbrev buffer : List ℕ
buffer = replicate 12 7

abbrev two_frames : List (List ℕ × Bool)
two_frames = (wire, true) ∷ (replicate 10 0, false) ∷ []

empty_test : read_g192_frame [] buffer ≡ err eof
unfolding read_g192_frame read_with_policy and_then
empty_test = refl

sync_test : read_g192_frame (replicate 164 0x6b) buffer ≡ err bad_g192_sync
unfolding read_g192_frame read_with_policy and_then
sync_test = refl

strict_test :
    read_g192_frame (written wire true) buffer ≡ ok (true, take 10 wire ++ drop 10 buffer, [])
unfolding read_g192_frame read_with_policy and_then read_words data_words
strict_test = refl

read-write_example :
    (w : List ℕ) × (write_g192_frame wire true ≡ ok w)
    × (length w ≡ 164)
    × (read_with_policy (w ++ 1 ∷ 2 ∷ []) buffer false
        ≡ ok (true, take 10 wire ++ drop 10 buffer, 1 ∷ 2 ∷ []))
read-write_example =
    read-write wire buffer (1 ∷ 2 ∷ []) true false (omega arith) (omega arith) (omega arith)

read_g192_file-file_of_example :
    read_g192_file (file_of two_frames ++ 7 ∷ [])
    ≡ (frames_of two_frames, flags_of two_frames, end_of (7 ∷ []))
read_g192_file-file_of_example =
    read_g192_file-file_of two_frames (7 ∷ []) (omega arith) (omega arith)

lenient-strict_example :
    read_g192_frame_lenient (written wire true) buffer
    ≡ ok (true, take 10 wire ++ drop 10 buffer, [])
lenient-strict_example =
    lenient-strict (written wire true) buffer (true, take 10 wire ++ drop 10 buffer, []) strict_test

undetermined_lem_example :
    (read_g192_frame (undetermined ++ []) buffer ≡ err bad_g192_bit)
    × (read_g192_frame_lenient (undetermined ++ []) buffer
        ≡ ok (true, replicate 10 0 ++ drop 10 buffer, []))
undetermined_lem_example = undetermined_lem [] buffer (omega arith)
