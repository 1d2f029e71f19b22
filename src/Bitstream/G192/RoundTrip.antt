-- ===== src/Bitstream/G192/RoundTrip.antt =====
-- The writer of internal/bitstream/g192.go and then its reader, for one frame and for a file.
use mathlib.Core.List.{append-nil, append_assoc}
use g.Base.{
  All-take, ℕ, zero, suc, ◌/◌, ◌≤◌, ◌<◌, ◌≡◌, refl, ap, ◌∙◌, List, [], ◌∷◌, ◌++◌, All, Bool, true,
  arith, if◌then◌else◌, ◌==◌, Option, some, none, length, take, drop, replicate, length-take,
  length-append, get_or-take, take-append_exact, drop-append_exact,
}
use g.Bitstream.{Result, Error, ok, err, frame_bits, frame_bytes, eof, unexpected_eof}
use g.Bitstream.BitIo.Stream.{zeros-IsClear}
use g.Bitstream.BitIo.Bytes.{IsByte, bytes_ext}
use g.Bitstream.G192.{
  data_words, put_uint16, write_g192_frame, read_full, read_with_policy, and_then,
  read_g192_frame_lenient, read_file_loop, read_g192_file, g192_sync_good, g192_sync_bad,
}
use g.Bitstream.G192.Copy.{
  copy, HasWords, copy-Copied, read_words-copy, length-data_words, uint16_at-data_words,
}

-- The 164 bytes of a frame.
abbrev pub written : List ℕ → Bool → List ℕ
written frame bad =
    put_uint16 (if bad then g192_sync_bad else g192_sync_good)
    ++ put_uint16 frame_bits
    ++ data_words frame_bits 0 frame

abbrev blank : List ℕ
blank = replicate frame_bytes 0

written-HasWords : (frame : List ℕ) (bad : Bool) → HasWords (written frame bad) frame 0 80
written-HasWords frame bad j l h =
    ground (arith, uint16_at-data_words 80 0 j frame [], append-nil (data_words 80 0 frame))

length-written : (frame : List ℕ) (bad : Bool) → length (written frame bad) ≡ 164
length-written frame bad = omega (arith, length-data_words 80 0 frame)

copy-eq-take :
    (frame : List ℕ) → 10 ≤ length frame → All IsByte frame → copy 80 0 frame blank ≡ take 10 frame
copy-eq-take frame h bytes =
    let c = copy-Copied 80 0 frame blank (zeros-IsClear 10) (omega arith) in
    bytes_ext (copy 80 0 frame blank) (take 10 frame)
      (omega (arith, c.same_length, length-take 10 frame)) (c.bytes (omega arith))
      (All-take IsByte 10 frame bytes)
      (λ p l. ground (arith, c.inside p, c.same_length, get_or-take 10 frame (p / 8) 0))

pub read_full-append :
    (w rest : List ℕ) (n : ℕ) → 0 < n → length w ≡ n → read_full n (w ++ rest) ≡ ok (w, rest)
read_full-append w rest n h e =
    ground
      (arith, length-append {0} w rest, take-append_exact n w rest e, drop-append_exact n w rest e)

-- For a frame of at least ten bytes, all below 256, an output slice of at least ten bytes, any flag
-- and either policy: WriteG192Frame gives 164 bytes, and reading these with anything behind them
-- gives the flag, the first ten bytes of the frame in front of the rest of the slice, and leaves
-- what stands behind.
pub read-write :
    (frame out rest : List ℕ) (bad allow_zero : Bool)
    → 10 ≤ length frame
    → All IsByte frame
    → 10 ≤ length out
    → (w : List ℕ) × (write_g192_frame frame bad ≡ ok w)
      × (length w ≡ 164)
      × (read_with_policy (w ++ rest) out allow_zero ≡ ok (bad, take 10 frame ++ drop 10 out, rest))
unfolding write_g192_frame read_with_policy and_then
read-write frame out rest bad allow_zero h bytes room = (
  written frame bad,
  ground arith,
  length-written frame bad,
  rw
      (
        read_full-append (written frame bad) rest 164 (omega arith) (length-written frame bad),
        read_words-copy 80 0 (written frame bad) frame blank allow_zero 0
            (written-HasWords frame bad) (omega arith),
        copy-eq-take frame h bytes,
      )
      (ground arith),
)

-- A file of frames, each with its flag, as the writer leaves it; a frame that it refuses adds
-- nothing.
abbrev bytes_of : Result (List ℕ) → List ℕ
bytes_of (ok w) = w
bytes_of (err e) = []

unfoldable pub file_of : List (List ℕ × Bool) → List ℕ
file_of [] = []
file_of ((frame, bad) ∷ rest) = bytes_of (write_g192_frame frame bad) ++ file_of rest

abbrev pub frames_of : List (List ℕ × Bool) → List (List ℕ)
frames_of [] = []
frames_of ((frame, bad) ∷ rest) = frame ∷ frames_of rest

abbrev pub flags_of : List (List ℕ × Bool) → List Bool
flags_of [] = []
flags_of ((frame, bad) ∷ rest) = bad ∷ flags_of rest

abbrev pub IsFrame : List ℕ × Bool → Type 0
IsFrame item = (length item.0 ≡ 10) × All IsByte item.0

-- How reading ends on what is left behind the last frame.
abbrev pub end_of : List ℕ → Option Error
end_of rest = if length rest == 0 then none else some unexpected_eof

bytes_of-write :
    (frame : List ℕ) (bad : Bool)
    → length frame ≡ 10
    → bytes_of (write_g192_frame frame bad) ≡ written frame bad
unfolding write_g192_frame
bytes_of-write frame bad e = ground (arith, e)

read-write_blank :
    (frame rest : List ℕ) (bad : Bool)
    → IsFrame (frame, bad)
    → read_g192_frame_lenient (written frame bad ++ rest) blank ≡ ok (bad, frame, rest)
unfolding read_g192_frame_lenient write_g192_frame
read-write_blank frame rest bad h =
    let (w, wrote, size, back) =
      read-write frame blank rest bad true (omega (arith, h.0)) h.1 (omega arith) in
    ground (
      arith,
      wrote,
      back,
      h.0,
      take-append_exact 10 frame [],
      append-nil (take 10 frame),
      append-nil frame,
    )

read_short :
    (rest : List ℕ)
    → length rest < 164
    → read_g192_frame_lenient rest blank ≡ err (if length rest == 0 then eof else unexpected_eof)
unfolding read_g192_frame_lenient read_with_policy and_then
read_short rest h = ground arith

file_of_nil : (rest : List ℕ) → file_of [] ++ rest ≡ rest
unfolding file_of
file_of_nil rest = refl

file_of-cons :
    (frame rest : List ℕ) (bad : Bool) (items : List (List ℕ × Bool))
    → length frame ≡ 10
    → file_of ((frame, bad) ∷ items) ++ rest ≡ written frame bad ++ (file_of items ++ rest)
unfolding file_of
file_of-cons frame rest bad items h =
    ap (λ w. w ++ file_of items ++ rest) (bytes_of-write frame bad h)
    ∙ append_assoc (written frame bad) (file_of items) rest

read_file_loop-file_of :
    (items : List (List ℕ × Bool)) (fuel : ℕ) (rest : List ℕ) (frames : List (List ℕ))
    (bads : List Bool)
    → All IsFrame items
    → length rest < 164
    → length items < fuel
    → read_file_loop fuel (file_of items ++ rest) frames bads
      ≡ (frames ++ frames_of items, bads ++ flags_of items, end_of rest)
unfolding read_file_loop
read_file_loop-file_of items zero rest frames bads h short more = absurd (omega arith)
read_file_loop-file_of [] (suc fuel) rest frames bads h short more =
    rw (file_of_nil rest, read_file_loop, read_short rest short, append-nil frames, append-nil bads)
      (ground arith)
read_file_loop-file_of ((frame, bad) ∷ items) (suc fuel) rest frames bads h short more =
    let later =
      read_file_loop-file_of items fuel rest (frames ++ frame ∷ []) (bads ++ bad ∷ []) h.1 short
        (omega arith) in
    rw
      (
        file_of-cons frame rest bad items h.0.0,
        read_file_loop,
        read-write_blank frame (file_of items ++ rest) bad h.0,
        later,
        append_assoc frames (frame ∷ []) (frames_of items),
        append_assoc bads (bad ∷ []) (flags_of items),
      )
      refl

items_below :
    (items : List (List ℕ × Bool)) → All IsFrame items → length items ≤ length (file_of items)
unfolding file_of
items_below [] h = omega arith
items_below ((frame, bad) ∷ items) h = omega (
  arith,
  ap length (bytes_of-write frame bad h.0.0),
  length-written frame bad,
  length-append {0} (bytes_of (write_g192_frame frame bad)) (file_of items),
  items_below items h.1,
)

-- For frames of ten bytes below 256, each with a flag, and fewer than 164 bytes behind what
-- WriteG192Frame makes of them: ReadG192File gives the frames and the flags in order, with no error
-- where nothing stands behind them and an unexpected end otherwise.
pub read_g192_file-file_of :
    (items : List (List ℕ × Bool)) (rest : List ℕ)
    → All IsFrame items
    → length rest < 164
    → read_g192_file (file_of items ++ rest) ≡ (frames_of items, flags_of items, end_of rest)
unfolding read_g192_file
read_g192_file-file_of items rest h short =
    read_file_loop-file_of items (suc (length (file_of items ++ rest))) rest [] [] h short
      (omega (arith, items_below items h, length-append {0} (file_of items) rest))
