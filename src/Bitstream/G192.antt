-- ===== src/Bitstream/G192.antt =====
-- internal/bitstream/g192.go: frames as the 16-bit words of a G.192 file. A reader is the list of
-- the bytes that it has left, and io.ReadFull takes from its front; a writer is the bytes of the one
-- call of its `Write`. What a failed read leaves in the caller's frame is not modelled.
pub mod Copy
pub mod RoundTrip
pub mod Policy
mod Tests
use Prim.Native.Nat.{bit_or}
use g.Base.{
  ℕ, zero, suc, ◌+◌, ◌-◌, ◌*◌, ◌/◌, ◌%◌, ◌^◌, Bool, true, false, not, ◌&&◌, ◌||◌, List, [], ◌∷◌,
  ◌++◌, Option, some, none, if◌then◌else◌, ltb, ◌==◌, length, get_or, set, take, drop, replicate,
}
use g.Base.Bits.{test_bit}
use g.Bitstream.{
  frame_bits, frame_bytes, Error, short_output, short_input, bad_g192_sync, bad_g192_length,
  bad_g192_bit, eof, unexpected_eof, Result, ok, err,
}

abbrev pub g192_sync_good : ℕ
g192_sync_good = 0x6B21

abbrev pub g192_sync_bad : ℕ
g192_sync_bad = 0x6B20

abbrev pub g192_bit1 : ℕ
g192_bit1 = 0x0081

abbrev pub g192_bit0 : ℕ
g192_bit0 = 0x007F

abbrev pub g192_frame_bytes : ℕ
g192_frame_bytes = 164

pub and_then {ℓ κ} : {A : Type ℓ} {B : Type κ} → Result A → (A → Result B) → Result B
and_then (ok a) f = f a
and_then (err e) f = err e

-- `PutUint16` and `Uint16` of binary.LittleEndian.
abbrev pub put_uint16 : ℕ → List ℕ
put_uint16 w = (w % 256) ∷ (w / 256 % 256) ∷ []

abbrev pub uint16_at : List ℕ → ℕ → ℕ
uint16_at buf off = get_or buf off 0 + 256 * get_or buf (off + 1) 0

-- The data word of bit `i`.
abbrev pub data_word : List ℕ → ℕ → ℕ
data_word frame i =
    if test_bit (get_or frame (i / 8) 0) (7 - i % 8) == 1 then g192_bit1 else g192_bit0

-- The loop of `WriteG192Frame` with `n` rounds left: the words from bit `i` on.
unfoldable pub data_words : ℕ → ℕ → List ℕ → List ℕ
data_words zero i frame = []
data_words (suc n) i frame = put_uint16 (data_word frame i) ++ data_words n (i + 1) frame

unfoldable pub write_g192_frame : List ℕ → Bool → Result (List ℕ)
write_g192_frame frame bad =
    if ltb (length frame) frame_bytes
    then err short_input
    else ok (
        put_uint16 (if bad then g192_sync_bad else g192_sync_good)
        ++ put_uint16 frame_bits
        ++ data_words frame_bits 0 frame)

-- io.ReadFull of `n` bytes: what it reads, and what is left.
abbrev pub read_full : ℕ → List ℕ → Result (List ℕ × List ℕ)
read_full n r =
    if length r == 0
    then err eof
    else if ltb (length r) n
    then err unexpected_eof
    else ok (take n r, drop n r)

-- `out[byteIdx] |= 1 << uint(bitIdx)`.
abbrev pub set_bit : List ℕ → ℕ → List ℕ
set_bit out i = set out (i / 8) (bit_or (get_or out (i / 8) 0) (2 ^ (7 - i % 8)))

-- The loop over the data words with `n` rounds left, from bit `i` on: the frame so far and the
-- count of zero softbits.
unfoldable pub read_words : ℕ → ℕ → List ℕ → Bool → List ℕ → ℕ → Result (List ℕ × ℕ)
read_words zero i buf allow_zero out zero_softbits = ok (out, zero_softbits)
read_words (suc n) i buf allow_zero out zero_softbits =
    let word = uint16_at buf (4 + 2 * i) in
    let rest =
      read_words n (i + 1) buf allow_zero (if word == g192_bit1 then set_bit out i else out)
        (if word == 0 then zero_softbits + 1 else zero_softbits) in
    if word == g192_bit1 || word == g192_bit0 || (word == 0 && allow_zero)
    then rest
    else err bad_g192_bit

-- `readG192FrameWithSoftbitPolicy`: whether the frame is bad, the new frame, and what is left.
unfoldable pub read_with_policy : List ℕ → List ℕ → Bool → Result (Bool × List ℕ × List ℕ)
read_with_policy r frame allow_zero =
    if ltb (length frame) frame_bytes
    then err short_output
    else and_then (read_full g192_frame_bytes r) (λ (buf, rest).
      let sync = uint16_at buf 0 in
      if not (sync == g192_sync_good || sync == g192_sync_bad)
      then err bad_g192_sync
      else if not (uint16_at buf 2 == frame_bits)
      then err bad_g192_length
      else and_then (read_words frame_bits 0 buf allow_zero (replicate frame_bytes 0) 0)
          (λ (out, zero_softbits). ok (
            sync == g192_sync_bad || (allow_zero && zero_softbits == frame_bits),
            out ++ drop frame_bytes frame,
            rest,
          )))

unfoldable pub read_g192_frame : List ℕ → List ℕ → Result (Bool × List ℕ × List ℕ)
read_g192_frame r frame = read_with_policy r frame false

unfoldable pub read_g192_frame_lenient : List ℕ → List ℕ → Result (Bool × List ℕ × List ℕ)
read_g192_frame_lenient r frame = read_with_policy r frame true

abbrev pub is_eof : Error → Bool
is_eof eof = true
is_eof _ = false

-- The loop of `ReadG192File`, with fuel: each round but the last takes a frame from the reader.
unfoldable pub read_file_loop :
    ℕ → List ℕ → List (List ℕ) → List Bool → List (List ℕ) × List Bool × Option Error
read_file_loop zero r frames bads = (frames, bads, some unexpected_eof)
read_file_loop (suc fuel) r frames bads =
    elim (read_g192_frame_lenient r (replicate frame_bytes 0)) [
      | ok (bad, frame, rest) ↦ read_file_loop fuel rest (frames ++ frame ∷ []) (bads ++ bad ∷ [])
      | err e ↦ if is_eof e then (frames, bads, none) else (frames, bads, some e)
    ]

unfoldable pub read_g192_file : List ℕ → List (List ℕ) × List Bool × Option Error
read_g192_file r = read_file_loop (suc (length r)) r [] []
