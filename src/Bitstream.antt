-- ===== src/Bitstream.antt =====
-- internal/bitstream: the 80-bit frame on the wire. `Frame` (types.go), the errors (errors.go),
-- `Pack` and `Unpack` (pack.go) and `Parity` (parity.go). A byte slice is a list of numbers below
-- 256; a function that writes through a slice returns the new slice.
pub mod BitIo
pub mod Runs
pub mod RoundTrip
pub mod G192
mod Tests
use g.Base.{
  ℕ, zero, suc, ◌+◌, ◌-◌, ◌*◌, ◌/◌, ◌%◌, ◌^◌, ◌<◌, List, ◌++◌, if◌then◌else◌, ltb, length, take,
  drop, replicate,
}
use g.Base.Bits.{test_bit}
use g.Bitstream.BitIo.{BitWriter, init_writer, write, BitReader, init_reader, read}
use Prim.Native.Nat.{bit_xor}

abbrev pub frame_bits : ℕ
frame_bits = 80

abbrev pub frame_bytes : ℕ
frame_bytes = 10

pub record Frame : Type 0 where
  pub l0 : ℕ
  pub l1 : ℕ
  pub l2 : ℕ
  pub l3 : ℕ
  pub p1 : ℕ
  pub p0 : ℕ
  pub c1 : ℕ
  pub s1 : ℕ
  pub ga1 : ℕ
  pub gb1 : ℕ
  pub p2 : ℕ
  pub c2 : ℕ
  pub s2 : ℕ
  pub ga2 : ℕ
  pub gb2 : ℕ

-- `eof` and `unexpected_eof` are those of package io, which `ReadG192Frame` passes on.
pub data Error : Type 0 where
  short_output short_input bad_g192_sync bad_g192_length bad_g192_bit : Error
  eof unexpected_eof : Error

pub data Result {ℓ} (A : Type ℓ) : Type ℓ where
  ok : A → Result A
  err : Error → Result A

-- The fifteen writes of `Pack`, in the order of transmission.
pub write_frame : Frame → BitWriter → BitWriter
write_frame f w =
    let w = write f.l0 1 w in
    let w = write f.l1 7 w in
    let w = write f.l2 5 w in
    let w = write f.l3 5 w in
    let w = write f.p1 8 w in
    let w = write f.p0 1 w in
    let w = write f.c1 13 w in
    let w = write f.s1 4 w in
    let w = write f.ga1 3 w in
    let w = write f.gb1 4 w in
    let w = write f.p2 5 w in
    let w = write f.c2 13 w in let w = write f.s2 4 w in let w = write f.ga2 3 w in write f.gb2 4 w

-- `Pack` returns `out` as it leaves it: the first ten bytes are new.
pub pack : Frame → List ℕ → Result (List ℕ)
pack f out =
    if ltb (length out) frame_bytes
    then err short_output
    else ok ((write_frame f (init_writer (replicate frame_bytes 0))).buf ++ drop frame_bytes out)

-- The fifteen reads of `Unpack`.
pub read_frame : BitReader → Frame
read_frame r =
    let (l0, r) = read 1 r in
    let (l1, r) = read 7 r in
    let (l2, r) = read 5 r in
    let (l3, r) = read 5 r in
    let (p1, r) = read 8 r in
    let (p0, r) = read 1 r in
    let (c1, r) = read 13 r in
    let (s1, r) = read 4 r in
    let (ga1, r) = read 3 r in
    let (gb1, r) = read 4 r in
    let (p2, r) = read 5 r in
    let (c2, r) = read 13 r in
    let (s2, r) = read 4 r in
    let (ga2, r) = read 3 r in
    let (gb2, r) = read 4 r in
    record {
      l0 = l0;
      l1 = l1;
      l2 = l2;
      l3 = l3;
      p1 = p1;
      p0 = p0;
      c1 = c1;
      s1 = s1;
      ga1 = ga1;
      gb1 = gb1;
      p2 = p2;
      c2 = c2;
      s2 = s2;
      ga2 = ga2;
      gb2 = gb2;
    }

-- `Unpack` returns the new `*f`.
pub unpack : List ℕ → Result Frame
unpack bits =
    if ltb (length bits) frame_bytes
    then err short_input
    else ok (read_frame (init_reader (take frame_bytes bits)))

-- The loop of `Parity` with `n` rounds left, from bit `i` on.
parity_loop : ℕ → ℕ → ℕ → ℕ → ℕ
parity_loop zero i x p = p
parity_loop (suc n) i x p = parity_loop n (i + 1) x (bit_xor p (test_bit x i))

unfoldable pub parity : ℕ → ℕ
unfolding parity_loop
parity p1 = parity_loop 6 0 (p1 / 2 ^ 2 % 2 ^ 6) 0
