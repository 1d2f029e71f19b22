-- ===== src/Bitstream/BitIo.antt =====
-- internal/bitstream/bitio.go: `BitWriter` and `BitReader`, which go through a byte slice from the
-- most significant bit of each byte down.
pub mod Stream
pub mod Fields
pub mod Bytes
use Prim.Native.Nat.{bit_or}
use g.Base.{
  ℕ, zero, suc, ◌+◌, ◌-◌, ◌*◌, ◌/◌, ◌%◌, ◌^◌, ◌&&◌, List, ltb, ◌==◌, if◌then◌else◌, length, get_or,
  set,
}
use g.Base.Bits.{test_bit}

pub record BitWriter : Type 0 where
  pub buf : List ℕ
  pub bit_pos : ℕ

abbrev pub init_writer : List ℕ → BitWriter
init_writer buf = record { buf = buf; bit_pos = 0 }

-- One round of the loop in `Write`: `bit` is `(value>>uint(i))&1`. The shift is by at most 7, so
-- `|=` on a byte leaves a byte.
unfoldable pub write_bit : ℕ → BitWriter → BitWriter
write_bit bit w =
    let byte_idx = w.bit_pos / 8 in
    let bit_idx = 7 - w.bit_pos % 8 in
    record w {
      buf =
          if bit == 1 && ltb byte_idx (length w.buf)
          then set w.buf byte_idx (bit_or (get_or w.buf byte_idx 0) (2 ^ bit_idx))
          else w.buf;
      bit_pos = w.bit_pos + 1;
    }

-- `Write`: the loop's `i` is one less than the rounds left.
pub write : ℕ → ℕ → BitWriter → BitWriter
write value zero w = w
write value (suc i) w = write value i (write_bit (test_bit value i) w)

pub record BitReader : Type 0 where
  pub buf : List ℕ
  pub bit_pos : ℕ

abbrev pub init_reader : List ℕ → BitReader
init_reader buf = record { buf = buf; bit_pos = 0 }

-- The bit that one round of the loop in `Read` takes: 0 past the end of the slice.
pub next_bit : BitReader → ℕ
next_bit r =
    let byte_idx = r.bit_pos / 8 in
    let bit_idx = 7 - r.bit_pos % 8 in
    if ltb byte_idx (length r.buf) then test_bit (get_or r.buf byte_idx 0) bit_idx else 0

-- `Read` with `out` so far, a uint16.
pub read_loop : ℕ → ℕ → BitReader → ℕ × BitReader
read_loop zero out r = (out, r)
read_loop (suc n) out r =
    read_loop n (bit_or (out * 2 % 2 ^ 16) (next_bit r)) (record r { bit_pos = r.bit_pos + 1 })

pub read : ℕ → BitReader → ℕ × BitReader
read n r = read_loop n 0 r
