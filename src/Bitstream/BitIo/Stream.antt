-- ===== src/Bitstream/BitIo/Stream.antt =====
-- What the bit writer and reader of internal/bitstream/bitio.go do to the bits of the slice.
use Prim.Native.Nat.{bit_or}
use native.Mathlib.Nat.{zero-div}
use g.Base.{
  ℕ, zero, suc, ◌+◌, ◌-◌, ◌*◌, ◌/◌, ◌%◌, ◌^◌, ◌≤◌, ◌<◌, ◌≡◌, refl, List, max, arith, ◌==◌,
  if◌then◌else◌, length, get_or, replicate, length-set, get_or-set_self, get_or-set_ne,
}
use native.Mathlib.Decide.{ℕ_discrete}
use g.Base.Bits.{test_bit, test_bit-pow, test_bit-or}
use g.Bitstream.BitIo.{BitWriter, init_writer, write_bit, write}

-- Bit `p` of a slice, from the most significant bit of the first byte on.
abbrev pub bit_at : List ℕ → ℕ → ℕ
bit_at buf p = test_bit (get_or buf (p / 8) 0) (7 - p % 8)

-- A round of `Write` sets the bit at the position, if there is one to set, and no other.
pub write_bit_at :
    (b p : ℕ) (w : BitWriter)
    → w.bit_pos < 8 * length w.buf
    → b < 2
    → bit_at (write_bit b w).buf p
      ≡ (if p == w.bit_pos then max (bit_at w.buf p) b else bit_at w.buf p)
unfolding write_bit
write_bit_at b p w room h = ground (
  arith,
  test_bit-or (7 - p % 8) (get_or w.buf (w.bit_pos / 8) 0) (2 ^ (7 - w.bit_pos % 8)),
  test_bit-pow (7 - w.bit_pos % 8) (7 - p % 8),
  get_or-set_self w.buf (w.bit_pos / 8)
      (bit_or (get_or w.buf (w.bit_pos / 8) 0) (2 ^ (7 - w.bit_pos % 8))) 0,
  get_or-set_ne w.buf (w.bit_pos / 8) (p / 8)
      (bit_or (get_or w.buf (w.bit_pos / 8) 0) (2 ^ (7 - w.bit_pos % 8))) 0,
)

pub length-write_bit : (b : ℕ) (w : BitWriter) → length (write_bit b w).buf ≡ length w.buf
unfolding write_bit
length-write_bit b w = ground (
  arith,
  length-set w.buf (w.bit_pos / 8)
      (bit_or (get_or w.buf (w.bit_pos / 8) 0) (2 ^ (7 - w.bit_pos % 8))),
)

bit_pos-write_bit : (b : ℕ) (w : BitWriter) → (write_bit b w).bit_pos ≡ w.bit_pos + 1
unfolding write_bit
bit_pos-write_bit b w = refl

-- Nothing is set from the position on.
abbrev pub IsClear : BitWriter → Type 0
IsClear w = (p : ℕ) → w.bit_pos ≤ p → bit_at w.buf p ≡ 0

get_or-zeros : (n i : ℕ) → get_or {A = ℕ} (replicate n 0) i 0 ≡ 0
get_or-zeros zero i = refl
get_or-zeros (suc n) zero = refl
get_or-zeros (suc n) (suc i) = get_or-zeros n i

pub zeros-IsClear : (n : ℕ) → IsClear (init_writer (replicate n 0))
zeros-IsClear n p h = ground (arith, get_or-zeros n (p / 8), zero-div (2 ^ (7 - p % 8)))

-- `out` is `w` after `Write(value, n)`: the low `n` bits of the value stand at the old position,
-- the most significant first, and no other bit has changed.
pub record Wrote (value n : ℕ) (w out : BitWriter) : Type 0 where
  pub moved : out.bit_pos ≡ w.bit_pos + n
  pub same_length : length out.buf ≡ length w.buf
  pub before : (p : ℕ) → p < w.bit_pos → bit_at out.buf p ≡ bit_at w.buf p
  pub inside : (j : ℕ) → j < n → bit_at out.buf (w.bit_pos + j) ≡ test_bit value (n - 1 - j)
  pub clear : IsClear out

-- One round before the others.
module _ (b : ℕ) (w : BitWriter) (clear : IsClear w) (room : w.bit_pos < 8 * length w.buf)
    (digit : b < 2) where
  IsClear-write_bit : IsClear (write_bit b w)
  IsClear-write_bit p h =
      ground (arith, bit_pos-write_bit b w, write_bit_at b p w room digit, clear p)

  Wrote-write_bit :
      {value n : ℕ} {out : BitWriter}
      → b ≡ test_bit value n
      → Wrote value n (write_bit b w) out
      → Wrote value (suc n) w out
  Wrote-write_bit {n} e rest = record {
    moved = omega (arith, rest.moved, bit_pos-write_bit b w);
    same_length = omega (arith, rest.same_length, length-write_bit b w);
    before =
        λ p h. ground (arith, rest.before p, bit_pos-write_bit b w, write_bit_at b p w room digit);
    inside = λ j h. elim (ℕ_discrete j 0) [
      | yes z ↦ ground (
        arith,
        rest.before w.bit_pos,
        bit_pos-write_bit b w,
        write_bit_at b w.bit_pos w room digit,
        clear w.bit_pos,
      )
      | no nz ↦ ground (arith, rest.inside (j - 1), bit_pos-write_bit b w)
    ];
    clear = rest.clear;
  }

pub write-Wrote :
    (n value : ℕ) (w : BitWriter)
    → IsClear w
    → w.bit_pos + n ≤ 8 * length w.buf
    → Wrote value n w (write value n w)
unfolding write
write-Wrote zero value w clear room = record {
  moved = omega arith;
  same_length = refl;
  before = λ p h. refl;
  inside = λ j h. absurd (omega arith);
  clear = clear;
}
write-Wrote (suc n) value w clear room =
    let b = test_bit value n in
    let w' = write_bit b w in
    let fits : w'.bit_pos + n ≤ 8 * length w'.buf =
      omega (arith, length-write_bit b w, bit_pos-write_bit b w) in
    Wrote-write_bit b w clear (omega arith) (omega arith) refl
      (write-Wrote n value w' (IsClear-write_bit b w clear (omega arith) (omega arith)) fits)
