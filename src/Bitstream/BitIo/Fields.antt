-- ===== src/Bitstream/BitIo/Fields.antt =====
-- The numbers that `Read` of internal/bitstream/bitio.go takes from the bits of a slice.
use native.Mathlib.Nat.{
  pow-suc, mul-add-mod_self_right, mul-add-div_right, mod-eq_of_lt, div-eq_of_lt, one-le-pow,
  zero-div, pow-le-pow_right,
}
use Prim.Native.Nat.{bit_or}
use g.Base.{
  ◌∙◌, ℕ, zero, suc, ◌+◌, ◌-◌, ◌*◌, ◌/◌, ◌%◌, ◌^◌, ◌≤◌, ◌<◌, ◌≡◌, refl, ap, List, [], ◌∷◌, arith,
  length, get_or,
}
use g.Base.Bits.{test_bit, or_shifted, mod-pow_suc, test_bit-mod}
use g.Bitstream.BitIo.{BitReader, next_bit, read_loop, read}
use g.Bitstream.BitIo.Stream.{bit_at}

-- The number that `n` bits from bit `p` on stand for.
unfoldable pub field : List ℕ → ℕ → ℕ → ℕ
field buf p zero = 0
field buf p (suc n) = bit_at buf p * 2 ^ n + field buf (p + 1) n

pub field-lt : (buf : List ℕ) (p n : ℕ) → field buf p n < 2 ^ n
unfolding field
field-lt buf p zero = omega arith
field-lt buf p (suc n) = omega (arith, pow-suc 2 n, field-lt buf (p + 1) n, bit_scaled)
  where
    bit_scaled : bit_at buf p * 2 ^ n ≤ 2 ^ n
    bit_scaled = grind arith

get_or_past : (buf : List ℕ) (i : ℕ) → length buf ≤ i → get_or buf i 0 ≡ 0
get_or_past [] i h = refl
get_or_past (x ∷ xs) zero h = absurd (omega arith)
get_or_past (x ∷ xs) (suc i) h = get_or_past xs i (omega arith)

next_bit-eq-bit_at : (r : BitReader) → next_bit r ≡ bit_at r.buf r.bit_pos
unfolding next_bit
next_bit-eq-bit_at r =
    ground (arith, get_or_past r.buf (r.bit_pos / 8), zero-div (2 ^ (7 - r.bit_pos % 8)))

-- The accumulator moves up by a bit, and does not leave 16 bits while it has room for the rest.
push_bit :
    (out bit n : ℕ)
    → bit < 2
    → (out + 1) * 2 ^ suc n ≤ 2 ^ 16
    → bit_or (out * 2 % 2 ^ 16) bit ≡ out * 2 + bit
push_bit out bit n digit room = ground (arith, or_shifted 1 out bit, doubled)
  where
    doubled : (out + 1) * 2 ≤ 2 ^ 16
    doubled = grind (arith, pow-suc 2 n, one-le-pow n 2)

pub read_loop_lem :
    (n out : ℕ) (r : BitReader)
    → (out + 1) * 2 ^ n ≤ 2 ^ 16
    → read_loop n out r
      ≡ (out * 2 ^ n + field r.buf r.bit_pos n, record r { bit_pos = r.bit_pos + n })
unfolding read_loop field
read_loop_lem zero out r h = ground arith
read_loop_lem (suc n) out r h =
    let b = bit_at r.buf r.bit_pos in
    let r' : BitReader = record r { bit_pos = r.bit_pos + 1 } in
    let digit : b < 2 = omega arith in
    let room : (out * 2 + b + 1) * 2 ^ n ≤ 2 ^ 16 = grind (arith, pow-suc 2 n) in
    rw (next_bit-eq-bit_at r, push_bit out b n digit h)
      (read_loop_lem n (out * 2 + b) r' room
        ∙ ground (arith, ap (λ (t : ℕ). out * t) (pow-suc 2 n)))

-- Bits that are those of a number, most significant first, read as its low bits.
pub field_of_bits :
    (buf : List ℕ) (v p n : ℕ)
    → ((j : ℕ) → j < n → bit_at buf (p + j) ≡ test_bit v (n - 1 - j))
    → field buf p n ≡ v % 2 ^ n
unfolding field
field_of_bits buf v p zero h = omega arith
field_of_bits buf v p (suc n) h = omega (
  arith,
  mod-pow_suc v n,
  ap (λ (t : ℕ). t * 2 ^ n) first,
  field_of_bits buf v (p + 1) n (λ j k. ground (arith, h (suc j))),
)
  where
    first : bit_at buf p ≡ test_bit v n
    first = ground (arith, h 0)

pub test_bit-field :
    (buf : List ℕ) (p n j : ℕ) → j < n → test_bit (field buf p n) (n - 1 - j) ≡ bit_at buf (p + j)
unfolding field
test_bit-field buf p zero j h = absurd (omega arith)
test_bit-field buf p (suc n) zero h = ground (
  arith,
  mul-add-div_right (one-le-pow n 2 (omega arith)) (bit_at buf p) (field buf (p + 1) n),
  div-eq_of_lt (field-lt buf (p + 1) n),
)
test_bit-field buf p (suc n) (suc j) h = ground (
  arith,
  test_bit-mod n (n - 1 - j) (bit_at buf p * 2 ^ n + field buf (p + 1) n),
  mul-add-mod_self_right (bit_at buf p) (2 ^ n) (field buf (p + 1) n),
  mod-eq_of_lt (field-lt buf (p + 1) n),
  test_bit-field buf (p + 1) n j,
)

-- `Read(n)` for the widths of the frame returns the field at the position and moves past it.
pub read_lem :
    (n : ℕ) (buf : List ℕ) (p : ℕ)
    → n ≤ 16
    → read n (record { buf = buf; bit_pos = p })
      ≡ (field buf p n, record { buf = buf; bit_pos = p + n })
unfolding read
read_lem n buf p h = ground (arith, read_loop_lem n 0 (record { buf = buf; bit_pos = p }) room)
  where
    room : (0 + 1) * 2 ^ n ≤ 2 ^ 16
    room = omega (arith, pow-le-pow_right {n = 2} (omega arith) h)
