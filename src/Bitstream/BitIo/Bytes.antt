-- ===== src/Bitstream/BitIo/Bytes.antt =====
-- Slices of bytes and their bits, for the writer of internal/bitstream/bitio.go.
use Prim.Native.Nat.{bit_or}
use native.Mathlib.Nat.{pow-le-pow_right}
use g.Base.{
  ℕ, zero, suc, ◌+◌, ◌-◌, ◌*◌, ◌/◌, ◌%◌, ◌^◌, ◌<◌, ◌≡◌, refl, ap, ap₂, List, [], ◌∷◌, arith, Bool,
  true, false, if◌then◌else◌, length, get_or, set, All,
}
use g.Base.Bits.{test_bit, mod-pow_suc, bit_or-lt}
use g.Bitstream.BitIo.{BitWriter, write_bit, write}
use g.Bitstream.BitIo.Stream.{bit_at}

abbrev pub IsByte : ℕ → Type 0
IsByte b = b < 256

low_bits_ext : (n a b : ℕ) → ((k : ℕ) → k < n → test_bit a k ≡ test_bit b k) → a % 2 ^ n ≡ b % 2 ^ n
low_bits_ext zero a b h = omega arith
low_bits_ext (suc n) a b h = omega (
  arith,
  mod-pow_suc a n,
  mod-pow_suc b n,
  ap (λ (t : ℕ). t * 2 ^ n) (h n (omega arith)),
  low_bits_ext n a b (λ k l. h k (omega arith)),
)

byte_ext : (a b : ℕ) → IsByte a → IsByte b → ((k : ℕ) → k < 8 → test_bit a k ≡ test_bit b k) → a ≡ b
byte_ext a b p q h = omega (arith, low_bits_ext 8 a b h)

pub bytes_ext :
    (xs ys : List ℕ)
    → length xs ≡ length ys
    → All IsByte xs
    → All IsByte ys
    → ((p : ℕ) → p < 8 * length xs → bit_at xs p ≡ bit_at ys p)
    → xs ≡ ys
bytes_ext [] [] e p q h = refl
bytes_ext [] (y ∷ ys) e p q h = absurd (omega arith)
bytes_ext (x ∷ xs) [] e p q h = absurd (omega arith)
bytes_ext (x ∷ xs) (y ∷ ys) e p q h =
    ap₂ ◌∷◌ (byte_ext x y p.0 q.0 (λ k l. ground (arith, h (7 - k))))
      (bytes_ext xs ys (omega arith) p.1 q.1 (λ i l. ground (arith, h (8 + i))))

All-set : (xs : List ℕ) (i v : ℕ) → All IsByte xs → IsByte v → All IsByte (set xs i v)
All-set [] i v h k = tt
All-set (x ∷ xs) zero v h k = (k, h.1)
All-set (x ∷ xs) (suc i) v h k = (h.0, All-set xs i v h.1 k)

get_or-IsByte : (xs : List ℕ) (i : ℕ) → All IsByte xs → IsByte (get_or xs i 0)
get_or-IsByte [] i h = omega arith
get_or-IsByte (x ∷ xs) zero h = h.0
get_or-IsByte (x ∷ xs) (suc i) h = get_or-IsByte xs i h.1

All-if :
    (c : Bool) (xs ys : List ℕ) → All IsByte xs → All IsByte ys → All IsByte (if c then xs else ys)
All-if true xs ys h k = h
All-if false xs ys h k = k

pub write_bit-IsByte : (b : ℕ) (w : BitWriter) → All IsByte w.buf → All IsByte (write_bit b w).buf
unfolding write_bit
write_bit-IsByte b w h =
    All-if _ (set w.buf i (bit_or (get_or w.buf i 0) (2 ^ j))) w.buf
      (All-set w.buf i _ h (bit_or-lt 8 (get_or w.buf i 0) (2 ^ j) (get_or-IsByte w.buf i h) fits))
      h
  where
    i : ℕ
    i = w.bit_pos / 8

    j : ℕ
    j = 7 - w.bit_pos % 8

    fits : 2 ^ j < 2 ^ 8
    fits = omega (arith, pow-le-pow_right {n = 2} (omega arith) {i = j} {j = 7} (omega arith))

pub write-IsByte :
    (n value : ℕ) (w : BitWriter) → All IsByte w.buf → All IsByte (write value n w).buf
unfolding write
write-IsByte zero value w h = h
write-IsByte (suc n) value w h =
    write-IsByte n value (write_bit (test_bit value n) w) (write_bit-IsByte _ w h)
