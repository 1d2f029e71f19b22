-- ===== src/Base/Bits.antt =====
-- Binary digits of unsigned words: what `&` and `|` of Go do, digit by digit.
use Prim.Native.Nat.{ℕ, zero, suc, ◌+◌, ◌*◌, ◌/◌, ◌%◌, ◌^◌, ◌≤◌, ◌<◌, min, max}
use Prim.Native.Nat.{digits, bit_or, bit_and, bit_or-bitwise, bit_and-bitwise}
use mathlib.Core.Path.{◌≡◌, refl, sym, ap, ◌∙◌}
use native.Mathlib.Nat.{div-div-eq-div-mul, div-add-mod', pow-suc, zero-div, one-le-pow}
use native.Mathlib.Omega.{arith}
use g.Base.Tests.{◌==◌, if◌then◌else◌}

-- `(a >> k) & 1`
abbrev pub test_bit : ℕ → ℕ → ℕ
test_bit a k = a / 2 ^ k % 2

-- The recursion on digits takes its first number for fuel; other fuel that is enough gives the same.
module _ (z : ℕ → ℕ) (f : ℕ → ℕ → ℕ) where
  digits_other_fuel : (p q a b : ℕ) → a ≤ p → a ≤ q → digits z f p a b ≡ digits z f q a b
  digits_other_fuel zero zero a b h k = refl
  digits_other_fuel zero (suc q) zero b h k = refl
  digits_other_fuel zero (suc q) (suc a) b h k = absurd (omega arith)
  digits_other_fuel (suc p) zero zero b h k = refl
  digits_other_fuel (suc p) zero (suc a) b h k = absurd (omega arith)
  digits_other_fuel (suc p) (suc q) zero b h k = refl
  digits_other_fuel (suc p) (suc q) (suc a) b h k =
      ap (λ t. t * 2 + f (suc a % 2) (b % 2))
        (digits_other_fuel p q (suc a / 2) (b / 2) (omega arith) (omega arith))

-- The lowest digit and the rest.
bit_or_rest : (a b : ℕ) → bit_or a b ≡ bit_or (a / 2) (b / 2) * 2 + max (a % 2) (b % 2)
bit_or_rest zero b = omega (arith, bit_or-bitwise 0 b, bit_or-bitwise 0 (b / 2))
bit_or_rest (suc a) b = omega (
  arith,
  bit_or-bitwise (suc a) b,
  bit_or-bitwise (suc a / 2) (b / 2),
  digits_other_fuel (λ y. y) max a (suc a / 2) (suc a / 2) (b / 2) (omega arith) (omega arith),
)

bit_and_rest : (a b : ℕ) → bit_and a b ≡ bit_and (a / 2) (b / 2) * 2 + min (a % 2) (b % 2)
bit_and_rest zero b = omega (arith, bit_and-bitwise 0 b, bit_and-bitwise 0 (b / 2))
bit_and_rest (suc a) b = omega (
  arith,
  bit_and-bitwise (suc a) b,
  bit_and-bitwise (suc a / 2) (b / 2),
  digits_other_fuel (λ y. 0) min a (suc a / 2) (suc a / 2) (b / 2) (omega arith) (omega arith),
)

pub div-pow_suc : (a k : ℕ) → a / 2 ^ suc k ≡ a / 2 / 2 ^ k
div-pow_suc a k =
    sym (div-div-eq-div-mul a 2 (2 ^ k) ∙ ap (λ t. a / t) (omega (arith, pow-suc 2 k)))

-- `|` sets a digit where one of the two has it.
pub test_bit-or : (k a b : ℕ) → test_bit (bit_or a b) k ≡ max (test_bit a k) (test_bit b k)
test_bit-or zero a b = omega (arith, bit_or_rest a b)
test_bit-or (suc k) a b = omega (
  arith,
  div-pow_suc a k,
  div-pow_suc b k,
  div-pow_suc (bit_or a b) k,
  ap (λ (t : ℕ). t / 2 ^ k) halved,
  test_bit-or k (a / 2) (b / 2),
)
  where
    halved : bit_or a b / 2 ≡ bit_or (a / 2) (b / 2)
    halved = omega (arith, bit_or_rest a b)

-- `|` of numbers that fit `n` bits fits `n` bits.
pub bit_or-lt : (n a b : ℕ) → a < 2 ^ n → b < 2 ^ n → bit_or a b < 2 ^ n
bit_or-lt zero a b h k = ground (arith, bit_or-bitwise 0 b)
bit_or-lt (suc n) a b h k = omega (
  arith,
  pow-suc 2 n,
  bit_or_rest a b,
  bit_or-lt n (a / 2) (b / 2) (omega (arith, pow-suc 2 n)) (omega (arith, pow-suc 2 n)),
)

bit_or-zero : (n a : ℕ) → a ≤ n → bit_or a 0 ≡ a
bit_or-zero n zero h = refl
bit_or-zero zero (suc a) h = absurd (omega arith)
bit_or-zero (suc n) (suc a) h =
    omega (arith, bit_or_rest (suc a) 0, bit_or-zero n (suc a / 2) (omega arith))

-- `(q << k) | r` is a sum if `r` fits the `k` bits that the shift left free.
pub or_shifted : (k q r : ℕ) → r < 2 ^ k → bit_or (q * 2 ^ k) r ≡ q * 2 ^ k + r
or_shifted zero q r h = ground (arith, bit_or-zero q q)
or_shifted (suc k) q r h = ground (
  arith,
  ap (λ (t : ℕ). q * t) (pow-suc 2 k),
  pow-suc 2 k,
  bit_or_rest (q * 2 ^ suc k) r,
  or_shifted k q (r / 2),
)

-- The low `suc k` bits are bit `k` above the low `k` bits.
pub mod-pow_suc : (v k : ℕ) → v % 2 ^ suc k ≡ test_bit v k * 2 ^ k + v % 2 ^ k
mod-pow_suc v k = omega (
  arith,
  pow-suc 2 k,
  div-add-mod' v (2 ^ k),
  ap (λ (t : ℕ). t * 2 ^ k) (div-add-mod' (v / 2 ^ k) 2),
  div-add-mod' v (2 ^ suc k),
  ap (λ (t : ℕ). v / 2 ^ suc k * t) (pow-suc 2 k),
  ap (λ (t : ℕ). t * 2 ^ k) quotient,
)
  where
    quotient : v / 2 ^ suc k ≡ v / 2 ^ k / 2
    quotient = ap (λ t. v / t) (pow-suc 2 k) ∙ sym (div-div-eq-div-mul v (2 ^ k) 2)

-- The same from the lowest bit up.
mod-pow_low : (v k : ℕ) → v % 2 ^ suc k ≡ v / 2 % 2 ^ k * 2 + v % 2
mod-pow_low v k = omega (
  arith,
  div-add-mod' (v / 2) (2 ^ k),
  div-add-mod' v (2 ^ suc k),
  ap (λ (t : ℕ). v / 2 ^ suc k * t) (pow-suc 2 k),
  ap (λ (t : ℕ). t * 2 ^ k) (div-pow_suc v k),
)

-- The bits below `n` of the low `n` bits are those of the number.
pub test_bit-mod : (n k v : ℕ) → k < n → test_bit (v % 2 ^ n) k ≡ test_bit v k
test_bit-mod zero k v h = absurd (omega arith)
test_bit-mod (suc n) zero v h = omega (arith, mod-pow_low v n)
test_bit-mod (suc n) (suc k) v h = omega (
  arith,
  div-pow_suc v k,
  div-pow_suc (v % 2 ^ suc n) k,
  ap (λ (t : ℕ). t / 2 ^ k) halved,
  test_bit-mod n k (v / 2) (omega arith),
)
  where
    halved : v % 2 ^ suc n / 2 ≡ v / 2 % 2 ^ n
    halved = omega (arith, mod-pow_low v n)

-- The bits of a power of two.
pub test_bit-pow : (k j : ℕ) → test_bit (2 ^ k) j ≡ (if k == j then 1 else 0)
test_bit-pow zero zero = refl
test_bit-pow zero (suc j) = ground (arith, div-pow_suc 1 j, zero-div (2 ^ j))
test_bit-pow (suc k) zero = ground (arith, pow-suc 2 k)
test_bit-pow (suc k) (suc j) =
    ground (arith, div-pow_suc (2 ^ suc k) j, ap (λ (t : ℕ). t / 2 ^ j) halved, test_bit-pow k j)
  where
    halved : 2 ^ suc k / 2 ≡ 2 ^ k
    halved = omega (arith, pow-suc 2 k)

bit_and-zero : (n a : ℕ) → a ≤ n → bit_and a 0 ≡ 0
bit_and-zero n zero h = refl
bit_and-zero zero (suc a) h = absurd (omega arith)
bit_and-zero (suc n) (suc a) h =
    omega (arith, bit_and_rest (suc a) 0, bit_and-zero n (suc a / 2) (omega arith))

-- A mask of `k` ones keeps the low `k` bits.
pub and_mask : (k a m : ℕ) → m + 1 ≡ 2 ^ k → bit_and a m ≡ a % 2 ^ k
and_mask zero a m e = ground (arith, bit_and-zero a a)
and_mask (suc k) a m e = omega (
  arith,
  pow-suc 2 k,
  bit_and_rest a m,
  mod-pow_low a k,
  and_mask k (a / 2) (m / 2) (omega (arith, pow-suc 2 k, one-le-pow k 2)),
  one-le-pow k 2,
)
