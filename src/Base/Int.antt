-- ===== src/Base/Int.antt =====
-- Go's signed integers over the native numbers, under the library's names: sums, products,
-- comparisons, arithmetic shifts and conversions that wrap.
use Prim.Native.Nat.{ℕ, suc, ◌+◌, ◌-◌, ◌*◌, ◌/◌, ◌%◌, ◌^◌, ◌≤◌, ◌<◌}
use mathlib.Core.Path.{◌≡◌}
use mathlib.Core.Bool.{Bool, true, ◌&&◌}
use native.Mathlib.Nat.{mul_comm}
use native.Mathlib.Omega.{arith}
use g.Base.Tests.{ltb, leb, if◌then◌else◌}

-- `negsuc n` is -(n + 1).
pub data ℤ : Type 0 where
  pos : ℕ → ℤ
  negsuc : ℕ → ℤ

abbrev pub pos_part : ℤ → ℕ
pos_part (pos n) = n
pos_part (negsuc n) = 0

abbrev pub neg_part : ℤ → ℕ
neg_part (pos n) = 0
neg_part (negsuc n) = suc n

-- a - b, as an integer.
abbrev pub sub_ℕ : ℕ → ℕ → ℤ
sub_ℕ a b = if leb b a then pos (a - b) else negsuc (b - a - 1)

infixl 65 ◌+ℤ◌ ◌-ℤ◌
infixl 70 ◌*ℤ◌
infix 50 ◌≤ℤ◌
unfoldable pub ◌+ℤ◌ : ℤ → ℤ → ℤ
a +ℤ b = sub_ℕ (pos_part a + pos_part b) (neg_part a + neg_part b)

unfoldable pub ◌-ℤ◌ : ℤ → ℤ → ℤ
a -ℤ b = sub_ℕ (pos_part a + neg_part b) (neg_part a + pos_part b)

unfoldable pub ◌*ℤ◌ : ℤ → ℤ → ℤ
a *ℤ b =
    sub_ℕ (pos_part a * pos_part b + neg_part a * neg_part b)
      (pos_part a * neg_part b + neg_part a * pos_part b)

abbrev pub ◌≤ℤ◌ : ℤ → ℤ → Type 0
a ≤ℤ b = pos_part a + neg_part b ≤ pos_part b + neg_part a

-- a < b, a ≤ b and a == b as tests.
abbrev pub ltb_ℤ : ℤ → ℤ → Bool
ltb_ℤ a b = ltb (pos_part a + neg_part b) (pos_part b + neg_part a)

abbrev pub leb_ℤ : ℤ → ℤ → Bool
leb_ℤ a b = leb (pos_part a + neg_part b) (pos_part b + neg_part a)

-- -(n), for the constants that the source writes with a sign.
abbrev pub neg : ℕ → ℤ
neg n = sub_ℕ 0 n

-- `a >> k`, which rounds towards minus infinity.
abbrev pub asr : ℤ → ℕ → ℤ
asr (pos n) k = pos (n / 2 ^ k)
asr (negsuc n) k = negsuc (n / 2 ^ k)

-- Division as Go has it, which cuts towards 0.
unfoldable pub quot : ℤ → ℕ → ℤ
quot (pos m) n = pos (m / n)
quot (negsuc m) n = neg (suc m / n)

-- The same by a divisor that may be negative.
unfoldable pub quot_ℤ : ℤ → ℤ → ℤ
quot_ℤ m (pos n) = quot m n
quot_ℤ m (negsuc n) = pos 0 -ℤ quot m (suc n)

-- The bit pattern of an integer at `w` bits, and the signed number that a pattern stands for.
abbrev pub to_bits : ℕ → ℤ → ℕ
to_bits w (pos n) = n % 2 ^ w
to_bits w (negsuc n) = 2 ^ w - 1 - n % 2 ^ w

abbrev pub of_bits : ℕ → ℕ → ℤ
of_bits w u = if ltb u (2 ^ (w - 1)) then pos u else negsuc (2 ^ w - 1 - u)

-- A conversion to a signed `w`-bit type keeps the low `w` bits.
abbrev pub wrap : ℕ → ℤ → ℤ
wrap w x = of_bits w (to_bits w x)

abbrev pub InRange : ℕ → ℤ → Type 0
InRange w x = (pos_part x < 2 ^ (w - 1)) × (neg_part x ≤ 2 ^ (w - 1))

pub +ℤ_parts :
    (a b : ℤ)
    → pos_part (a +ℤ b) + neg_part a + neg_part b ≡ neg_part (a +ℤ b) + pos_part a + pos_part b
unfolding ◌+ℤ◌
+ℤ_parts a b = ground arith

pub -ℤ_parts :
    (a b : ℤ)
    → pos_part (a -ℤ b) + neg_part a + pos_part b ≡ neg_part (a -ℤ b) + pos_part a + neg_part b
unfolding ◌-ℤ◌
-ℤ_parts a b = ground arith

pub eq_of_parts : (a b : ℤ) → pos_part a + neg_part b ≡ pos_part b + neg_part a → a ≡ b
eq_of_parts a b h = ground arith

-- Products, by signs.
pub mul_pos_pos : (m k : ℕ) → pos m *ℤ pos k ≡ pos (m * k)
unfolding ◌*ℤ◌
mul_pos_pos m k = ground arith

pub mul_negsuc_pos : (m k : ℕ) → 0 < k → negsuc m *ℤ pos k ≡ negsuc (suc m * k - 1)
unfolding ◌*ℤ◌
mul_negsuc_pos m k h = ground (arith, positive)
  where
    positive : 0 < suc m * k
    positive = grind arith

pub mul_negsuc_negsuc : (m k : ℕ) → negsuc m *ℤ negsuc k ≡ pos (suc m * suc k)
unfolding ◌*ℤ◌
mul_negsuc_negsuc m k = ground arith

pub *ℤ_comm : (a b : ℤ) → a *ℤ b ≡ b *ℤ a
unfolding ◌*ℤ◌
*ℤ_comm a b = ground (
  arith,
  mul_comm (pos_part a) (pos_part b),
  mul_comm (neg_part a) (neg_part b),
  mul_comm (pos_part a) (neg_part b),
  mul_comm (neg_part a) (pos_part b),
)

-- a == b, as a test.
abbrev pub eqb_ℤ : ℤ → ℤ → Bool
eqb_ℤ a b = leb_ℤ a b && leb_ℤ b a

pub eqb_ℤ_sound : (a b : ℤ) → eqb_ℤ a b ≡ true → a ≡ b
eqb_ℤ_sound a b h = ground arith

pub ruleset int_laws = (arith, +ℤ_parts, -ℤ_parts, eq_of_parts)
