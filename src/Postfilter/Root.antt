-- ===== src/Postfilter/Root.antt =====
-- internal/postfilter/agc.go: the loops of the square root.
use g.Base.{
  ℤ, pos, quot_ℤ, quot, ◌+ℤ◌, leb_ℤ, pos_part, neg_part, ap, sym, subst, ℕ, zero, suc, ◌+◌, ◌-◌,
  ◌*◌, ◌/◌, ◌^◌, ◌≤◌, ◌<◌, ◌≡◌, refl, arith, Bool, true, false, leb, ltb, if-cases,
}
use native.Mathlib.Nat.{pow-suc, div-le_self}
use g.Postfilter.LongTerm.{norm_shift_loop}
use g.Postfilter.Agc.{next_guess, isqrt_loop, isqrt64, root_loop}

-- The largest number whose square is at most `x`.
pub record IsRoot (x r : ℕ) : Type 0 where
  pub below : r * r ≤ x
  pub above : x < (r + 1) * (r + 1)

square_split : (a d : ℕ) → (a + (a + d)) * (a + (a + d)) ≡ 4 * (a * (a + d)) + d * d
square_split a d = grind arith

pub products_le : (a b c d : ℕ) → a ≤ b → c ≤ d → a * c ≤ b * d
products_le a b c d h k = grind arith

double : (m : ℕ) → (m + m) * (m + m) ≡ 4 * (m * m)
double m = grind arith

quotient_lt : (x g : ℕ) → 1 ≤ g → x < g * (x / g + 1)
quotient_lt x g h = grind arith

quotient_le : (x g : ℕ) → g ≤ x / g → g * g ≤ x
quotient_le x g h = grind arith

-- Four times a product is at most the square of the sum.
squares_le : (a b : ℕ) → 4 * (a * b) ≤ (a + b) * (a + b)
squares_le a b = grind (arith, square_split a (b - a), square_split b (a - b))

-- The rounds of the loop without the bounds of its numbers.
unfoldable newton_loop : ℕ → ℕ → ℕ → ℕ
newton_loop zero x guess = guess
newton_loop (suc fuel) x guess =
    let next = (guess + x / guess) / 2 in
    elim (leb guess next) [ true ↦ guess | false ↦ newton_loop fuel x next ]

-- A round of Newton's leads to the root or above it.
newton_le : (x g : ℕ) → 1 ≤ g → x < ((g + x / g) / 2 + 1) * ((g + x / g) / 2 + 1)
newton_le x g h =
    let n = (g + x / g) / 2 + 1 in
    omega (
      arith,
      quotient_lt x g h,
      squares_le g (x / g + 1),
      products_le (g + (x / g + 1)) (n + n) (g + (x / g + 1)) (n + n) (omega arith) (omega arith),
      double n,
    )

root_le : (x r s : ℕ) → r * r ≤ x → x < (s + 1) * (s + 1) → r ≤ s
root_le x r s h k = grind (arith, products_le (s + 1) r (s + 1) r)

newton_loop-IsRoot :
    (fuel x guess : ℕ)
    → 1 ≤ x
    → 1 ≤ guess
    → guess ≤ fuel
    → x < (guess + 1) * (guess + 1)
    → IsRoot x (newton_loop fuel x guess)
unfolding newton_loop
newton_loop-IsRoot zero x guess h k l m = absurd (omega arith)
newton_loop-IsRoot (suc fuel) x guess h k l m =
    let next = (guess + x / guess) / 2 in
    let newton = newton_le x guess k in
    chosen (leb guess next) refl
      λ falls. newton_loop-IsRoot fuel x next h (some next newton) (ground arith) newton
  where
    some : (next : ℕ) → x < (next + 1) * (next + 1) → 1 ≤ next
    some zero l = absurd (omega arith)
    some (suc next) l = omega arith

    chosen :
        (stops : Bool)
        → leb guess ((guess + x / guess) / 2) ≡ stops
        → (leb guess ((guess + x / guess) / 2) ≡ false
            → IsRoot x (newton_loop fuel x ((guess + x / guess) / 2)))
        → IsRoot x
            (elim stops [ true ↦ guess | false ↦ newton_loop fuel x ((guess + x / guess) / 2) ])
    chosen true e rest = record { below = quotient_le x guess (ground arith); above = m }
    chosen false e rest = rest e

fuelled-IsRoot : (x fuel : ℕ) → x ≤ fuel → IsRoot x (newton_loop fuel x x)
unfolding newton_loop
fuelled-IsRoot zero zero h = record { below = omega arith; above = omega arith }
fuelled-IsRoot zero (suc fuel) h = record { below = omega arith; above = omega arith }
fuelled-IsRoot (suc x) fuel h =
    newton_loop-IsRoot fuel (suc x) (suc x) (omega arith) (omega arith) h (grind arith)

-- No round of the loop behind it.
root_loop-rests :
    (fuel numerator denominator root : ℕ)
    → 1 ≤ denominator
    → numerator / denominator < (root + 1) * (root + 1)
    → root_loop fuel numerator denominator root ≡ root
unfolding root_loop
root_loop-rests zero numerator denominator root h k = refl
root_loop-rests (suc fuel) numerator denominator root h k =
    if-cases (λ (r : ℕ). r ≡ root) (leb ((root + 1) * (root + 1) * denominator) numerator)
      (λ goes. absurd (grind (arith, over ((root + 1) * (root + 1))))) λ rests. refl
  where
    over : (s : ℕ) → s * denominator ≤ numerator → s ≤ numerator / denominator
    over s l = grind arith

quotient_least : (x g : ℕ) → 1 ≤ g → g ≤ x → 1 ≤ x / g
quotient_least x g h k = grind (arith, quotient_lt x g h)

products_grow : (a b : ℕ) → suc a + suc b ≤ suc a * suc b + 1
products_grow a b = grind arith

sum_le_product : (g q x : ℕ) → 1 ≤ g → 1 ≤ q → g * q ≤ x → g + q ≤ x + 1
sum_le_product zero q x h k l = absurd (omega arith)
sum_le_product (suc g) zero x h k l = absurd (omega arith)
sum_le_product (suc g) (suc q) x h k l = omega (arith, products_grow g q, l)

-- A round's sum is at most the number and 1, so it does not wrap.
sum_le : (x g : ℕ) → 1 ≤ g → g ≤ x → g + x / g ≤ x + 1
sum_le x g h k = sum_le_product g (x / g) x h (quotient_least x g h k) (grind arith)

next_guess_small :
    (x g : ℕ) → 1 ≤ g → g ≤ x → x < 2 ^ 63 - 1 → next_guess (pos x) (pos g) ≡ pos ((g + x / g) / 2)
unfolding next_guess quot_ℤ quot ◌+ℤ◌
next_guess_small x g h k l = ground (arith, sum_le x g h k)

isqrt_loop_small :
    (fuel x g : ℕ)
    → 1 ≤ g
    → g ≤ x
    → x < 2 ^ 63 - 1
    → isqrt_loop fuel (pos x) (pos g) ≡ pos (newton_loop fuel x g)
unfolding isqrt_loop newton_loop
isqrt_loop_small zero x g h k l = refl
isqrt_loop_small (suc fuel) x g h k l =
    let next = (g + x / g) / 2 in
    let same : leb_ℤ (pos g) (pos next) ≡ leb g next = ground arith in
    subst
      (λ n.
        elim (leb_ℤ (pos g) n) [ true ↦ pos g | false ↦ isqrt_loop fuel (pos x) n ]
        ≡ pos (newton_loop (suc fuel) x g))
      (sym (next_guess_small x g h k l))
      (subst
        (λ b.
          elim b [ true ↦ pos g | false ↦ isqrt_loop fuel (pos x) (pos next) ]
          ≡ pos (newton_loop (suc fuel) x g))
        (sym same)
        (chosen (leb g next) refl λ falls.
          isqrt_loop_small fuel x next (omega (arith, quotient_least x g h k)) (ground arith) l))
  where
    chosen :
        (stops : Bool)
        → leb g ((g + x / g) / 2) ≡ stops
        → (leb g ((g + x / g) / 2) ≡ false
            → isqrt_loop fuel (pos x) (pos ((g + x / g) / 2))
              ≡ pos (newton_loop fuel x ((g + x / g) / 2)))
        → elim stops [ true ↦ pos g | false ↦ isqrt_loop fuel (pos x) (pos ((g + x / g) / 2)) ]
          ≡ pos (elim stops [ true ↦ g | false ↦ newton_loop fuel x ((g + x / g) / 2) ])
    chosen true e rest = refl
    chosen false e rest = rest e

fuelled_small :
    (x fuel : ℕ) → x < 2 ^ 63 - 1 → isqrt_loop fuel (pos x) (pos x) ≡ pos (newton_loop fuel x x)
unfolding isqrt_loop newton_loop next_guess quot_ℤ quot ◌+ℤ◌
fuelled_small zero zero h = refl
fuelled_small zero (suc fuel) h = refl
fuelled_small (suc x) fuel h = isqrt_loop_small fuel (suc x) (suc x) (omega arith) (omega arith) h

least_newton : (x : ℕ) → x ≤ 0 → 0 ≡ newton_loop x x x
unfolding newton_loop
least_newton zero h = refl
least_newton (suc x) h = absurd (omega arith)

isqrt64_small : (x : ℕ) → x < 2 ^ 63 - 1 → isqrt64 (pos x) ≡ pos (newton_loop x x x)
unfolding isqrt64
isqrt64_small x h =
    if-cases (λ (r : ℤ). r ≡ pos (newton_loop x x x)) (leb_ℤ (pos x) (pos 0))
      {y = isqrt_loop x (pos x) (pos x)} (λ nothing. ap pos (least_newton x (ground arith)))
      λ something. fuelled_small x x h

-- For every number from 0 to 2 ^ 63 - 2, isqrt64 gives the largest number whose square is at most
-- it, and more rounds than the fuel of the model change nothing; for every index from 0 to 2 ^ 62 -
-- 1 the loop behind it in agcInverseSqrtTableValue takes no round, however much fuel it has.
pub isqrt64_lem :
    (x index more : ℕ)
    → x < 2 ^ 63 - 1
    → index < 2 ^ 62
    → let numerator = 16 * 32768 * 32768 in
      let root = isqrt64 (pos x) in
      let start = pos_part (isqrt64 (pos (numerator / (16 + index)))) in
      (neg_part root ≡ 0)
      × IsRoot x (pos_part root)
      × (isqrt_loop (x + more) (pos x) (pos x) ≡ root)
      × (root_loop more numerator (16 + index) start ≡ start)
isqrt64_lem x index more h k =
    let exact = fuelled-IsRoot x x (omega arith) in
    let longer = fuelled-IsRoot x (x + more) (omega arith) in
    let q = 16 * 32768 * 32768 / (16 + index) in
    let small : q < 2 ^ 63 - 1 = omega (arith, div-le_self (16 * 32768 * 32768) (16 + index)) in
    rw (isqrt64_small x h, isqrt64_small q small, fuelled_small x (x + more) h)
      (
        refl,
        exact,
        ap pos (
            omega (
              arith,
              root_le x (newton_loop (x + more) x x) (newton_loop x x x) longer.below exact.above,
              root_le x (newton_loop x x x) (newton_loop (x + more) x x) exact.below longer.above,
            )),
        root_loop-rests more (16 * 32768 * 32768) (16 + index) (newton_loop q q q) (omega arith)
            (fuelled-IsRoot q q (omega arith)).above,
      )

-- Fuel that could double the number to the limit lets the loop reach it.
norm_shift_loop_lem :
    (fuel m : ℕ) → 0x40000000 ≤ m * 2 ^ fuel → 0x40000000 ≤ m * 2 ^ norm_shift_loop fuel m
unfolding norm_shift_loop
norm_shift_loop_lem zero m h = h
norm_shift_loop_lem (suc fuel) m h =
    let rest = norm_shift_loop_lem fuel (m * 2) (omega (arith, doubled m fuel)) in
    if-cases (λ (n : ℕ). 0x40000000 ≤ m * 2 ^ n) (ltb m 0x40000000)
      (λ under. omega (arith, rest, doubled m (norm_shift_loop fuel (m * 2)))) λ over. ground arith
  where
    doubled : (m n : ℕ) → m * 2 ^ suc n ≡ m * 2 * 2 ^ n
    doubled m n = rw (pow-suc 2 n) (grind arith)
