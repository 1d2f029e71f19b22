-- ===== src/Postfilter/Correlation.antt =====
-- internal/postfilter/longterm.go: how far down a correlation can go.
use g.Base.{
  ℕ, zero, suc, ◌+◌, ◌-◌, ◌*◌, ◌^◌, ◌≤◌, ◌<◌, ◌≡◌, arith, int_laws, List, InRange, ℤ, pos, negsuc,
  neg_part, ◌+ℤ◌, ◌*ℤ◌, ◌≤ℤ◌, asr,
}
use g.Lsp.Stability.Sort.{Words}
use g.Fixed.Saturate.Laws.{IsWord16}
use g.Postfilter.Root.{products_le}
use g.Synth.{at}
use g.Postfilter.LongTerm.{scaled_product, correlation}

-- A product of two words, each a quarter.
quarter_IsWord14 : (a : ℤ) → IsWord16 a → InRange 14 (asr a 2)
quarter_IsWord14 (pos a) h = omega arith
quarter_IsWord14 (negsuc a) h = omega arith

twice_pos : (x : ℕ) → pos 2 *ℤ pos x ≡ pos (2 * x)
unfolding ◌*ℤ◌
twice_pos x = grind int_laws

twice_negsuc : (x : ℕ) → pos 2 *ℤ negsuc x ≡ negsuc (2 * x + 1)
unfolding ◌*ℤ◌
twice_negsuc x = grind int_laws

product_above : (x y : ℤ) → InRange 15 x → InRange 14 y → negsuc (2 ^ 28) ≤ℤ x *ℤ y
unfolding ◌*ℤ◌
product_above (pos x) (pos y) h k = grind int_laws
product_above (pos x) (negsuc y) h k = grind (int_laws, products_le x 16384 (suc y) 8192)
product_above (negsuc x) (pos y) h k = grind (int_laws, products_le (suc x) 16384 y 8192)
product_above (negsuc x) (negsuc y) h k = grind int_laws

twice_InRange : (x : ℤ) → InRange 14 x → InRange 15 (pos 2 *ℤ x)
twice_InRange (pos x) h = rw (twice_pos x) (omega arith)
twice_InRange (negsuc x) h = rw (twice_negsuc x) (omega arith)

-- The products of the search, and their sum.
scaled_product_above : (a b : ℤ) → IsWord16 a → IsWord16 b → negsuc (2 ^ 28) ≤ℤ scaled_product a b
unfolding scaled_product
scaled_product_above a b h k =
    product_above (pos 2 *ℤ asr a 2) (asr b 2) (twice_InRange (asr a 2) (quarter_IsWord14 a h))
      (quarter_IsWord14 b k)

neg_part_add : (a b : ℤ) → neg_part (a +ℤ b) ≤ neg_part a + neg_part b
unfolding ◌+ℤ◌
neg_part_add a b = ground arith

pub correlation_above :
    (left n : ℕ) (history : List ℤ) (t : ℕ) (sum : ℤ)
    → Words history
    → neg_part sum + left * (2 ^ 28 + 1) < 2 ^ 62
    → negsuc (2 ^ 62) ≤ℤ correlation left n history t sum
unfolding correlation
correlation_above zero n history t sum w h = omega arith
correlation_above (suc left) n history t sum w h =
    let a = at history (143 + n) in
    let b = at history (143 + n - t) in
    let p = scaled_product a b in
    let step = scaled_product_above a b (w (143 + n)) (w (143 + n - t)) in
    correlation_above left (n + 1) history t (sum +ℤ p) w
      (omega (arith, neg_part_add sum p, below p step))
  where
    below : (p : ℤ) → negsuc (2 ^ 28) ≤ℤ p → neg_part p ≤ 2 ^ 28 + 1
    below (pos p) k = omega arith
    below (negsuc p) k = omega arith
