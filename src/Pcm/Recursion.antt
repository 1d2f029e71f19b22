-- ===== src/Pcm/Recursion.antt =====
-- internal/pcm: preprocessor.go, the recursion of the filter in exact integers.
use g.Base.{
  ℕ, zero, suc, ◌+◌, ◌^◌, ◌≤◌, ◌<◌, ◌≡◌, refl, ap, ap₂, ◌∙◌, sym, arith, List, [], ◌∷◌, All, length,
  get_or, ℤ, pos, negsuc, ◌+ℤ◌, ◌*ℤ◌, asr, wrap, pos_part, neg_part, neg,
}
use g.Fixed.Saturate.{l_add, round, extract_h, saturate64}
use g.Fixed.Saturate.Laws.{IsWord16, IsWord32, clamp, saturate64-clamp, saturate64-InRange}
use g.Fixed.Shift.{l_shl, l_shl_left}
use g.Fixed.Mult.{l_mac, l_mult}
use g.Fixed.Mult.Laws.{l_mult-clamp}
use g.Pcm.{
  PreProcessor, coeff_a1, coeff_a2, coeff_b0, coeff_b1, coeff_b2, scale_feedback, accumulate,
  process_sample, process_loop, process,
}
use g.Pcm.Frames.{scale_feedback_lem, process_exact}

-- The next accumulator, from three samples and the two accumulators before it.
abbrev pub recursion : (x0 x1 x2 y1 y2 : ℤ) → ℤ
recursion x0 x1 x2 y1 y2 =
    let samples = pos 3798 *ℤ x0 *ℤ pos 2 +ℤ neg 7596 *ℤ x1 *ℤ pos 2 +ℤ pos 3798 *ℤ x2 *ℤ pos 2 in
    clamp 32 (
      clamp 32 (samples +ℤ clamp 32 (asr (pos 15614 *ℤ y1) 13))
      +ℤ clamp 32 (asr (neg 7466 *ℤ y2) 13))

-- The samples, from the two of the state.
abbrev pub heard : PreProcessor → List ℤ → ℕ → ℤ
heard p xs k = get_or (p.x2 ∷ p.x1 ∷ xs) k (pos 0)

-- What the filter makes of its state and `xs`: `y` are the accumulators, from the two of the state.
pub record IsResponse (p : PreProcessor) (xs : List ℤ) (res : List ℤ × PreProcessor) : Type 0 where
  pub y : ℕ → ℤ
  pub older : y 0 ≡ p.y2
  pub newer : y 1 ≡ p.y1
  pub follows :
      (n : ℕ)
      → n < length xs
      → let x = heard p xs in
        y (suc (suc n)) ≡ recursion (x (suc (suc n))) (x (suc n)) (x n) (y (suc n)) (y n)
  pub rounds :
      (n : ℕ)
      → n < length xs
      → get_or res.0 n (pos 0) ≡ clamp 16 (asr (y (suc (suc n)) +ℤ pos (2 ^ 13)) 14)
  pub count : length res.0 ≡ length xs
  pub state :
      let x = heard p xs in
      let n = length xs in res.1 ≡ record { x1 = x (suc n); x2 = x n; y1 = y (suc n); y2 = y n }

-- A tap of the numerator stays below 2 ^ 29.
abbrev IsTap : ℤ → Type 0
IsTap z = (pos_part z < 2 ^ 29) × (neg_part z < 2 ^ 29)

outer-IsTap : (x : ℤ) → IsWord16 x → IsTap (pos 3798 *ℤ x *ℤ pos 2)
unfolding ◌*ℤ◌
outer-IsTap (pos n) h = ground arith
outer-IsTap (negsuc n) h = ground arith

middle-IsTap : (x : ℤ) → IsWord16 x → IsTap (neg 7596 *ℤ x *ℤ pos 2)
unfolding ◌*ℤ◌
middle-IsTap (pos n) h = ground arith
middle-IsTap (negsuc n) h = ground arith

clamp_same : (z : ℤ) → IsWord32 z → clamp 32 z ≡ z
clamp_same (pos n) h = ground arith
clamp_same (negsuc n) h = ground arith

sum_parts :
    (a b : ℤ)
    → (pos_part (a +ℤ b) ≤ pos_part a + pos_part b) × (neg_part (a +ℤ b) ≤ neg_part a + neg_part b)
unfolding ◌+ℤ◌
sum_parts a b = ground arith

l_add-clamp : (a b : ℤ) → l_add a b ≡ clamp 32 (a +ℤ b)
unfolding l_add
l_add-clamp a b = saturate64-clamp (a +ℤ b)

l_add_exact : (a b : ℤ) → IsWord32 (a +ℤ b) → l_add a b ≡ a +ℤ b
l_add_exact a b h = l_add-clamp a b ∙ clamp_same (a +ℤ b) h

from_zero : (a : ℤ) → pos 0 +ℤ a ≡ a
unfolding ◌+ℤ◌
from_zero (pos n) = ground arith
from_zero (negsuc n) = ground arith

-- Three taps are summed with no cut.
taps_exact :
    (a b c : ℤ)
    → IsTap a
    → IsTap b
    → IsTap c
    → l_add (l_add (l_add (pos 0) (clamp 32 a)) (clamp 32 b)) (clamp 32 c) ≡ a +ℤ b +ℤ c
taps_exact a b c h k l =
    let one = from_zero a in
    let two = sum_parts a b in
    let three = sum_parts (a +ℤ b) c in
    ap₂ l_add
      (ap₂ l_add
          (ap (l_add (pos 0)) (clamp_same a (omega (arith, h)))
            ∙ l_add_exact (pos 0) a (rw one (omega (arith, h)))
            ∙ one)
          (clamp_same b (omega (arith, k)))
        ∙ l_add_exact a b (omega (arith, two, h, k)))
      (clamp_same c (omega (arith, l)))
    ∙ l_add_exact (a +ℤ b) c (omega (arith, two, three, h, k, l))

word_same : (x : ℤ) → IsWord16 x → wrap 16 x ≡ x
word_same (pos n) h = ground arith
word_same (negsuc n) h = ground arith

fed : (s f g : ℤ) → l_add (l_add s f) g ≡ clamp 32 (clamp 32 (s +ℤ f) +ℤ g)
fed s f g = ap (λ a. l_add a g) (l_add-clamp s f) ∙ l_add-clamp (clamp 32 (s +ℤ f)) g

tap : (c x : ℤ) → IsWord16 c → IsWord16 x → l_mult c (wrap 16 x) ≡ clamp 32 (c *ℤ x *ℤ pos 2)
tap c x h k = ap (l_mult c) (word_same x k) ∙ l_mult-clamp c x h k

accumulate-IsWord32 : (p : PreProcessor) (x : ℤ) → IsWord32 (accumulate p x)
unfolding accumulate l_add
accumulate-IsWord32 p x = saturate64-InRange _

accumulate_lem :
    (p : PreProcessor) (x0 : ℤ)
    → IsWord16 x0
    → IsWord16 p.x1
    → IsWord16 p.x2
    → accumulate p x0 ≡ recursion x0 p.x1 p.x2 p.y1 p.y2
unfolding accumulate l_mac
accumulate_lem p x0 h k l =
    let sum = pos 3798 *ℤ x0 *ℤ pos 2 +ℤ neg 7596 *ℤ p.x1 *ℤ pos 2 +ℤ pos 3798 *ℤ p.x2 *ℤ pos 2 in
    ap₂ (λ s f. l_add (l_add s f) (scale_feedback coeff_a2 p.y2))
      (ap₂ l_add
          (ap₂ (λ t u. l_add (l_add (pos 0) t) u) (l_mult-clamp coeff_b0 x0 (omega arith) h)
            (tap coeff_b1 p.x1 (omega arith) k))
          (tap coeff_b2 p.x2 (omega arith) l)
        ∙ taps_exact _ _ _ (outer-IsTap x0 h) (middle-IsTap p.x1 k) (outer-IsTap p.x2 l))
      (scale_feedback_lem coeff_a1 p.y1)
    ∙ ap (l_add (l_add sum (clamp 32 (asr (pos 15614 *ℤ p.y1) 13))))
        (scale_feedback_lem coeff_a2 p.y2)
    ∙ fed sum (clamp 32 (asr (pos 15614 *ℤ p.y1) 13)) (clamp 32 (asr (neg 7466 *ℤ p.y2) 13))

round_shifted :
    (acc : ℤ) → IsWord32 acc → round (l_shl acc (pos 2)) ≡ clamp 16 (asr (acc +ℤ pos (2 ^ 13)) 14)
unfolding round l_shl l_shl_left l_add extract_h saturate64 ◌+ℤ◌ ◌*ℤ◌
round_shifted (pos n) h = ground arith
round_shifted (negsuc n) h = ground arith

-- A list of values with one more before it.
abbrev before : ℤ → (ℕ → ℤ) → ℕ → ℤ
before z y zero = z
before z y (suc n) = y n

-- The state behind a sample.
abbrev moved : PreProcessor → ℤ → PreProcessor
moved p x = record { x1 = x; x2 = p.x1; y1 = accumulate p x; y2 = p.y1 }

module _ (p : PreProcessor) (x : ℤ) (xs : List ℤ) (h : IsWord16 x) (k : IsWord16 p.x1)
    (l : IsWord16 p.x2) (rest : IsResponse (moved p x) xs (process_loop (moved p x) xs)) where
  accumulator_follows :
      (n : ℕ)
      → n < length (x ∷ xs)
      → let v = heard p (x ∷ xs) in
        let y = before p.y2 rest.y in
        y (suc (suc n)) ≡ recursion (v (suc (suc n))) (v (suc n)) (v n) (y (suc n)) (y n)
  accumulator_follows zero m =
      rest.newer
      ∙ accumulate_lem p x h k l
      ∙ ap (λ y. recursion x p.x1 p.x2 y p.y2) (sym rest.older)
  accumulator_follows (suc n) m = rest.follows n (omega (arith, m))

  sample_rounds :
      (n : ℕ)
      → n < length (x ∷ xs)
      → get_or (process_loop p (x ∷ xs)).0 n (pos 0)
        ≡ clamp 16 (asr (before p.y2 rest.y (suc (suc n)) +ℤ pos (2 ^ 13)) 14)
  unfolding process_loop process_sample
  sample_rounds zero m =
      round_shifted (accumulate p x) (accumulate-IsWord32 p x)
      ∙ ap (λ y. clamp 16 (asr (y +ℤ pos (2 ^ 13)) 14)) (sym rest.newer)
  sample_rounds (suc n) m = rest.rounds n (omega (arith, m))

  one_more : IsResponse p (x ∷ xs) (process_loop p (x ∷ xs))
  unfolding process_loop process_sample
  one_more = record {
    y = before p.y2 rest.y;
    older = refl;
    newer = rest.older;
    follows = accumulator_follows;
    rounds = sample_rounds;
    count = ap suc rest.count;
    state = rest.state;
  }

process_loop-IsResponse :
    (p : PreProcessor) (xs : List ℤ)
    → IsWord16 p.x1
    → IsWord16 p.x2
    → All IsWord16 xs
    → IsResponse p xs (process_loop p xs)
unfolding process_loop
process_loop-IsResponse p [] h k l = record {
  y = λ n. get_or (p.y2 ∷ p.y1 ∷ []) n (pos 0);
  older = refl;
  newer = refl;
  follows = λ n m. absurd (omega arith);
  rounds = λ n m. absurd (omega arith);
  count = refl;
  state = refl;
}
process_loop-IsResponse p (x ∷ xs) h k l =
    one_more p x xs l.0 h k (process_loop-IsResponse (moved p x) xs l.0 h l.1)

-- For a filter state whose two samples are 16-bit words, 16-bit samples and an output slice of the
-- same length, Process is the difference equation of its comment: there are accumulators, which
-- start with the two of the state, and each next one is twice the sum of 3798, -7596 and 3798 times
-- the last three samples, plus 15614 times the last accumulator over 2 ^ 13, plus -7466 times the
-- one before it over 2 ^ 13, where each quotient is rounded down and cut to 32 bits and the sum is
-- cut to 32 bits after each of them; each output is its accumulator over 2 ^ 14 to the nearest with
-- halves up, cut to 16 bits; there are as many outputs as samples; and the state left holds the
-- last two samples and accumulators.
pub process-IsResponse :
    (p : PreProcessor) (xs out : List ℤ)
    → IsWord16 p.x1
    → IsWord16 p.x2
    → All IsWord16 xs
    → length out ≡ length xs
    → IsResponse p xs (process p xs out)
process-IsResponse p xs out h k l e =
    rw (process_exact p xs out e) (process_loop-IsResponse p xs h k l)
