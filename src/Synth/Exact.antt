-- ===== src/Synth/Exact.antt =====
-- internal/synth/filter.go: the filter without overflow, against its difference equation.
use native.Mathlib.Decide.{ℕ_discrete}
use g.Base.{
  ℕ, zero, suc, ◌+◌, ◌-◌, ◌<◌, ◌≤◌, ◌≡◌, refl, ap, ◌∙◌, sym, true, false, Bool, arith, List, length,
  set, length-set, if◌then◌else◌, ℤ, pos, ◌+ℤ◌, ◌-ℤ◌, ◌*ℤ◌, asr, wrap, negsuc, pos_part, neg_part,
  mul_pos_pos, mul_negsuc_pos, ◌^◌,
}
use g.Fixed.Saturate.{
  l_sub, l_sub_sets, l_add, l_add_sets, saturate64, saturate64_sets, round, round_sets, extract_h,
  set_overflow,
}
use g.Fixed.Saturate.Laws.{
  IsWord16, IsWord32, clamp, saturate64-clamp, saturate64-InRange, saturate64_sets_iff,
}
use g.Fixed.Shift.{l_shl, l_shl_sets, l_shl_left, l_shl_left_sets}
use g.Fixed.Mult.{l_mult, l_mult_sets, l_msu, l_msu_sets}
use g.Fixed.Mult.Laws.{words-IsProduct, l_mult-clamp}
use g.Lsp.Stability.Sort.{Words, Words-set, at-set}
use g.Lsp.Predictor.Words.{wrap16-IsWord16}
use g.Synth.{at, taps_loop, filtered, one_pass_loop}

-- Without overflow each operation is exact.
saturated_same : (x : ℤ) → saturate64_sets x ≡ false → saturate64 x ≡ x
saturated_same x h = saturate64-clamp x ∙ unclamped x ((saturate64_sets_iff x).0 h)
  where
    unclamped : (x : ℤ) → IsWord32 x → clamp 32 x ≡ x
    unclamped (pos n) h = ground arith
    unclamped (negsuc n) h = ground arith

product_same :
    (a b : ℤ) → IsWord16 a → IsWord16 b → l_mult_sets a b ≡ false → l_mult a b ≡ a *ℤ b *ℤ pos 2
unfolding l_mult_sets
product_same a b p q h =
    let size = words-IsProduct a b p q in
    l_mult-clamp a b p q ∙ twice (a *ℤ b) (size.smaller h) size.below
  where
    twice : (x : ℤ) → pos_part x < 2 ^ 30 → neg_part x ≤ 2 ^ 30 → clamp 32 (x *ℤ pos 2) ≡ x *ℤ pos 2
    twice (pos n) h k = rw (mul_pos_pos n 2) (ground arith)
    twice (negsuc n) h k = rw (mul_negsuc_pos n 2 (omega arith)) (ground arith)

kept : (flag sets : Bool) → set_overflow flag sets ≡ false → (flag ≡ false) × (sets ≡ false)
kept flag true h = absurd (ground arith)
kept flag false h = (h, refl)

either : (a b : Bool) → (if a then true else b) ≡ false → (a ≡ false) × (b ≡ false)
either true b h = absurd (ground arith)
either false b h = (refl, h)

l_msu_same :
    (acc a b : ℤ)
    → IsWord16 a
    → IsWord16 b
    → l_msu_sets acc a b ≡ false
    → l_msu acc a b ≡ acc -ℤ a *ℤ b *ℤ pos 2
unfolding l_msu l_msu_sets l_sub l_sub_sets
l_msu_same acc a b p q h =
    let no_product = either (l_mult_sets a b) (saturate64_sets (acc -ℤ l_mult a b)) h in
    saturated_same (acc -ℤ l_mult a b) no_product.1
    ∙ ap (λ x. acc -ℤ x) (product_same a b p q no_product.0)

shift_same : (x : ℤ) → l_shl_sets x (pos 3) ≡ false → l_shl x (pos 3) ≡ x *ℤ pos 8
unfolding l_shl l_shl_sets l_shl_left l_shl_left_sets
shift_same x h = saturated_same (x *ℤ pos 8) h

round_same : (x : ℤ) → IsWord32 x → round_sets x ≡ false → round x ≡ asr (x +ℤ pos 0x8000) 16
unfolding round round_sets l_add l_add_sets extract_h
round_same x w h =
    let sum = x +ℤ pos 0x8000 in
    ap (λ s. wrap 16 (asr s 16)) (saturated_same sum h) ∙ narrow sum ((saturate64_sets_iff sum).0 h)
  where
    narrow : (s : ℤ) → IsWord32 s → wrap 16 (asr s 16) ≡ asr s 16
    narrow (pos n) h = ground arith
    narrow (negsuc n) h = ground arith

-- The sum of the difference equation, from tap `i` on.
unfoldable pub exact_taps : ℕ → ℕ → ℕ → List ℤ → List ℤ → ℤ → ℤ
exact_taps zero i n a work acc = acc
exact_taps (suc left) i n a work acc =
    exact_taps left (i + 1) n a work (acc -ℤ at a i *ℤ at work (10 + n - i) *ℤ pos 2)

-- The exact sample: the excitation less the weighted samples before, divided by 2 ^ 12 to the
-- nearest.
unfoldable pub exact_sample : ℕ → List ℤ → List ℤ → List ℤ → ℤ
exact_sample n a u work =
    asr (exact_taps 10 1 n a work (at u n *ℤ at a 0 *ℤ pos 2) *ℤ pos 8 +ℤ pos 0x8000) 16

l_msu-IsWord32 : (acc a b : ℤ) → IsWord32 (l_msu acc a b)
unfolding l_msu l_sub
l_msu-IsWord32 acc a b = saturate64-InRange (acc -ℤ l_mult a b)

taps_exact :
    (left i n : ℕ) (a work : List ℤ) (acc : ℤ) (flag : Bool)
    → Words a
    → Words work
    → (taps_loop left i n a work acc flag).1 ≡ false
    → (flag ≡ false) × ((taps_loop left i n a work acc flag).0 ≡ exact_taps left i n a work acc)
unfolding taps_loop exact_taps
taps_exact zero i n a work acc flag wa ww h = (h, refl)
taps_exact (suc left) i n a work acc flag wa ww h =
    let x = at work (10 + n - i) in
    let rest =
      taps_exact left (i + 1) n a work (l_msu acc (at a i) x)
        (set_overflow flag (l_msu_sets acc (at a i) x)) wa ww h in
    let both = kept flag (l_msu_sets acc (at a i) x) rest.0 in
    (
      both.0,
      rest.1
          ∙ ap (exact_taps left (i + 1) n a work)
              (l_msu_same acc (at a i) x (wa i) (ww (10 + n - i)) both.1),
    )

shift-IsWord32 : (x : ℤ) → IsWord32 (l_shl x (pos 3))
unfolding l_shl l_shl_left
shift-IsWord32 x = saturate64-InRange (x *ℤ pos 8)

filtered_exact :
    (n : ℕ) (a u work : List ℤ) (flag : Bool)
    → Words a
    → Words u
    → Words work
    → (filtered n a u work flag).1 ≡ false
    → (flag ≡ false) × ((filtered n a u work flag).0 ≡ exact_sample n a u work)
unfolding filtered exact_sample
filtered_exact n a u work flag wa wu ww h =
    let start = l_mult (at u n) (at a 0) in
    let f0 = set_overflow flag (l_mult_sets (at u n) (at a 0)) in
    let sum = taps_loop 10 1 n a work start f0 in
    let outer =
      kept (set_overflow sum.1 (l_shl_sets sum.0 (pos 3))) (round_sets (l_shl sum.0 (pos 3))) h in
    let inner = kept sum.1 (l_shl_sets sum.0 (pos 3)) outer.0 in
    let taps = taps_exact 10 1 n a work start f0 wa ww inner.0 in
    let first = kept flag (l_mult_sets (at u n) (at a 0)) taps.0 in
    (
      first.0,
      round_same (l_shl sum.0 (pos 3)) (shift-IsWord32 sum.0) outer.1
          ∙ ap (λ x. asr (x +ℤ pos 0x8000) 16)
              (shift_same sum.0 inner.1
                ∙ ap (λ x. x *ℤ pos 8)
                    (taps.1
                      ∙ ap (exact_taps 10 1 n a work)
                          (product_same (at u n) (at a 0) (wu n) (wa 0) first.1))),
    )

pub round-IsWord16 : (x : ℤ) → IsWord16 (round x)
unfolding round extract_h
round-IsWord16 x = wrap16-IsWord16 (asr (l_add x (pos 0x8000)) 16)

filtered-IsWord16 :
    (n : ℕ) (a u work : List ℤ) (flag : Bool) → IsWord16 (filtered n a u work flag).0
unfolding filtered
filtered-IsWord16 n a u work flag = round-IsWord16 (
    l_shl
      (taps_loop 10 1 n a work (l_mult (at u n) (at a 0))
        (set_overflow flag (l_mult_sets (at u n) (at a 0)))).0
      (pos 3))

-- The sum reads only the ten samples before.
exact_taps-ext :
    (left i n : ℕ) (a work work' : List ℤ) (acc : ℤ)
    → 1 ≤ i
    → i + left ≤ 11
    → ((k : ℕ) → k < 10 + n → at work k ≡ at work' k)
    → exact_taps left i n a work acc ≡ exact_taps left i n a work' acc
unfolding exact_taps
exact_taps-ext zero i n a work work' acc h l same = refl
exact_taps-ext (suc left) i n a work work' acc h l same =
    ap (λ x. exact_taps left (i + 1) n a work (acc -ℤ at a i *ℤ x *ℤ pos 2))
      (same (10 + n - i) (omega arith))
    ∙ exact_taps-ext left (i + 1) n a work work' _ (omega arith) (omega arith) same

pub exact_sample-ext :
    (n : ℕ) (a u work work' : List ℤ)
    → ((k : ℕ) → k < 10 + n → at work k ≡ at work' k)
    → exact_sample n a u work ≡ exact_sample n a u work'
unfolding exact_sample
exact_sample-ext n a u work work' same =
    ap (λ x. asr (x *ℤ pos 8 +ℤ pos 0x8000) 16)
      (exact_taps-ext 10 1 n a work work' _ (omega arith) (omega arith) same)

-- `r` is the buffer and the flag after the samples from `n` on.
pub record Passed (left n : ℕ) (a u work : List ℤ) (flag : Bool) (r : List ℤ × Bool) : Type 0 where
  pub same_length : length r.0 ≡ length work
  pub before : (k : ℕ) → k < 10 + n → at r.0 k ≡ at work k
  pub words : Words r.0
  pub clear : r.1 ≡ false → flag ≡ false
  pub exact :
      r.1 ≡ false → (k : ℕ) → n ≤ k → k < n + left → at r.0 (10 + k) ≡ exact_sample k a u r.0

pub one_pass_loop-Passed :
    (left n : ℕ) (a u work : List ℤ) (flag : Bool)
    → Words a
    → Words u
    → Words work
    → 10 + n + left ≤ length work
    → Passed left n a u work flag (one_pass_loop left n a u work flag)
unfolding one_pass_loop
one_pass_loop-Passed zero n a u work flag wa wu ww fits = record {
  same_length = refl;
  before = λ k h. refl;
  words = ww;
  clear = λ h. h;
  exact = λ h k l m. absurd (omega arith);
}
one_pass_loop-Passed (suc left) n a u work flag wa wu ww fits =
    let r = filtered n a u work flag in
    let next = set work (10 + n) r.0 in
    let read = λ (k : ℕ). at-set work (10 + n) k r.0 (omega arith) in
    let rest =
      one_pass_loop-Passed left (n + 1) a u next r.1 wa wu
        (Words-set work (10 + n) r.0 (omega arith) ww (filtered-IsWord16 n a u work flag))
        (rw length-set (omega arith)) in
    let one = λ (h : r.1 ≡ false). filtered_exact n a u work flag wa wu ww h in
    let early = λ (k : ℕ) (h : k < 10 + n). rest.before k (omega arith) ∙ ground (arith, read k) in
    let last = (one_pass_loop left (n + 1) a u next r.1).0 in
    let final : at last (10 + n) ≡ at next (10 + n) = rest.before (10 + n) (omega arith) in
    let written : at next (10 + n) ≡ r.0 = ground (arith, read (10 + n)) in
    let same : exact_sample n a u last ≡ exact_sample n a u work =
      exact_sample-ext n a u last work early in
    record {
      same_length = rest.same_length ∙ length-set work (10 + n) r.0;
      before = early;
      words = rest.words;
      clear = λ h. (one (rest.clear h)).0;
      exact = λ h k l m. elim (ℕ_discrete k n) [
        | yes e ↦ rw e (final ∙ written ∙ (one (rest.clear h)).1 ∙ sym same)
        | no ne ↦ rest.exact h k (omega arith) (omega arith)
      ];
    }
