-- ===== src/Postfilter/Lag.antt =====
-- internal/postfilter/longterm.go: the search of the pitch filter for its lag.
use g.Base.{
  ℕ, zero, suc, ◌+◌, ◌-◌, ◌^◌, ◌≤◌, ◌<◌, ◌≡◌, refl, sym, subst, arith, int_laws, min, List, Bool,
  true, false, if◌then◌else◌, ℤ, pos, negsuc, pos_part, ◌+ℤ◌, ◌-ℤ◌, ◌≤ℤ◌, ltb_ℤ,
}
use g.Lsp.Stability.Sort.{Words}
use native.Mathlib.Decide.{ℕ_discrete}
use g.Postfilter.Correlation.{correlation_above}
use g.Postfilter.LongTerm.{correlation, refine_loop, refine_low, refine_high, refine_pitch}

-- The correlation at a lag.
abbrev pub correlation_at : List ℤ → ℕ → ℤ
correlation_at history t = correlation 40 0 history t (pos 0)

-- The best lag of a stretch from `t` on, which is at least as good as the one before it.
record IsBest (history : List ℤ) (left t before r : ℕ) : Type 0 where
  at_least : correlation_at history before ≤ℤ correlation_at history r
  best : (k : ℕ) → t ≤ k → k < t + left → correlation_at history k ≤ℤ correlation_at history r

refine_loop-IsBest :
    (left t : ℕ) (history : List ℤ) (before : ℕ)
    → IsBest history left t before
        (refine_loop left t history before (correlation_at history before))
unfolding refine_loop
refine_loop-IsBest zero t history before = record {
  at_least = omega arith;
  best = λ k h l. absurd (omega arith);
}
refine_loop-IsBest (suc left) t history before =
    chosen (ltb_ℤ (correlation_at history before) (correlation_at history t)) refl
      (refine_loop-IsBest left (t + 1) history t) (refine_loop-IsBest left (t + 1) history before)
  where
    chosen :
        (better : Bool)
        → ltb_ℤ (correlation_at history before) (correlation_at history t) ≡ better
        → IsBest history left
            (t + 1)
            t
            (refine_loop left (t + 1) history t (correlation_at history t))
        → IsBest history left
            (t + 1)
            before
            (refine_loop left (t + 1) history before (correlation_at history before))
        → IsBest history (suc left) t before (
            refine_loop left
              (t + 1)
              history
              (if better then t else before)
              (if better then correlation_at history t else correlation_at history before))
    chosen true e new old = record {
      at_least = grind (int_laws, new.at_least);
      best = λ k h l. elim (ℕ_discrete k t) [
        | yes same ↦
            let r = refine_loop left (t + 1) history t (correlation_at history t) in
            subst (λ (i : ℕ). correlation_at history i ≤ℤ correlation_at history r) (sym same)
              new.at_least
        | no ne ↦ new.best k (omega arith) (omega arith)
      ];
    }
    chosen false e new old = record {
      at_least = old.at_least;
      best = λ k h l. elim (ℕ_discrete k t) [
        | yes same ↦
            let r = refine_loop left (t + 1) history before (correlation_at history before) in
            subst (λ (i : ℕ). correlation_at history i ≤ℤ correlation_at history r) (sym same)
              (grind (int_laws, old.at_least))
        | no ne ↦ old.best k (omega arith) (omega arith)
      ];
    }

-- Where the result lies.
refine_loop_range :
    (left t : ℕ) (history : List ℤ) (before : ℕ) (corr : ℤ) (lo hi : ℕ)
    → lo ≤ before
    → before ≤ hi
    → lo ≤ t
    → t + left ≤ hi + 1
    → (lo ≤ refine_loop left t history before corr) × (refine_loop left t history before corr ≤ hi)
unfolding refine_loop
refine_loop_range zero t history before corr lo hi a b c d = (a, b)
refine_loop_range (suc left) t history before corr lo hi a b c d =
    let better = ltb_ℤ corr (correlation_at history t) in
    let low : lo ≤ (if better then t else before) = ground arith in
    let high : (if better then t else before) ≤ hi = ground arith in
    refine_loop_range left (t + 1) history _ _ lo hi low high (omega arith) (omega arith)

-- The search as the source bounds it.
pub record IsRefined (history : List ℤ) (t_int r : ℕ) : Type 0 where
  pub low : 17 ≤ r
  pub high : r ≤ 143
  pub near : (r ≤ t_int + 3) × (min t_int 140 ≤ r + 3)
  pub best :
      (k : ℕ)
      → 17 ≤ k
      → min t_int 140 ≤ k + 3
      → k ≤ min t_int 140 + 3
      → correlation_at history k ≤ℤ correlation_at history r

-- The bounds of the search.
record IsBounds (t lo : ℕ) (hi : ℤ) : Type 0 where
  least : 17 ≤ lo
  near : min t 140 ≤ lo + 3
  first : (k : ℕ) → 17 ≤ k → min t 140 ≤ k + 3 → lo ≤ k
  last : hi ≡ pos (min t 140 + 3)
  some : lo ≤ min t 140 + 3

bounds_lem : (t : ℕ) → 14 ≤ t → IsBounds t (refine_low (pos t)) (refine_high (pos t))
unfolding refine_low refine_high ◌-ℤ◌ ◌+ℤ◌
bounds_lem t h = record {
  least = ground arith;
  near = ground arith;
  first = λ k l m. ground arith;
  last = ground arith;
  some = ground arith;
}

started :
    (left lo : ℕ) (history : List ℤ)
    → Words history
    → refine_loop (suc left) lo history lo (negsuc (2 ^ 63 - 1))
      ≡ refine_loop left (lo + 1) history lo (correlation_at history lo)
unfolding refine_loop
started left lo history w =
    pick (ltb_ℤ (negsuc (2 ^ 63 - 1)) (correlation_at history lo)) refl
      (correlation_above 40 0 history lo (pos 0) w (omega arith))
  where
    pick :
        (better : Bool)
        → ltb_ℤ (negsuc (2 ^ 63 - 1)) (correlation_at history lo) ≡ better
        → negsuc (2 ^ 62) ≤ℤ correlation_at history lo
        → refine_loop left
            (lo + 1)
            history
            (if better then lo else lo)
            (if better then correlation_at history lo else negsuc (2 ^ 63 - 1))
          ≡ refine_loop left (lo + 1) history lo (correlation_at history lo)
    pick true e h = refl
    pick false e h = absurd (grind int_laws)

-- The whole search, which starts below every correlation.
searched :
    (left lo : ℕ) (history : List ℤ)
    → Words history
    → 1 ≤ left
    → (k : ℕ) → lo ≤ k
    → k < lo + left
    → correlation_at history k
      ≤ℤ correlation_at history (refine_loop left lo history lo (negsuc (2 ^ 63 - 1)))
searched zero lo history w h k l m = absurd (omega arith)
searched (suc left) lo history w h k l m =
    let r = refine_loop left (lo + 1) history lo (correlation_at history lo) in
    let found = refine_loop-IsBest left (lo + 1) history lo in
    rw (started left lo history w) (elim (ℕ_discrete k lo) [
      | yes same ↦
          subst (λ (i : ℕ). correlation_at history i ≤ℤ correlation_at history r) (sym same)
            found.at_least
      | no ne ↦ found.best k (omega arith) (omega arith)
    ])

counted : (lo hi : ℕ) → lo ≤ hi → lo + pos_part (pos hi +ℤ pos 1 -ℤ pos lo) ≡ hi + 1
unfolding ◌-ℤ◌ ◌+ℤ◌
counted lo hi h = ground arith

-- For a residual of 16-bit words and a lag of at least 14: refinePitch gives a lag from 17 to 143
-- that is at most three away from the given one, or from 140 where that is larger, and whose
-- correlation is at least that of every other lag within these bounds.
pub refine_pitch_lem :
    (history : List ℤ) (t_int : ℕ)
    → Words history
    → 14 ≤ t_int
    → IsRefined history t_int (refine_pitch history (pos t_int))
unfolding refine_pitch
refine_pitch_lem history t_int w h =
    let bounds = bounds_lem t_int h in
    let lo = refine_low (pos t_int) in
    let left = pos_part (refine_high (pos t_int) +ℤ pos 1 -ℤ pos lo) in
    let count : lo + left ≡ min t_int 140 + 4 =
      rw bounds.last (omega (arith, counted lo (min t_int 140 + 3) bounds.some)) in
    let range =
      refine_loop_range left lo history lo (negsuc (2 ^ 63 - 1)) lo (min t_int 140 + 3)
        (omega arith) bounds.some (omega arith) (omega arith) in
    record {
      low = omega (arith, bounds.least, range.0);
      high = omega (arith, range.1);
      near = (omega (arith, range.1), omega (arith, bounds.near, range.0));
      best = λ k l m n.
          searched left lo history w (omega (arith, bounds.some, count)) k (bounds.first k l m)
            (omega arith);
    }
