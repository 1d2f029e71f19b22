-- ===== src/Lsp/Encoder/Cost.antt =====
-- internal/lsp/encoder_vq.go: what the searches find.
use g.Base.{
  ℕ, zero, suc, ◌+◌, ◌*◌, ◌^◌, ◌≤◌, ◌<◌, ◌≡◌, refl, arith, int_laws, if-cases, List, ℤ, pos, negsuc,
  pos_part, neg_part, ◌+ℤ◌, ◌-ℤ◌, ◌*ℤ◌, ◌≤ℤ◌, ltb_ℤ, ◌||◌, wrap, for_range, for_range_starts,
  for_range_reaches,
}
use g.Fixed.Saturate.Laws.{IsWord16}
use g.Lsp.Stability.{at}
use g.Lsp.Stability.Sort.{Words}
use g.Lsp.Encoder.Search.{Best, no_best, consider, search, weighted_cost}

-- A row of the codebook, its cost, and no row cheaper.
pub record IsLeast (rows : ℕ) (cost : ℕ → ℤ) (b : Best) : Type 0 where
  pub inside : b.idx < rows
  pub own : b.mse ≡ cost b.idx
  pub least : (k : ℕ) → k < rows → b.mse ≤ℤ cost k

record IsRow (rows : ℕ) (cost : ℕ → ℤ) (b : Best) : Type 0 where
  inside : b.idx < rows
  own : b.mse ≡ cost b.idx

consider-IsRow :
    (rows k : ℕ) (cost : ℕ → ℤ) (b : Best)
    → k < rows
    → IsRow rows cost b
    → IsRow rows cost (consider cost k b)
unfolding consider
consider-IsRow rows k cost b h r =
    if-cases (IsRow rows cost) _ (λ better. record { inside = h; own = refl }) λ worse. r

-- At most the cost of a row, and not the start value.
record Under (cost : ℕ → ℤ) (k : ℕ) (b : Best) : Type 0 where
  real : pos 0 ≤ℤ b.mse
  under : b.mse ≤ℤ cost k

consider-reaches :
    (k : ℕ) (cost : ℕ → ℤ) (b : Best) → pos 0 ≤ℤ cost k → Under cost k (consider cost k b)
unfolding consider
consider-reaches k cost b h =
    if-cases (Under cost k) (ltb_ℤ b.mse (pos 0) || ltb_ℤ (cost k) b.mse) {y = b}
      (λ better. record { real = h; under = omega arith })
      λ worse. record { real = ground arith; under = ground arith }

consider-keeps :
    (j k : ℕ) (cost : ℕ → ℤ) (b : Best)
    → pos 0 ≤ℤ cost k
    → Under cost j b
    → Under cost j (consider cost k b)
unfolding consider
consider-keeps j k cost b h u =
    if-cases (Under cost j) (ltb_ℤ b.mse (pos 0) || ltb_ℤ (cost k) b.mse)
      (λ better. record { real = h; under = ground (arith, u.real, u.under) }) λ worse. u

consider_first : (rows : ℕ) (cost : ℕ → ℤ) → 1 ≤ rows → IsRow rows cost (consider cost 0 no_best)
unfolding consider
consider_first rows cost h = record { inside = h; own = refl }

pub search-IsLeast :
    (rows : ℕ) (cost : ℕ → ℤ)
    → 1 ≤ rows
    → ((k : ℕ) → k < rows → pos 0 ≤ℤ cost k)
    → IsLeast rows cost (search rows cost)
unfolding search
search-IsLeast rows cost h some =
    let found =
      for_range_starts (IsRow rows cost) rows 0 (consider cost) no_best h
        (consider_first rows cost h) (λ k t a b r. consider-IsRow rows k cost t (omega arith) r) in
    record {
      inside = found.inside;
      own = found.own;
      least = λ k l.
          (for_range_reaches (Under cost) rows 0 (consider cost) no_best
            (λ j t a b. consider-reaches j cost t (some j (omega arith)))
            (λ i j t a b u. consider-keeps i j cost t (some j (omega arith)) u) k (omega arith)
            (omega arith)).under;
    }

-- The sums of the costs do not wrap.
size : ℤ → ℕ
size d = pos_part d + neg_part d

weighted_square : (w : ℕ) (d : ℤ) → pos w *ℤ d *ℤ d ≡ pos (w * size d * size d)
unfolding size ◌*ℤ◌
weighted_square w (pos d) = grind int_laws
weighted_square w (negsuc d) = grind int_laws

weighted_bound : (w d : ℕ) → w < 2 ^ 15 → d < 2 ^ 16 → w * d * d < 2 ^ 47
weighted_bound w d h k = grind arith

wrap64_small : (s : ℕ) → s < 2 ^ 63 → wrap 64 (pos s) ≡ pos s
wrap64_small s h = ground arith

-- Words up to 32767.
abbrev pub IsWeight : ℤ → Type 0
IsWeight w = (neg_part w ≡ 0) × (pos_part w < 2 ^ 15)

difference_size : (a b : ℤ) → IsWord16 a → IsWord16 b → size (a -ℤ b) < 2 ^ 16
unfolding size ◌-ℤ◌
difference_size a b h k = ground arith

weight_pos : (w : ℤ) → IsWeight w → w ≡ pos (pos_part w)
weight_pos (pos w) h = refl
weight_pos (negsuc w) h = absurd (omega arith)

weighted_step :
    (s : ℕ) (w d : ℤ)
    → s < 2 ^ 62
    → IsWeight w
    → size d < 2 ^ 16
    → (r : ℕ) × (wrap 64 (pos s +ℤ w *ℤ d *ℤ d) ≡ pos r) × (r < s + 2 ^ 47)
weighted_step s w d h k l =
    let t = pos_part w * size d * size d in
    let bound = weighted_bound (pos_part w) (size d) k.1 l in
    (
      s + t,
      rw (weight_pos w k, weighted_square (pos_part w) d, plus_pos s t)
          (wrap64_small (s + t) (omega arith)),
      omega arith,
    )
  where
    plus_pos : (m n : ℕ) → pos m +ℤ pos n ≡ pos (m + n)
    plus_pos m n = grind int_laws

weighted_loop :
    (n i s : ℕ) (lsf weights lsf_hat : List ℤ)
    → Words lsf
    → ((k : ℕ) → IsWeight (at weights k))
    → Words lsf_hat
    → s + n * 2 ^ 47 < 2 ^ 62
    → pos 0
      ≤ℤ for_range n i
          (λ k sum. let d = at lsf k -ℤ at lsf_hat k in wrap 64 (sum +ℤ at weights k *ℤ d *ℤ d))
          (pos s)
unfolding for_range
weighted_loop zero i s lsf weights lsf_hat w h v b = omega arith
weighted_loop (suc n) i s lsf weights lsf_hat w h v b =
    let (r, e, l) =
      weighted_step s (at weights i) (at lsf i -ℤ at lsf_hat i) (omega arith) (h i)
        (difference_size (at lsf i) (at lsf_hat i) (w i) (v i)) in
    rw e (weighted_loop n (i + 1) r lsf weights lsf_hat w h v (omega arith))

pub weighted_cost_real :
    (n i : ℕ) (lsf weights lsf_hat : List ℤ)
    → n ≤ 10
    → Words lsf
    → ((k : ℕ) → IsWeight (at weights k))
    → Words lsf_hat
    → pos 0 ≤ℤ weighted_cost n i lsf weights lsf_hat
unfolding weighted_cost
weighted_cost_real n i lsf weights lsf_hat h w k v =
    weighted_loop n i 0 lsf weights lsf_hat w k v (omega arith)
