-- ===== src/Lsp/Encoder/Roots.antt =====
-- internal/lsp/lp_lsp.go: from the filter to its LSP vector, by the sign changes of two polynomials
-- on a grid. An array with its count is the list of what has been stored.
use g.Base.{
  ℕ, ◌+◌, ◌-◌, ◌*◌, ◌/◌, ◌^◌, Bool, not, ◌&&◌, ◌||◌, same, List, [], ◌∷◌, ◌++◌, ltb, ◌==◌,
  if◌then◌else◌, length, set, replicate, Option, none, some, ℤ, pos, negsuc, ◌+ℤ◌, ◌-ℤ◌, ◌*ℤ◌,
  ltb_ℤ, asr, wrap, for_range,
}
use g.Lsp.Stability.{at}
use g.Lsp.Convert.{lsf_to_lsp}

abbrev pub one_q24 : ℤ
one_q24 = pos (2 ^ 24)

-- The two coefficients of the round that the source counts by i.
unfoldable pub f_round : List ℤ → ℕ → List ℤ × List ℤ → List ℤ × List ℤ
f_round a i f =
    let ai1 = wrap 32 (at a (i + 1) *ℤ pos (2 ^ 12)) in
    let a10i = wrap 32 (at a (10 - i) *ℤ pos (2 ^ 12)) in
    (
      set f.0 (i + 1) (wrap 32 (ai1 +ℤ a10i -ℤ at f.0 i)),
      set f.1 (i + 1) (wrap 32 (ai1 -ℤ a10i +ℤ at f.1 i)),
    )

abbrev f_start : List ℤ
f_start = set (replicate 6 (pos 0)) 0 one_q24

unfoldable pub compute_f1f2 : List ℤ → List ℤ × List ℤ
compute_f1f2 a = for_range 5 0 (f_round a) (f_start, f_start)

-- b[k + 1] and b[k + 2].
unfoldable pub chebyshev_round : ℤ → List ℤ → ℕ → ℤ × ℤ → ℤ × ℤ
chebyshev_round x f i b =
    let two_xb = wrap 32 (asr (pos 2 *ℤ x *ℤ b.0) 15) in
    (wrap 32 (two_xb -ℤ b.1 +ℤ at f (i + 1)), b.0)

-- The source's k is 4 - i.
unfoldable pub chebyshev_c : ℤ → List ℤ → ℤ
chebyshev_c x f =
    let b = for_range 4 0 (chebyshev_round x f) (one_q24, pos 0) in
    wrap 32 (wrap 32 (asr (x *ℤ b.0) 15) -ℤ b.1 +ℤ asr (at f 5) 1)

abbrev pub pi_q13 : ℕ
pi_q13 = 25736

unfoldable pub grid_angle : ℕ → ℕ
grid_angle k = let omega = k * pi_q13 / 59 in if ltb pi_q13 omega then pi_q13 else omega

unfoldable pub grid60 : ℕ → ℤ
grid60 k =
    if k == 0 then pos 32767 else if k == 59 then negsuc 32767 else lsf_to_lsp (pos (grid_angle k))

unfoldable pub signs_differ : ℤ → ℤ → Bool
signs_differ a b = not (same (ltb_ℤ a (pos 0)) (ltb_ℤ b (pos 0)))

-- The ends of the interval, and the value at the first.
pub record Interval : Type 0 where
  pub x_lo : ℤ
  pub x_hi : ℤ
  pub c_lo : ℤ

abbrev pub midpoint : ℤ → ℤ → ℤ
midpoint x y = wrap 16 (asr (x +ℤ y) 1)

unfoldable pub bisect_round : List ℤ → Interval → Interval
bisect_round f v =
    let mid = midpoint v.x_lo v.x_hi in
    let c_mid = chebyshev_c mid f in
    if signs_differ v.c_lo c_mid
    then record v { x_hi = mid }
    else record { x_lo = mid; x_hi = v.x_hi; c_lo = c_mid }

unfoldable pub bisect_interval : ℤ → ℤ → ℤ → List ℤ → Interval
bisect_interval x_lo x_hi c_lo f =
    for_range 8 0 (λ i v. bisect_round f v) (record { x_lo = x_lo; x_hi = x_hi; c_lo = c_lo })

unfoldable pub bisect_root : ℤ → ℤ → ℤ → List ℤ → ℤ
bisect_root x_lo x_hi c_lo f = let v = bisect_interval x_lo x_hi c_lo f in midpoint v.x_lo v.x_hi

-- What the walk over the grid carries along.
pub record Walk : Type 0 where
  pub x_prev : ℤ
  pub c_prev1 : ℤ
  pub c_prev2 : ℤ
  pub roots_f1 : List ℤ
  pub roots_f2 : List ℤ

-- A root for a polynomial, if the cell shows one and there is room.
unfoldable pub collect : ℤ → ℤ → ℤ → ℤ → List ℤ → List ℤ → List ℤ
collect x_prev x c_prev c f roots =
    if ltb (length roots) 5 && signs_differ c_prev c
    then roots ++ bisect_root x_prev x c_prev f ∷ []
    else roots

unfoldable pub grid_round : List ℤ → List ℤ → ℕ → Walk → Walk
grid_round f1 f2 k w =
    let x = grid60 k in
    let c1 = chebyshev_c x f1 in
    let c2 = chebyshev_c x f2 in
    record {
      x_prev = x;
      c_prev1 = c1;
      c_prev2 = c2;
      roots_f1 = collect w.x_prev x w.c_prev1 c1 f1 w.roots_f1;
      roots_f2 = collect w.x_prev x w.c_prev2 c2 f2 w.roots_f2;
    }

unfoldable pub walk_grid : List ℤ → List ℤ → Walk
walk_grid f1 f2 = for_range 59 1 (grid_round f1 f2) (record {
  x_prev = grid60 0;
  c_prev1 = chebyshev_c (grid60 0) f1;
  c_prev2 = chebyshev_c (grid60 0) f2;
  roots_f1 = [];
  roots_f2 = [];
})

-- The roots of the two polynomials in turn.
unfoldable pub interleaved : List ℤ → List ℤ → List ℤ
interleaved roots_f1 [] = []
interleaved [] (y ∷ roots_f2) = []
interleaved (x ∷ roots_f1) (y ∷ roots_f2) = x ∷ y ∷ interleaved roots_f1 roots_f2

-- `none` for ErrLPCNonStable.
unfoldable pub find_lsp_roots : List ℤ → List ℤ → Option (List ℤ)
find_lsp_roots f1 f2 =
    let w = walk_grid f1 f2 in
    if ltb (length w.roots_f1) 5 || ltb (length w.roots_f2) 5
    then none
    else some (interleaved w.roots_f1 w.roots_f2)

unfoldable pub lp_to_lsp : List ℤ → Option (List ℤ)
lp_to_lsp a = let f = compute_f1f2 a in find_lsp_roots f.0 f.1
