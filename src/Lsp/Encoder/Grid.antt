-- ===== src/Lsp/Encoder/Grid.antt =====
-- internal/lsp/lp_lsp.go: the roots that the walk over the grid brackets.
use g.Base.{
  ℕ, zero, suc, ◌+◌, ◌<◌, ◌≤◌, ◌≡◌, refl, arith, if-cases, Bool, true, ◌&&◌, ◌||◌, if◌then◌else◌,
  ltb, min, List, [], ◌∷◌, ◌++◌, All, length, length-append, Option, none, some, ℤ, pos, negsuc,
  ◌+ℤ◌, ◌*ℤ◌, ◌≤ℤ◌, leb_ℤ, for_range, all_below, at_all_below,
}
use g.Fixed.Saturate.Laws.{IsWord16}
use g.Tables.LspCos.{cos_lsp, cos_lsp_slope}
use g.Lsp.Convert.{lsf_to_lsp, lsf_to_lsp_parts, clipped, table_coordinate, interpolated}
use g.Lsp.Encoder.Brackets.{IsRoot, bisect_root-IsRoot}
use g.Lsp.Encoder.Roots.{
  grid60, grid_angle, chebyshev_c, signs_differ, bisect_root, Walk, collect, grid_round, walk_grid,
  interleaved, find_lsp_roots,
}

-- The grid falls from word to word, by at most 1792.
grid_test : ℕ → Bool
grid_test k =
    leb_ℤ (grid60 (k + 1)) (grid60 k)
    && leb_ℤ (grid60 k) (grid60 (k + 1) +ℤ pos 1792)
    && leb_ℤ (grid60 k) (pos 32767)
    && leb_ℤ (negsuc 32767) (grid60 (k + 1))

grid_tests : all_below 59 grid_test ≡ true
unfolding all_below grid_test grid60 grid_angle lsf_to_lsp lsf_to_lsp_parts clipped table_coordinate
    interpolated cos_lsp cos_lsp_slope ◌+ℤ◌ ◌*ℤ◌
grid_tests = refl

record IsStep (k : ℕ) : Type 0 where
  high : IsWord16 (grid60 k)
  low : IsWord16 (grid60 (k + 1))
  falls : grid60 (k + 1) ≤ℤ grid60 k
  narrow : grid60 k ≤ℤ grid60 (k + 1) +ℤ pos 1792

grid-IsStep : (k : ℕ) → k < 59 → IsStep k
unfolding grid_test
grid-IsStep k h =
    let t = at_all_below 59 grid_test grid_tests k h in
    record { high = ground arith; low = ground arith; falls = ground arith; narrow = ground arith }

-- The number of the cells from `k` on, the one behind `grid60 k` first, in which the sign changes.
pub changes : ℕ → ℕ → List ℤ → ℕ
changes zero k f = 0
changes (suc n) k f =
    let rest = changes n (k + 1) f in
    if signs_differ (chebyshev_c (grid60 k) f) (chebyshev_c (grid60 (k + 1)) f)
    then suc rest
    else rest

-- The roots of a polynomial so far.
record IsRoots (f : List ℤ) (n : ℕ) (roots : List ℤ) : Type 0 where
  count : length roots ≡ min 5 n
  all : All (IsRoot f) roots

All-snoc : (P : ℤ → Type 0) (xs : List ℤ) (x : ℤ) → All P xs → P x → All P (xs ++ x ∷ [])
All-snoc P [] x h p = (p, tt)
All-snoc P (y ∷ xs) x h p = (h.0, All-snoc P xs x h.1 p)

collect-IsRoots :
    (f : List ℤ) (n k : ℕ) (roots : List ℤ)
    → k < 59
    → IsRoots f n roots
    → IsRoots f
        (n
          + (if signs_differ (chebyshev_c (grid60 k) f) (chebyshev_c (grid60 (k + 1)) f)
              then 1
              else 0))
        (collect
          (grid60 k)
          (grid60 (k + 1))
          (chebyshev_c (grid60 k) f)
          (chebyshev_c (grid60 (k + 1)) f)
          f
          roots)
unfolding collect
collect-IsRoots f n k roots h r =
    let d = signs_differ (chebyshev_c (grid60 k) f) (chebyshev_c (grid60 (k + 1)) f) in
    let g = grid-IsStep k h in
    let root = bisect_root (grid60 k) (grid60 (k + 1)) (chebyshev_c (grid60 k) f) f in
    let longer = length-append roots (root ∷ []) in
    if-cases (IsRoots f (n + (if d then 1 else 0))) (ltb (length roots) 5 && d)
      (λ taken. record {
        count = ground (arith, longer, r.count);
        all = All-snoc (IsRoot f) roots root r.all (
            bisect_root-IsRoot f (grid60 k) (grid60 (k + 1)) g.high g.low g.falls g.narrow
              (ground arith));
      })
      λ left. record { count = ground (arith, r.count); all = r.all }

record IsWalk (f1 f2 : List ℤ) (k n1 n2 : ℕ) (w : Walk) : Type 0 where
  place : w.x_prev ≡ grid60 k
  value1 : w.c_prev1 ≡ chebyshev_c (grid60 k) f1
  value2 : w.c_prev2 ≡ chebyshev_c (grid60 k) f2
  roots1 : IsRoots f1 n1 w.roots_f1
  roots2 : IsRoots f2 n2 w.roots_f2

collected :
    (f : List ℤ) (n k : ℕ) (x c : ℤ) (roots : List ℤ)
    → k < 59
    → x ≡ grid60 k
    → c ≡ chebyshev_c (grid60 k) f
    → IsRoots f n roots
    → IsRoots f
        (n
          + (if signs_differ (chebyshev_c (grid60 k) f) (chebyshev_c (grid60 (k + 1)) f)
              then 1
              else 0))
        (collect x (grid60 (k + 1)) c (chebyshev_c (grid60 (k + 1)) f) f roots)
collected f n k x c roots h e e' r = rw (e, e') (collect-IsRoots f n k roots h r)

walk_loop :
    (n k : ℕ) (f1 f2 : List ℤ) (n1 n2 m1 m2 : ℕ) (w : Walk)
    → k + n ≤ 59
    → m1 ≡ n1 + changes n k f1
    → m2 ≡ n2 + changes n k f2
    → IsWalk f1 f2 k n1 n2 w
    → IsWalk f1 f2 (k + n) m1 m2 (for_range n (k + 1) (grid_round f1 f2) w)
unfolding for_range changes grid_round
walk_loop zero k f1 f2 n1 n2 m1 m2 w h e e' s =
    let same1 : m1 ≡ n1 = omega arith in
    let same2 : m2 ≡ n2 = omega arith in
    let here : k + 0 ≡ k = omega arith in rw (same1, same2, here) s
walk_loop (suc n) k f1 f2 n1 n2 m1 m2 w h e e' s =
    let d1 = signs_differ (chebyshev_c (grid60 k) f1) (chebyshev_c (grid60 (k + 1)) f1) in
    let d2 = signs_differ (chebyshev_c (grid60 k) f2) (chebyshev_c (grid60 (k + 1)) f2) in
    let there : k + suc n ≡ k + 1 + n = omega arith in
    rw there (
      walk_loop n (k + 1) f1 f2 (n1 + (if d1 then 1 else 0)) (n2 + (if d2 then 1 else 0)) m1 m2
        (grid_round f1 f2 (k + 1) w) (omega arith) (ground arith) (ground arith)
        (stepped k f1 f2 n1 n2 w (omega arith) s))
  where
    stepped :
        (k : ℕ) (f1 f2 : List ℤ) (n1 n2 : ℕ) (w : Walk)
        → k < 59
        → IsWalk f1 f2 k n1 n2 w
        → IsWalk f1 f2
            (k + 1)
            (n1
              + (if signs_differ (chebyshev_c (grid60 k) f1) (chebyshev_c (grid60 (k + 1)) f1)
                  then 1
                  else 0))
            (n2
              + (if signs_differ (chebyshev_c (grid60 k) f2) (chebyshev_c (grid60 (k + 1)) f2)
                  then 1
                  else 0))
            (grid_round f1 f2 (k + 1) w)
    stepped k f1 f2 n1 n2 w h s = record {
      place = refl;
      value1 = refl;
      value2 = refl;
      roots1 = collected f1 n1 k w.x_prev w.c_prev1 w.roots_f1 h s.place s.value1 s.roots1;
      roots2 = collected f2 n2 k w.x_prev w.c_prev2 w.roots_f2 h s.place s.value2 s.roots2;
    }

-- The roots in turn: one of the first polynomial, one of the second.
pub Alternate : List ℤ → List ℤ → List ℤ → Type 0
Alternate f1 f2 [] = Unit {0}
Alternate f1 f2 (x ∷ []) = ⊥
Alternate f1 f2 (x ∷ y ∷ q) = IsRoot f1 x × IsRoot f2 y × Alternate f1 f2 q

interleaved-Alternate :
    (f1 f2 xs ys : List ℤ)
    → All (IsRoot f1) xs
    → All (IsRoot f2) ys
    → length xs ≡ length ys
    → Alternate f1 f2 (interleaved xs ys) × (length (interleaved xs ys) ≡ length xs + length xs)
unfolding interleaved Alternate
interleaved-Alternate f1 f2 [] [] a b h = (tt, refl)
interleaved-Alternate f1 f2 [] (y ∷ ys) a b h = absurd (omega arith)
interleaved-Alternate f1 f2 (x ∷ xs) [] a b h = absurd (omega arith)
interleaved-Alternate f1 f2 (x ∷ xs) (y ∷ ys) a b h =
    let rest = interleaved-Alternate f1 f2 xs ys a.1 b.1 (omega arith) in
    ((a.0, b.0, rest.0), omega (arith, rest.1))

-- What the search gives: an error where a polynomial changes its sign in fewer than five cells of
-- the grid, and otherwise ten roots.
pub IsOutcome : List ℤ → List ℤ → Option (List ℤ) → Type 0
IsOutcome f1 f2 none = min (changes 59 0 f1) (changes 59 0 f2) < 5
IsOutcome f1 f2 (some q) =
    (5 ≤ min (changes 59 0 f1) (changes 59 0 f2)) × (length q ≡ 10) × Alternate f1 f2 q

-- For any two polynomials: findLSPRoots fails exactly where one of them changes its sign in fewer
-- than five of the 59 cells of the grid; otherwise it gives ten values, in turn of the first and of
-- the second, and each lies between two places, at most seven apart, at which its polynomial has
-- different signs.
pub find_lsp_roots-IsOutcome : (f1 f2 : List ℤ) → IsOutcome f1 f2 (find_lsp_roots f1 f2)
unfolding find_lsp_roots walk_grid IsOutcome
find_lsp_roots-IsOutcome f1 f2 =
    let start : Walk = record {
      x_prev = grid60 0;
      c_prev1 = chebyshev_c (grid60 0) f1;
      c_prev2 = chebyshev_c (grid60 0) f2;
      roots_f1 = [];
      roots_f2 = [];
    } in
    let s =
      walk_loop 59 0 f1 f2 0 0 (changes 59 0 f1) (changes 59 0 f2) start (omega arith) (omega arith)
        (omega arith)
        (record {
          place = refl;
          value1 = refl;
          value2 = refl;
          roots1 = record { count = refl; all = tt };
          roots2 = record { count = refl; all = tt };
        }) in
    let w = for_range 59 1 (grid_round f1 f2) start in
    if-cases (IsOutcome f1 f2) (ltb (length w.roots_f1) 5 || ltb (length w.roots_f2) 5)
      (λ few. ground (arith, s.roots1.count, s.roots2.count))
      λ enough.
        let five1 : length w.roots_f1 ≡ 5 = ground (arith, s.roots1.count) in
        let five2 : length w.roots_f2 ≡ 5 = ground (arith, s.roots2.count) in
        let turn =
          interleaved-Alternate f1 f2 w.roots_f1 w.roots_f2 s.roots1.all s.roots2.all
            (omega arith) in
        (ground (arith, s.roots1.count, s.roots2.count), omega (arith, turn.1), turn.0)
