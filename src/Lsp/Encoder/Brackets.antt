-- ===== src/Lsp/Encoder/Brackets.antt =====
-- internal/lsp/lp_lsp.go: the bisection of a cell of the grid.
use g.Base.{
  ℕ, zero, suc, ◌+◌, ◌*◌, ◌/◌, ◌^◌, ◌≤◌, ◌≡◌, refl, arith, int_laws, if-cases, true, false, List, ℤ,
  pos, ◌+ℤ◌, ◌≤ℤ◌, for_range,
}
use native.Mathlib.Nat.{pow-suc}
use g.Fixed.Saturate.Laws.{IsWord16}
use g.Lsp.Encoder.Roots.{
  chebyshev_c, signs_differ, Interval, midpoint, bisect_round, bisect_interval, bisect_root,
}

-- An interval of words, the larger end first, at whose ends the polynomial has different signs.
record IsBracket (f : List ℤ) (lo hi : ℤ) (width : ℕ) (v : Interval) : Type 0 where
  own : v.c_lo ≡ chebyshev_c v.x_lo f
  change : signs_differ (chebyshev_c v.x_lo f) (chebyshev_c v.x_hi f) ≡ true
  top : v.x_lo ≤ℤ lo
  order : v.x_hi ≤ℤ v.x_lo
  bottom : hi ≤ℤ v.x_hi
  narrow : v.x_lo ≤ℤ v.x_hi +ℤ pos width

midpoint_between :
    (x y : ℤ) → IsWord16 x → IsWord16 y → y ≤ℤ x → (midpoint x y ≤ℤ x) × (y ≤ℤ midpoint x y)
unfolding ◌+ℤ◌
midpoint_between x y h k l = (ground arith, ground arith)

midpoint_halves :
    (x y : ℤ) (w : ℕ)
    → IsWord16 x
    → IsWord16 y
    → y ≤ℤ x
    → x ≤ℤ y +ℤ pos w
    → (midpoint x y ≤ℤ y +ℤ pos ((w + 1) / 2)) × (x ≤ℤ midpoint x y +ℤ pos ((w + 1) / 2))
unfolding ◌+ℤ◌
midpoint_halves x y w h k l m = (ground arith, ground arith)

differ_trans :
    (a b c : ℤ) → signs_differ a c ≡ true → signs_differ a b ≡ false → signs_differ b c ≡ true
unfolding signs_differ
differ_trans a b c h k = ground arith

bisect_round-IsBracket :
    (f : List ℤ) (lo hi : ℤ) (w : ℕ) (v : Interval)
    → IsWord16 lo
    → IsWord16 hi
    → IsBracket f lo hi w v
    → IsBracket f lo hi ((w + 1) / 2) (bisect_round f v)
unfolding bisect_round
bisect_round-IsBracket f lo hi w v a b s =
    let x = v.x_lo in
    let y = v.x_hi in
    let wx : IsWord16 x = word_between lo hi x a b s.top (le_trans_ℤ hi y x s.bottom s.order) in
    let wy : IsWord16 y = word_between lo hi y a b (le_trans_ℤ y x lo s.order s.top) s.bottom in
    let between = midpoint_between x y wx wy s.order in
    let halves = midpoint_halves x y w wx wy s.order s.narrow in
    let mid = midpoint x y in
    if-cases (IsBracket f lo hi ((w + 1) / 2)) (signs_differ v.c_lo (chebyshev_c mid f))
      (λ differ. record {
        own = s.own;
        change = rw s.own at differ;
        top = s.top;
        order = between.0;
        bottom = le_trans_ℤ hi y mid s.bottom between.1;
        narrow = halves.1;
      })
      λ same. record {
        own = refl;
        change =
            differ_trans (chebyshev_c x f) (chebyshev_c mid f) (chebyshev_c y f) s.change
              (rw s.own at same);
        top = le_trans_ℤ mid x lo between.0 s.top;
        order = between.1;
        bottom = s.bottom;
        narrow = halves.0;
      }
  where
    le_trans_ℤ : (a b c : ℤ) → a ≤ℤ b → b ≤ℤ c → a ≤ℤ c
    le_trans_ℤ a b c h k = omega arith

    word_between : (lo hi x : ℤ) → IsWord16 lo → IsWord16 hi → x ≤ℤ lo → hi ≤ℤ x → IsWord16 x
    word_between lo hi x a b h k = ground arith

-- Eight rounds of the bisection.
bisect_loop-IsBracket :
    (n i : ℕ) (f : List ℤ) (lo hi : ℤ) (w : ℕ) (v : Interval)
    → IsWord16 lo
    → IsWord16 hi
    → w ≤ 2 ^ n * 7
    → IsBracket f lo hi w v
    → IsBracket f lo hi 7 (for_range n i (λ i v. bisect_round f v) v)
unfolding for_range
bisect_loop-IsBracket zero i f lo hi w v a b h s = record {
  own = s.own;
  change = s.change;
  top = s.top;
  order = s.order;
  bottom = s.bottom;
  narrow = grind (int_laws, s.narrow);
}
bisect_loop-IsBracket (suc n) i f lo hi w v a b h s =
    bisect_loop-IsBracket n (i + 1) f lo hi ((w + 1) / 2) (bisect_round f v) a b
      (omega (arith, pow-suc 2 n)) (bisect_round-IsBracket f lo hi w v a b s)

-- Places between which the polynomial changes its sign, at most seven apart, with the root between.
pub record IsRoot (f : List ℤ) (r : ℤ) : Type 0 where
  pub lo : ℤ
  pub hi : ℤ
  pub change : signs_differ (chebyshev_c lo f) (chebyshev_c hi f) ≡ true
  pub between : (r ≤ℤ lo) × (hi ≤ℤ r)
  pub narrow : lo ≤ℤ hi +ℤ pos 7

pub bisect_root-IsRoot :
    (f : List ℤ) (lo hi : ℤ)
    → IsWord16 lo
    → IsWord16 hi
    → hi ≤ℤ lo
    → lo ≤ℤ hi +ℤ pos 1792
    → signs_differ (chebyshev_c lo f) (chebyshev_c hi f) ≡ true
    → IsRoot f (bisect_root lo hi (chebyshev_c lo f) f)
unfolding bisect_root bisect_interval
bisect_root-IsRoot f lo hi a b h k e =
    let start : Interval = record { x_lo = lo; x_hi = hi; c_lo = chebyshev_c lo f } in
    let s = bisect_loop-IsBracket 8 0 f lo hi 1792 start a b (omega arith) (record {
      own = refl;
      change = e;
      top = omega arith;
      order = h;
      bottom = omega arith;
      narrow = k;
    }) in
    let v = for_range 8 0 (λ i v. bisect_round f v) start in
    record {
      lo = v.x_lo;
      hi = v.x_hi;
      change = s.change;
      between =
          midpoint_between v.x_lo v.x_hi (ground (arith, s.top, s.order, s.bottom))
            (ground (arith, s.top, s.order, s.bottom)) s.order;
      narrow = s.narrow;
    }
