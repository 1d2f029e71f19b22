-- ===== src/Lsp/Encoder/Nearest.antt =====
-- internal/lsp/lsp_lsf.go: the angle that LSPToLSF finds.
use g.Base.{
  ℕ, zero, suc, ◌+◌, ◌-◌, ◌/◌, ◌^◌, ◌<◌, ◌≤◌, ◌≡◌, refl, arith, int_laws, if-cases, Bool-cases, inl,
  inr, Bool, true, false, ◌&&◌, ◌||◌, ◌==◌, if◌then◌else◌, ltb, leb, get_or, ℤ, pos, negsuc, ◌+ℤ◌,
  ◌-ℤ◌, ◌*ℤ◌, ◌≤ℤ◌, ltb_ℤ, leb_ℤ, for_range_keeps, for_range_reaches,
}
use native.Mathlib.Nat.{pow-suc}
use g.Tables.LspCos.{cos_lsp, cos_lsp_slope}
use g.Lsp.Convert.{lsf_to_lsp, lsf_to_lsp_parts, clipped, table_coordinate, interpolated}
use g.Lsp.Convert.Order.{lsf_to_lsp_fall, lsf_to_lsp-IsWord16}
use g.Lsp.Encoder.Angle.{distance, abs_int32, bisect_loop, Near, scan_round, scan, lsp_to_lsf_of}

abbrev cos : ℕ → ℤ
cos w = lsf_to_lsp (pos w)

-- Neighbours between which the cosine falls to `q`, unless the upper one is the last angle.
record IsCell (q : ℤ) (lo hi : ℕ) : Type 0 where
  next : hi ≡ lo + 1
  inside : hi ≤ 25736
  above : q +ℤ pos 1 ≤ℤ cos lo
  below : ltb hi 25736 ≡ true → cos hi ≤ℤ q

bisect_loop-IsCell :
    (fuel : ℕ) (q : ℤ) (lo hi : ℕ)
    → lo < hi
    → hi ≤ 25736
    → hi < lo + 1 + 2 ^ fuel
    → q +ℤ pos 1 ≤ℤ cos lo
    → (ltb hi 25736 ≡ true → cos hi ≤ℤ q)
    → IsCell q (bisect_loop fuel q lo hi).0 (bisect_loop fuel q lo hi).1
unfolding bisect_loop
bisect_loop-IsCell zero q lo hi h k l a b = record {
  next = omega arith;
  inside = k;
  above = a;
  below = b;
}
bisect_loop-IsCell (suc fuel) q lo hi h k l a b =
    let mid = (lo + hi) / 2 in
    let double = pow-suc 2 fuel in
    chosen (ltb 1 (hi - lo)) refl λ wide.
      let apart : 1 < hi - lo = ground arith in
      elim (Bool-cases (ltb_ℤ q (cos mid))) [
        | inl high ↦ rw high (
            bisect_loop-IsCell fuel q mid hi (omega arith) k (omega (arith, double))
              (step q (cos mid) high) b)
        | inr low ↦ rw low (
            bisect_loop-IsCell fuel q lo mid (omega arith) (omega arith) (omega (arith, double)) a
              λ e. back q (cos mid) low)
      ]
  where
    step : (x y : ℤ) → ltb_ℤ x y ≡ true → x +ℤ pos 1 ≤ℤ y
    step x y e = grind int_laws

    back : (x y : ℤ) → ltb_ℤ x y ≡ false → y ≤ℤ x
    back x y e = ground arith

    halved : ℕ × ℕ
    halved =
        let mid = (lo + hi) / 2 in
        let above = ltb_ℤ q (cos mid) in
        bisect_loop fuel q (if above then mid else lo) (if above then hi else mid)

    chosen :
        (wide : Bool)
        → ltb 1 (hi - lo) ≡ wide
        → (ltb 1 (hi - lo) ≡ true → IsCell q halved.0 halved.1)
        → IsCell q
            (elim wide as (λ b. ℕ × ℕ) [ true ↦ halved | false ↦ (lo, hi) ]).0
            (elim wide as (λ b. ℕ × ℕ) [ true ↦ halved | false ↦ (lo, hi) ]).1
    chosen true e rest = rest e
    chosen false e rest = record { next = ground arith; inside = k; above = a; below = b }

scan_round_le :
    (q : ℤ) (w : ℕ) (b : Near)
    → ((scan_round q w b).diff ≤ b.diff) × ((scan_round q w b).diff ≤ distance q w)
unfolding scan_round
scan_round_le q w b = ground arith

-- What the scan has found: an angle of the range, at its distance.
record IsFound (q : ℤ) (b : Near) : Type 0 where
  own : b.diff ≡ distance q b.omega_q13
  inside : b.omega_q13 ≤ 25736

scan_round-IsFound :
    (q : ℤ) (w : ℕ) (b : Near) → w ≤ 25736 → IsFound q b → IsFound q (scan_round q w b)
unfolding scan_round
scan_round-IsFound q w b h f =
    if-cases (IsFound q)
      (ltb (distance q w) b.diff
        || ((distance q w == b.diff)
            && ((leb_ℤ (pos 0) q && ltb b.omega_q13 w) || (ltb_ℤ q (pos 0) && ltb w b.omega_q13))))
      (λ better. record { own = refl; inside = h }) λ worse. f

scan_lem :
    (q : ℤ) (lo hi : ℕ)
    → lo < hi
    → hi ≤ 25736
    → IsFound q (scan q lo hi)
      × ((w : ℕ) → lo ≤ w + 128 → w ≤ hi + 128 → w ≤ 25736 → (scan q lo hi).diff ≤ distance q w)
unfolding scan
scan_lem q lo hi h k =
    let end = if ltb 25736 (hi + 128) then 25736 else hi + 128 in
    let rounds = end + 1 - (lo - 128) in
    let start : Near = record { omega_q13 = lo; diff = distance q lo } in
    let small : end ≤ 25736 = ground arith in
    let large : lo ≤ end = ground arith in
    let wide : (w : ℕ) → w ≤ hi + 128 → w ≤ 25736 → w ≤ end = λ w a b. ground arith in
    (
      for_range_keeps (IsFound q) rounds (lo - 128) (scan_round q) start
          (λ w t a b f. scan_round-IsFound q w t (omega arith) f)
          (record { own = refl; inside = omega arith }),
      λ w a b c.
          for_range_reaches (λ v t. t.diff ≤ distance q v) rounds (lo - 128) (scan_round q) start
            (λ v t _ _. (scan_round_le q v t).1)
            (λ u v t _ _ l. omega (arith, (scan_round_le q v t).0)) w (omega arith)
            (omega (arith, wide w b c)),
    )

-- The further the cosine, the larger the distance.
distance_below : (q x y : ℤ) → x ≤ℤ y → y ≤ℤ q → abs_int32 (q -ℤ y) ≤ abs_int32 (q -ℤ x)
unfolding abs_int32 ◌-ℤ◌
distance_below q x y h k = ground arith

distance_above : (q x y : ℤ) → q ≤ℤ y → y ≤ℤ x → abs_int32 (q -ℤ y) ≤ abs_int32 (q -ℤ x)
unfolding abs_int32 ◌-ℤ◌
distance_above q x y h k = ground arith

distance_zero : (q x : ℤ) → abs_int32 (q -ℤ x) ≤ 0 → x ≡ q
unfolding abs_int32
distance_zero q x h = grind int_laws

distance_self : (q : ℤ) → abs_int32 (q -ℤ q) ≡ 0
unfolding abs_int32 ◌-ℤ◌
distance_self q = ground arith

table_ends :
    (cos 0 ≡ pos 32767)
    × (cos 25736 ≡ negsuc 32767)
    × (get_or cos_lsp 0 (pos 0) ≡ pos 32767)
    × (get_or cos_lsp 64 (pos 0) ≡ negsuc 32767)
unfolding lsf_to_lsp lsf_to_lsp_parts clipped table_coordinate interpolated cos_lsp cos_lsp_slope
    ◌+ℤ◌ ◌*ℤ◌
table_ends = (refl, refl, refl, refl)

lt_of_succ : (x y : ℤ) → x +ℤ pos 1 ≤ℤ y → x ≤ℤ y
lt_of_succ x y h = grind int_laws

-- The scan around the cell finds the nearest of all angles.
scan_nearest :
    (q : ℤ) (lo hi w : ℕ) → IsCell q lo hi → w ≤ 25736 → (scan q lo hi).diff ≤ distance q w
unfolding distance
scan_nearest q lo hi w c h =
    let s = (scan_lem q lo hi (omega (arith, c.next)) c.inside).1 in
    elim (Bool-cases (leb lo (w + 128))) [
      | inl right ↦ elim (Bool-cases (leb w (hi + 128))) [
        | inl left ↦ s w (ground arith) (ground arith) h
        | inr far ↦
            let inner : hi < 25736 = ground arith in
            let fall = lsf_to_lsp_fall hi w (ground arith) h in
            omega (
              arith,
              s hi (omega (arith, c.next)) (omega arith) c.inside,
              distance_below q (cos w) (cos hi) (lt_of_succ (cos w) (cos hi) fall)
                  (c.below (ground arith)),
            )
      ]
      | inr far ↦
          let fall = lsf_to_lsp_fall w lo (ground arith) (omega (arith, c.next, c.inside)) in
          omega (
            arith,
            s lo (omega arith) (omega (arith, c.next)) (omega (arith, c.next, c.inside)),
            distance_above q (cos w) (cos lo) (lt_of_succ q (cos lo) c.above)
                (lt_of_succ (cos lo) (cos w) fall),
          )
    ]

at_top : (q : ℤ) (w : ℕ) → leb_ℤ (get_or cos_lsp 0 (pos 0)) q ≡ true → distance q 0 ≤ distance q w
unfolding distance
at_top q w e =
    let word = lsf_to_lsp-IsWord16 (pos w) in
    let top = table_ends in
    let high : cos w ≤ℤ cos 0 = rw top.0 (omega (arith, word)) in
    let low : cos 0 ≤ℤ q = rw top.0 (ground (arith, rw top.2 at e)) in
    distance_below q (cos w) (cos 0) high low

at_bottom :
    (q : ℤ) (w : ℕ) → leb_ℤ q (get_or cos_lsp 64 (pos 0)) ≡ true → distance q 25736 ≤ distance q w
unfolding distance
at_bottom q w e =
    let word = lsf_to_lsp-IsWord16 (pos w) in
    let bottom = table_ends in
    let low : cos 25736 ≤ℤ cos w = rw bottom.1 (omega (arith, word)) in
    let high : q ≤ℤ cos 25736 = rw bottom.1 (ground (arith, rw bottom.3 at e)) in
    distance_above q (cos w) (cos 25736) high low

-- An angle up to the last whose cosine is as near as any.
pub IsNearest : ℤ → ℕ → Type 0
IsNearest q r = (r ≤ 25736) × ((w : ℕ) → w ≤ 25736 → distance q r ≤ distance q w)

start : (q : ℤ) → leb_ℤ (get_or cos_lsp 0 (pos 0)) q ≡ false → q +ℤ pos 1 ≤ℤ cos 0
unfolding ◌+ℤ◌
start q e = let top = table_ends in rw top.0 (ground (arith, rw top.2 at e))

lsp_to_lsf_of-IsNearest : (q : ℤ) → IsNearest q (lsp_to_lsf_of q)
unfolding lsp_to_lsf_of IsNearest
lsp_to_lsf_of-IsNearest q =
    if-cases (IsNearest q) (leb_ℤ (get_or cos_lsp 0 (pos 0)) q)
      (λ top. (omega arith, λ w h. at_top q w top))
      λ under.
        if-cases (IsNearest q) (leb_ℤ q (get_or cos_lsp 64 (pos 0)))
          (λ bottom. (omega arith, λ w h. at_bottom q w bottom))
          λ over.
            let cell =
              bisect_loop-IsCell 15 q 0 25736 (omega arith) (omega arith) (omega arith)
                (start q under) (λ e. absurd (ground arith)) in
            let ends = bisect_loop 15 q 0 25736 in
            let found = (scan_lem q ends.0 ends.1 (omega (arith, cell.next)) cell.inside).0 in
            (found.inside, λ w h. omega (arith, found.own, scan_nearest q ends.0 ends.1 w cell h))

-- For every number: lspToLSF gives an angle from 0 to 25736 whose cosine by lsfToLSP is at least as
-- near to the number as that of any other such angle; and for the cosine of such an angle it gives
-- an angle with the same cosine.
pub lsp_to_lsf_of_lem :
    (q : ℤ) (w : ℕ)
    → w ≤ 25736
    → (lsp_to_lsf_of q ≤ 25736)
      × (distance q (lsp_to_lsf_of q) ≤ distance q w)
      × (lsf_to_lsp (pos (lsp_to_lsf_of (lsf_to_lsp (pos w)))) ≡ lsf_to_lsp (pos w))
unfolding IsNearest distance
lsp_to_lsf_of_lem q w h =
    let n = lsp_to_lsf_of-IsNearest q in
    let exact = (lsp_to_lsf_of-IsNearest (cos w)).1 w h in
    (n.0, n.1 w h, distance_zero (cos w) _ (omega (arith, exact, distance_self (cos w))))
