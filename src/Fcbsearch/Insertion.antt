-- ===== src/Fcbsearch/Insertion.antt =====
-- internal/fcbsearch/search.go: insertion into the list of the best candidates.
use g.Base.{
  ℕ, zero, suc, ◌+◌, ◌-◌, ◌*◌, ◌<◌, ◌≤◌, ◌≡◌, refl, arith, if-cases, Bool-cases, inl, inr, true,
  false, not, ◌&&◌, ltb, if◌then◌else◌, List, [], ◌∷◌, length, take, length-take, get_or, pos_part,
  ◌==◌, All, All-take,
}
use g.Fcbsearch.Wide.{magnitude}
use g.Fcbsearch.Ratio.{IsSmall, weighed, ratio_greater_iff, ratio_trans}
use g.Fcbsearch.TopK.{Entry, no_entry, beats, place_loop, insert_at, insert}

-- An entry of small sums, that is not better than `s`.
pub record Under (s r : Entry) : Type 0 where
  pub small : IsSmall r.c r.e
  pub positive : 0 < pos_part r.e
  pub under : weighed r.c s.e ≤ weighed s.c r.e

-- A better entry than `s` is better than those under it.
beats-Under :
    (x s r : Entry)
    → IsSmall x.c x.e
    → IsSmall s.c s.e
    → beats x s ≡ true
    → Under s r
    → beats x r ≡ true
beats-Under x s r hx hs b u =
    let better = (ratio_greater_iff x.c x.e s.c s.e hx hs).0 b in
    elim (Bool-cases (beats x r)) [
      | inl yes_it ↦ yes_it
      | inr no_it ↦
          let iff = ratio_greater_iff x.c x.e r.c r.e hx u.small in
          let back =
            ratio_trans (magnitude x.c * magnitude x.c) (pos_part r.e)
              (magnitude r.c * magnitude r.c) (pos_part x.e) (magnitude s.c * magnitude s.c)
              (pos_part s.e) u.positive (ground (arith, iff.1)) u.under in
          absurd (omega (arith, better, back))
    ]

module _ (P : Entry → Type 0) where
  All-get : (rows : List Entry) (k : ℕ) → All P rows → k < length rows → P (get_or rows k no_entry)
  All-get [] k h l = absurd (omega arith)
  All-get (r ∷ rows) zero h l = h.0
  All-get (r ∷ rows) (suc k) h l = All-get rows k h.1 (omega arith)

  All-insert_at :
      (p : ℕ) (x : Entry) (rows : List Entry) → P x → All P rows → All P (insert_at p x rows)
  unfolding insert_at
  All-insert_at zero x rows px h = (px, h)
  All-insert_at (suc p) x [] px h = (px, tt)
  All-insert_at (suc p) x (r ∷ rows) px h = (h.0, All-insert_at p x rows px h.1)

place_first :
    (p : ℕ) (x : Entry) (rows : List Entry)
    → p ≤ length rows
    → All (λ r. beats x r ≡ true) rows
    → place_loop p x rows ≡ 0
unfolding place_loop
place_first zero x rows h b = refl
place_first (suc p) x rows h b =
    rw (All-get (λ r. beats x r ≡ true) rows p b (omega arith))
      (place_first p x rows (omega arith) b)

place_behind :
    (p : ℕ) (x r : Entry) (rows : List Entry)
    → 0 < p
    → beats x r ≡ false
    → 0 < place_loop p x (r ∷ rows)
unfolding place_loop
place_behind zero x r rows h b = absurd (omega arith)
place_behind (suc zero) x r rows h b = rw b (omega arith)
place_behind (suc (suc p)) x r rows h b =
    let rest = place_behind (suc p) x r rows (omega arith) b in ground arith

All-map :
    (P Q : Entry → Type 0) (rows : List Entry) → ((r : Entry) → P r → Q r) → All P rows → All Q rows
All-map P Q [] f h = tt
All-map P Q (r ∷ rows) f h = (f r h.0, All-map P Q rows f h.1)

-- The entry `s` stands first, and no other is better.
pub record Leads (limit : ℕ) (s : Entry) (rows : List Entry) : Type 0 where
  pub under : All (Under s) rows
  pub head : get_or rows 0 no_entry ≡ s
  pub some : 1 ≤ length rows
  pub few : length rows ≤ limit

module _ (limit : ℕ) (x : Entry) (small : IsSmall x.c x.e) (positive : 0 < pos_part x.e) where
  Under-itself : Under x x
  Under-itself = record { small = small; positive = positive; under = omega arith }

  pub first-Leads : 1 ≤ limit → Leads limit x (insert limit x [])
  unfolding insert insert_at place_loop
  first-Leads h =
      let new : ltb 0 limit ≡ true = ground arith in
      let empty : (0 == limit) ≡ false = ground arith in
      rw (new, empty)
        (record { under = (Under-itself, tt); head = refl; some = omega arith; few = h })

  -- The number of entries after an insertion.
  abbrev kept_rows : ℕ → ℕ
  kept_rows count = if ltb count limit then count + 1 else count

  kept_lem :
      (count : ℕ) → 1 ≤ count → count ≤ limit → (1 ≤ kept_rows count) × (kept_rows count ≤ limit)
  kept_lem count h k = ground arith

  take_first :
      (n : ℕ) (rows : List Entry)
      → All (Under x) rows
      → 1 ≤ n
      → n ≤ limit
      → Leads limit x (take n (x ∷ rows))
  take_first zero rows h one few = absurd (omega arith)
  take_first (suc n) rows h one few = record {
    under = (Under-itself, All-take (Under x) n rows h);
    head = refl;
    some = omega arith;
    few = omega (arith, length-take n rows);
  }

  module _ (s r : Entry) (rows : List Entry) (l : Leads limit s (r ∷ rows))
      (hs : IsSmall s.c s.e) where
    take_behind :
        (n p : ℕ)
        → 1 ≤ n
        → n ≤ limit
        → 0 < p
        → Under s x
        → Leads limit s (take n (insert_at p x (r ∷ rows)))
    unfolding insert_at
    take_behind zero p one few h u = absurd (omega arith)
    take_behind (suc n) zero one few h u = absurd (omega arith)
    take_behind (suc n) (suc p) one few h u = record {
      under = (
        l.under.0,
        All-take (Under s) n (insert_at p x rows) (All-insert_at (Under s) p x rows u l.under.1),
      );
      head = l.head;
      some = omega arith;
      few = omega (arith, length-take n (insert_at p x rows));
    }

    pub better-Leads :
        0 < pos_part s.e → beats x s ≡ true → Leads limit x (insert limit x (r ∷ rows))
    unfolding insert insert_at
    better-Leads e b =
        let beaten =
          All-map (Under s) (λ t. beats x t ≡ true) (r ∷ rows)
            (λ t u. beats-Under x s t small hs b u) l.under in
        let last =
          All-get (λ t. beats x t ≡ true) (r ∷ rows) (suc (length rows) - 1) beaten (omega arith) in
        let place = place_first (suc (length rows)) x (r ∷ rows) (omega arith) beaten in
        let better = (ratio_greater_iff x.c x.e s.c s.e small hs).0 b in
        let lower =
          All-map (Under s) (Under x) (r ∷ rows)
            (λ t u. record {
              small = u.small;
              positive = u.positive;
              under =
                  ratio_trans (magnitude t.c * magnitude t.c) (pos_part s.e)
                    (magnitude s.c * magnitude s.c) (pos_part t.e) (magnitude x.c * magnitude x.c)
                    (pos_part x.e) e u.under (omega arith);
            })
            l.under in
        let kept = kept_lem (suc (length rows)) (omega arith) l.few in
        if-cases (Leads limit x)
          ((suc (length rows) == limit)
            && not (beats x (get_or (r ∷ rows) (suc (length rows) - 1) no_entry)))
          (λ full. absurd (ground (arith, last)))
          λ room.
            rw place (take_first (kept_rows (suc (length rows))) (r ∷ rows) lower kept.0 kept.1)

    pub worse-Leads : beats x s ≡ false → Leads limit s (insert limit x (r ∷ rows))
    unfolding insert insert_at
    worse-Leads b =
        let iff = ratio_greater_iff x.c x.e s.c s.e small hs in
        let own : Under s x = record {
          small = small;
          positive = positive;
          under = ground (arith, iff.1);
        } in
        let kept = kept_lem (suc (length rows)) (omega arith) l.few in
        if-cases (Leads limit s)
          ((suc (length rows) == limit)
            && not (beats x (get_or (r ∷ rows) (suc (length rows) - 1) no_entry)))
          (λ full. l)
          λ room.
            take_behind (kept_rows (suc (length rows)))
              (place_loop (suc (length rows)) x (r ∷ rows)) kept.0 kept.1
              (place_behind (suc (length rows)) x r rows (omega arith) (rw l.head b)) own
