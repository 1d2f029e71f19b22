-- ===== src/Lsp/Stability/Sort.antt =====
-- internal/lsp/stability.go: the insertion sort.
use mathlib.Core.List.{Perm}
use mathlib.Core.List.Perm
use native.Mathlib.Decide.{ℕ_discrete}
use g.Base.{
  ℕ, zero, suc, ◌+◌, ◌<◌, ◌≤◌, ◌≡◌, ◌≢◌, refl, ap, subst, sym, ◌∙◌, inl, inr, Bool-cases, if-cases,
  arith, List, [], ◌∷◌, if◌then◌else◌, ◌==◌, length, set, length-set, get_or-set_self,
  get_or-set_ne, ℤ, pos, ◌≤ℤ◌, ltb_ℤ,
}
use g.Fixed.Saturate.Laws.{IsWord16}
use g.Lsp.Stability.{at, shift_loop, sort_loop, insertion_sort10}

-- A read behind a write.
pub at-set :
    (a : List ℤ) (i j : ℕ) (v : ℤ)
    → i < length a
    → at (set a i v) j ≡ (if j == i then v else at a j)
at-set a i j v h = elim (ℕ_discrete j i) [
  | yes e ↦ ground (arith, get_or-set_self a i v (pos 0) h)
  | no ne ↦ ground (arith, get_or-set_ne a i j v (pos 0) λ e. ne (sym e))
]

abbrev pub Ascending : ℕ → List ℤ → Type 0
Ascending n a = (k : ℕ) → suc k < n → at a k ≤ℤ at a (suc k)

-- The first `n` coordinates ascend where coordinate `j` is passed over, and `v` fits below what
-- stands behind it.
record Hole (j n : ℕ) (v : ℤ) (a : List ℤ) : Type 0 where
  fits : n ≤ length a
  inside : j < n
  apart : (k : ℕ) → suc k < n → k ≢ j → suc k ≢ j → at a k ≤ℤ at a (suc k)
  across : (k : ℕ) → suc k ≡ j → suc j < n → at a k ≤ℤ at a (suc j)
  above : suc j < n → v ≤ℤ at a (suc j)

filled :
    (j n : ℕ) (v : ℤ) (a : List ℤ)
    → Hole j n v a
    → ((k : ℕ) → suc k ≡ j → at a k ≤ℤ v)
    → Ascending n (set a j v)
filled j n v a h low k l =
    let here = at-set a j k v (omega (arith, h.fits, h.inside)) in
    let next = at-set a j (suc k) v (omega (arith, h.fits, h.inside)) in
    elim (ℕ_discrete k j) [
      | yes e ↦ ground (arith, here, next, h.above)
      | no ne ↦ elim (ℕ_discrete (suc k) j) [
        | yes e ↦ ground (arith, here, next, low k e)
        | no far ↦ ground (arith, here, next, h.apart k l ne far)
      ]
    ]

moved :
    (j n : ℕ) (v : ℤ) (a : List ℤ)
    → Hole (suc j) n v a
    → v ≤ℤ at a j
    → Hole j n v (set a (suc j) (at a j))
moved j n v a h low =
    let read = λ (k : ℕ). at-set a (suc j) k (at a j) (omega (arith, h.fits, h.inside)) in
    record {
      fits = rw length-set h.fits;
      inside = omega (arith, h.inside);
      apart = λ k l ne far. elim (ℕ_discrete k (suc j)) [
        | yes e ↦ ground (arith, read k, read (suc k), h.across j refl)
        | no other ↦ ground (arith, read k, read (suc k), h.apart k l other)
      ];
      across = λ k e l. ground (arith, read k, read (suc j), h.apart k);
      above = λ l. ground (arith, read (suc j));
    }

shift_loop-Ascending :
    (j n : ℕ) (v : ℤ) (a : List ℤ) → Hole j n v a → Ascending n (shift_loop j v a)
unfolding shift_loop
shift_loop-Ascending zero n v a h = filled zero n v a h λ k e. absurd (omega arith)
shift_loop-Ascending (suc j) n v a h = elim (Bool-cases (ltb_ℤ v (at a j))) [
  | inl less ↦
      rw less (shift_loop-Ascending j n v (set a (suc j) (at a j)) (moved j n v a h (ground arith)))
  | inr more ↦ rw more (filled (suc j) n v a h λ k e. ground arith)
]

length-shift_loop : (j : ℕ) (v : ℤ) (a : List ℤ) → length (shift_loop j v a) ≡ length a
unfolding shift_loop
length-shift_loop zero v a = length-set a 0 v
length-shift_loop (suc j) v a = elim (Bool-cases (ltb_ℤ v (at a j))) [
  | inl less ↦
      rw less (length-shift_loop j v (set a (suc j) (at a j)) ∙ length-set a (suc j) (at a j))
  | inr more ↦ rw more (length-set a (suc j) v)
]

pub length-sort_loop : (left i : ℕ) (a : List ℤ) → length (sort_loop left i a) ≡ length a
unfolding sort_loop
length-sort_loop zero i a = refl
length-sort_loop (suc left) i a =
    length-sort_loop left (i + 1) (shift_loop i (at a i) a) ∙ length-shift_loop i (at a i) a

-- The round for coordinate `i` starts with a hole at it.
opened : (i : ℕ) (a : List ℤ) → i < length a → Ascending i a → Hole i (i + 1) (at a i) a
opened i a h s = record {
  fits = omega arith;
  inside = omega arith;
  apart = λ k l ne far. s k (omega arith);
  across = λ k e l. absurd (omega arith);
  above = λ l. absurd (omega arith);
}

sort_loop-Ascending :
    (left i : ℕ) (a : List ℤ)
    → i + left ≤ length a
    → Ascending i a
    → Ascending (i + left) (sort_loop left i a)
unfolding sort_loop
sort_loop-Ascending zero i a h s = λ k l. s k (omega arith)
sort_loop-Ascending (suc left) i a h s =
    let next = shift_loop-Ascending i (i + 1) (at a i) a (opened i a (omega arith) s) in
    let rest =
      sort_loop-Ascending left (i + 1) (shift_loop i (at a i) a)
        (rw length-shift_loop (omega arith)) next in
    λ k l. rest k (omega arith)

abbrev pub Words : List ℤ → Type 0
Words xs = (k : ℕ) → IsWord16 (at xs k)

pub Words-set :
    (xs : List ℤ) (i : ℕ) (v : ℤ) → i < length xs → Words xs → IsWord16 v → Words (set xs i v)
Words-set xs i v h w word k = ground (arith, at-set xs i k v h, w k)

shift_loop-Words :
    (j : ℕ) (v : ℤ) (a : List ℤ) → j < length a → Words a → IsWord16 v → Words (shift_loop j v a)
unfolding shift_loop
shift_loop-Words zero v a h w word = Words-set a 0 v h w word
shift_loop-Words (suc j) v a h w word =
    if-cases Words (ltb_ℤ v (at a j))
      (λ less.
        shift_loop-Words j v (set a (suc j) (at a j)) (rw length-set (omega arith))
          (Words-set a (suc j) (at a j) h w (w j)) word)
      λ more. Words-set a (suc j) v h w word

pub sort_loop-Words :
    (left i : ℕ) (a : List ℤ) → i + left ≤ length a → Words a → Words (sort_loop left i a)
unfolding sort_loop
sort_loop-Words zero i a h w = w
sort_loop-Words (suc left) i a h w =
    sort_loop-Words left (i + 1) (shift_loop i (at a i) a) (rw length-shift_loop (omega arith))
      (shift_loop-Words i (at a i) a (omega arith) w (w i))

-- Passing a coordinate over a neighbour and writing into its place is a swap.
swapped :
    (j : ℕ) (v : ℤ) (a : List ℤ)
    → suc j < length a
    → Perm (set (set a (suc j) (at a j)) j v) (set a (suc j) v)
swapped j v [] h = absurd (omega arith)
swapped zero v (x ∷ []) h = absurd (omega arith)
swapped zero v (x ∷ y ∷ a) h = Perm.swap x v a
swapped (suc j) v (x ∷ a) h = Perm.cons x (swapped j v a (omega arith))

shift_loop-perm : (j : ℕ) (v : ℤ) (a : List ℤ) → j < length a → Perm (shift_loop j v a) (set a j v)
unfolding shift_loop
shift_loop-perm zero v a h = Perm.rfl
shift_loop-perm (suc j) v a h = elim (Bool-cases (ltb_ℤ v (at a j))) [
  | inl less ↦ rw less (
      Perm.trans (shift_loop-perm j v (set a (suc j) (at a j)) (rw length-set (omega arith)))
        (swapped j v a h))
  | inr more ↦ rw more Perm.rfl
]

pub set_same : (a : List ℤ) (i : ℕ) → set a i (at a i) ≡ a
set_same [] i = refl
set_same (x ∷ a) zero = refl
set_same (x ∷ a) (suc i) = ap (◌∷◌ x) (set_same a i)

sort_loop-perm : (left i : ℕ) (a : List ℤ) → i + left ≤ length a → Perm (sort_loop left i a) a
unfolding sort_loop
sort_loop-perm zero i a h = Perm.rfl
sort_loop-perm (suc left) i a h =
    let here = shift_loop-perm i (at a i) a (omega arith) in
    Perm.trans
      (sort_loop-perm left (i + 1) (shift_loop i (at a i) a) (rw length-shift_loop (omega arith)))
      (subst (Perm (shift_loop i (at a i) a)) (set_same a i) here)

-- For ten integers, insertionSort10 gives a permutation of them in ascending order.
pub insertion_sort10_lem :
    (a : List ℤ) → length a ≡ 10 → Ascending 10 (insertion_sort10 a) × Perm (insertion_sort10 a) a
unfolding insertion_sort10
insertion_sort10_lem a h = (
  sort_loop-Ascending 9 1 a (omega arith) (λ k l. absurd (omega arith)),
  sort_loop-perm 9 1 a (omega arith),
)
