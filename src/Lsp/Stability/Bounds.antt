-- ===== src/Lsp/Stability/Bounds.antt =====
-- internal/lsp/stability.go: the rules that an LSF vector satisfies when they are enforced.
use g.Base.{
  ℕ, zero, suc, ◌+◌, ◌-◌, ◌*◌, ◌<◌, ◌≡◌, ◌∙◌, if-cases, arith, List, if◌then◌else◌, length, set,
  length-set, ℤ, ◌+ℤ◌, ◌≤ℤ◌, ltb_ℤ,
}
use g.Fixed.Saturate.{add}
use g.Lsp.Stability.{
  at, lower_loop, ceiling, enforce_lsf_stability, insertion_sort10, lsf_min_edge, lsf_min_gap,
  lsf_max_edge,
}
use g.Lsp.Stability.Sort.{Words, Words-set, at-set, length-sort_loop, sort_loop-Words}
use g.Lsp.Stability.Rounds.{
  Floor, written, raise_loop-Raised, lower_loop-Lowered, add_gap, add_gap_floor,
}

-- What the rules ask of a vector.
pub record IsStable (lsf : List ℤ) : Type 0 where
  pub ten : length lsf ≡ 10
  pub first : lsf_min_edge ≤ℤ at lsf 0
  pub gaps : (k : ℕ) → k < 9 → at lsf k +ℤ lsf_min_gap ≤ℤ at lsf (suc k)
  pub last : at lsf 9 ≤ℤ lsf_max_edge

-- After the rounds up, the last coordinate is the largest.
last_largest :
    (xs : List ℤ)
    → Words xs
    → ((k : ℕ) → k < 9 → add (at xs k) lsf_min_gap ≤ℤ at xs (suc k))
    → (left k : ℕ) → k + left ≡ 9
    → at xs k ≤ℤ at xs 9
last_largest xs w steps zero k e = let nine : k ≡ 9 = omega arith in rw nine (omega arith)
last_largest xs w steps (suc left) k e = ground (
  arith,
  (add_gap (at xs k) (w k)).0,
  steps k (omega arith),
  last_largest xs w steps left (suc k) (omega arith),
)

steps-Floor :
    (xs : List ℤ)
    → Words xs
    → lsf_min_edge ≤ℤ at xs 0
    → ((k : ℕ) → k < 9 → add (at xs k) lsf_min_gap ≤ℤ at xs (suc k))
    → Floor xs
steps-Floor xs w first steps zero l = ground (arith, first)
steps-Floor xs w first steps (suc k) l =
    let here = steps-Floor xs w first steps k (omega arith) in
    ground (arith, steps k, add_gap_floor (at xs k) (41 + 321 * k) (w k) (omega arith) here)

-- The rounds down from the edge.
cut :
    (xs : List ℤ)
    → length xs ≡ 10
    → Words xs
    → Floor xs
    → IsStable (lower_loop 9 (set xs 9 lsf_max_edge))
cut xs len w f =
    let read = λ (k : ℕ). at-set xs 9 k lsf_max_edge (omega arith) in
    let same = length-set xs 9 lsf_max_edge in
    let r =
      lower_loop-Lowered 9 (set xs 9 lsf_max_edge) (omega arith) (same ∙ len)
        (Words-set xs 9 lsf_max_edge (omega arith) w (omega arith))
        (λ k l. ground (arith, read k, f k l)) in
    record {
      ten = r.same_length ∙ same ∙ len;
      first = ground (arith, r.floor 0);
      gaps = r.steps;
      last = ground (arith, r.behind 9, read 9);
    }

-- The ceiling makes the rules hold.
ceiling-IsStable :
    (xs : List ℤ)
    → length xs ≡ 10
    → Words xs
    → lsf_min_edge ≤ℤ at xs 0
    → ((k : ℕ) → k < 9 → add (at xs k) lsf_min_gap ≤ℤ at xs (suc k))
    → IsStable (ceiling xs)
unfolding ceiling
ceiling-IsStable xs len w first steps =
    if-cases IsStable (ltb_ℤ lsf_max_edge (at xs 9))
      (λ above. cut xs len w (steps-Floor xs w first steps))
      λ inside. record {
        ten = len;
        first = first;
        gaps = λ k l.
            let gap = add_gap (at xs k) (w k) in
            let top = last_largest xs w steps (8 - k) (suc k) (omega arith) in
            let small = gap.2 (ground (arith, steps k l, top)) in rw (gap.1 small) (steps k l);
        last = ground arith;
      }

pub enforce_lsf_stability-IsStable :
    (lsf : List ℤ) → length lsf ≡ 10 → Words lsf → IsStable (enforce_lsf_stability lsf)
unfolding enforce_lsf_stability insertion_sort10
enforce_lsf_stability-IsStable lsf len w =
    let sorted = insertion_sort10 lsf in
    let len' = length-sort_loop 9 1 lsf in
    let w' = sort_loop-Words 9 1 lsf (omega arith) w in
    let b = ltb_ℤ (at sorted 0) lsf_min_edge in
    let e = written b sorted 0 lsf_min_edge (omega (arith, len')) in
    let r =
      raise_loop-Raised 9 0 (if b then set sorted 0 lsf_min_edge else sorted)
        (omega (arith, e.0.same_length, len')) (e.0.words w' (omega arith)) in
    ceiling-IsStable _ (r.same_length ∙ e.0.same_length ∙ len' ∙ len) r.words
      (ground (arith, r.before 0, e.1)) λ k l. r.steps k (omega arith) (omega arith)
