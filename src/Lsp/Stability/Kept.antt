-- ===== src/Lsp/Stability/Kept.antt =====
-- internal/lsp/stability.go: the vectors that the rules leave alone.
use g.Base.{
  ℕ, zero, suc, ◌+◌, ◌<◌, ◌≡◌, ◌↔◌, refl, ap, subst, set, if◌then◌else◌, ◌∙◌, if-cases, arith,
  int_laws, List, length, ℤ, ltb_ℤ, ◌≤ℤ◌, ◌+ℤ◌,
}
use g.Fixed.Saturate.{add, saturate}
use g.Fixed.Saturate.Laws.{IsWord16}
use g.Lsp.Stability.{
  at, shift_loop, sort_loop, insertion_sort10, raise, raise_loop, ceiling, enforce_lsf_stability,
  lsf_min_edge, lsf_min_gap, lsf_max_edge,
}
use g.Lsp.Stability.Sort.{Words, Ascending, set_same}
use g.Lsp.Stability.Bounds.{IsStable, enforce_lsf_stability-IsStable}

shift_loop-same : (j : ℕ) (a : List ℤ) → Ascending (suc j) a → shift_loop j (at a j) a ≡ a
unfolding shift_loop
shift_loop-same zero a s = set_same a zero
shift_loop-same (suc j) a s =
    if-cases (λ x. x ≡ a) (ltb_ℤ (at a (suc j)) (at a j)) (λ less. absurd (ground (arith, s j)))
      λ more. set_same a (suc j)

sort_loop-same : (left i : ℕ) (a : List ℤ) → Ascending (i + left) a → sort_loop left i a ≡ a
unfolding sort_loop
sort_loop-same zero i a s = refl
sort_loop-same (suc left) i a s =
    let here = shift_loop-same i a (λ k l. s k (omega arith)) in
    rw here (sort_loop-same left (i + 1) a λ k l. s k (omega arith))

IsStable-Ascending : (lsf : List ℤ) → IsStable lsf → Ascending 10 lsf
IsStable-Ascending lsf s k l = grind (int_laws, s.gaps k (omega arith))

raise-same :
    (p : ℕ) (lsf : List ℤ) → add (at lsf p) lsf_min_gap ≤ℤ at lsf (suc p) → raise p lsf ≡ lsf
unfolding raise
raise-same p lsf h =
    if-cases (λ x. x ≡ lsf) (ltb_ℤ (at lsf (suc p)) (add (at lsf p) lsf_min_gap))
      (λ less. absurd (ground arith)) λ more. refl

raise_loop-same :
    (left p : ℕ) (lsf : List ℤ)
    → ((k : ℕ) → k < p + left → add (at lsf k) lsf_min_gap ≤ℤ at lsf (suc k))
    → raise_loop left p lsf ≡ lsf
unfolding raise_loop
raise_loop-same zero p lsf h = refl
raise_loop-same (suc left) p lsf h =
    rw (raise-same p lsf (h p (omega arith)))
      (raise_loop-same left (suc p) lsf λ k l. h k (omega arith))

add_gap_le : (x : ℤ) → IsWord16 x → add x lsf_min_gap ≤ℤ x +ℤ lsf_min_gap
unfolding add saturate ◌+ℤ◌
add_gap_le x h = ground arith

IsStable-steps :
    (lsf : List ℤ)
    → Words lsf
    → IsStable lsf
    → (k : ℕ) → k < 9
    → add (at lsf k) lsf_min_gap ≤ℤ at lsf (suc k)
IsStable-steps lsf w s k l = ground (arith, add_gap_le (at lsf k) (w k), s.gaps k l)

kept : (lsf : List ℤ) → Words lsf → IsStable lsf → enforce_lsf_stability lsf ≡ lsf
unfolding enforce_lsf_stability insertion_sort10 ceiling
kept lsf w s =
    ap (λ sorted. ceiling (raise_loop 9 0 (edged sorted)))
      (sort_loop-same 9 1 lsf (IsStable-Ascending lsf s))
    ∙ ap (λ x. ceiling (raise_loop 9 0 x))
        (if-cases (λ x. x ≡ lsf) (ltb_ℤ (at lsf 0) lsf_min_edge)
          (λ less. absurd (ground (arith, s.first))) λ more. refl)
    ∙ ap ceiling (raise_loop-same 9 0 lsf λ k l. IsStable-steps lsf w s k (omega arith))
    ∙ if-cases (λ x. x ≡ lsf) (ltb_ℤ lsf_max_edge (at lsf 9))
        (λ above. absurd (ground (arith, s.last))) λ inside. refl
  where
    edged : List ℤ → List ℤ
    edged sorted = if ltb_ℤ (at sorted 0) lsf_min_edge then set sorted 0 lsf_min_edge else sorted

-- For ten 16-bit words, enforceLSFStability gives a vector that satisfies the rules (the first
-- coordinate at least 41, neighbours at least 321 apart, the last at most 25682), and it leaves the
-- vector as it is exactly where the vector satisfies them already.
pub enforce_lsf_stability_iff :
    (lsf : List ℤ)
    → length lsf ≡ 10
    → Words lsf
    → IsStable (enforce_lsf_stability lsf) × ((enforce_lsf_stability lsf ≡ lsf) ↔ IsStable lsf)
enforce_lsf_stability_iff lsf len w =
    let stable = enforce_lsf_stability-IsStable lsf len w in
    (stable, ((λ e. subst IsStable e stable), kept lsf w))
