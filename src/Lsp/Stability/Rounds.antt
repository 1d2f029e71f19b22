-- ===== src/Lsp/Stability/Rounds.antt =====
-- internal/lsp/stability.go: the rounds that push coordinates up and down.
use native.Mathlib.Decide.{ℕ_discrete}
use g.Base.{
  Bool, true, false, ℕ, zero, suc, ◌+◌, ◌*◌, ◌<◌, ◌≤◌, ◌≡◌, refl, ◌∙◌, arith, List, if◌then◌else◌,
  ◌≢◌, ◌⊎◌, length, set, length-set, ℤ, pos, ◌+ℤ◌, ◌-ℤ◌, ◌≤ℤ◌, ltb_ℤ, int_laws,
}
use g.Fixed.Saturate.{add, sub, saturate}
use g.Fixed.Saturate.Laws.{IsWord16, saturate-InRange}
use g.Lsp.Stability.{at, raise, raise_loop, lower, lower_loop, lsf_min_gap}
use g.Lsp.Stability.Sort.{Words, Words-set, at-set}

pub add-IsWord16 : (a b : ℤ) → IsWord16 (add a b)
unfolding add
add-IsWord16 a b = saturate-InRange (a +ℤ b)

pub sub-IsWord16 : (a b : ℤ) → IsWord16 (sub a b)
unfolding sub
sub-IsWord16 a b = saturate-InRange (a -ℤ b)

-- `Add` of the gap is the sum, or the largest word where the sum is larger.
pub add_gap :
    (x : ℤ)
    → IsWord16 x
    → (x ≤ℤ add x lsf_min_gap)
      × (x ≤ℤ pos 32446 → x +ℤ lsf_min_gap ≡ add x lsf_min_gap)
      × (add x lsf_min_gap ≤ℤ pos 32766 → x ≤ℤ pos 32446)
unfolding add saturate ◌+ℤ◌
add_gap x h = (ground arith, (λ l. ground arith), λ l. ground arith)

pub add_gap_floor :
    (x : ℤ) (c : ℕ) → IsWord16 x → c ≤ 32446 → pos c ≤ℤ x → pos (c + 321) ≤ℤ add x lsf_min_gap
unfolding add saturate ◌+ℤ◌
add_gap_floor x c h l m = ground arith

-- `Sub` of the gap from what is not negative.
pub sub_gap : (x : ℤ) → IsWord16 x → pos 0 ≤ℤ x → sub x lsf_min_gap ≡ x -ℤ lsf_min_gap
unfolding sub saturate ◌-ℤ◌
sub_gap x h l = ground arith

-- A write under a test.
pub record Written (lsf : List ℤ) (i : ℕ) (v : ℤ) (out : List ℤ) : Type 0 where
  pub same_length : length out ≡ length lsf
  pub apart : (j : ℕ) → j ≢ i → at out j ≡ at lsf j
  pub words : Words lsf → IsWord16 v → Words out

pub written :
    (b : Bool) (lsf : List ℤ) (i : ℕ) (v : ℤ)
    → i < length lsf
    → Written lsf i v (if b then set lsf i v else lsf)
      × (at (if b then set lsf i v else lsf) i ≡ (if b then v else at lsf i))
written true lsf i v h = (
  record {
    same_length = length-set lsf i v;
    apart = λ j ne. ground (arith, at-set lsf i j v h);
    words = Words-set lsf i v h;
  },
  ground (arith, at-set lsf i i v h),
)
written false lsf i v h =
    (record { same_length = refl; apart = λ j ne. refl; words = λ w x. w }, refl)

-- A round that pushes up.
pub raise_lem :
    (p : ℕ) (lsf : List ℤ)
    → suc p < length lsf
    → Written lsf (suc p) (add (at lsf p) lsf_min_gap) (raise p lsf)
      × (add (at lsf p) lsf_min_gap ≤ℤ at (raise p lsf) (suc p))
      × (at lsf (suc p) ≤ℤ at (raise p lsf) (suc p))
unfolding raise
raise_lem p lsf h =
    let min_next = add (at lsf p) lsf_min_gap in
    let w = written (ltb_ℤ (at lsf (suc p)) min_next) lsf (suc p) min_next h in
    (w.0, ground (arith, w.1), ground (arith, w.1))

-- `out` is `lsf` after the rounds that push up from `p` on.
pub record Raised (left p : ℕ) (lsf out : List ℤ) : Type 0 where
  pub same_length : length out ≡ length lsf
  pub before : (j : ℕ) → j ≤ p → at out j ≡ at lsf j
  pub words : Words out
  pub steps : (k : ℕ) → p ≤ k → k < p + left → add (at out k) lsf_min_gap ≤ℤ at out (suc k)

pub raise_loop-Raised :
    (left p : ℕ) (lsf : List ℤ)
    → suc p + left ≤ length lsf
    → Words lsf
    → Raised left p lsf (raise_loop left p lsf)
unfolding raise_loop
raise_loop-Raised zero p lsf fits w = record {
  same_length = refl;
  before = λ j l. refl;
  words = w;
  steps = λ k l m. absurd (omega arith);
}
raise_loop-Raised (suc left) p lsf fits w =
    let round = raise_lem p lsf (omega arith) in
    let rest =
      raise_loop-Raised left (suc p) (raise p lsf) (omega (arith, round.0.same_length))
        (round.0.words w (add-IsWord16 (at lsf p) lsf_min_gap)) in
    record {
      same_length = rest.same_length ∙ round.0.same_length;
      before = λ j l. rest.before j (omega arith) ∙ round.0.apart j (λ e. omega arith);
      words = rest.words;
      steps = λ k l m. elim (ℕ_discrete k p) [
        | yes e ↦
            rw
              (
                e,
                rest.before p (omega arith),
                rest.before (suc p) (omega arith),
                round.0.apart p (λ e. omega arith),
              )
              round.1
        | no ne ↦ rest.steps k (omega arith) (omega arith)
      ];
    }

-- A coordinate is no less than the edge and the gaps before it.
abbrev pub Floor : List ℤ → Type 0
Floor xs = (k : ℕ) → k < 10 → pos (41 + 321 * k) ≤ℤ at xs k

pub lower_lem :
    (i : ℕ) (lsf : List ℤ)
    → i < length lsf
    → Written lsf i (sub (at lsf (suc i)) lsf_min_gap) (lower i lsf)
      × (at (lower i lsf) i ≤ℤ sub (at lsf (suc i)) lsf_min_gap)
      × ((at (lower i lsf) i ≡ at lsf i) ⊎ (at (lower i lsf) i ≡ sub (at lsf (suc i)) lsf_min_gap))
unfolding lower
lower_lem i lsf h =
    let max_prev = sub (at lsf (suc i)) lsf_min_gap in
    let w = written (ltb_ℤ max_prev (at lsf i)) lsf i max_prev h in
    (w.0, ground (arith, w.1), ground (arith, w.1))

pub lower-Floor :
    (i : ℕ) (lsf : List ℤ)
    → i < 9
    → length lsf ≡ 10
    → Words lsf
    → Floor lsf
    → Words (lower i lsf)
      × Floor (lower i lsf)
      × (at (lower i lsf) i +ℤ lsf_min_gap ≤ℤ at (lower i lsf) (suc i))
lower-Floor i lsf l len w f =
    let round = lower_lem i lsf (omega arith) in
    let exact = sub_gap (at lsf (suc i)) (w (suc i)) (ground (arith, f (suc i) (omega arith))) in
    let next = f (suc i) (omega arith) in
    (
      round.0.words w (sub-IsWord16 (at lsf (suc i)) lsf_min_gap),
      (λ k m. elim (ℕ_discrete k i) [
        | yes e ↦ rw e (grind (int_laws, round.2, exact, next, f i))
        | no ne ↦ rw (round.0.apart k ne) (f k m)
      ]),
      rw (round.0.apart (suc i) (λ e. omega arith)) (grind (int_laws, round.1, exact)),
    )

-- `out` is `lsf` after the rounds that push down from `i` on.
pub record Lowered (i : ℕ) (lsf out : List ℤ) : Type 0 where
  pub same_length : length out ≡ length lsf
  pub behind : (j : ℕ) → i ≤ j → at out j ≡ at lsf j
  pub floor : Floor out
  pub steps : (k : ℕ) → k < i → at out k +ℤ lsf_min_gap ≤ℤ at out (suc k)

pub lower_loop-Lowered :
    (i : ℕ) (lsf : List ℤ)
    → i < 10
    → length lsf ≡ 10
    → Words lsf
    → Floor lsf
    → Lowered i lsf (lower_loop i lsf)
unfolding lower_loop
lower_loop-Lowered zero lsf l len w f = record {
  same_length = refl;
  behind = λ j m. refl;
  floor = f;
  steps = λ k m. absurd (omega arith);
}
lower_loop-Lowered (suc i) lsf l len w f =
    let round = lower_lem i lsf (omega arith) in
    let kept = lower-Floor i lsf (omega arith) len w f in
    let rest =
      lower_loop-Lowered i (lower i lsf) (omega arith) (round.0.same_length ∙ len) kept.0 kept.1 in
    record {
      same_length = rest.same_length ∙ round.0.same_length;
      behind = λ j m. rest.behind j (omega arith) ∙ round.0.apart j (λ e. omega arith);
      floor = rest.floor;
      steps = λ k m. elim (ℕ_discrete k i) [
        | yes e ↦ rw (e, rest.behind i (omega arith), rest.behind (suc i) (omega arith)) kept.2
        | no ne ↦ rest.steps k (omega arith)
      ];
    }
