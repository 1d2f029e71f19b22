-- ===== src/Base/Loops.antt =====
-- Counting loops, and what holds after them.
use Prim.Native.Nat.{ℕ, zero, suc, ◌+◌, ◌≤◌, ◌<◌}
use mathlib.Core.Path.{subst, sym}
use native.Mathlib.Decide.{ℕ_discrete}
use native.Mathlib.Omega.{arith}

-- A loop of `rounds` rounds whose counter starts at `first` and goes up by one.
module _ {ℓ} {S : Type ℓ} where
  unfoldable pub for_range : ℕ → ℕ → (ℕ → S → S) → S → S
  for_range zero first round start = start
  for_range (suc rounds) first round start =
      let reached = round first start in for_range rounds (first + 1) round reached

-- An invariant of every round holds at the end.
pub for_range_keeps {ℓ κ} :
    {S : Type ℓ} (P : S → Type κ) (n i : ℕ) (body : ℕ → S → S) (s : S)
    → ((k : ℕ) (t : S) → i ≤ k → k < i + n → P t → P (body k t))
    → P s
    → P (for_range n i body s)
unfolding for_range
for_range_keeps P zero i body s keep p = p
for_range_keeps P (suc n) i body s keep p =
    for_range_keeps P n (i + 1) body (body i s) (λ k t h l. keep k t (omega arith) (omega arith))
      (keep i s (omega arith) (omega arith) p)

-- Two loops that run side by side keep what relates their states.
pub for_range_relates {ℓ μ κ} :
    {S : Type ℓ} {T : Type μ} (R : S → T → Type κ) (n i : ℕ) (f : ℕ → S → S) (g : ℕ → T → T) (s : S)
    (t : T)
    → ((k : ℕ) (a : S) (b : T) → i ≤ k → k < i + n → R a b → R (f k a) (g k b))
    → R s t
    → R (for_range n i f s) (for_range n i g t)
unfolding for_range
for_range_relates R zero i f g s t keep r = r
for_range_relates R (suc n) i f g s t keep r =
    for_range_relates R n (i + 1) f g (f i s) (g i t)
      (λ k a b h l. keep k a b (omega arith) (omega arith))
      (keep i s t (omega arith) (omega arith) r)

-- What the first round makes of a start, and every round keeps, holds at the end.
pub for_range_starts {ℓ κ} :
    {S : Type ℓ} (Q : S → Type κ) (n i : ℕ) (body : ℕ → S → S) (s : S)
    → 1 ≤ n
    → Q (body i s)
    → ((k : ℕ) (t : S) → i ≤ k → k < i + n → Q t → Q (body k t))
    → Q (for_range n i body s)
unfolding for_range
for_range_starts Q zero i body s h first keep = absurd (omega arith)
for_range_starts Q (suc n) i body s h first keep =
    for_range_keeps Q n (i + 1) body (body i s) (λ k t a b. keep k t (omega arith) (omega arith))
      first

-- What a round reaches and the later rounds keep holds at the end.
pub for_range_reaches {ℓ κ} :
    {S : Type ℓ} (Q : ℕ → S → Type κ) (n i : ℕ) (body : ℕ → S → S) (s : S)
    → ((k : ℕ) (t : S) → i ≤ k → k < i + n → Q k (body k t))
    → ((j k : ℕ) (t : S) → i ≤ k → k < i + n → Q j t → Q j (body k t))
    → (k : ℕ) → i ≤ k
    → k < i + n
    → Q k (for_range n i body s)
unfolding for_range
for_range_reaches Q zero i body s reach keep k h l = absurd (omega arith)
for_range_reaches Q (suc n) i body s reach keep k h l = elim (ℕ_discrete k i) [
  | yes e ↦
      subst (λ (j : ℕ). Q j (for_range n (i + 1) body (body i s))) (sym e)
        (for_range_keeps (Q i) n (i + 1) body (body i s)
          (λ m t a b. keep i m t (omega arith) (omega arith))
          (reach i s (omega arith) (omega arith)))
  | no ne ↦
      for_range_reaches Q n (i + 1) body (body i s)
        (λ m t a b. reach m t (omega arith) (omega arith))
        (λ j m t a b. keep j m t (omega arith) (omega arith)) k (omega arith) (omega arith)
]

-- A step that keeps a property of the state and what has been reached so far, and reaches the
-- candidates of a family. Such steps in a loop reach the families of all its rounds.
module _ {ℓ κ μ ν} {S : Type ℓ} {X : Type κ} (P : S → Type μ) (B : X → S → Type ν) where
  pub record Covers (K : X → Type 0) (f : S → S) : Type (ℓ ⊔ κ ⊔ μ ⊔ ν) where
    pub state : (s : S) → P s → P (f s)
    pub keeps : (x : X) (s : S) → P s → B x s → B x (f s)
    pub reaches : (x : X) (s : S) → P s → K x → B x (f s)

  abbrev pub Rounds : ℕ → ℕ → (ℕ → X → Type 0) → X → Type 0
  Rounds n i K x = (k : ℕ) × (i ≤ k) × (k < i + n) × K k x

  pub for_range-Covers :
      (n i : ℕ) (K : ℕ → X → Type 0) (body : ℕ → S → S)
      → ((k : ℕ) → i ≤ k → k < i + n → Covers (K k) (body k))
      → Covers (Rounds n i K) (for_range n i body)
  unfolding for_range
  for_range-Covers zero i K body h = record {
    state = λ s p. p;
    keeps = λ x s p b. b;
    reaches = λ x s p k. absurd (omega (arith, k.1, k.2));
  }
  for_range-Covers (suc n) i K body h =
      let first = h i (omega arith) (omega arith) in
      let rest = for_range-Covers n (i + 1) K body λ k a b. h k (omega arith) (omega arith) in
      record {
        state = λ s p. rest.state (body i s) (first.state s p);
        keeps = λ x s p b. rest.keeps x (body i s) (first.state s p) (first.keeps x s p b);
        reaches = λ x s p r.
            let (k, a, b, c) = r in
            elim (ℕ_discrete k i) [
              | yes e ↦
                  rest.keeps x (body i s) (first.state s p)
                    (first.reaches x s p (subst (λ (j : ℕ). K j x) e c))
              | no ne ↦ rest.reaches x (body i s) (first.state s p) (k, omega arith, omega arith, c)
            ];
      }
