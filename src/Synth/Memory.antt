-- ===== src/Synth/Memory.antt =====
-- internal/synth: what the filter writes and keeps.
use g.Base.{
  ℕ, zero, suc, ◌+◌, ◌-◌, ◌<◌, ◌≡◌, refl, ap, ◌∙◌, sym, if-cases, false, arith, List, [], ◌∷◌, ◌++◌,
  length, drop, replicate, length-append, length-drop, length-replicate, if◌then◌else◌, ltb, ℤ, pos,
  asr,
}
use g.Lsp.Stability.Sort.{Words}
use g.Lsp.Predictor.Words.{wrap16-IsWord16}
use g.Synth.{at, one_pass, filter_subframe, filter, finished, scaled_down, Synthesizer, work_of}
use g.Synth.Exact.{Passed, one_pass_loop-Passed, exact_sample, exact_sample-ext}

at-append :
    (xs ys : List ℤ) (k : ℕ)
    → at (xs ++ ys) k ≡ (if ltb k (length xs) then at xs k else at ys (k - length xs))
at-append [] ys k = ground arith
at-append (x ∷ xs) ys zero = ground arith
at-append (x ∷ xs) ys (suc k) = ground (arith, at-append xs ys k)

at-drop : (n : ℕ) (xs : List ℤ) (k : ℕ) → at (drop n xs) k ≡ at xs (k + n)
at-drop zero xs k = ap (λ (i : ℕ). at xs i) (omega arith)
at-drop (suc n) [] k = refl
at-drop (suc n) (x ∷ xs) k =
    let next : suc (k + n) ≡ k + suc n = omega arith in
    at-drop n xs k ∙ ap (λ (i : ℕ). at (x ∷ xs) i) next

pub append-Words : (xs ys : List ℤ) → Words xs → Words ys → Words (xs ++ ys)
append-Words xs ys wx wy k = ground (arith, at-append xs ys k, wx k, wy (k - length xs))

pub zeros-Words : (n : ℕ) → Words (replicate n (pos 0))
zeros-Words zero k = omega arith
zeros-Words (suc n) zero = omega arith
zeros-Words (suc n) (suc k) = zeros-Words n k

pub drop-Words : (n : ℕ) (xs : List ℤ) → Words xs → Words (drop n xs)
drop-Words n xs w k = rw (at-drop n xs k) (w (k + n))

scaled_down-Words : (u : List ℤ) → Words (scaled_down u)
unfolding scaled_down
scaled_down-Words [] k = omega arith
scaled_down-Words (x ∷ u) zero = wrap16-IsWord16 (asr x 2)
scaled_down-Words (x ∷ u) (suc k) = scaled_down-Words u k

-- Ten words of memory.
pub record IsMemory (past : List ℤ) : Type 0 where
  pub ten : length past ≡ 10
  pub words : Words past

passed :
    (a u past : List ℤ)
    → Words a
    → Words u
    → IsMemory past
    → Passed 40 0 a u (work_of past) false (one_pass a u (work_of past) false)
unfolding one_pass
passed a u past wa wu m =
    one_pass_loop-Passed 40 0 a u (work_of past) false wa wu
      (append-Words past (replicate 40 (pos 0)) m.words (zeros-Words 40))
      (omega (arith, length-append past (replicate 40 (pos 0)), length-replicate 40 (pos 0), m.ten))

-- A subframe of words, and the memory of its last ten samples.
pub record IsSubframe (r : List ℤ × Synthesizer) : Type 0 where
  pub forty : length r.0 ≡ 40
  pub words : Words r.0
  pub memory : r.1.past_synth ≡ drop 30 r.0
  pub kept : IsMemory r.1.past_synth

drop-drop : (m n : ℕ) (xs : List ℤ) → drop m (drop n xs) ≡ drop (m + n) xs
drop-drop m zero xs = ap (λ (i : ℕ). drop i xs) (omega arith)
drop-drop m (suc n) [] = drop_none m ∙ sym (drop_none (m + suc n))
  where
    drop_none : (i : ℕ) → drop {A = ℤ} i [] ≡ []
    drop_none zero = refl
    drop_none (suc i) = refl
drop-drop m (suc n) (x ∷ xs) =
    let next : suc (m + n) ≡ m + suc n = omega arith in
    drop-drop m n xs ∙ ap (λ (i : ℕ). drop i (x ∷ xs)) next

finished-IsSubframe :
    (shift : ℕ) (work : List ℤ) → length work ≡ 50 → Words work → IsSubframe (finished shift work)
finished-IsSubframe shift work len w = record {
  forty = omega (arith, length-drop 10 work);
  words = drop-Words 10 work w;
  memory = sym (drop-drop 30 10 work);
  kept = record { ten = omega (arith, length-drop 40 work); words = drop-Words 40 work w };
}

length-work : (past : List ℤ) → length past ≡ 10 → length (work_of past) ≡ 50
length-work past h =
    omega (arith, length-append past (replicate 40 (pos 0)), length-replicate 40 (pos 0))

pub filter-IsSubframe :
    (synth : Synthesizer) (a u : List ℤ)
    → IsMemory synth.past_synth
    → Words a
    → Words u
    → IsSubframe (filter synth a u)
unfolding filter filter_subframe
filter-IsSubframe synth a u m wa wu =
    let first = passed a u synth.past_synth wa wu m in
    let second = passed a (scaled_down u) synth.past_synth wa (scaled_down-Words u) m in
    let fifty = length-work synth.past_synth m.ten in
    if-cases IsSubframe (one_pass a u (work_of synth.past_synth) false).1
      (λ over. finished-IsSubframe 2 _ (second.same_length ∙ fifty) second.words)
      λ clear. finished-IsSubframe 0 _ (first.same_length ∙ fifty) first.words

-- The buffer is the memory and what is written behind it.
rebuilt :
    (past work : List ℤ)
    → length past ≡ 10
    → ((k : ℕ) → k < 10 → at work k ≡ at past k)
    → (k : ℕ) → at work k ≡ at (past ++ drop 10 work) k
rebuilt past work len same k =
    ground (arith, at-append past (drop 10 work) k, at-drop 10 work (k - length past), same k)

-- A sample satisfies the difference equation unless the excitation was scaled.
abbrev IsExact : Synthesizer → List ℤ → List ℤ → ℕ → List ℤ × Synthesizer → Type 0
IsExact synth a u j r =
    r.1.last_excitation_scale_shift ≡ 0 → at r.0 j ≡ exact_sample j a u (synth.past_synth ++ r.0)

-- For a memory of ten 16-bit words and coefficients and an excitation that are 16-bit words: where
-- Filter reports no scaling, each of its 40 samples is the exact value of the difference equation
-- at that place, with the excitation, the coefficients and the ten samples before it, so that no
-- step of the run has saturated.
pub filter_lem :
    (synth : Synthesizer) (a u : List ℤ) (j : ℕ)
    → IsMemory synth.past_synth
    → Words a
    → Words u
    → (filter synth a u).1.last_excitation_scale_shift ≡ 0
    → j < 40
    → at (filter synth a u).0 j ≡ exact_sample j a u (synth.past_synth ++ (filter synth a u).0)
unfolding filter filter_subframe
filter_lem synth a u j m wa wu clean h =
    let work = one_pass a u (work_of synth.past_synth) false in
    if-cases (IsExact synth a u j) work.1 (λ over clean. absurd (omega arith))
      (λ clear clean.
        let first = passed a u synth.past_synth wa wu m in
        let past = λ (k : ℕ) (l : k < 10).
          first.before k l
          ∙ ground (arith, at-append synth.past_synth (replicate 40 (pos 0)) k, m.ten) in
        let behind : j + 10 ≡ 10 + j = omega arith in
        at-drop 10 work.0 j
        ∙ ap (λ (i : ℕ). at work.0 i) behind
        ∙ first.exact clear j (omega arith) h
        ∙ exact_sample-ext j a u work.0 (synth.past_synth ++ drop 10 work.0)
            λ k l. rebuilt synth.past_synth work.0 m.ten past k)
      clean
