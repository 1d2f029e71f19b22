-- ===== src/Gain/Decode/Fifo.antt =====
-- internal/gain/decode.go: what a lost subframe does to the errors that the predictor remembers.
use g.Base.{
  ℕ, zero, suc, ◌*◌, ◌<◌, ◌≤◌, ◌≡◌, refl, arith, List, [], ◌∷◌, length, get_or, All, ℤ, pos, negsuc,
  ◌+ℤ◌, ◌-ℤ◌, ◌≤ℤ◌, int_laws,
}
use g.Fixed.Saturate.Laws.{IsWord16}
use g.Gain.{past_errors_default}
use g.Gain.Decode.{pushed, four, erased_error}

-- The mark that lies `n` steps of a lost frame above the default.
abbrev pub mark : ℕ → ℤ
mark n = pos (4096 * n) -ℤ pos 14336

erased_error_lem :
    (s : ℤ) (n : ℕ)
    → n ≤ 11
    → negsuc 131071 ≤ℤ s
    → s ≤ℤ pos (16384 * suc n) -ℤ pos 57344
    → (erased_error s ≤ℤ mark n) × (past_errors_default ≤ℤ erased_error s)
unfolding erased_error ◌-ℤ◌
erased_error_lem (pos s) n l low h = ground arith
erased_error_lem (negsuc s) n l low h = ground arith

four_le :
    (a b c d : ℤ) (n : ℕ)
    → a ≤ℤ mark n
    → b ≤ℤ mark n
    → c ≤ℤ mark n
    → d ≤ℤ mark n
    → a +ℤ b +ℤ c +ℤ d ≤ℤ pos (16384 * n) -ℤ pos 57344
four_le a b c d n ha hb hc hd = grind int_laws

four_ge :
    (a b c d : ℤ)
    → IsWord16 a
    → IsWord16 b
    → IsWord16 c
    → IsWord16 d
    → negsuc 131071 ≤ℤ a +ℤ b +ℤ c +ℤ d
four_ge a b c d ha hb hc hd = grind int_laws

-- Four words up to the mark.
abbrev pub Below : ℕ → List ℤ → Type 0
Below n past = (length past ≡ 4) × All (λ u. IsWord16 u × (u ≤ℤ mark n)) past

-- One lost frame, on the FIFO.
abbrev pub erase : List ℤ → List ℤ
erase past = pushed (erased_error (four past)) past

-- The new entry lies between the default and the mark below.
pub new_entry :
    (n : ℕ) (past : List ℤ)
    → n ≤ 11
    → Below (suc n) past
    → (past_errors_default ≤ℤ erased_error (four past)) × (erased_error (four past) ≤ℤ mark n)
unfolding four
new_entry n (a ∷ b ∷ c ∷ d ∷ []) l v =
    let (len, (ha, (hb, (hc, (hd, end))))) = v in
    let r =
      erased_error_lem (a +ℤ b +ℤ c +ℤ d) n l (four_ge a b c d ha.0 hb.0 hc.0 hd.0)
        (four_le a b c d (suc n) ha.1 hb.1 hc.1 hd.1) in
    (r.1, r.0)
new_entry n _ l v = absurd (omega arith)

-- Entry by entry: the first `k` lie between the default and the mark, the others under the mark
-- above.
pub record Level (k n : ℕ) (past : List ℤ) : Type 0 where
  pub below : Below (suc n) past
  pub settled :
      (i : ℕ)
      → i < k
      → i < 4
      → (past_errors_default ≤ℤ get_or past i (pos 0)) × (get_or past i (pos 0) ≤ℤ mark n)

settled_word :
    (u : ℤ) (n : ℕ)
    → n ≤ 11
    → past_errors_default ≤ℤ u
    → u ≤ℤ mark n
    → IsWord16 u × (u ≤ℤ mark (suc n))
unfolding ◌-ℤ◌
settled_word u n l low high = ground arith

erase-Below : (n : ℕ) (past : List ℤ) → n ≤ 11 → Below (suc n) past → Below (suc n) (erase past)
erase-Below n (a ∷ b ∷ c ∷ d ∷ []) l v =
    let new = new_entry n (a ∷ b ∷ c ∷ d ∷ []) l v in
    let word = settled_word _ n l new.0 new.1 in (refl, (word, (v.1.0, (v.1.1.0, (v.1.1.1.0, tt)))))
erase-Below n _ l v = absurd (omega arith)

pub erase-Level : (k n : ℕ) (past : List ℤ) → n ≤ 11 → Level k n past → Level (suc k) n (erase past)
erase-Level k n past l v = record { below = erase-Below n past l v.below; settled = settled }
  where
    settled :
        (i : ℕ)
        → i < suc k
        → i < 4
        → (past_errors_default ≤ℤ get_or (erase past) i (pos 0))
          × (get_or (erase past) i (pos 0) ≤ℤ mark n)
    settled zero h m = new_entry n past l v.below
    settled (suc zero) h m = v.settled 0 (omega arith) (omega arith)
    settled (suc (suc zero)) h m = v.settled 1 (omega arith) (omega arith)
    settled (suc (suc (suc zero))) h m = v.settled 2 (omega arith) (omega arith)
    settled (suc (suc (suc (suc i)))) h m = absurd (omega arith)

-- All four settled is the level below.
pub settled-Below : (n : ℕ) (past : List ℤ) → n ≤ 11 → Level 4 n past → Below n past
settled-Below n (a ∷ b ∷ c ∷ d ∷ []) l v =
    let entry = λ (i : ℕ) (h : i < 4). v.settled i h h in
    let words = v.below.1 in
    (
      refl,
      (
        (words.0.0, (entry 0 (omega arith)).1),
        (
          (words.1.0.0, (entry 1 (omega arith)).1),
          (
            (words.1.1.0.0, (entry 2 (omega arith)).1),
            ((words.1.1.1.0.0, (entry 3 (omega arith)).1), tt),
          ),
        ),
      ),
    )
settled-Below n _ l v = absurd (omega (arith, v.below.0))

pub four_erased :
    (n : ℕ) (past : List ℤ)
    → n ≤ 11
    → Below (suc n) past
    → Level 4 n (erase (erase (erase (erase past))))
four_erased n past l v =
    let start : Level 0 n past = record { below = v; settled = λ i h. absurd (omega arith) } in
    erase-Level 3 n _ l (erase-Level 2 n _ l (erase-Level 1 n _ l (erase-Level 0 n past l start)))
