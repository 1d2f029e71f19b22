-- ===== src/Gain/Decode/Lost.antt =====
-- internal/gain/decode.go: runs of lost subframes.
use g.Base.{
  ℕ, zero, suc, ◌+◌, ◌-◌, ◌*◌, ◌<◌, ◌≤◌, ◌≡◌, refl, ap, ◌∙◌, arith, List, [], ◌∷◌, length, get_or,
  All, ℤ, pos, ◌+ℤ◌, ◌-ℤ◌, ◌≤ℤ◌, int_laws,
}
use g.Fixed.Saturate.Laws.{IsWord16}
use g.Gain.{Decoder, past_errors_default, default_errors, predictor_errors}
use g.Gain.Decode.{started, four, erased_error, mark_erasure}
use g.Gain.Decode.Fifo.{mark, Below, erase, Level, settled-Below, four_erased}

unfoldable erasures : ℕ → List ℤ → List ℤ
erasures zero past = past
erasures (suc n) past = erasures n (erase past)

settled-default : (past : List ℤ) → Level 4 0 past → past ≡ default_errors
settled-default (a ∷ b ∷ c ∷ d ∷ []) v =
    rw (same 0 (omega arith), same 1 (omega arith), same 2 (omega arith), same 3 (omega arith)) refl
  where
    same : (i : ℕ) → i < 4 → get_or (a ∷ b ∷ c ∷ d ∷ []) i (pos 0) ≡ past_errors_default
    same i h = grind (int_laws, v.settled i h h)
settled-default _ v = absurd (omega (arith, v.below.0))

erase_default : erase default_errors ≡ default_errors
unfolding erased_error four ◌+ℤ◌ ◌-ℤ◌
erase_default = refl

default_stays : (m : ℕ) → erasures m default_errors ≡ default_errors
unfolding erasures
default_stays zero = refl
default_stays (suc m) = ap (erasures m) erase_default ∙ default_stays m

erasures_four :
    (n m : ℕ) (past : List ℤ)
    → erasures (4 * suc n + m) past ≡ erasures (4 * n + m) (erase (erase (erase (erase past))))
unfolding erasures
erasures_four n m past = ap (λ (k : ℕ). erasures k past) step
  where
    step : 4 * suc n + m ≡ suc (suc (suc (suc (4 * n + m))))
    step = omega arith

worn_off :
    (n m : ℕ) (past : List ℤ)
    → n ≤ 11
    → Below (suc n) past
    → erasures (4 * suc n + m) past ≡ default_errors
worn_off zero m past l v =
    let level = four_erased 0 past l v in
    erasures_four 0 m past
    ∙ ap (erasures (4 * 0 + m)) (settled-default _ level)
    ∙ default_stays (4 * 0 + m)
worn_off (suc n) m past l v =
    let level = four_erased (suc n) past l v in
    erasures_four (suc n) m past ∙ worn_off n m _ (omega arith) (settled-Below (suc n) _ l level)

-- `n` lost subframes.
unfoldable pub lose : ℕ → Decoder → Decoder
lose zero d = d
lose (suc n) d = lose n (mark_erasure d)

predictor_errors-lose :
    (n : ℕ) (d : Decoder) → predictor_errors (lose n d) ≡ erasures n (predictor_errors d)
unfolding lose erasures mark_erasure predictor_errors started
predictor_errors-lose zero d = refl
predictor_errors-lose (suc n) d = predictor_errors-lose n (mark_erasure d)

-- Four 16-bit words.
abbrev pub IsErrors : List ℤ → Type 0
IsErrors past = (length past ≡ 4) × All IsWord16 past

word_under : (u : ℤ) → IsWord16 u → u ≤ℤ mark 12
unfolding ◌-ℤ◌
word_under u h = omega arith

words-Below : (past : List ℤ) → IsErrors past → Below 12 past
words-Below (a ∷ b ∷ c ∷ d ∷ []) v =
    let (len, (ha, (hb, (hc, (hd, end))))) = v in
    (
      refl,
      (
        (ha, word_under a ha),
        ((hb, word_under b hb), ((hc, word_under c hc), ((hd, word_under d hd), tt))),
      ),
    )
words-Below _ v = absurd (omega arith)

-- For a gain decoder whose remembered errors are four 16-bit words, 48 or more calls of MarkErasure
-- in a row leave all four at the default of -14336.
pub lose_lem :
    (d : Decoder) (n : ℕ)
    → IsErrors (predictor_errors d)
    → 48 ≤ n
    → predictor_errors (lose n d) ≡ default_errors
lose_lem d n v h =
    predictor_errors-lose n d
    ∙ ap (λ (k : ℕ). erasures k (predictor_errors d)) count
    ∙ worn_off 11 (n - 48) (predictor_errors d) (omega arith) (words-Below (predictor_errors d) v)
  where
    count : n ≡ 4 * 12 + (n - 48)
    count = omega arith
