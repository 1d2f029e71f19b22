-- ===== src/Bitstream/Runs.antt =====
-- Runs of writes and reads, for any list of widths.
use g.Base.{
  ℕ, ◌+◌, ◌-◌, ◌*◌, ◌%◌, ◌^◌, ◌≤◌, ◌<◌, ◌≡◌, refl, subst, ◌∙◌, List, [], ◌∷◌, All, arith, length,
}
use native.Mathlib.Decide.{dec_lt}
use g.Bitstream.BitIo.{BitWriter, write}
use g.Bitstream.BitIo.Stream.{bit_at, IsClear, write-Wrote}
use g.Bitstream.BitIo.Bytes.{IsByte, write-IsByte}
use g.Bitstream.BitIo.Fields.{field, field_of_bits, test_bit-field}

-- A run of writes, as pairs of a value and a width.
unfoldable pub write_all : List (ℕ × ℕ) → BitWriter → BitWriter
write_all [] w = w
write_all ((v, n) ∷ rest) w = write_all rest (write v n w)

unfoldable pub total : List (ℕ × ℕ) → ℕ
total [] = 0
total ((v, n) ∷ rest) = n + total rest

-- From bit `p` on, the slice holds the values at their widths.
abbrev pub Holds : List ℕ → ℕ → List (ℕ × ℕ) → Type 0
Holds buf p [] = Unit
Holds buf p ((v, n) ∷ rest) = (field buf p n ≡ v % 2 ^ n) × Holds buf (p + n) rest

pub record WroteAll (fs : List (ℕ × ℕ)) (w out : BitWriter) : Type 0 where
  pub same_length : length out.buf ≡ length w.buf
  pub before : (p : ℕ) → p < w.bit_pos → bit_at out.buf p ≡ bit_at w.buf p
  pub holds : Holds out.buf w.bit_pos fs

pub write_all-WroteAll :
    (fs : List (ℕ × ℕ)) (w : BitWriter)
    → IsClear w
    → w.bit_pos + total fs ≤ 8 * length w.buf
    → WroteAll fs w (write_all fs w)
unfolding write_all total
write_all-WroteAll [] w clear room = record { same_length = refl; before = λ p h. refl; holds = tt }
write_all-WroteAll ((v, n) ∷ rest) w clear room =
    let first = write-Wrote n v w clear (omega arith) in
    let fits : (write v n w).bit_pos + total rest ≤ 8 * length (write v n w).buf =
      omega (arith, first.moved, first.same_length) in
    let later = write_all-WroteAll rest (write v n w) first.clear fits in
    record {
      same_length = later.same_length ∙ first.same_length;
      before = λ p h. ground (arith, later.before p, first.before p, first.moved);
      holds = (
        field_of_bits (write_all rest (write v n w)).buf v w.bit_pos n
            (λ j h. ground (arith, later.before (w.bit_pos + j), first.inside j, first.moved)),
        subst (λ p. Holds (write_all rest (write v n w)).buf p rest) first.moved later.holds,
      );
    }

pub write_all-IsByte :
    (fs : List (ℕ × ℕ)) (w : BitWriter) → All IsByte w.buf → All IsByte (write_all fs w).buf
unfolding write_all
write_all-IsByte [] w h = h
write_all-IsByte ((v, n) ∷ rest) w h = write_all-IsByte rest (write v n w) (write-IsByte n v w h)

-- Slices that agree on a run of fields agree on each bit of the run.
abbrev pub SameFields : List ℕ → List ℕ → ℕ → List ℕ → Type 0
SameFields a b p [] = Unit
SameFields a b p (n ∷ ns) = (field a p n ≡ field b p n) × SameFields a b (p + n) ns

unfoldable pub sum_widths : List ℕ → ℕ
sum_widths [] = 0
sum_widths (n ∷ ns) = n + sum_widths ns

pub same_bits :
    (ns a b : List ℕ) (p q : ℕ)
    → SameFields a b p ns
    → p ≤ q
    → q < p + sum_widths ns
    → bit_at a q ≡ bit_at b q
unfolding sum_widths
same_bits [] a b p q same lo hi = absurd (omega arith)
same_bits (n ∷ ns) a b p q same lo hi = elim (dec_lt q (p + n)) [
  | yes inside ↦ ground (arith, same.0, test_bit-field a p n (q - p), test_bit-field b p n (q - p))
  | no beyond ↦ same_bits ns a b (p + n) q same.1 (omega arith) (omega arith)
]
