-- ===== src/Encoder/Buffer.antt =====
-- The buffer of a partial frame in encoder_streaming.go, as the front of a list of 80 samples.
use mathlib.Core.List.{append_assoc}
use g.Base.{
  ℕ, zero, suc, ◌+◌, ◌-◌, ◌<◌, ◌≤◌, ◌≡◌, refl, ◌∙◌, sym, ap, true, false, arith, List, [], ◌∷◌,
  ◌++◌, ltb, length, take, drop, ℤ, length-append, length-take, length-drop, take-append-drop,
  take-append_exact, drop-append_exact,
}
use g.Encoder.{Encoder, copy_at}

-- The samples that wait for the rest of their frame.
abbrev pub pending : {S T : Type 0} → Encoder S T → List ℤ
pending e = take e.stream_buf_len e.stream_buf

abbrev pub IsValid : {S T : Type 0} → Encoder S T → Type 0
IsValid e = (length e.stream_buf ≡ 80) × (e.stream_buf_len < 80)

pub take-take_append : (xs ys : List ℤ) (n : ℕ) → n ≤ length xs → take n (xs ++ ys) ≡ take n xs
take-take_append xs ys zero h = refl
take-take_append [] ys (suc n) h = absurd (omega arith)
take-take_append (x ∷ xs) ys (suc n) h = ap (◌∷◌ x) (take-take_append xs ys n (omega arith))

pub drop-drop_append :
    (xs ys : List ℤ) (n : ℕ) → n ≤ length xs → drop n (xs ++ ys) ≡ drop n xs ++ ys
drop-drop_append xs ys zero h = refl
drop-drop_append [] ys (suc n) h = absurd (omega arith)
drop-drop_append (x ∷ xs) ys (suc n) h = drop-drop_append xs ys n (omega arith)

pub take_all : (xs : List ℤ) (n : ℕ) → length xs ≤ n → take n xs ≡ xs
take_all [] zero h = refl
take_all [] (suc n) h = refl
take_all (x ∷ xs) zero h = absurd (omega arith)
take_all (x ∷ xs) (suc n) h = ap (◌∷◌ x) (take_all xs n (omega arith))

drop_empty : (n : ℕ) → drop {A = ℤ} n [] ≡ []
drop_empty zero = refl
drop_empty (suc n) = refl

pub drop-length : (xs : List ℤ) → drop (length xs) xs ≡ []
drop-length [] = refl
drop-length (x ∷ xs) = drop-length xs

pub drop-add : (m n : ℕ) (xs : List ℤ) → drop (m + n) xs ≡ drop n (drop m xs)
drop-add zero n xs = ap (λ t. drop t xs) (omega arith)
drop-add (suc m) n [] = drop_empty (suc m + n) ∙ sym (drop_empty n)
drop-add (suc m) n (x ∷ xs) =
    ap (λ t. drop t (x ∷ xs)) {y = suc (m + n)} (omega arith) ∙ drop-add m n xs

pub positive : (n : ℕ) → ltb 0 (suc n) ≡ true
positive n = ground arith

pub below : (n : ℕ) → n < 80 → ltb n 80 ≡ true
below n h = ground arith

pub not_below : (n : ℕ) → 80 ≤ n → ltb n 80 ≡ false
not_below n h = ground arith

pub copy_at_front :
    (buf src : List ℤ) (off : ℕ)
    → off + length src ≤ length buf
    → take (off + length src) (copy_at buf off src) ≡ take off buf ++ src
copy_at_front buf src off h = rw (take_all src (length buf - off) (omega arith)) (
    take-append_exact (off + length src) (take off buf ++ src) (drop (off + length src) buf)
      (omega (arith, length-append {0} (take off buf) src, length-take off buf)))

pub length-copy_at :
    (buf src : List ℤ) (off : ℕ)
    → off + length src ≤ length buf
    → length (copy_at buf off src) ≡ length buf
length-copy_at buf src off h = omega (
  arith,
  length-append {0} (take off buf ++ take (length buf - off) src) (drop (off + length src) buf),
  length-append {0} (take off buf) (take (length buf - off) src),
  length-take off buf,
  length-take (length buf - off) src,
  length-drop (off + length src) buf,
)

-- A buffer of `len` samples that is filled up from `xs`.
module _ (buf xs : List ℤ) (len : ℕ) (h : length buf ≡ 80) (k : len < 80)
    (room : 80 - len ≤ length xs) where
  filled_split : copy_at buf len (take (80 - len) xs) ≡ take len buf ++ take (80 - len) xs
  filled_split =
      let taken : length (take (80 - len) xs) ≡ 80 - len =
        omega (arith, length-take (80 - len) xs, room) in
      sym (
        take_all (copy_at buf len (take (80 - len) xs)) (len + length (take (80 - len) xs)) (
          omega (
            arith,
            length-copy_at buf (take (80 - len) xs) len (omega (arith, taken, h, k)),
            taken,
            h,
            k,
          )))
      ∙ copy_at_front buf (take (80 - len) xs) len (omega (arith, taken, h, k))

  pub filled_length : length (copy_at buf len (take (80 - len) xs)) ≡ 80
  filled_length =
      length-copy_at buf (take (80 - len) xs) len
        (omega (arith, length-take (80 - len) xs, room, h, k))
      ∙ h

  size_front : length (take len buf) ≡ len
  size_front = omega (arith, length-take len buf, h, k)

  pub filled_front : take len (copy_at buf len (take (80 - len) xs)) ≡ take len buf
  filled_front =
      ap (take len) filled_split
      ∙ take-append_exact len (take len buf) (take (80 - len) xs) size_front

  regroup : take len buf ++ xs ≡ (take len buf ++ take (80 - len) xs) ++ drop (80 - len) xs
  regroup =
      ap (λ ys. take len buf ++ ys) (sym (take-append-drop (80 - len) xs))
      ∙ sym (append_assoc (take len buf) (take (80 - len) xs) (drop (80 - len) xs))

  size_split : length (take len buf ++ take (80 - len) xs) ≡ 80
  size_split = omega (
    arith,
    length-append {0} (take len buf) (take (80 - len) xs),
    size_front,
    length-take (80 - len) xs,
    room,
    k,
  )

  pub filled_lem : copy_at buf len (take (80 - len) xs) ≡ take 80 (take len buf ++ xs)
  filled_lem =
      filled_split
      ∙ sym (
          take-append_exact 80 (take len buf ++ take (80 - len) xs) (drop (80 - len) xs) size_split)
      ∙ ap (take 80) (sym regroup)

  pub others_lem : drop 80 (take len buf ++ xs) ≡ drop (80 - len) xs
  others_lem =
      ap (drop 80) regroup
      ∙ drop-append_exact 80 (take len buf ++ take (80 - len) xs) (drop (80 - len) xs) size_split
