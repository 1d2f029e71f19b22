-- ===== src/Bitstream/G192/Policy.antt =====
-- The two softbit policies of internal/bitstream/g192.go against one another.
use g.Base.{
  ℕ, zero, suc, ◌+◌, ◌*◌, ◌≤◌, ◌≡◌, refl, ◌⊎◌, inl, inr, List, ◌++◌, Bool, true, false, arith,
  if◌then◌else◌, ◌==◌, length, take, drop, replicate,
}
use g.Bitstream.{Result, Error, ok, err, frame_bits, bad_g192_bit}
use g.Bitstream.G192.RoundTrip.{read_full-append}
use g.Bitstream.G192.{
  uint16_at, read_with_policy, read_words, and_then, read_g192_frame, read_g192_frame_lenient,
  g192_sync_good, g192_bit1, set_bit, put_uint16,
}

Result-cases {ℓ} :
    {A : Type ℓ} (x : Result A) → ((a : A) × (x ≡ ok a)) ⊎ ((e : Error) × (x ≡ err e))
Result-cases (ok a) = inl (a, refl)
Result-cases (err e) = inr (e, refl)

-- Words that the strict policy takes count no zero softbit, and the lenient policy takes them alike.
read_words_strict :
    (n i : ℕ) (buf out : List ℕ) (zero_softbits : ℕ) (res : List ℕ × ℕ)
    → read_words n i buf false out zero_softbits ≡ ok res
    → (res.1 ≡ zero_softbits) × (read_words n i buf true out zero_softbits ≡ ok res)
unfolding read_words
read_words_strict zero i buf out zero_softbits res h = ground (arith, h)
read_words_strict (suc n) i buf out zero_softbits res h =
    let word = uint16_at buf (4 + 2 * i) in
    let out' = if word == g192_bit1 then set_bit out i else out in
    ground (
      arith,
      h,
      read_words_strict n (i + 1) buf out' zero_softbits res,
      read_words_strict n (i + 1) buf out zero_softbits res,
    )

-- Where ReadG192Frame succeeds on a reader and a frame, ReadG192FrameLenient succeeds with the same
-- result.
pub lenient-strict :
    (r frame : List ℕ) (res : Bool × List ℕ × List ℕ)
    → read_g192_frame r frame ≡ ok res
    → read_g192_frame_lenient r frame ≡ ok res
unfolding read_g192_frame read_g192_frame_lenient read_with_policy and_then
lenient-strict r frame res h =
    let buf = take 164 r in
    elim (Result-cases (read_words 80 0 buf false (replicate 10 0) 0)) [
      | inl (res', e) ↦
          let (count, same) = read_words_strict 80 0 buf (replicate 10 0) 0 res' e in
          ground (arith, h, e, count, same)
      | inr (error, e) ↦ ground (arith, h, e)
    ]

-- The 164 bytes of a good sync word, the length 80 and eighty data words of 0.
abbrev pub undetermined : List ℕ
undetermined = put_uint16 g192_sync_good ++ put_uint16 frame_bits ++ replicate 160 0

strict_words : read_words 80 0 undetermined false (replicate 10 0) 0 ≡ err bad_g192_bit
unfolding read_words
strict_words = refl

lenient_words : read_words 80 0 undetermined true (replicate 10 0) 0 ≡ ok (replicate 10 0, 80)
unfolding read_words
lenient_words = refl

-- On a good sync word, the length 80 and eighty data words of 0, with anything behind them, and an
-- output slice of at least ten bytes: ReadG192Frame fails with a bad data word, and
-- ReadG192FrameLenient reports a bad frame of zeros in front of the rest of the slice and leaves
-- what stands behind.
pub undetermined_lem :
    (rest out : List ℕ)
    → 10 ≤ length out
    → (read_g192_frame (undetermined ++ rest) out ≡ err bad_g192_bit)
      × (read_g192_frame_lenient (undetermined ++ rest) out
          ≡ ok (true, replicate 10 0 ++ drop 10 out, rest))
unfolding read_g192_frame read_g192_frame_lenient read_with_policy and_then
undetermined_lem rest out h =
    rw (read_full-append undetermined rest 164 (omega arith) refl, strict_words, lenient_words)
      (ground arith)
