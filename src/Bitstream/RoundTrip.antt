-- ===== src/Bitstream/RoundTrip.antt =====
-- `Pack` and `Unpack` of internal/bitstream/pack.go, one after the other.
use g.Base.{
  All-take, ℕ, ◌+◌, ◌*◌, ◌%◌, ◌^◌, ◌≤◌, ◌<◌, ◌≡◌, refl, ◌∙◌, List, [], ◌∷◌, All, arith, length,
  replicate, drop, take, take-append_exact, drop-append_exact, length-append, length-drop,
  length-take, ◌++◌,
}
use g.Bitstream.BitIo.{init_writer, init_reader}
use g.Bitstream.BitIo.Stream.{zeros-IsClear}
use g.Bitstream.BitIo.Bytes.{IsByte, bytes_ext}
use g.Bitstream.BitIo.Fields.{field, field-lt, read_lem}
use g.Bitstream.Runs.{
  write_all, total, WroteAll, write_all-WroteAll, write_all-IsByte, SameFields, sum_widths,
  same_bits,
}
use g.Bitstream.{Frame, write_frame, read_frame, pack, unpack, ok}

-- The parts of a frame as they stand in a slice.
frame_at : List ℕ → Frame
frame_at buf = record {
  l0 = field buf 0 1;
  l1 = field buf 1 7;
  l2 = field buf 8 5;
  l3 = field buf 13 5;
  p1 = field buf 18 8;
  p0 = field buf 26 1;
  c1 = field buf 27 13;
  s1 = field buf 40 4;
  ga1 = field buf 44 3;
  gb1 = field buf 47 4;
  p2 = field buf 51 5;
  c2 = field buf 56 13;
  s2 = field buf 69 4;
  ga2 = field buf 73 3;
  gb2 = field buf 76 4;
}

read_frame-eq-frame_at : (buf : List ℕ) → read_frame (init_reader buf) ≡ frame_at buf
unfolding read_frame frame_at
read_frame-eq-frame_at buf =
    rw
      (
        read_lem 1 buf 0 (omega arith),
        read_lem 7 buf 1 (omega arith),
        read_lem 5 buf 8 (omega arith),
        read_lem 5 buf 13 (omega arith),
        read_lem 8 buf 18 (omega arith),
        read_lem 1 buf 26 (omega arith),
        read_lem 13 buf 27 (omega arith),
        read_lem 4 buf 40 (omega arith),
        read_lem 3 buf 44 (omega arith),
        read_lem 4 buf 47 (omega arith),
        read_lem 5 buf 51 (omega arith),
        read_lem 13 buf 56 (omega arith),
        read_lem 4 buf 69 (omega arith),
        read_lem 3 buf 73 (omega arith),
        read_lem 4 buf 76 (omega arith),
      )
      refl

-- What `Pack` writes, and what a reader of ten bytes finds: the low bits of each value.
abbrev parts : Frame → List (ℕ × ℕ)
parts f =
    (f.l0, 1)
    ∷ (f.l1, 7)
    ∷ (f.l2, 5)
    ∷ (f.l3, 5)
    ∷ (f.p1, 8)
    ∷ (f.p0, 1)
    ∷ (f.c1, 13)
    ∷ (f.s1, 4)
    ∷ (f.ga1, 3)
    ∷ (f.gb1, 4)
    ∷ (f.p2, 5)
    ∷ (f.c2, 13)
    ∷ (f.s2, 4)
    ∷ (f.ga2, 3)
    ∷ (f.gb2, 4)
    ∷ []

abbrev pub masked : Frame → Frame
masked f = record {
  l0 = f.l0 % 2;
  l1 = f.l1 % 2 ^ 7;
  l2 = f.l2 % 2 ^ 5;
  l3 = f.l3 % 2 ^ 5;
  p1 = f.p1 % 2 ^ 8;
  p0 = f.p0 % 2;
  c1 = f.c1 % 2 ^ 13;
  s1 = f.s1 % 2 ^ 4;
  ga1 = f.ga1 % 2 ^ 3;
  gb1 = f.gb1 % 2 ^ 4;
  p2 = f.p2 % 2 ^ 5;
  c2 = f.c2 % 2 ^ 13;
  s2 = f.s2 % 2 ^ 4;
  ga2 = f.ga2 % 2 ^ 3;
  gb2 = f.gb2 % 2 ^ 4;
}

abbrev zeros : List ℕ
zeros = replicate 10 0

abbrev packed_bytes : Frame → List ℕ
packed_bytes f = (write_frame f (init_writer zeros)).buf

write_frame-WroteAll :
    (f : Frame) → WroteAll (parts f) (init_writer zeros) (write_frame f (init_writer zeros))
unfolding write_frame write_all total
write_frame-WroteAll f =
    write_all-WroteAll (parts f) (init_writer zeros) (zeros-IsClear 10) (omega arith)

frame_at-packed_bytes : (f : Frame) → frame_at (packed_bytes f) ≡ masked f
unfolding frame_at
frame_at-packed_bytes f = ground (arith, (write_frame-WroteAll f).holds)

-- For every frame and every output slice of at least ten bytes, Pack succeeds, and Unpack of the
-- slice that it leaves gives the frame with each value cut to the width of its field; the slice
-- keeps its length and its bytes behind the first ten.
pub unpack-pack :
    (f : Frame) (out : List ℕ)
    → 10 ≤ length out
    → (packed : List ℕ) × (pack f out ≡ ok packed)
      × (unpack packed ≡ ok (masked f))
      × (length packed ≡ length out)
      × (drop 10 packed ≡ drop 10 out)
unfolding pack unpack
unpack-pack f out h = (
  packed_bytes f ++ drop 10 out,
  ground arith,
  ground (arith, longer, front, read_frame-eq-frame_at (packed_bytes f), frame_at-packed_bytes f),
  longer,
  drop-append_exact 10 (packed_bytes f) (drop 10 out) ten,
)
  where
    ten : length (packed_bytes f) ≡ 10
    ten = (write_frame-WroteAll f).same_length

    longer : length (packed_bytes f ++ drop 10 out) ≡ length out
    longer =
        omega (arith, length-append {0} (packed_bytes f) (drop 10 out), length-drop 10 out, ten)

    front : take 10 (packed_bytes f ++ drop 10 out) ≡ packed_bytes f
    front = take-append_exact 10 (packed_bytes f) (drop 10 out) ten

abbrev widths : List ℕ
widths = 1 ∷ 7 ∷ 5 ∷ 5 ∷ 8 ∷ 1 ∷ 13 ∷ 4 ∷ 3 ∷ 4 ∷ 5 ∷ 13 ∷ 4 ∷ 3 ∷ 4 ∷ []

SameFields-frame_at : (a b : List ℕ) → frame_at a ≡ frame_at b → SameFields a b 0 widths
unfolding frame_at
SameFields-frame_at a b e = ground (arith, e)

masked-frame_at : (buf : List ℕ) → masked (frame_at buf) ≡ frame_at buf
unfolding frame_at
masked-frame_at buf = ground (
  arith,
  field-lt buf 0 1,
  field-lt buf 1 7,
  field-lt buf 8 5,
  field-lt buf 13 5,
  field-lt buf 18 8,
  field-lt buf 26 1,
  field-lt buf 27 13,
  field-lt buf 40 4,
  field-lt buf 44 3,
  field-lt buf 47 4,
  field-lt buf 51 5,
  field-lt buf 56 13,
  field-lt buf 69 4,
  field-lt buf 73 3,
  field-lt buf 76 4,
)

packed_bytes-IsByte : (f : Frame) → All IsByte (packed_bytes f)
unfolding write_frame write_all
packed_bytes-IsByte f = write_all-IsByte (parts f) (init_writer zeros) (omega arith)

packed_bytes-frame_at :
    (buf : List ℕ) → length buf ≡ 10 → All IsByte buf → packed_bytes (frame_at buf) ≡ buf
packed_bytes-frame_at buf ten bytes =
    bytes_ext (packed_bytes (frame_at buf)) buf (omega (arith, wrote.same_length))
      (packed_bytes-IsByte (frame_at buf)) bytes
      (λ p h. same_bits widths _ buf 0 p same (omega arith) (bound p h))
  where
    wrote :
        WroteAll
          (parts (frame_at buf))
          (init_writer zeros)
          (write_frame (frame_at buf) (init_writer zeros))
    wrote = write_frame-WroteAll (frame_at buf)

    same : SameFields (packed_bytes (frame_at buf)) buf 0 widths
    same = SameFields-frame_at _ buf (frame_at-packed_bytes (frame_at buf) ∙ masked-frame_at buf)

    bound : (p : ℕ) → p < 8 * length (packed_bytes (frame_at buf)) → p < 0 + sum_widths widths
    bound p h = unfold sum_widths in omega (arith, wrote.same_length)

-- Ten bytes always hold a frame.
pub unpack_total : (bits : List ℕ) → 10 ≤ length bits → (f : Frame) × (unpack bits ≡ ok f)
unfolding unpack
unpack_total bits h = (read_frame (init_reader (take 10 bits)), ground arith)

-- For two slices of at least ten bytes, the first of them of numbers below 256: Unpack of the first
-- succeeds, and Pack of the frame that it gives puts the first ten bytes of the first slice in
-- front of the rest of the second.
pub pack-unpack :
    (bits out : List ℕ)
    → 10 ≤ length bits
    → 10 ≤ length out
    → All IsByte bits
    → (f : Frame) × (unpack bits ≡ ok f) × (pack f out ≡ ok (take 10 bits ++ drop 10 out))
unfolding pack unpack
pack-unpack bits out h k bytes = (
  frame_at (take 10 bits),
  ground (arith, read_frame-eq-frame_at (take 10 bits)),
  ground (
    arith,
    packed_bytes-frame_at (take 10 bits) (omega (arith, length-take 10 bits))
        (All-take IsByte 10 bits bytes),
  ),
)
