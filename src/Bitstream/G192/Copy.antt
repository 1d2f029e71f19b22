-- ===== src/Bitstream/G192/Copy.antt =====
-- The data words of internal/bitstream/g192.go bit by bit: what the writer puts behind one another,
-- and what the reader makes of words that stand for the bits of a frame.
use g.Base.{
  ℕ, zero, suc, ◌+◌, ◌*◌, ◌≤◌, ◌<◌, ◌≡◌, refl, ◌∙◌, List, ◌++◌, All, Bool, arith, if◌then◌else◌,
  max, ◌==◌, length,
}
use g.Bitstream.{ok}
use g.Bitstream.BitIo.{BitWriter, write_bit}
use g.Bitstream.BitIo.Stream.{bit_at, write_bit_at, length-write_bit}
use g.Bitstream.BitIo.Bytes.{IsByte, write_bit-IsByte}
use g.Bitstream.G192.{data_word, data_words, uint16_at, set_bit, read_words}

abbrev at_bit : List ℕ → ℕ → BitWriter
at_bit out i = record { buf = out; bit_pos = i }

-- The bits of `frame` from `i` on, `n` of them, written into `out`.
unfoldable pub copy : ℕ → ℕ → List ℕ → List ℕ → List ℕ
copy zero i frame out = out
copy (suc n) i frame out = copy n (i + 1) frame (write_bit (bit_at frame i) (at_bit out i)).buf

-- The words from offset `4 + 2 * i` on stand for the bits of `frame` from `i` on.
abbrev pub HasWords : List ℕ → List ℕ → ℕ → ℕ → Type 0
HasWords buf frame i n = (j : ℕ) → i ≤ j → j < i + n → uint16_at buf (4 + 2 * j) ≡ data_word frame j

set_bit-eq-write_bit :
    (frame out : List ℕ) (i : ℕ)
    → i < 8 * length out
    → (if bit_at frame i == 1 then set_bit out i else out)
      ≡ (write_bit (bit_at frame i) (at_bit out i)).buf
unfolding write_bit
set_bit-eq-write_bit frame out i h = ground arith

pub read_words-copy :
    (n i : ℕ) (buf frame out : List ℕ) (allow_zero : Bool) (zero_softbits : ℕ)
    → HasWords buf frame i n
    → i + n ≤ 8 * length out
    → read_words n i buf allow_zero out zero_softbits ≡ ok (copy n i frame out, zero_softbits)
unfolding read_words copy
read_words-copy zero i buf frame out allow_zero zero_softbits h room = refl
read_words-copy (suc n) i buf frame out allow_zero zero_softbits h room =
    let out' = (write_bit (bit_at frame i) (at_bit out i)).buf in
    let room' : i + 1 + n ≤ 8 * length out' =
      omega (arith, length-write_bit (bit_at frame i) (at_bit out i)) in
    ground (
      arith,
      h i,
      set_bit-eq-write_bit frame out i (omega arith),
      read_words-copy n (i + 1) buf frame out' allow_zero zero_softbits
          (λ j l m. h j (omega arith) (omega arith)) room',
    )

pub record Copied (n i : ℕ) (frame out out' : List ℕ) : Type 0 where
  pub same_length : length out' ≡ length out
  pub before : (p : ℕ) → p < i → bit_at out' p ≡ bit_at out p
  pub inside : (p : ℕ) → i ≤ p → p < i + n → bit_at out' p ≡ bit_at frame p
  pub bytes : All IsByte out → All IsByte out'

pub copy-Copied :
    (n i : ℕ) (frame out : List ℕ)
    → ((p : ℕ) → i ≤ p → bit_at out p ≡ 0)
    → i + n ≤ 8 * length out
    → Copied n i frame out (copy n i frame out)
unfolding copy
copy-Copied zero i frame out clear room = record {
  same_length = refl;
  before = λ p h. refl;
  inside = λ p l m. absurd (omega arith);
  bytes = λ h. h;
}
copy-Copied (suc n) i frame out clear room =
    let w = at_bit out i in
    let b = bit_at frame i in
    let out' = (write_bit b w).buf in
    let e = length-write_bit b w in
    let set_at : (p : ℕ) → bit_at out' p ≡ (if p == i then max (bit_at out p) b else bit_at out p) =
      λ p. write_bit_at b p w (omega arith) (omega arith) in
    let rest =
      copy-Copied n (i + 1) frame out' (λ p h. ground (arith, set_at p, clear p))
        (omega (arith, e)) in
    record {
      same_length = rest.same_length ∙ e;
      before = λ p h. ground (arith, rest.before p, set_at p);
      inside = λ p l m. ground (arith, rest.before i, rest.inside p, set_at i, clear i);
      bytes = λ h. rest.bytes (write_bit-IsByte b w h);
    }

-- The words that the writer puts behind one another, two bytes each.
pub length-data_words : (n i : ℕ) (frame : List ℕ) → length (data_words n i frame) ≡ 2 * n
unfolding data_words
length-data_words zero i frame = refl
length-data_words (suc n) i frame = omega (arith, length-data_words n (i + 1) frame)

pub uint16_at-data_words :
    (n i j : ℕ) (frame rest : List ℕ)
    → j < n
    → uint16_at (data_words n i frame ++ rest) (2 * j) ≡ data_word frame (i + j)
unfolding data_words
uint16_at-data_words zero i j frame rest h = absurd (omega arith)
uint16_at-data_words (suc n) i zero frame rest h = ground arith
uint16_at-data_words (suc n) i (suc j) frame rest h =
    ground (arith, uint16_at-data_words n (i + 1) j frame rest)
