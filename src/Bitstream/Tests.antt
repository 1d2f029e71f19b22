-- ===== src/Bitstream/Tests.antt =====
-- Runs of internal/bitstream at concrete inputs.
use g.Base.{ℕ, ◌≡◌, refl, arith, List, [], ◌∷◌, ◌++◌, take, drop, length, replicate, All}
use g.Bitstream.{Frame, ok, err, short_output, short_input, pack, unpack}
use g.Bitstream.BitIo.Bytes.{IsByte}
use g.Bitstream.RoundTrip.{masked, unpack-pack, pack-unpack}

abbrev sample : Frame
sample = record {
  l0 = 1;
  l1 = 0x55;
  l2 = 0x11;
  l3 = 0x0a;
  p1 = 0xa5;
  p0 = 1;
  c1 = 0x1234;
  s1 = 0x9;
  ga1 = 5;
  gb1 = 0xc;
  p2 = 0x1f;
  c2 = 0x0fed;
  s2 = 6;
  ga2 = 2;
  gb2 = 0x17;
}

abbrev buffer : List ℕ
buffer = replicate 12 7

abbrev wire : List ℕ
wire = 0xd5 ∷ 0x8a ∷ 0xe9 ∷ 0x72 ∷ 0x34 ∷ 0x9b ∷ 0x9f ∷ 0xf6 ∷ 0xed ∷ 0x27 ∷ []

wire-IsByte : All IsByte wire
wire-IsByte = omega arith

short_test :
    (pack sample (replicate 9 0) ≡ err short_output) × (unpack (replicate 9 0) ≡ err short_input)
unfolding pack unpack
short_test = (refl, refl)

unpack-pack_example :
    (packed : List ℕ) × (pack sample buffer ≡ ok packed)
    × (unpack packed ≡ ok (masked sample))
    × (length packed ≡ length buffer)
    × (drop 10 packed ≡ drop 10 buffer)
unpack-pack_example = unpack-pack sample buffer (omega arith)

pack-unpack_example :
    (f : Frame) × (unpack wire ≡ ok f) × (pack f buffer ≡ ok (take 10 wire ++ drop 10 buffer))
pack-unpack_example = pack-unpack wire buffer (omega arith) (omega arith) wire-IsByte
