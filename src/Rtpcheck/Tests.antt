-- ===== src/Rtpcheck/Tests.antt =====
-- Runs of internal/rtpcheck/rtpcheck.go at concrete inputs.
use g.Base.{ℕ, ◌≡◌, refl, arith, inl, inr, true, [], ◌∷◌, replicate}
use g.Rtpcheck.{short_header, bad_ptime, packet_frame_count, parse_rtp}
use g.Rtpcheck.Layout.{Parts, IsParts, packet, described}
use g.Rtpcheck.Packets.{parse_rtp-packet}

abbrev two : ℕ
two = 2

abbrev sample : Parts
sample = record {
  marker = true;
  payload_type = 18;
  sequence = 65535;
  timestamp = 1234567;
  ssrc = 99;
  csrc_count = 1;
  csrc = 1 ∷ 2 ∷ 3 ∷ 4 ∷ [];
  extension = true;
  profile = 7;
  extension_words = 1;
  extension_data = 5 ∷ 6 ∷ 7 ∷ 8 ∷ [];
  payload = replicate 10 42;
  pad = 3;
}

sample-IsParts : IsParts sample
sample-IsParts = record {
  payload_type = omega arith;
  sequence = omega arith;
  timestamp = omega arith;
  ssrc = omega arith;
  csrc_count = omega arith;
  csrc = refl;
  extension_words = omega arith;
  extension_data = refl;
  pad = omega arith;
}

ptime_test : (packet_frame_count 20 ≡ inr 2) × (packet_frame_count 30 ≡ inl bad_ptime)
unfolding packet_frame_count
ptime_test = (refl, refl)

short_test : parse_rtp (replicate 11 128) ≡ inl short_header
unfolding parse_rtp
short_test = refl

parse_rtp-packet_example : parse_rtp (packet sample) ≡ inr (described sample)
parse_rtp-packet_example = parse_rtp-packet sample sample-IsParts
