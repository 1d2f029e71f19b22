-- ===== src/Rtpcheck/Parser.antt =====
-- The tests of `ParseRTP` in internal/rtpcheck/rtpcheck.go, and what it gives where they pass.
use Prim.Native.Nat.{bit_and}
use g.Base.{
  ℕ, ◌+◌, ◌-◌, ◌*◌, ◌/◌, ◌%◌, ◌^◌, ◌≤◌, ◌<◌, ◌≡◌, refl, inr, Bool, true, false, not, ◌&&◌, ◌||◌,
  arith, List, if◌then◌else◌, ltb, ◌==◌, same, same_sound, all_below, at_all_below, length, get_or,
}
use g.Rtpcheck.{parse_rtp, RtpPacket, uint16_at, uint32_at, slice, payload_offset}

mask_table :
    all_below 256 (λ b.
      (bit_and b 0x0f == b % 16)
      && same (bit_and b 0x20 == 0) (b / 32 % 2 == 0)
      && same (bit_and b 0x10 == 0) (b / 16 % 2 == 0)
      && (bit_and b 0x7f == b % 128)
      && same (bit_and b 0x80 == 0) (b / 128 == 0))
    ≡ true
unfolding all_below
mask_table = refl

pub masks :
    (b : ℕ)
    → b < 256
    → (bit_and b 0x0f ≡ b % 16)
      × ((bit_and b 0x20 == 0) ≡ (b / 32 % 2 == 0))
      × ((bit_and b 0x10 == 0) ≡ (b / 16 % 2 == 0))
      × (bit_and b 0x7f ≡ b % 128)
      × ((bit_and b 0x80 == 0) ≡ (b / 128 == 0))
masks b h = ground (
  arith,
  at_all_below 256 _ mask_table b h,
  same_sound (bit_and b 0x20 == 0) (b / 32 % 2 == 0),
  same_sound (bit_and b 0x10 == 0) (b / 16 % 2 == 0),
  same_sound (bit_and b 0x80 == 0) (b / 128 == 0),
)

at_least : (a b : ℕ) → b ≤ a → ltb a b ≡ false
at_least a b h = ground arith

room_test : (n m : ℕ) (x : Bool) → m + (if x then 4 else 0) ≤ n → (x && ltb n (m + 4)) ≡ false
room_test n m x h = ground arith

fits_test : (n m : ℕ) (x : Bool) → m ≤ n → (x && ltb n m) ≡ false
fits_test n m x h = ground arith

padding_test :
    (last left : ℕ) (padding : Bool)
    → (padding ≡ true → (1 ≤ last) × (last ≤ left))
    → (padding && (last == 0 || ltb left last)) ≡ false
padding_test last left padding h = ground arith

-- What the parser makes of a packet that passes its tests.
module _ (d : List ℕ) (cc begin : ℕ) (padding x : Bool) where
  unfoldable pub last : ℕ
  last = get_or d (length d - 1) 0

  unfoldable pub parsed : RtpPacket
  parsed = record {
    payload_type = bit_and (get_or d 1 0) 0x7f;
    marker = not (bit_and (get_or d 1 0) 0x80 == 0);
    padding = padding;
    extension = x;
    csrc_count = cc;
    sequence = uint16_at d 2;
    timestamp = uint32_at d 4;
    ssrc = uint32_at d 8;
    payload = slice d begin (if padding then length d - last else length d);
  }

  pub parse_rtp-parsed :
      bit_and (get_or d 0 0) 0x0f ≡ cc
      → not (bit_and (get_or d 0 0) 0x20 == 0) ≡ padding
      → not (bit_and (get_or d 0 0) 0x10 == 0) ≡ x
      → payload_offset d (12 + cc * 4) x ≡ begin
      → get_or d 0 0 / 2 ^ 6 ≡ 2
      → 12 + cc * 4 + (if x then 4 else 0) ≤ length d
      → begin ≤ length d
      → (padding ≡ true → (1 ≤ last) × (last ≤ length d - begin))
      → parse_rtp d ≡ inr parsed
  unfolding parse_rtp last parsed
  parse_rtp-parsed c q e o v room fits padded =
      rw
        (
          c,
          q,
          e,
          o,
          v,
          at_least (length d) 12 (omega (arith, room)),
          at_least (length d) (12 + cc * 4) (omega (arith, room)),
          room_test (length d) (12 + cc * 4) x room,
          fits_test (length d) begin x fits,
          padding_test last (length d - begin) padding padded,
        )
        refl
