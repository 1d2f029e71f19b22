-- ===== src/Pitch/Parity.antt =====
-- internal/pitch/parity.go and `EncodeP0` of internal/pitch/closedloop/encode.go: the parity bit of
-- the P1 codeword; against `Parity` of internal/bitstream/parity.go.
use Prim.Native.Nat.{bit_xor, bit_and}
use g.Base.{
  ℕ, ◌+◌, ◌/◌, ◌^◌, ◌<◌, ◌≡◌, refl, Bool, true, ltb, same, same_sound, ◌==◌, ==_iff, all_below,
  at_all_below,
}
use g.Bitstream

-- The uint8 shifts drop bits only.
unfoldable pub parity : ℕ → ℕ
parity p1 =
    let bits = bit_and (p1 / 2 ^ 2) 0x3f in
    let x = bit_xor bits (bits / 2 ^ 4) in
    let x = bit_xor x (x / 2 ^ 2) in let x = bit_xor x (x / 2 ^ 1) in bit_xor (bit_and x 1) 1

unfoldable pub check_parity : ℕ → ℕ → Bool
check_parity p1 p0 = bit_and p0 1 == parity p1

unfoldable pub encode_p0 : ℕ → ℕ
encode_p0 p1 = parity p1

-- Turning bit `k` over.
abbrev pub flipped : ℕ → ℕ → ℕ
flipped p1 k = bit_xor p1 (2 ^ k)

flip_table :
    all_below 256
      (λ p1. all_below 8 (λ k. same (check_parity (flipped p1 k) (encode_p0 p1)) (ltb k 2)))
    ≡ true
unfolding all_below check_parity encode_p0 parity
flip_table = refl

own_table : all_below 256 (λ p1. check_parity p1 (encode_p0 p1)) ≡ true
unfolding all_below check_parity encode_p0 parity
own_table = refl

-- For P1 below 256 and a bit number below 8: CheckParity accepts P1 with what EncodeP0 gives for
-- it, and with that bit of P1 turned over it accepts exactly where the bit is one of the lower two.
pub check_parity-flipped :
    (p1 k : ℕ)
    → p1 < 256
    → k < 8
    → (check_parity p1 (encode_p0 p1) ≡ true)
      × (check_parity (flipped p1 k) (encode_p0 p1) ≡ ltb k 2)
check_parity-flipped p1 k h l = (
  at_all_below 256 _ own_table p1 h,
  same_sound _ _ (at_all_below 8 _ (at_all_below 256 _ flip_table p1 h) k l),
)

opposite_table : all_below 256 (λ p1. Bitstream.parity p1 + parity p1 == 1) ≡ true
unfolding all_below parity Bitstream.parity
opposite_table = refl

-- For P1 below 256, Parity of package bitstream and the P0 that the encoder sends are opposite
-- bits: their sum is 1.
parity_opposite : (p1 : ℕ) → p1 < 256 → Bitstream.parity p1 + encode_p0 p1 ≡ 1
unfolding encode_p0
parity_opposite p1 h = (==_iff _ 1).0 (at_all_below 256 _ opposite_table p1 h)
