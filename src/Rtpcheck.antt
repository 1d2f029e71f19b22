-- ===== src/Rtpcheck.antt =====
-- internal/rtpcheck/rtpcheck.go: how RTP payloads and packets are checked and taken apart. A packet is
-- a list of bytes; an error is one of `Error`, without the text of its message.
pub mod Payload
pub mod Layout
pub mod Parser
pub mod Packets
mod Tests
use Prim.Native.Nat.{bit_and}
use g.Base.{
  ℕ, ◌+◌, ◌-◌, ◌*◌, ◌/◌, ◌%◌, ◌^◌, ◌⊎◌, inl, inr, Bool, true, false, not, ◌&&◌, ◌||◌, List,
  if◌then◌else◌, ltb, ◌==◌, length, get_or, take, drop,
}

pub data Error : Type 0 where
  bad_ptime empty_payload unsupported_annex_b bad_payload_length wrong_frame_count : Error
  short_header bad_version short_csrc short_extension_header short_extension bad_padding : Error

-- For a ptime that is not negative; the code refuses the others too.
unfoldable pub packet_frame_count : ℕ → Error ⊎ ℕ
packet_frame_count ptime =
    if ptime == 10 then inr 1 else if ptime == 20 then inr 2 else inl bad_ptime

-- 0 frames per packet stands for any number.
unfoldable pub validate_payload : List ℕ → ℕ → Error ⊎ ℕ
validate_payload payload frames_per_packet =
    if length payload == 0
    then inl empty_payload
    else if length payload == 2
    then inl unsupported_annex_b
    else if not (length payload % 10 == 0)
    then inl bad_payload_length
    else (let frames = length payload / 10 in
        if not (frames_per_packet == 0) && not (frames == frames_per_packet)
        then inl wrong_frame_count
        else inr frames)

-- `Uint16` and `Uint32` of binary.BigEndian.
abbrev pub uint16_at : List ℕ → ℕ → ℕ
uint16_at bytes off = 256 * get_or bytes off 0 + get_or bytes (off + 1) 0

abbrev pub uint32_at : List ℕ → ℕ → ℕ
uint32_at bytes off = 65536 * uint16_at bytes off + uint16_at bytes (off + 2)

-- `bytes[from:to]`.
abbrev pub slice : List ℕ → ℕ → ℕ → List ℕ
slice bytes from to = take (to - from) (drop from bytes)

pub record RtpPacket : Type 0 where
  pub payload_type : ℕ
  pub marker : Bool
  pub padding : Bool
  pub extension : Bool
  pub csrc_count : ℕ
  pub sequence : ℕ
  pub timestamp : ℕ
  pub ssrc : ℕ
  pub payload : List ℕ

-- Where the payload begins, behind the list of sources and the extension.
abbrev pub payload_offset : List ℕ → ℕ → Bool → ℕ
payload_offset bytes off x = if x then off + (4 + uint16_at bytes (off + 2) * 4) else off

unfoldable pub parse_rtp : List ℕ → Error ⊎ RtpPacket
parse_rtp bytes =
    let b0 = get_or bytes 0 0 in
    let cc = bit_and b0 0x0f in
    let padding = not (bit_and b0 0x20 == 0) in
    let x = not (bit_and b0 0x10 == 0) in
    let off = 12 + cc * 4 in
    let begin = payload_offset bytes off x in
    let pad_len = get_or bytes (length bytes - 1) 0 in
    if ltb (length bytes) 12
    then inl short_header
    else if not (b0 / 2 ^ 6 == 2)
    then inl bad_version
    else if ltb (length bytes) off
    then inl short_csrc
    else if x && ltb (length bytes) (off + 4)
    then inl short_extension_header
    else if x && ltb (length bytes) begin
    then inl short_extension
    else if padding && (pad_len == 0 || ltb (length bytes - begin) pad_len)
    then inl bad_padding
    else inr (record {
      payload_type = bit_and (get_or bytes 1 0) 0x7f;
      marker = not (bit_and (get_or bytes 1 0) 0x80 == 0);
      padding = padding;
      extension = x;
      csrc_count = cc;
      sequence = uint16_at bytes 2;
      timestamp = uint32_at bytes 4;
      ssrc = uint32_at bytes 8;
      payload = slice bytes begin (if padding then length bytes - pad_len else length bytes);
    })
