-- ===== src/Rtpcheck/Layout.antt =====
-- How an RTP packet is laid out: a header, the sources, an extension, the payload and the padding.
use g.Base.{
  ℕ, ◌+◌, ◌-◌, ◌*◌, ◌/◌, ◌%◌, ◌^◌, ◌<◌, ◌≡◌, Bool, not, List, [], ◌∷◌, ◌++◌, if◌then◌else◌, ◌==◌,
  length, replicate,
}
use g.Rtpcheck.{RtpPacket}

-- The parts of a packet: `csrc` and `extension_words` in bytes, and `pad` bytes of padding, where 0
-- is none.
pub record Parts : Type 0 where
  pub marker : Bool
  pub payload_type : ℕ
  pub sequence : ℕ
  pub timestamp : ℕ
  pub ssrc : ℕ
  pub csrc_count : ℕ
  pub csrc : List ℕ
  pub extension : Bool
  pub profile : ℕ
  pub extension_words : ℕ
  pub extension_data : List ℕ
  pub payload : List ℕ
  pub pad : ℕ

abbrev pub put_uint16 : ℕ → List ℕ
put_uint16 n = (n / 256) ∷ (n % 256) ∷ []

abbrev pub put_uint32 : ℕ → List ℕ
put_uint32 n = put_uint16 (n / 65536) ++ put_uint16 (n % 65536)

abbrev pub header : Parts → List ℕ
header p =
    (128 + (if p.pad == 0 then 0 else 32) + (if p.extension then 16 else 0) + p.csrc_count)
    ∷ ((if p.marker then 128 else 0) + p.payload_type)
    ∷ (put_uint16 p.sequence ++ put_uint32 p.timestamp ++ put_uint32 p.ssrc)

abbrev pub extension_bytes : Parts → List ℕ
extension_bytes p =
    if p.extension
    then put_uint16 p.profile ++ put_uint16 p.extension_words ++ p.extension_data
    else []

abbrev pub padding_bytes : Parts → List ℕ
padding_bytes p = if p.pad == 0 then [] else replicate (p.pad - 1) 0 ++ p.pad ∷ []

abbrev pub packet : Parts → List ℕ
packet p = header p ++ (p.csrc ++ (extension_bytes p ++ (p.payload ++ padding_bytes p)))

pub record IsParts (p : Parts) : Type 0 where
  pub payload_type : p.payload_type < 128
  pub sequence : p.sequence < 2 ^ 16
  pub timestamp : p.timestamp < 2 ^ 32
  pub ssrc : p.ssrc < 2 ^ 32
  pub csrc_count : p.csrc_count < 16
  pub csrc : length p.csrc ≡ 4 * p.csrc_count
  pub extension_words : p.extension_words < 2 ^ 16
  pub extension_data : length p.extension_data ≡ 4 * p.extension_words
  pub pad : p.pad < 256

abbrev pub described : Parts → RtpPacket
described p = record {
  payload_type = p.payload_type;
  marker = p.marker;
  padding = not (p.pad == 0);
  extension = p.extension;
  csrc_count = p.csrc_count;
  sequence = p.sequence;
  timestamp = p.timestamp;
  ssrc = p.ssrc;
  payload = p.payload;
}
