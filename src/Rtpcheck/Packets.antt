-- ===== src/Rtpcheck/Packets.antt =====
-- RTP packets of internal/rtpcheck/rtpcheck.go against a description of how a packet is laid out.
use mathlib.Core.List.{append_assoc}
use g.Base.{
  ℕ, suc, ◌+◌, ◌-◌, ◌*◌, ◌/◌, ◌%◌, ◌^◌, ◌≤◌, ◌<◌, ◌≡◌, refl, ◌∙◌, sym, ap, inl, inr, Bool-cases,
  true, not, arith, List, [], ◌∷◌, ◌++◌, if◌then◌else◌, ◌==◌, length, get_or, take, drop, replicate,
  length-append, length-replicate, take-append_exact, drop-append_exact,
}
use g.Rtpcheck.{parse_rtp, RtpPacket, uint16_at, slice, payload_offset}
use g.Rtpcheck.Layout.{Parts, header, extension_bytes, padding_bytes, packet, IsParts, described}
use g.Rtpcheck.Parser.{masks, last, parsed, parse_rtp-parsed}

get_or-append :
    (xs ys : List ℕ) (n i : ℕ) → length xs ≡ n → get_or (xs ++ ys) (n + i) 0 ≡ get_or ys i 0
get_or-append [] ys n i h = ap (λ m. get_or ys m 0) {x = n + i} {y = i} (omega arith)
get_or-append (x ∷ xs) ys n i h =
    ap (λ m. get_or (x ∷ xs ++ ys) m 0) {x = n + i} {y = suc (n - 1 + i)} (omega arith)
    ∙ get_or-append xs ys (n - 1) i (omega arith)

-- A packet with the fields of the description is the described one.
fields_ext :
    (p : Parts) (r : RtpPacket)
    → r.payload_type ≡ p.payload_type
    → r.marker ≡ p.marker
    → r.padding ≡ not (p.pad == 0)
    → r.extension ≡ p.extension
    → r.csrc_count ≡ p.csrc_count
    → r.sequence ≡ p.sequence
    → r.timestamp ≡ p.timestamp
    → r.ssrc ≡ p.ssrc
    → r.payload ≡ p.payload
    → r ≡ described p
fields_ext p r a b c d e f g h i = ground (arith, a, b, c, d, e, f, g, h, i)

module _ (p : Parts) (valid : IsParts p) where
  off : ℕ
  off = 12 + p.csrc_count * 4

  begin : ℕ
  begin = off + length (extension_bytes p)

  front-regroup :
      packet p ≡ (header p ++ p.csrc) ++ (extension_bytes p ++ (p.payload ++ padding_bytes p))
  front-regroup =
      sym (append_assoc (header p) p.csrc (extension_bytes p ++ (p.payload ++ padding_bytes p)))

  length-front : length (header p ++ p.csrc) ≡ off
  unfolding off
  length-front = omega (arith, length-append {0} (header p) p.csrc, valid.csrc)

  body-regroup :
      packet p ≡ ((header p ++ p.csrc) ++ extension_bytes p) ++ (p.payload ++ padding_bytes p)
  body-regroup =
      front-regroup
      ∙ sym (append_assoc (header p ++ p.csrc) (extension_bytes p) (p.payload ++ padding_bytes p))

  length-before : length ((header p ++ p.csrc) ++ extension_bytes p) ≡ begin
  unfolding begin
  length-before =
      length-append (header p ++ p.csrc) (extension_bytes p)
      ∙ ap (λ n. n + length (extension_bytes p)) length-front

  length-packet : length (packet p) ≡ begin + length p.payload + p.pad
  length-packet =
      ap length body-regroup
      ∙ omega (
        arith,
        length-append {0} ((header p ++ p.csrc) ++ extension_bytes p)
            (p.payload ++ padding_bytes p),
        length-before,
        length-append {0} p.payload (padding_bytes p),
        length-padding,
      )
    where
      length-padding : length (padding_bytes p) ≡ p.pad
      length-padding = ground (
        arith,
        length-append {0} (replicate (p.pad - 1) 0) (p.pad ∷ []),
        length-replicate {A = ℕ} (p.pad - 1) 0,
      )

  length-extension :
      (length (extension_bytes p) ≡ (if p.extension then 4 + 4 * p.extension_words else 0))
  length-extension = ground (arith, valid.extension_data)

  offset_lem : payload_offset (packet p) off p.extension ≡ begin
  unfolding begin
  offset_lem = elim (Bool-cases p.extension) [
    | inl e ↦ ground (arith, e, words, length-extension)
    | inr e ↦ ground (arith, e, length-extension)
  ]
    where
      rest : List ℕ
      rest = p.payload ++ padding_bytes p

      ext_at : (i : ℕ) → get_or (packet p) (off + i) 0 ≡ get_or (extension_bytes p ++ rest) i 0
      ext_at i =
          ap (λ d. get_or d (off + i) 0) front-regroup
          ∙ get_or-append (header p ++ p.csrc) (extension_bytes p ++ rest) off i length-front

      words : p.extension ≡ true → uint16_at (packet p) (off + 2) ≡ p.extension_words
      words e = rw (ext_at 2, third) (rw e (omega arith))
        where
          third : get_or (packet p) (off + 2 + 1) 0 ≡ get_or (extension_bytes p ++ rest) 3 0
          third = ap (λ n. get_or (packet p) n 0) {y = off + 3} (omega arith) ∙ ext_at 3

  last_byte : 0 < p.pad → get_or (packet p) (length (packet p) - 1) 0 ≡ p.pad
  last_byte h =
      let front : List ℕ = (header p ++ p.csrc) ++ extension_bytes p in
      let filler : List ℕ = replicate (p.pad - 1) 0 in
      let there : padding_bytes p ≡ filler ++ p.pad ∷ [] = ground (arith, h) in
      let regroup : packet p ≡ (front ++ (p.payload ++ filler)) ++ p.pad ∷ [] =
        body-regroup
        ∙ ap (λ zs. front ++ (p.payload ++ zs)) there
        ∙ ap (λ zs. front ++ zs) (sym (append_assoc p.payload filler (p.pad ∷ [])))
        ∙ sym (append_assoc front (p.payload ++ filler) (p.pad ∷ [])) in
      let size : length (front ++ (p.payload ++ filler)) ≡ length (packet p) - 1 = omega (
        arith,
        ap length regroup,
        length-append {0} (front ++ (p.payload ++ filler)) (p.pad ∷ []),
      ) in
      ap (λ d. get_or d (length (packet p) - 1) 0) regroup
      ∙ ap (λ n. get_or ((front ++ (p.payload ++ filler)) ++ p.pad ∷ []) n 0)
          {y = length (packet p) - 1 + 0} (omega arith)
      ∙ get_or-append (front ++ (p.payload ++ filler)) (p.pad ∷ []) (length (packet p) - 1) 0 size

  payload_lem : take (length p.payload) (drop begin (packet p)) ≡ p.payload
  payload_lem =
      ap (λ d. take (length p.payload) (drop begin d)) body-regroup
      ∙ ap (take (length p.payload)) (
          drop-append_exact begin ((header p ++ p.csrc) ++ extension_bytes p)
            (p.payload ++ padding_bytes p) length-before)
      ∙ take-append_exact (length p.payload) p.payload (padding_bytes p) refl

  payload_field :
      slice (packet p) begin (
        if not (p.pad == 0)
        then length (packet p) - get_or (packet p) (length (packet p) - 1) 0
        else length (packet p))
      ≡ p.payload
  payload_field =
      ap (λ n. take n (drop begin (packet p))) {y = length p.payload}
        (ground (arith, last_byte, length-packet))
      ∙ payload_lem

  b0 : ℕ
  b0 = get_or (packet p) 0 0

  b0_lem :
      (b0 < 256)
      × (b0 / 2 ^ 6 ≡ 2)
      × (b0 % 16 ≡ p.csrc_count)
      × ((b0 / 32 % 2 == 0) ≡ (p.pad == 0))
      × ((b0 / 16 % 2 == 0) ≡ not p.extension)
  unfolding b0
  b0_lem = ground (arith, valid.csrc_count)

  -- For the parts of a packet within their bounds (a payload type below 128, a 16-bit sequence
  -- number, a 32-bit timestamp and source, up to 15 further sources of four bytes, an extension of
  -- up to 65535 words or none, any payload, up to 255 bytes of padding or none): ParseRTP of their
  -- layout in bytes gives just these parts and the payload without what surrounds it.
  pub parse_rtp-packet : parse_rtp (packet p) ≡ inr (described p)
  unfolding b0 off begin last parsed
  parse_rtp-packet =
      let m = masks b0 b0_lem.0 in
      let m1 = masks (get_or (packet p) 1 0) (ground (arith, valid.payload_type)) in
      let small : begin ≤ length (packet p) = omega (arith, length-packet) in
      parse_rtp-parsed (packet p) p.csrc_count begin (not (p.pad == 0)) p.extension (m.0 ∙ b0_lem.2)
        (ap not (m.1 ∙ b0_lem.3)) (ground (arith, m.2, b0_lem.4)) offset_lem b0_lem.1
        (ground (arith, length-packet, length-extension)) small
        (λ h. ground (arith, h, last_byte, length-packet))
      ∙ ap inr (
          fields_ext p (parsed (packet p) p.csrc_count begin (not (p.pad == 0)) p.extension)
            (m1.3 ∙ ground (arith, valid.payload_type)) (ground (arith, m1.4, valid.payload_type))
            refl refl refl (omega (arith, valid.sequence)) (omega (arith, valid.timestamp))
            (omega (arith, valid.ssrc)) payload_field)
