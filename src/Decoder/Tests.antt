-- ===== src/Decoder/Tests.antt =====
-- Runs of internal/decoder.
use g.Base.{ℕ, List, [], ◌∷◌, replicate, false, pos, ◌≡◌, refl}
use g.Decoder.{decode, failed}
use g.Decoder.State.{reset, short_input, short_output}
use g.Decoder.Frames.{Reach, IsOutcome, decode-IsOutcome}

abbrev packed : List ℕ
packed = 0xd5 ∷ 0x8a ∷ 0xe9 ∷ 0x72 ∷ 0x34 ∷ 0x9b ∷ 0x9f ∷ 0xf6 ∷ 0xed ∷ 0x27 ∷ []

guards_test :
    (decode reset (replicate 9 0) false (replicate 80 (pos 0)) ≡ failed short_input)
    × (decode reset packed false (replicate 79 (pos 0)) ≡ failed short_output)
unfolding decode
guards_test = (refl, refl)

decode-IsOutcome_example :
    IsOutcome packed (replicate 82 (pos 7)) (decode reset packed false (replicate 82 (pos 7)))
decode-IsOutcome_example = decode-IsOutcome packed false (replicate 82 (pos 7)) Reach.here
