-- ===== src/Postfilter/Tests.antt =====
-- Runs of internal/postfilter.
use g.Base.{
  pos_part, neg_part, ◌+ℤ◌, ◌-ℤ◌, ◌*◌, ◌-◌, quot_ℤ, quot, refl, List, [], ◌∷◌, ◌++◌, replicate, ℤ,
  pos, negsuc, ◌+◌, ◌/◌, ◌^◌, ◌≡◌, arith,
}
use g.Lsp.Frames.{All-Words}
use g.Synth.Memory.{append-Words, zeros-Words}
use g.Postfilter.LongTerm.{refine_pitch}
use g.Postfilter.Lag.{IsRefined, refine_pitch_lem}
use g.Postfilter.Agc.{next_guess, isqrt_loop, isqrt64, root_loop}
use g.Postfilter.Root.{IsRoot, isqrt64_lem}

isqrt64_lem_example :
    let root = isqrt64 (pos 2000) in
    let start = pos_part (isqrt64 (pos (16 * 32768 * 32768 / (16 + 1)))) in
    (neg_part root ≡ 0)
    × IsRoot 2000 (pos_part root)
    × (isqrt_loop (2000 + 7) (pos 2000) (pos 2000) ≡ root)
    × (root_loop 7 (16 * 32768 * 32768) (16 + 1) start ≡ start)
isqrt64_lem_example = isqrt64_lem 2000 1 7 (omega arith) (omega arith)

-- The sum of the first round wraps for the largest number of 64 bits.
isqrt64_wraps_test : isqrt64 (pos (2 ^ 63 - 1)) ≡ negsuc (2 ^ 62 - 1)
unfolding isqrt64 isqrt_loop next_guess ◌+ℤ◌ ◌-ℤ◌ quot_ℤ quot
isqrt64_wraps_test = refl

abbrev few : List ℤ
few =
    pos 5 ∷ negsuc 400 ∷ pos 1300 ∷ pos 72 ∷ negsuc 9 ∷ pos 610 ∷ pos 5 ∷ negsuc 399 ∷ pos 1280 ∷ []

abbrev residual : List ℤ
residual = replicate 143 (pos 0) ++ few

refine_pitch_lem_example : IsRefined residual 57 (refine_pitch residual (pos 57))
refine_pitch_lem_example =
    refine_pitch_lem residual 57
      (append-Words (replicate 143 (pos 0)) few (zeros-Words 143) (All-Words few (omega arith)))
      (omega arith)
