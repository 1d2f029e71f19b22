-- ===== src/Pcm/Tests.antt =====
-- Runs of internal/pcm at concrete inputs.
use g.Base.{◌≡◌, refl, arith, List, [], ◌∷◌, ◌++◌, replicate, ℤ, pos, negsuc}
use g.Pcm.{reset, process}
use g.Pcm.Frames.{process-append}
use g.Pcm.Recursion.{IsResponse, process-IsResponse}

abbrev signal : List ℤ
signal = pos 1000 ∷ negsuc 32767 ∷ pos 32767 ∷ []

abbrev silence : List ℤ
silence = replicate 3 (pos 0)

process-append_example :
    let one = process reset signal silence in
    let two = process one.1 signal silence in
    process reset (signal ++ signal) (silence ++ silence) ≡ (one.0 ++ two.0, two.1)
process-append_example = process-append reset signal signal silence silence refl refl

process-IsResponse_example : IsResponse reset signal (process reset signal silence)
process-IsResponse_example =
    process-IsResponse reset signal silence (omega arith) (omega arith) (omega arith) refl
