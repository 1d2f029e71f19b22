-- ===== src/Synth/Tests.antt =====
-- A run of internal/synth.
use g.Base.{List, ◌∷◌, ◌++◌, replicate, ℤ, pos, negsuc, ◌+ℤ◌, ◌-ℤ◌, ◌*ℤ◌, ◌≡◌, refl, arith}
use g.Lsp.Frames.{All-Words}
use g.Fixed.Saturate.{
  round, round_sets, l_add, l_add_sets, l_sub, l_sub_sets, saturate64, saturate64_sets, extract_h,
}
use g.Fixed.Shift.{l_shl, l_shl_sets, l_shl_left, l_shl_left_sets}
use g.Fixed.Mult.{l_mult, l_mult_sets, l_msu, l_msu_sets}
use g.Synth.{filtered, taps_loop, at, reset, filter, filter_subframe, one_pass, one_pass_loop}
use g.Synth.Exact.{exact_sample}
use g.Synth.Memory.{zeros-Words, filter_lem}

abbrev predictor : List ℤ
predictor = pos 4096 ∷ pos 1500 ∷ negsuc 699 ∷ replicate 8 (pos 0)

abbrev excitation : List ℤ
excitation = pos 1000 ∷ negsuc 249 ∷ pos 30 ∷ replicate 37 (pos 0)

clear_test : (filter reset predictor excitation).1.last_excitation_scale_shift ≡ 0
unfolding filter filter_subframe one_pass one_pass_loop filtered taps_loop l_msu_sets l_mult_sets
    l_shl_sets round_sets l_mult l_msu l_shl round l_add_sets saturate64_sets ◌+ℤ◌ l_shl_left
    saturate64 ◌*ℤ◌ l_sub ◌-ℤ◌ extract_h l_add l_shl_left_sets l_sub_sets
clear_test = refl

filter_lem_example :
    at (filter reset predictor excitation).0 2
    ≡ exact_sample 2 predictor excitation
        (reset.past_synth ++ (filter reset predictor excitation).0)
filter_lem_example =
    filter_lem reset predictor excitation 2 (record { ten = refl; words = zeros-Words 10 })
      (All-Words predictor (omega arith)) (All-Words excitation (omega arith)) clear_test
      (omega arith)
