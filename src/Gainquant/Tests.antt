-- ===== src/Gainquant/Tests.antt =====
-- Runs of internal/gainquant.
use g.Base.{
  ◌<◌, ◌≡◌, ◌≤ℤ◌, refl, arith, List, [], ◌∷◌, replicate, ◌++◌, get_or, All, ℤ, pos, negsuc, leb_ℤ,
  false, ◌+ℤ◌, ◌*ℤ◌,
}
use g.Lsp.Stability.Sort.{Words}
use g.Lsp.Frames.{All-Words}
use g.Fixed.Saturate.{l_add, saturate64}
use g.Fixed.Shift.{l_shr, l_shr_right}
use g.Fixed.Mult.{l_mult}
use g.Gain.{fixed_codebook_energy, energy_loop, seed_decoder, decode_vq, default_errors}
use g.Gainquant.{pack_gains}
use g.Gainquant.Sync.{
  Subframe, IsSubframe, reconstruct_all, decode_gains, decode_gains-reconstruct_all,
}
use g.Gainquant.Search.{gain_search_correlations, center_of, search_target_bits, ga_cands, gb_cands}
use g.Gainquant.Least.{exact_cost, search_target_bits_lem}

abbrev pulses : List ℤ
pulses = pos 8191 ∷ replicate 20 (pos 0) ++ (negsuc 8191 ∷ replicate 18 (pos 0))

abbrev two_subframes : List Subframe
two_subframes =
    record { ga = 3; gb = 9; c = pulses } ∷ record { ga = 7; gb = 15; c = pos 8191 ∷ pulses } ∷ []

sounds_first : leb_ℤ (fixed_codebook_energy pulses) (pos 0) ≡ false
unfolding fixed_codebook_energy energy_loop l_add saturate64 l_shr l_shr_right l_mult ◌+ℤ◌ ◌*ℤ◌
sounds_first = refl

sounds_second : leb_ℤ (fixed_codebook_energy (pos 8191 ∷ pulses)) (pos 0) ≡ false
unfolding fixed_codebook_energy energy_loop l_add saturate64 l_shr l_shr_right l_mult ◌+ℤ◌ ◌*ℤ◌
sounds_second = refl

two_subframes-IsSubframe : All IsSubframe two_subframes
two_subframes-IsSubframe = (
  record { first = omega arith; second = omega arith; sound = sounds_first },
  (record { first = omega arith; second = omega arith; sound = sounds_second }, tt),
)

decode_gains-reconstruct_all_example : decode_gains (seed_decoder default_errors) two_subframes ≡ (
  (reconstruct_all default_errors two_subframes).0,
  seed_decoder (reconstruct_all default_errors two_subframes).1,
)
decode_gains-reconstruct_all_example =
    decode_gains-reconstruct_all default_errors two_subframes two_subframes-IsSubframe

abbrev target : List ℤ
target = pos 1000 ∷ negsuc 700 ∷ pos 300 ∷ []

abbrev adaptive : List ℤ
adaptive = pos 900 ∷ negsuc 500 ∷ pos 100 ∷ []

abbrev fixed : List ℤ
fixed = pos 4096 ∷ pos 100 ∷ negsuc 2000 ∷ []

target-Words : Words target
target-Words =
    All-Words target
      ((omega arith, omega arith), ((omega arith, omega arith), ((omega arith, omega arith), tt)))

adaptive-Words : Words adaptive
adaptive-Words =
    All-Words adaptive
      ((omega arith, omega arith), ((omega arith, omega arith), ((omega arith, omega arith), tt)))

fixed-Words : Words fixed
fixed-Words =
    All-Words fixed
      ((omega arith, omega arith), ((omega arith, omega arith), ((omega arith, omega arith), tt)))

search_target_bits_lem_example :
    let s = gain_search_correlations target adaptive fixed in
    let center = center_of 14 s in
    let r = search_target_bits target adaptive fixed (pos 200000) 14 in
    let cost = exact_cost s (pos 200000) center in
    (r.ga < 8)
    × (r.gb < 16)
    × (decode_vq (pack_gains r.ga r.gb) ≡ (r.gp_q14, r.gamma_c_q13))
    × (cost r.ga r.gb
        ≤ℤ cost (get_or (ga_cands (pos 200000) center) 1 0) (get_or (gb_cands center) 5 0))
search_target_bits_lem_example =
    search_target_bits_lem target adaptive fixed (pos 200000) 14 1 5 target-Words adaptive-Words
      fixed-Words (omega arith) (omega arith) (omega arith)
