-- ===== src/Synth.antt =====
-- internal/synth: the excitation (excitation.go) and the synthesis filter with its recovery from
-- overflow (filter.go, synthesizer.go, types.go). The overflow flag of internal/fixed is passed
-- along beside the samples.
mod Tests
pub mod Exact
pub mod Memory
use g.Base.{
  ℕ, zero, suc, ◌+◌, ◌-◌, List, [], ◌∷◌, ◌++◌, map, Bool, true, false, if◌then◌else◌, get_or, set,
  take, drop, replicate, ℤ, pos, neg_part, pos_part, ◌-ℤ◌, leb_ℤ, eqb_ℤ, asr, wrap,
}
use g.Fixed.Saturate.{l_add, round, round_sets, set_overflow, clear_overflow}
use g.Fixed.Shift.{l_shl, l_shl_sets, l_shr}
use g.Fixed.Mult.{l_mult, l_mult_sets, l_msu, l_msu_sets}

abbrev pub at : List ℤ → ℕ → ℤ
at xs i = get_or xs i (pos 0)

-- A sample of `BuildExcitation`.
unfoldable pub excitation : ℤ → ℤ → ℤ → ℤ → ℤ → ℤ
excitation gp_q14 gc_mant_q14 gc_exp v c =
    let shift_r = pos 13 -ℤ gc_exp in
    let prod32 = l_mult gc_mant_q14 c in
    let l_code =
      (if eqb_ℤ gc_mant_q14 (pos 0)
        then pos 0
        else if leb_ℤ (pos 0) shift_r
        then l_shr prod32 shift_r
        else l_shl prod32 (pos (neg_part shift_r))) in
    round (l_shl (l_add (l_mult gp_q14 v) l_code) (pos 1))

unfoldable pub build_excitation : ℤ → ℤ → ℤ → List ℤ → List ℤ → List ℤ
build_excitation gp_q14 gc_mant_q14 gc_exp [] c = []
build_excitation gp_q14 gc_mant_q14 gc_exp (x ∷ v) [] = []
build_excitation gp_q14 gc_mant_q14 gc_exp (x ∷ v) (y ∷ c) =
    excitation gp_q14 gc_mant_q14 gc_exp x y ∷ build_excitation gp_q14 gc_mant_q14 gc_exp v c

pub record Synthesizer : Type 0 where
  pub past_synth : List ℤ
  pub last_excitation_scale_shift : ℕ

abbrev pub reset : Synthesizer
reset = record { past_synth = replicate 10 (pos 0); last_excitation_scale_shift = 0 }

-- The taps of sample `n` from `i` on, with `left` to go: the sum and the flag.
unfoldable pub taps_loop : ℕ → ℕ → ℕ → List ℤ → List ℤ → ℤ → Bool → ℤ × Bool
taps_loop zero i n a work l_temp flag = (l_temp, flag)
taps_loop (suc left) i n a work l_temp flag =
    let x = at work (10 + n - i) in
    taps_loop left (i + 1) n a work (l_msu l_temp (at a i) x)
      (set_overflow flag (l_msu_sets l_temp (at a i) x))

-- Sample `n` of the filter, with the flag after it.
unfoldable pub filtered : ℕ → List ℤ → List ℤ → List ℤ → Bool → ℤ × Bool
filtered n a u work flag =
    let start = l_mult (at u n) (at a 0) in
    let sum = taps_loop 10 1 n a work start (set_overflow flag (l_mult_sets (at u n) (at a 0))) in
    let shifted = l_shl sum.0 (pos 3) in
    (
      round shifted,
      set_overflow (set_overflow sum.1 (l_shl_sets sum.0 (pos 3))) (round_sets shifted),
    )

unfoldable pub one_pass_loop : ℕ → ℕ → List ℤ → List ℤ → List ℤ → Bool → List ℤ × Bool
one_pass_loop zero n a u work flag = (work, flag)
one_pass_loop (suc left) n a u work flag =
    let r = filtered n a u work flag in one_pass_loop left (n + 1) a u (set work (10 + n) r.0) r.1

unfoldable pub one_pass : List ℤ → List ℤ → List ℤ → Bool → List ℤ × Bool
one_pass a u work flag = one_pass_loop 40 0 a u work flag

-- The work buffer behind the memory of the filter.
abbrev pub work_of : List ℤ → List ℤ
work_of past_synth = past_synth ++ replicate 40 (pos 0)

unfoldable pub scaled_down : List ℤ → List ℤ
scaled_down u = map (λ v. wrap 16 (asr v 2)) u

-- What `filterSubframe` writes and leaves, from a finished work buffer.
abbrev pub finished : ℕ → List ℤ → List ℤ × Synthesizer
finished shift work =
    (drop 10 work, record { past_synth = drop 40 work; last_excitation_scale_shift = shift })

unfoldable pub filter_subframe : Synthesizer → List ℤ → List ℤ → List ℤ × Synthesizer
filter_subframe synth a u =
    let first = one_pass a u (work_of synth.past_synth) false in
    let second = one_pass a (scaled_down u) (work_of synth.past_synth) false in
    if first.1 then finished 2 second.0 else finished 0 first.0

unfoldable pub filter : Synthesizer → List ℤ → List ℤ → List ℤ × Synthesizer
filter synth a u = filter_subframe synth a u

unfoldable pub synthesize :
    Synthesizer → List ℤ → List ℤ → List ℤ → ℤ → ℤ → ℤ → List ℤ × Synthesizer
synthesize synth a v c gp_q14 gc_mant_q14 gc_exp =
    filter_subframe synth a (build_excitation gp_q14 gc_mant_q14 gc_exp v c)
