-- ===== src/Decoder/Shapes.antt =====
-- internal/decoder: lengths and ranges of what the stages of a subframe hand on.
use g.Base.{
  ℕ, zero, suc, ◌+◌, ◌-◌, ◌≡◌, refl, ap, ◌∙◌, if-cases, arith, List, [], ◌∷◌, ◌++◌, map, length,
  length-set, length-append, length-drop, length-take, length-replicate, set, take, drop, replicate,
  ltb, ltb_ℤ, leb_ℤ, eqb_ℤ, ◌||◌, ◌&&◌, ◌==◌, ℤ, pos, asr, wrap, pos_part,
}
use g.Lsp.Stability.Sort.{Words}
use g.Lsp.Predictor.Words.{wrap16-IsWord16}
use g.Synth
use g.Synth.Exact.{round-IsWord16}
use g.Synth.Memory.{append-Words, drop-Words}
use g.Fcb
use g.Pitch.Adaptive.{
  Taps, recursive_loop, fir_interpolate_recursive_current, taps_of, current_sample,
  adaptive_codebook,
}
use g.Pitch.Adaptive.Equal.{adaptive_codebook-recursive}
use g.Postfilter
use g.Postfilter.Agc.{agc_loop, apply_agc, agc_target_energy}
use g.Decoder.HpFilter.{HpState, hp_filter_final, hp_final_from_acc_native}
use g.Decoder.Subframe.{scaled_for_history, advanced}

length-recursive_loop :
    (left n : ℕ) (taps : Taps) (past v : List ℤ)
    → length (recursive_loop left n taps past v) ≡ length v
unfolding recursive_loop
length-recursive_loop zero n taps past v = refl
length-recursive_loop (suc left) n taps past v =
    length-recursive_loop left (n + 1) taps past (set v n (current_sample taps past v n))
    ∙ length-set v n (current_sample taps past v n)

pub length-adaptive_codebook :
    (t f : ℤ) (past v : List ℤ) → length (adaptive_codebook t f past v) ≡ length v
unfolding fir_interpolate_recursive_current
length-adaptive_codebook t f past v =
    ap length (adaptive_codebook-recursive t f past v)
    ∙ length-recursive_loop 40 0 (taps_of t f) past v

length-place_loop :
    (ps : List ℕ) (i signs : ℕ) (c : List ℤ) → length (Fcb.place_loop ps i signs c) ≡ length c
unfolding Fcb.place_loop
length-place_loop [] i signs c = refl
length-place_loop (p ∷ ps) i signs c = length-place_loop ps (i + 1) signs _ ∙ length-set c p _

length-enhance_loop :
    (left n t : ℕ) (beta : ℤ) (c : List ℤ) → length (Fcb.enhance_loop left n t beta c) ≡ length c
unfolding Fcb.enhance_loop
length-enhance_loop zero n t beta c = refl
length-enhance_loop (suc left) n t beta c =
    length-enhance_loop left (n + 1) t beta _ ∙ length-set c n _

pub length-decode : (idx : Fcb.Indices) (t beta : ℤ) → length (Fcb.decode idx t beta) ≡ 40
unfolding Fcb.decode Fcb.place_pulses Fcb.apply_pitch_enhancement
length-decode idx t beta =
    let c = Fcb.place_loop (Fcb.decode_positions idx.positions) 0 idx.signs Fcb.silence in
    let placed = length-place_loop (Fcb.decode_positions idx.positions) 0 idx.signs Fcb.silence in
    if-cases Forty (ltb_ℤ t (pos 1) || leb_ℤ (pos 40) t) (λ outside. placed)
      λ inside.
        if-cases Forty (eqb_ℤ beta (pos 0)) (λ none. placed)
          λ some. length-enhance_loop (40 - pos_part t) (pos_part t) (pos_part t) beta c ∙ placed
  where
    Forty : List ℤ → Type 0
    Forty xs = length xs ≡ 40

pub build_excitation-Words :
    (gp mant exp : ℤ) (v c : List ℤ) → Words (Synth.build_excitation gp mant exp v c)
unfolding Synth.build_excitation Synth.excitation
build_excitation-Words gp mant exp [] c k = omega arith
build_excitation-Words gp mant exp (x ∷ v) [] k = omega arith
build_excitation-Words gp mant exp (x ∷ v) (y ∷ c) zero = round-IsWord16 _
build_excitation-Words gp mant exp (x ∷ v) (y ∷ c) (suc k) =
    build_excitation-Words gp mant exp v c k

pub length-build_excitation :
    (gp mant exp : ℤ) (v c : List ℤ)
    → length v ≡ length c
    → length (Synth.build_excitation gp mant exp v c) ≡ length v
unfolding Synth.build_excitation
length-build_excitation gp mant exp [] c h = refl
length-build_excitation gp mant exp (x ∷ v) [] h = absurd (omega arith)
length-build_excitation gp mant exp (x ∷ v) (y ∷ c) h =
    ap suc (length-build_excitation gp mant exp v c (omega arith))

pub hp_filter_final-Words : (xs : List ℤ) (st : HpState) → Words (hp_filter_final st xs).0
unfolding hp_filter_final hp_final_from_acc_native
hp_filter_final-Words [] st k = omega arith
hp_filter_final-Words (x ∷ xs) st zero = round-IsWord16 _
hp_filter_final-Words (x ∷ xs) st (suc k) = hp_filter_final-Words xs _ k

pub length-hp_filter_final :
    (xs : List ℤ) (st : HpState) → length (hp_filter_final st xs).0 ≡ length xs
unfolding hp_filter_final
length-hp_filter_final [] st = refl
length-hp_filter_final (x ∷ xs) st = ap suc (length-hp_filter_final xs _)

length-map : (f : ℤ → ℤ) (xs : List ℤ) → length (map f xs) ≡ length xs
length-map f [] = refl
length-map f (x ∷ xs) = ap suc (length-map f xs)

-- The history keeps its length, and holds words.
scaled-Words : (shift : ℕ) (xs : List ℤ) → Words (scaled_for_history shift xs)
unfolding scaled_for_history
scaled-Words shift [] k = omega arith
scaled-Words shift (x ∷ xs) zero = wrap16-IsWord16 (asr x shift)
scaled-Words shift (x ∷ xs) (suc k) = scaled-Words shift xs k

-- The excitation of the past.
pub record IsHistory (past : List ℤ) : Type 0 where
  pub full : length past ≡ 153
  pub words : Words past

joined-IsHistory :
    (past u : List ℤ)
    → length past ≡ 153
    → length u ≡ 40
    → Words past
    → Words u
    → IsHistory (drop 40 past ++ u)
joined-IsHistory past u h k w wu = record {
  full = omega (arith, length-append (drop 40 past) u, length-drop 40 past, h, k);
  words = append-Words (drop 40 past) u (drop-Words 40 past w) wu;
}

pub advanced-IsHistory :
    (shift : ℕ) (past u : List ℤ)
    → IsHistory past
    → length u ≡ 40
    → Words u
    → IsHistory (advanced shift past u)
unfolding advanced scaled_for_history
advanced-IsHistory shift past u h k wu =
    if-cases IsHistory (ltb 0 shift)
      (λ scaled.
        joined-IsHistory (scaled_for_history shift past) (scaled_for_history shift u)
          (scaled_length past ∙ h.full) (scaled_length u ∙ k) (scaled-Words shift past)
          (scaled-Words shift u))
      λ plain. joined-IsHistory past u h.full k h.words wu
  where
    scaled_length : (xs : List ℤ) → length (scaled_for_history shift xs) ≡ length xs
    scaled_length xs = length-map (λ v. wrap 16 (asr v shift)) xs

-- What the postfilter keeps, by its lengths.
pub record IsPostfilter (pf : Postfilter.Postfilter) : Type 0 where
  pub input : length pf.past_s ≡ 10
  pub residual : length pf.past_residual ≡ 183
  pub output : length pf.past_synth_post ≡ 10

length-short_term_loop :
    (left n : ℕ) (a r work : List ℤ)
    → length (Postfilter.short_term_loop left n a r work) ≡ length work
unfolding Postfilter.short_term_loop
length-short_term_loop zero n a r work = refl
length-short_term_loop (suc left) n a r work =
    length-short_term_loop left (n + 1) a r _ ∙ length-set work (10 + n) _

length-residual_loop :
    (left n : ℕ) (a work : List ℤ) → length (Postfilter.residual_loop left n a work) ≡ left
unfolding Postfilter.residual_loop
length-residual_loop zero n a work = refl
length-residual_loop (suc left) n a work = ap suc (length-residual_loop left (n + 1) a work)

length-agc_loop : (xs : List ℤ) (target gain : ℤ) → length (agc_loop target gain xs).0 ≡ length xs
unfolding agc_loop
length-agc_loop [] target gain = refl
length-agc_loop (x ∷ xs) target gain = ap suc (length-agc_loop xs target _)

length-apply_agc :
    (gain : ℤ) (xs : List ℤ) (target : ℤ) → length (apply_agc gain xs target).0 ≡ length xs
unfolding apply_agc
length-apply_agc gain xs target =
    if-cases (λ (r : List ℤ × ℤ). length r.0 ≡ length xs)
      (eqb_ℤ target (pos 0) && (agc_target_energy xs == 0)) (λ silent. refl)
      λ loud. length-agc_loop xs (asr target 2) gain

length-apply_short_term :
    (past a r : List ℤ) → length past ≡ 10 → length (Postfilter.apply_short_term past a r) ≡ 50
unfolding Postfilter.apply_short_term
length-apply_short_term past a r h =
    length-short_term_loop 40 0 a r (past ++ replicate 40 (pos 0))
    ∙ omega (arith, length-append past (replicate 40 (pos 0)), length-replicate 40 (pos 0), h)

length-compute_residual : (past a s : List ℤ) → length (Postfilter.compute_residual past a s) ≡ 40
unfolding Postfilter.compute_residual
length-compute_residual past a s = length-residual_loop 40 0 a (past ++ s)

-- The residual of the past, moved on by a subframe.
remembered :
    (past r : List ℤ)
    → length past ≡ 183
    → length r ≡ 40
    → length (take 143 (drop 40 (take 143 past ++ r)) ++ r) ≡ 183
remembered past r h k =
    let history = take 143 past ++ r in
    omega (
      arith,
      length-append (take 143 (drop 40 history)) r,
      length-take 143 (drop 40 history),
      length-drop 40 history,
      length-append (take 143 past) r,
      length-take 143 past,
      h,
      k,
    )

pub filter-IsPostfilter :
    (pf : Postfilter.Postfilter) (a : List ℤ) (t : ℤ) (s : List ℤ)
    → IsPostfilter pf
    → length s ≡ 40
    → (length (Postfilter.filter pf a t s).0 ≡ 40) × IsPostfilter (Postfilter.filter pf a t s).1
unfolding Postfilter.filter
filter-IsPostfilter pf a t s v h = (
  length-apply_agc _ _ _
      ∙ length-drop 10 _
      ∙ ap (λ (n : ℕ). n - 10) (length-apply_short_term pf.past_synth_post _ _ v.output),
  record {
    input = omega (arith, length-drop 40 (pf.past_s ++ s), length-append pf.past_s s, v.input, h);
    residual = remembered pf.past_residual _ v.residual (length-compute_residual pf.past_s _ s);
    output =
        length-drop 40 _
        ∙ ap (λ (n : ℕ). n - 40) (length-apply_short_term pf.past_synth_post _ _ v.output);
  },
)
