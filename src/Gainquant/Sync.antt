-- ===== src/Gainquant/Sync.antt =====
-- internal/gainquant, internal/gain: the decoder makes the gains that the encoder has reconstructed,
-- and remembers the same errors.
use g.Base.{
  ℕ, ◌<◌, ◌≡◌, refl, true, false, ◌==◌, ==_iff, all_below, at_all_below, List, [], ◌∷◌, get_or, All,
  ℤ, pos, leb_ℤ,
}
use g.Fixed.Saturate.{add}
use g.Tables.Gain.{gain_map1, gain_map2, gain_imap1, gain_imap2}
use g.Gain.{Decoder, seed_decoder, decode_vq, fixed_codebook_energy}
use g.Gain.Decode.{Gains, decode, decode_with, started, log_gain_db_q10, fixed_gain, new_error}
use g.Gainquant.{
  reconstruct_wide, update_past_qua_en, pack_gains, gamma_sum, gp_sum, dequant_gc,
  predicted_log2_gc_q15_wide, log_gain_db_q10_from_codebook,
}

first_table : all_below 8 (λ k. get_or gain_imap1 (get_or gain_map1 k 0) 0 == k) ≡ true
unfolding all_below gain_imap1 gain_map1
first_table = refl

second_table : all_below 16 (λ k. get_or gain_imap2 (get_or gain_map2 k 0) 0 == k) ≡ true
unfolding all_below gain_imap2 gain_map2
second_table = refl

pub decode_vq-pack_gains :
    (ga gb : ℕ)
    → ga < 8
    → gb < 16
    → decode_vq (pack_gains ga gb) ≡ ((reconstruct_wide [] [] ga gb).gp_q14, gamma_sum ga gb)
unfolding decode_vq pack_gains reconstruct_wide gp_sum gamma_sum add
decode_vq-pack_gains ga gb h k =
    let e1 = (==_iff _ ga).0 (at_all_below 8 _ first_table ga h) in
    let e2 = (==_iff _ gb).0 (at_all_below 16 _ second_table gb k) in rw (e1, e2) refl

-- A subframe: the codebooks' entries and the code vector.
pub record Subframe : Type 0 where
  pub ga : ℕ
  pub gb : ℕ
  pub c : List ℤ

-- Entries of the codebooks, and a code vector that is not silent.
pub record IsSubframe (s : Subframe) : Type 0 where
  pub first : s.ga < 8
  pub second : s.gb < 16
  pub sound : leb_ℤ (fixed_codebook_energy s.c) (pos 0) ≡ false

decode-pack_gains :
    (past : List ℤ) (s : Subframe)
    → IsSubframe s
    → decode (seed_decoder past) (pack_gains s.ga s.gb) s.c ≡ (
      reconstruct_wide past s.c s.ga s.gb,
      seed_decoder (update_past_qua_en past (gamma_sum s.ga s.gb)),
    )
unfolding decode decode_with started seed_decoder fixed_gain log_gain_db_q10 new_error
    reconstruct_wide update_past_qua_en dequant_gc predicted_log2_gc_q15_wide
    log_gain_db_q10_from_codebook
decode-pack_gains past s h = rw (decode_vq-pack_gains s.ga s.gb h.first h.second, h.sound) refl

-- The gains that the encoder reconstructs, subframe by subframe, and its memory at the end.
unfoldable pub reconstruct_all : List ℤ → List Subframe → List Gains × List ℤ
reconstruct_all past [] = ([], past)
reconstruct_all past (s ∷ rest) =
    let r = reconstruct_all (update_past_qua_en past (gamma_sum s.ga s.gb)) rest in
    (reconstruct_wide past s.c s.ga s.gb ∷ r.0, r.1)

-- The decoder's, of the packed codewords.
unfoldable pub decode_gains : Decoder → List Subframe → List Gains × Decoder
decode_gains d [] = ([], d)
decode_gains d (s ∷ rest) =
    let here = decode d (pack_gains s.ga s.gb) s.c in
    let r = decode_gains here.1 rest in (here.0 ∷ r.0, r.1)

-- For any four past errors and any sequence of subframes with an entry of each gain codebook and a
-- code vector whose energy is positive: the decoder of package gain, seeded with the errors and
-- given the codewords that PackGains makes, gives in every subframe the gains that ReconstructWide
-- gives the encoder, and ends with the errors that the encoder's UpdatePastQuaEn has made.
pub decode_gains-reconstruct_all :
    (past : List ℤ) (subframes : List Subframe)
    → All IsSubframe subframes
    → decode_gains (seed_decoder past) subframes
      ≡ ((reconstruct_all past subframes).0, seed_decoder (reconstruct_all past subframes).1)
unfolding decode_gains reconstruct_all
decode_gains-reconstruct_all past [] h = refl
decode_gains-reconstruct_all past (s ∷ rest) h =
    rw
      (
        decode-pack_gains past s h.0,
        decode_gains-reconstruct_all (update_past_qua_en past (gamma_sum s.ga s.gb)) rest h.1,
      )
      refl
