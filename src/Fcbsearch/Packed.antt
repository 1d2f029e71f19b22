-- ===== src/Fcbsearch/Packed.antt =====
-- internal/fcbsearch, internal/fcb: the decoder rebuilds the pulses that the searches choose.
use g.Base.{
  ℕ, ◌+◌, ◌*◌, ◌/◌, ◌%◌, ◌<◌, ◌≡◌, refl, ap, ◌∙◌, inl, inr, arith, Bool, true, ◌&&◌, List, ◌==◌,
  all_below, at_all_below, ℤ,
}
use g.Fcb.{decode, build_code, pack_c, pack_s, clamp_pitch_gain}
use g.Fcb.Fields.{on_tracks, decode-build_code}
use g.Fcbsearch.{Result, track0, track1, track2, track3, on_track, signs_from_d}
use g.Fcbsearch.Sizes.{Places, Inside, pulses, IsWords}
use g.Fcbsearch.Filters.{correlation_d, phi_prime}
use g.Fcbsearch.Ready.{prepared-IsWords}
use g.Fcbsearch.Best.{Chosen, default_result}
use g.Fcbsearch.Threshold.{search_depth_first_threshold_scan}
use g.Fcbsearch.Scanned.{search_depth_first_threshold_scan_entered_lem}

abbrev short_tracks : ℕ → Bool
short_tracks i =
    (on_track track0 i == 5 * i)
    && (on_track track1 i == 5 * i + 1)
    && (on_track track2 i == 5 * i + 2)

short_table : all_below 8 short_tracks ≡ true
unfolding all_below track0 track1 track2
short_table = refl

abbrev long_track : ℕ → Bool
long_track i = on_track track3 i == 5 * (i / 2) + 3 + i % 2

long_table : all_below 16 long_track ≡ true
unfolding all_below track3
long_table = refl

pulses-on_tracks :
    (q : Places) → Inside q → pulses q ≡ on_tracks q.i0 q.i1 q.i2 (q.i3 / 2) (q.i3 % 2)
pulses-on_tracks q h =
    let s0 = at_all_below 8 short_tracks short_table q.i0 h.h0 in
    let s1 = at_all_below 8 short_tracks short_table q.i1 h.h1 in
    let s2 = at_all_below 8 short_tracks short_table q.i2 h.h2 in
    let s3 = at_all_below 16 long_track long_table q.i3 h.h3 in
    let e0 : on_track track0 q.i0 ≡ 5 * q.i0 = ground (arith, s0) in
    let e1 : on_track track1 q.i1 ≡ 5 * q.i1 + 1 = ground (arith, s1) in
    let e2 : on_track track2 q.i2 ≡ 5 * q.i2 + 2 = ground (arith, s2) in
    let e3 : on_track track3 q.i3 ≡ 5 * (q.i3 / 2) + 3 + q.i3 % 2 = ground (arith, s3) in
    rw (e0, e1, e2, e3) refl

-- The positions are those of pulses on the tracks.
record OnTracks (ps : List ℕ) : Type 0 where
  a : ℕ
  b : ℕ
  c : ℕ
  d : ℕ
  jx : ℕ
  ha : a < 8
  hb : b < 8
  hc : c < 8
  hd : d < 8
  hj : jx < 2
  same : ps ≡ on_tracks a b c d jx

Chosen-OnTracks :
    (d_abs : List ℤ) (phi : List (List ℤ)) (r : Result) → Chosen d_abs phi r → OnTracks r.positions
Chosen-OnTracks d_abs phi r k =
    let q = k.places in
    record {
      a = q.i0;
      b = q.i1;
      c = q.i2;
      d = q.i3 / 2;
      jx = q.i3 % 2;
      ha = k.inside.h0;
      hb = k.inside.h1;
      hc = k.inside.h2;
      hd = omega (arith, k.inside.h3);
      hj = omega arith;
      same = k.at_places ∙ pulses-on_tracks q k.inside;
    }

default-OnTracks : (r : Result) → r ≡ default_result → OnTracks r.positions
default-OnTracks r e = record {
  a = 0;
  b = 0;
  c = 0;
  d = 0;
  jx = 0;
  ha = omega arith;
  hb = omega arith;
  hc = omega arith;
  hd = omega arith;
  hj = omega arith;
  same = ap (λ (t : Result). t.positions) e;
}

origin : Places
origin = record { i0 = 0; i1 = 0; i2 = 0; i3 = 0 }

origin-Inside : Inside origin
unfolding origin
origin-Inside = record { h0 = omega arith; h1 = omega arith; h2 = omega arith; h3 = omega arith }

scan-OnTracks :
    (d_abs : List ℤ) (phi : List (List ℤ)) (limit : ℤ)
    → IsWords d_abs phi
    → OnTracks (search_depth_first_threshold_scan d_abs phi limit).positions
unfolding search_depth_first_threshold_scan
scan-OnTracks d_abs phi limit w =
    let found =
      search_depth_first_threshold_scan_entered_lem d_abs phi limit origin w origin-Inside in
    elim found.1 [
      | inl nothing ↦ default-OnTracks _ nothing.1
      | inr chosen ↦ Chosen-OnTracks d_abs phi _ chosen.0
    ]

-- For any target, impulse response, limit, lag and gain of the previous subframe: the pulses that
-- SearchDepthFirstThresholdScan chooses from SignsFromD of CorrelationD and from PhiPrime, packed
-- by PackC and PackS and decoded with the gain clamped, give the code vector that the encoder's
-- BuildCode makes of these pulses.
pub search_depth_first_threshold_scan-decode :
    (x_prime h : List ℤ) (limit t gp_prev : ℤ)
    → let (signs, d_abs) = signs_from_d (correlation_d x_prime h) in
      let ps = (search_depth_first_threshold_scan d_abs (phi_prime h signs) limit).positions in
      decode
        (record { positions = pack_c ps; signs = pack_s ps signs })
        t
        (clamp_pitch_gain gp_prev)
      ≡ build_code ps signs t gp_prev
search_depth_first_threshold_scan-decode x_prime h limit t gp_prev =
    let (signs, d_abs) = signs_from_d (correlation_d x_prime h) in
    let o = scan-OnTracks d_abs (phi_prime h signs) limit (prepared-IsWords x_prime h) in
    rw o.same (decode-build_code o.a o.b o.c o.d o.jx signs t gp_prev o.ha o.hb o.hc o.hd o.hj)
