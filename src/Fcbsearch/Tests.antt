-- ===== src/Fcbsearch/Tests.antt =====
-- Runs of internal/fcbsearch.
use g.Base.{◌≡◌, ◌≤◌, ◌⊎◌, arith, min, max, List, [], ◌∷◌, get_or, length, ℤ, pos, negsuc, pos_part}
use g.Fcb.{decode, build_code, pack_c, pack_s, clamp_pitch_gain}
use g.Fcbsearch.{signs_from_d, search_depth_first}
use g.Fcbsearch.Filters.{correlation_d, phi_prime}
use g.Fcbsearch.Sizes.{Places, Inside, e_of}
use g.Fcbsearch.Best.{Chosen, NotBetter, default_result, search_depth_first-IsBest}
use g.Fcbsearch.Threshold.{
  search_depth_first_threshold_scan, search_depth_first_threshold_scan_entered,
}
use g.Fcbsearch.Scanned.{Outcome, search_depth_first_threshold_scan_entered_lem}
use g.Fcbsearch.TopK.{search_top_k}
use g.Fcbsearch.Ready.{prepared-IsWords}
use g.Fcbsearch.Ranked.{search_top_k-search_depth_first}
use g.Fcbsearch.Packed.{search_depth_first_threshold_scan-decode}

abbrev target : List ℤ
target = pos 300 ∷ negsuc 1200 ∷ pos 4000 ∷ pos 2500 ∷ negsuc 900 ∷ pos 70 ∷ []

abbrev response : List ℤ
response = pos 4096 ∷ pos 2048 ∷ negsuc 511 ∷ pos 100 ∷ []

abbrev signs : List ℤ
signs = (signs_from_d (correlation_d target response)).0

abbrev d_abs : List ℤ
d_abs = (signs_from_d (correlation_d target response)).1

abbrev phi : List (List ℤ)
phi = phi_prime response signs

abbrev some_places : Places
some_places = record { i0 = 1; i1 = 0; i2 = 7; i3 = 9 }

some_places-Inside : Inside some_places
some_places-Inside = record {
  h0 = omega arith;
  h1 = omega arith;
  h2 = omega arith;
  h3 = omega arith;
}

search_depth_first-IsBest_example :
    let r = search_depth_first d_abs phi in
    ((pos_part (e_of phi some_places) ≡ 0) × (r ≡ default_result))
    ⊎ ((k : Chosen d_abs phi r) × NotBetter d_abs phi some_places k.places)
search_depth_first-IsBest_example =
    search_depth_first-IsBest d_abs phi some_places (prepared-IsWords target response)
      some_places-Inside

search_depth_first_threshold_scan_entered_lem_example :
    Outcome d_abs phi
      (pos 90)
      some_places
      (search_depth_first_threshold_scan_entered d_abs phi (pos 90))
search_depth_first_threshold_scan_entered_lem_example =
    search_depth_first_threshold_scan_entered_lem d_abs phi (pos 90) some_places
      (prepared-IsWords target response) some_places-Inside

search_top_k-search_depth_first_example :
    let out = search_top_k d_abs phi (pos 4) in
    (get_or out 0 [] ≡ (search_depth_first d_abs phi).positions)
    × (1 ≤ length out)
    × (length out ≤ max 1 (min 32 (pos_part (pos 4))))
search_top_k-search_depth_first_example =
    search_top_k-search_depth_first d_abs phi (pos 4) (prepared-IsWords target response)

search_depth_first_threshold_scan-decode_example :
    let ps = (search_depth_first_threshold_scan d_abs phi (pos 90)).positions in
    decode
      (record { positions = pack_c ps; signs = pack_s ps signs })
      (pos 33)
      (clamp_pitch_gain (pos 9000))
    ≡ build_code ps signs (pos 33) (pos 9000)
search_depth_first_threshold_scan-decode_example =
    search_depth_first_threshold_scan-decode target response (pos 90) (pos 33) (pos 9000)
