-- ===== src/Tables/Gain.antt =====
-- internal/tables: gain_gbk1.go, gain_gbk2.go and gain_ma.go, the gain quantizer and its predictor,
-- and the tables of powers and logarithms in gain_pow2.go.
use g.Base.{ℕ, List, [], ◌∷◌, ℤ, pos}

unfoldable pub gain_gbk1 : List (List ℤ)
gain_gbk1 =
    (pos 1 ∷ pos 1516 ∷ [])
    ∷ (pos 1551 ∷ pos 2425 ∷ [])
    ∷ (pos 1831 ∷ pos 5022 ∷ [])
    ∷ (pos 57 ∷ pos 5404 ∷ [])
    ∷ (pos 1921 ∷ pos 9291 ∷ [])
    ∷ (pos 3242 ∷ pos 9949 ∷ [])
    ∷ (pos 356 ∷ pos 14756 ∷ [])
    ∷ (pos 2678 ∷ pos 27162 ∷ [])
    ∷ []

unfoldable pub gain_gbk2 : List (List ℤ)
gain_gbk2 =
    (pos 826 ∷ pos 2005 ∷ [])
    ∷ (pos 1994 ∷ pos 0 ∷ [])
    ∷ (pos 5142 ∷ pos 592 ∷ [])
    ∷ (pos 6160 ∷ pos 2395 ∷ [])
    ∷ (pos 8091 ∷ pos 4861 ∷ [])
    ∷ (pos 9120 ∷ pos 525 ∷ [])
    ∷ (pos 10573 ∷ pos 2966 ∷ [])
    ∷ (pos 11569 ∷ pos 1196 ∷ [])
    ∷ (pos 13260 ∷ pos 3256 ∷ [])
    ∷ (pos 14194 ∷ pos 1630 ∷ [])
    ∷ (pos 15132 ∷ pos 4914 ∷ [])
    ∷ (pos 15161 ∷ pos 14276 ∷ [])
    ∷ (pos 15434 ∷ pos 237 ∷ [])
    ∷ (pos 16112 ∷ pos 3392 ∷ [])
    ∷ (pos 17299 ∷ pos 1861 ∷ [])
    ∷ (pos 18973 ∷ pos 5935 ∷ [])
    ∷ []

unfoldable pub gain_ma_predictor : List ℤ
gain_ma_predictor = pos 5571 ∷ pos 4751 ∷ pos 2785 ∷ pos 1556 ∷ []

unfoldable pub pow2_table : List ℤ
pow2_table =
    pos 16384
    ∷ pos 16743
    ∷ pos 17109
    ∷ pos 17484
    ∷ pos 17867
    ∷ pos 18258
    ∷ pos 18658
    ∷ pos 19066
    ∷ pos 19484
    ∷ pos 19911
    ∷ pos 20347
    ∷ pos 20792
    ∷ pos 21247
    ∷ pos 21713
    ∷ pos 22188
    ∷ pos 22674
    ∷ pos 23170
    ∷ pos 23678
    ∷ pos 24196
    ∷ pos 24726
    ∷ pos 25268
    ∷ pos 25821
    ∷ pos 26386
    ∷ pos 26964
    ∷ pos 27554
    ∷ pos 28158
    ∷ pos 28774
    ∷ pos 29405
    ∷ pos 30048
    ∷ pos 30706
    ∷ pos 31379
    ∷ pos 32066
    ∷ pos 32767
    ∷ []

unfoldable pub log2_table : List ℤ
log2_table =
    pos 0
    ∷ pos 1455
    ∷ pos 2866
    ∷ pos 4236
    ∷ pos 5568
    ∷ pos 6863
    ∷ pos 8124
    ∷ pos 9352
    ∷ pos 10549
    ∷ pos 11716
    ∷ pos 12855
    ∷ pos 13967
    ∷ pos 15054
    ∷ pos 16117
    ∷ pos 17156
    ∷ pos 18172
    ∷ pos 19167
    ∷ pos 20142
    ∷ pos 21097
    ∷ pos 22033
    ∷ pos 22951
    ∷ pos 23852
    ∷ pos 24735
    ∷ pos 25603
    ∷ pos 26455
    ∷ pos 27291
    ∷ pos 28113
    ∷ pos 28922
    ∷ pos 29716
    ∷ pos 30497
    ∷ pos 31266
    ∷ pos 32023
    ∷ pos 32767
    ∷ []

unfoldable pub gain_imap1 : List ℕ
gain_imap1 = 5 ∷ 1 ∷ 7 ∷ 4 ∷ 2 ∷ 0 ∷ 6 ∷ 3 ∷ []

unfoldable pub gain_imap2 : List ℕ
gain_imap2 = 2 ∷ 14 ∷ 3 ∷ 13 ∷ 0 ∷ 15 ∷ 1 ∷ 12 ∷ 6 ∷ 10 ∷ 7 ∷ 9 ∷ 4 ∷ 11 ∷ 5 ∷ 8 ∷ []

unfoldable pub gain_map1 : List ℕ
gain_map1 = 5 ∷ 1 ∷ 4 ∷ 7 ∷ 3 ∷ 0 ∷ 6 ∷ 2 ∷ []

unfoldable pub gain_map2 : List ℕ
gain_map2 = 4 ∷ 6 ∷ 0 ∷ 2 ∷ 12 ∷ 14 ∷ 8 ∷ 10 ∷ 15 ∷ 11 ∷ 9 ∷ 13 ∷ 7 ∷ 3 ∷ 1 ∷ 5 ∷ []
