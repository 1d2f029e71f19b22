-- ===== src/Tables/LspMa.antt =====
-- internal/tables/lsp_ma.go: the predictors of the LSF quantizer.
use g.Base.{List, [], ◌∷◌, ℤ, pos}

unfoldable pub ma_predictors_lsp : List (List (List ℤ))
ma_predictors_lsp =
    ((pos 8421
        ∷ pos 9109
        ∷ pos 9175
        ∷ pos 8965
        ∷ pos 9034
        ∷ pos 9057
        ∷ pos 8765
        ∷ pos 8775
        ∷ pos 9106
        ∷ pos 8673
        ∷ [])
      ∷ (pos 7018
          ∷ pos 7189
          ∷ pos 7638
          ∷ pos 7307
          ∷ pos 7444
          ∷ pos 7379
          ∷ pos 7038
          ∷ pos 6956
          ∷ pos 6930
          ∷ pos 6868
          ∷ [])
      ∷ (pos 5472
          ∷ pos 4990
          ∷ pos 5134
          ∷ pos 5177
          ∷ pos 5246
          ∷ pos 5141
          ∷ pos 5206
          ∷ pos 5095
          ∷ pos 4830
          ∷ pos 5147
          ∷ [])
      ∷ (pos 4056
          ∷ pos 3031
          ∷ pos 2614
          ∷ pos 3024
          ∷ pos 2916
          ∷ pos 2713
          ∷ pos 3309
          ∷ pos 3237
          ∷ pos 2857
          ∷ pos 3473
          ∷ [])
      ∷ [])
    ∷ ((pos 7733
          ∷ pos 7880
          ∷ pos 8188
          ∷ pos 8175
          ∷ pos 8247
          ∷ pos 8490
          ∷ pos 8637
          ∷ pos 8601
          ∷ pos 8359
          ∷ pos 7569
          ∷ [])
        ∷ (pos 4210
            ∷ pos 3031
            ∷ pos 2552
            ∷ pos 3473
            ∷ pos 3876
            ∷ pos 3853
            ∷ pos 4184
            ∷ pos 4154
            ∷ pos 3909
            ∷ pos 3968
            ∷ [])
        ∷ (pos 3214
            ∷ pos 1930
            ∷ pos 1313
            ∷ pos 2143
            ∷ pos 2493
            ∷ pos 2385
            ∷ pos 2755
            ∷ pos 2706
            ∷ pos 2542
            ∷ pos 2919
            ∷ [])
        ∷ (pos 3024
            ∷ pos 1592
            ∷ pos 940
            ∷ pos 1631
            ∷ pos 1723
            ∷ pos 1579
            ∷ pos 2034
            ∷ pos 2084
            ∷ pos 1913
            ∷ pos 2601
            ∷ [])
        ∷ [])
    ∷ []

unfoldable pub ma_predictor_inv_sum_lsp : List (List ℤ)
ma_predictor_inv_sum_lsp =
    (pos 7798
      ∷ pos 8447
      ∷ pos 8205
      ∷ pos 8293
      ∷ pos 8126
      ∷ pos 8477
      ∷ pos 8447
      ∷ pos 8703
      ∷ pos 9043
      ∷ pos 8604
      ∷ [])
    ∷ (pos 14585
        ∷ pos 18333
        ∷ pos 19772
        ∷ pos 17344
        ∷ pos 16426
        ∷ pos 16459
        ∷ pos 15155
        ∷ pos 15220
        ∷ pos 16043
        ∷ pos 15708
        ∷ [])
    ∷ []
