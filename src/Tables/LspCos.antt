-- ===== src/Tables/LspCos.antt =====
-- internal/tables/lsp_cos.go: the cosine of the LSF to LSP conversion.
use g.Base.{List, [], ◌∷◌, ℤ, pos, neg}

unfoldable pub cos_lsp : List ℤ
cos_lsp =
    pos 32767
    ∷ pos 32729
    ∷ pos 32610
    ∷ pos 32413
    ∷ pos 32138
    ∷ pos 31786
    ∷ pos 31357
    ∷ pos 30853
    ∷ pos 30274
    ∷ pos 29622
    ∷ pos 28899
    ∷ pos 28106
    ∷ pos 27246
    ∷ pos 26320
    ∷ pos 25330
    ∷ pos 24279
    ∷ pos 23170
    ∷ pos 22006
    ∷ pos 20788
    ∷ pos 19520
    ∷ pos 18205
    ∷ pos 16846
    ∷ pos 15447
    ∷ pos 14010
    ∷ pos 12540
    ∷ pos 11039
    ∷ pos 9512
    ∷ pos 7962
    ∷ pos 6393
    ∷ pos 4808
    ∷ pos 3212
    ∷ pos 1608
    ∷ pos 0
    ∷ neg 1608
    ∷ neg 3212
    ∷ neg 4808
    ∷ neg 6393
    ∷ neg 7962
    ∷ neg 9512
    ∷ neg 11039
    ∷ neg 12540
    ∷ neg 14010
    ∷ neg 15447
    ∷ neg 16846
    ∷ neg 18205
    ∷ neg 19520
    ∷ neg 20788
    ∷ neg 22006
    ∷ neg 23170
    ∷ neg 24279
    ∷ neg 25330
    ∷ neg 26320
    ∷ neg 27246
    ∷ neg 28106
    ∷ neg 28899
    ∷ neg 29622
    ∷ neg 30274
    ∷ neg 30853
    ∷ neg 31357
    ∷ neg 31786
    ∷ neg 32138
    ∷ neg 32413
    ∷ neg 32610
    ∷ neg 32729
    ∷ neg 32768
    ∷ []

unfoldable pub cos_lsp_slope : List ℤ
cos_lsp_slope =
    neg 631
    ∷ neg 1893
    ∷ neg 3150
    ∷ neg 4399
    ∷ neg 5638
    ∷ neg 6863
    ∷ neg 8072
    ∷ neg 9261
    ∷ neg 10428
    ∷ neg 11570
    ∷ neg 12684
    ∷ neg 13767
    ∷ neg 14817
    ∷ neg 15832
    ∷ neg 16808
    ∷ neg 17744
    ∷ neg 18637
    ∷ neg 19486
    ∷ neg 20287
    ∷ neg 21039
    ∷ neg 21741
    ∷ neg 22390
    ∷ neg 22986
    ∷ neg 23526
    ∷ neg 24009
    ∷ neg 24435
    ∷ neg 24801
    ∷ neg 25108
    ∷ neg 25354
    ∷ neg 25540
    ∷ neg 25664
    ∷ neg 25726
    ∷ neg 25726
    ∷ neg 25664
    ∷ neg 25540
    ∷ neg 25354
    ∷ neg 25108
    ∷ neg 24801
    ∷ neg 24435
    ∷ neg 24009
    ∷ neg 23526
    ∷ neg 22986
    ∷ neg 22390
    ∷ neg 21741
    ∷ neg 21039
    ∷ neg 20287
    ∷ neg 19486
    ∷ neg 18637
    ∷ neg 17744
    ∷ neg 16808
    ∷ neg 15832
    ∷ neg 14817
    ∷ neg 13767
    ∷ neg 12684
    ∷ neg 11570
    ∷ neg 10428
    ∷ neg 9261
    ∷ neg 8072
    ∷ neg 6863
    ∷ neg 5638
    ∷ neg 4399
    ∷ neg 3150
    ∷ neg 1893
    ∷ neg 631
    ∷ []
