-- ===== src/Tables/LspL2.antt =====
-- internal/tables/lsp_l2.go: the lower half of its second stage.
use g.Base.{List, [], ◌∷◌, ℤ, pos, neg}

unfoldable pub lsp_codebook_l2 : List (List ℤ)
lsp_codebook_l2 =
    (neg 435 ∷ neg 815 ∷ neg 742 ∷ pos 1033 ∷ neg 518 ∷ [])
    ∷ (neg 833 ∷ neg 891 ∷ pos 463 ∷ neg 8 ∷ neg 1251 ∷ [])
    ∷ (neg 1021 ∷ pos 231 ∷ neg 306 ∷ pos 321 ∷ neg 220 ∷ [])
    ∷ (pos 57 ∷ neg 198 ∷ neg 339 ∷ neg 33 ∷ neg 1468 ∷ [])
    ∷ (pos 171 ∷ neg 350 ∷ pos 294 ∷ pos 1660 ∷ pos 453 ∷ [])
    ∷ (neg 701 ∷ neg 842 ∷ neg 58 ∷ pos 950 ∷ pos 892 ∷ [])
    ∷ (pos 584 ∷ pos 31 ∷ neg 289 ∷ pos 356 ∷ neg 333 ∷ [])
    ∷ (neg 109 ∷ neg 808 ∷ pos 231 ∷ pos 77 ∷ neg 87 ∷ [])
    ∷ (neg 859 ∷ pos 1236 ∷ pos 550 ∷ pos 854 ∷ pos 714 ∷ [])
    ∷ (neg 877 ∷ neg 954 ∷ neg 1248 ∷ neg 299 ∷ pos 212 ∷ [])
    ∷ (neg 77 ∷ pos 344 ∷ neg 620 ∷ pos 763 ∷ pos 413 ∷ [])
    ∷ (neg 314 ∷ neg 307 ∷ neg 256 ∷ neg 1260 ∷ neg 429 ∷ [])
    ∷ (pos 711 ∷ pos 693 ∷ pos 521 ∷ pos 650 ∷ pos 1305 ∷ [])
    ∷ (neg 112 ∷ neg 271 ∷ neg 500 ∷ pos 946 ∷ pos 1733 ∷ [])
    ∷ (pos 575 ∷ neg 10 ∷ neg 468 ∷ neg 199 ∷ pos 1101 ∷ [])
    ∷ (pos 145 ∷ neg 285 ∷ neg 1280 ∷ neg 398 ∷ pos 36 ∷ [])
    ∷ (neg 1133 ∷ neg 835 ∷ pos 1350 ∷ pos 1284 ∷ neg 95 ∷ [])
    ∷ (neg 1459 ∷ neg 1237 ∷ pos 416 ∷ neg 213 ∷ pos 466 ∷ [])
    ∷ (neg 15 ∷ pos 66 ∷ pos 468 ∷ pos 1019 ∷ neg 748 ∷ [])
    ∷ (neg 338 ∷ pos 148 ∷ pos 1445 ∷ pos 75 ∷ neg 760 ∷ [])
    ∷ (pos 389 ∷ pos 239 ∷ pos 1568 ∷ pos 981 ∷ pos 113 ∷ [])
    ∷ (neg 312 ∷ neg 98 ∷ pos 949 ∷ pos 31 ∷ pos 1104 ∷ [])
    ∷ (pos 1127 ∷ pos 584 ∷ pos 835 ∷ pos 277 ∷ neg 1159 ∷ [])
    ∷ (pos 539 ∷ neg 114 ∷ pos 856 ∷ neg 493 ∷ pos 223 ∷ [])
    ∷ (pos 2197 ∷ pos 2337 ∷ pos 1268 ∷ pos 670 ∷ pos 304 ∷ [])
    ∷ (neg 1596 ∷ pos 550 ∷ pos 801 ∷ neg 456 ∷ neg 56 ∷ [])
    ∷ (pos 1154 ∷ pos 593 ∷ neg 77 ∷ pos 1237 ∷ neg 31 ∷ [])
    ∷ (pos 397 ∷ pos 558 ∷ pos 203 ∷ neg 797 ∷ neg 919 ∷ [])
    ∷ (pos 334 ∷ pos 1475 ∷ pos 632 ∷ neg 80 ∷ pos 48 ∷ [])
    ∷ (neg 545 ∷ neg 330 ∷ neg 429 ∷ neg 680 ∷ pos 1133 ∷ [])
    ∷ (pos 1320 ∷ pos 827 ∷ neg 398 ∷ neg 576 ∷ pos 341 ∷ [])
    ∷ (neg 163 ∷ pos 674 ∷ neg 11 ∷ neg 886 ∷ pos 531 ∷ [])
    ∷ []
