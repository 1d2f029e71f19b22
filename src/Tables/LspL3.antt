-- ===== src/Tables/LspL3.antt =====
-- internal/tables/lsp_l3.go: the upper half of its second stage.
use g.Base.{List, [], ◌∷◌, ℤ, pos, neg}

unfoldable pub lsp_codebook_l3 : List (List ℤ)
lsp_codebook_l3 =
    (pos 582 ∷ neg 1201 ∷ pos 829 ∷ pos 86 ∷ pos 385 ∷ [])
    ∷ (pos 1450 ∷ pos 72 ∷ neg 231 ∷ pos 864 ∷ pos 661 ∷ [])
    ∷ (neg 163 ∷ neg 526 ∷ neg 754 ∷ neg 1633 ∷ pos 267 ∷ [])
    ∷ (pos 573 ∷ pos 796 ∷ neg 169 ∷ neg 631 ∷ pos 816 ∷ [])
    ∷ (pos 519 ∷ pos 291 ∷ pos 159 ∷ neg 640 ∷ neg 1296 ∷ [])
    ∷ (pos 1549 ∷ pos 715 ∷ pos 527 ∷ neg 714 ∷ neg 193 ∷ [])
    ∷ (neg 457 ∷ pos 612 ∷ neg 283 ∷ neg 1381 ∷ neg 741 ∷ [])
    ∷ (neg 344 ∷ pos 1341 ∷ pos 1087 ∷ neg 654 ∷ neg 569 ∷ [])
    ∷ (neg 543 ∷ neg 1752 ∷ neg 195 ∷ neg 98 ∷ neg 276 ∷ [])
    ∷ (neg 235 ∷ neg 728 ∷ pos 949 ∷ pos 1517 ∷ pos 895 ∷ [])
    ∷ (pos 502 ∷ neg 362 ∷ neg 960 ∷ neg 483 ∷ pos 1386 ∷ [])
    ∷ (pos 450 ∷ neg 466 ∷ neg 108 ∷ pos 1010 ∷ pos 2223 ∷ [])
    ∷ (neg 28 ∷ neg 378 ∷ pos 744 ∷ neg 1005 ∷ pos 240 ∷ [])
    ∷ (pos 271 ∷ neg 15 ∷ pos 909 ∷ neg 259 ∷ pos 1688 ∷ [])
    ∷ (neg 1011 ∷ pos 581 ∷ neg 53 ∷ neg 747 ∷ pos 878 ∷ [])
    ∷ (neg 498 ∷ neg 1377 ∷ pos 18 ∷ neg 444 ∷ pos 1483 ∷ [])
    ∷ (pos 1015 ∷ neg 222 ∷ pos 443 ∷ pos 372 ∷ neg 354 ∷ [])
    ∷ (pos 669 ∷ pos 659 ∷ pos 1640 ∷ pos 932 ∷ pos 534 ∷ [])
    ∷ (pos 1385 ∷ neg 182 ∷ neg 907 ∷ neg 721 ∷ neg 262 ∷ [])
    ∷ (pos 569 ∷ pos 1247 ∷ pos 337 ∷ pos 416 ∷ neg 121 ∷ [])
    ∷ (pos 369 ∷ neg 1003 ∷ neg 507 ∷ neg 587 ∷ neg 904 ∷ [])
    ∷ (pos 72 ∷ neg 141 ∷ pos 1465 ∷ pos 63 ∷ neg 785 ∷ [])
    ∷ (pos 208 ∷ pos 301 ∷ neg 882 ∷ pos 117 ∷ neg 404 ∷ [])
    ∷ (neg 912 ∷ pos 623 ∷ neg 76 ∷ pos 276 ∷ neg 440 ∷ [])
    ∷ (neg 267 ∷ neg 525 ∷ pos 140 ∷ pos 882 ∷ neg 139 ∷ [])
    ∷ (neg 697 ∷ pos 865 ∷ pos 1060 ∷ pos 413 ∷ pos 446 ∷ [])
    ∷ (pos 581 ∷ neg 1037 ∷ neg 895 ∷ pos 669 ∷ pos 297 ∷ [])
    ∷ (pos 3 ∷ pos 692 ∷ neg 292 ∷ pos 1050 ∷ pos 782 ∷ [])
    ∷ (neg 1061 ∷ neg 484 ∷ pos 362 ∷ neg 597 ∷ neg 852 ∷ [])
    ∷ (neg 1182 ∷ neg 744 ∷ pos 1340 ∷ pos 262 ∷ pos 63 ∷ [])
    ∷ (neg 774 ∷ neg 483 ∷ neg 1247 ∷ neg 70 ∷ pos 98 ∷ [])
    ∷ (neg 1125 ∷ neg 265 ∷ neg 242 ∷ pos 724 ∷ pos 934 ∷ [])
    ∷ []
