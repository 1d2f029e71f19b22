-- ===== src/Tables/PitchInterp.antt =====
-- internal/tables/pitch_interp.go: the interpolation filter of the adaptive codebook.
use g.Base.{List, [], ◌∷◌, ℤ, pos, neg}

unfoldable pub pitch_interp_fir : List ℤ
pitch_interp_fir =
    pos 29443
    ∷ pos 25207
    ∷ pos 14701
    ∷ pos 3143
    ∷ neg 4402
    ∷ neg 5850
    ∷ neg 2783
    ∷ pos 1211
    ∷ pos 3130
    ∷ pos 2259
    ∷ pos 0
    ∷ neg 1652
    ∷ neg 1666
    ∷ neg 464
    ∷ pos 756
    ∷ pos 1099
    ∷ pos 550
    ∷ neg 245
    ∷ neg 634
    ∷ neg 451
    ∷ pos 0
    ∷ pos 308
    ∷ pos 296
    ∷ pos 78
    ∷ neg 120
    ∷ neg 165
    ∷ neg 79
    ∷ pos 34
    ∷ pos 91
    ∷ pos 70
    ∷ pos 0
    ∷ []
