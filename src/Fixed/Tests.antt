-- ===== src/Fixed/Tests.antt =====
-- Runs of internal/fixed at concrete inputs.
use g.Base.{◌≡◌, refl, pos, negsuc, ◌+ℤ◌}
use g.Fixed.Saturate.{max16, add, negate, saturate}
use g.Fixed.Shift.{shr, shr_right, shr_r}
use g.Fixed.Norm.{norm_s, norm_l, norm_loop}

sums_test : (add (pos 32000) (pos 1000) ≡ max16) × (negate (negsuc 32767) ≡ max16)
unfolding add negate saturate ◌+ℤ◌
sums_test = (refl, refl)

shr_r_test : (shr_r (pos 3) (pos 1) ≡ pos 2) × (shr_r (negsuc 2) (pos 1) ≡ negsuc 0)
unfolding shr_r shr shr_right add saturate ◌+ℤ◌
shr_r_test = (refl, refl)

norm_test : (norm_s (pos 1) ≡ 14) × (norm_l (negsuc 0) ≡ 31)
unfolding norm_s norm_l norm_loop
norm_test = (refl, refl)
