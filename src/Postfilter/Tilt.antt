-- ===== src/Postfilter/Tilt.antt =====
-- internal/postfilter/tilt.go: the compensation of the tilt.
use g.Base.{
  ℕ, zero, suc, ◌+◌, ◌-◌, ◌^◌, List, [], ◌∷◌, ◌||◌, if◌then◌else◌, leb, get_or, set, replicate, ℤ,
  pos, ◌+ℤ◌, ◌-ℤ◌, ◌*ℤ◌, leb_ℤ, ltb_ℤ, eqb_ℤ, asr, wrap,
}
use g.Fixed.Div.{div_s}
use g.Postfilter.LongTerm.{clipped}

abbrev at : List ℤ → ℕ → ℤ
at xs i = get_or xs i (pos 0)

abbrev pub tilt_len : ℕ
tilt_len = 22

abbrev pub gamma_tilt_positive_k1_q14 : ℤ
gamma_tilt_positive_k1_q14 = pos 13107

-- `acc` less the products for k up to 10 and up to n.
unfoldable pub response_taps : ℕ → ℕ → ℕ → List ℤ → List ℤ → ℤ → ℤ
response_taps zero k n a_den h acc = acc
response_taps (suc left) k n a_den h acc =
    response_taps left (k + 1) n a_den h
      (if leb k n then wrap 32 (acc -ℤ at a_den k *ℤ at h (n - k)) else acc)

-- The impulse response from sample `n` on, written into `h`.
unfoldable pub response_loop : ℕ → ℕ → List ℤ → List ℤ → List ℤ → List ℤ
response_loop zero n a_num a_den h = h
response_loop (suc left) n a_num a_den h =
    let h_num = if leb n 10 then at a_num n else pos 0 in
    let acc = response_taps 10 1 n a_den h (wrap 32 (h_num *ℤ pos (2 ^ 12))) in
    response_loop left (n + 1) a_num a_den (set h n (asr (wrap 32 (acc +ℤ pos (2 ^ 11))) 12))

unfoldable pub response : List ℤ → List ℤ → List ℤ
response a_num a_den = response_loop tilt_len 0 a_num a_den (replicate tilt_len (pos 0))

-- The sum of the products of `h` with itself `d` later, from `n` on.
unfoldable pub autocorrelation : ℕ → ℕ → ℕ → List ℤ → ℤ → ℤ
autocorrelation zero n d h sum = sum
autocorrelation (suc left) n d h sum =
    autocorrelation left (n + 1) d h (wrap 64 (sum +ℤ pos 2 *ℤ at h n *ℤ at h (n + d)))

-- The quotient of the two sums.
unfoldable pub tilt_mu_of : ℤ → ℤ → ℤ
tilt_mu_of rh0 rh1 =
    let den = wrap 16 (asr rh0 16) in
    let num = if ltb_ℤ (pos 0) rh1 then wrap 16 (asr rh1 16) else pos 0 in
    if eqb_ℤ rh0 (pos 0) || leb_ℤ den (pos 0) || leb_ℤ num (pos 0)
    then pos 0
    else div_s (wrap 16 (asr (gamma_tilt_positive_k1_q14 *ℤ num) 14)) den

unfoldable pub compute_tilt_mu : List ℤ → List ℤ → ℤ
compute_tilt_mu a_num a_den =
    let h = response a_num a_den in
    tilt_mu_of (autocorrelation tilt_len 0 0 h (pos 0)) (autocorrelation 21 0 1 h (pos 0))

unfoldable pub apply_tilt_with_mu : ℤ → ℤ → List ℤ → List ℤ
apply_tilt_with_mu prev mu_q15 [] = []
apply_tilt_with_mu prev mu_q15 (x ∷ s_in) =
    clipped (x -ℤ wrap 16 (asr (mu_q15 *ℤ prev) 15)) ∷ apply_tilt_with_mu x mu_q15 s_in
