-- ===== src/Rtpcheck/Payload.antt =====
-- The check of a payload in internal/rtpcheck/rtpcheck.go, on every branch.
use g.Base.{ℕ, ◌*◌, ◌≤◌, ◌≡◌, ◌⊎◌, ◌↔◌, inr, arith, List, length}
use g.Rtpcheck.{validate_payload}

-- For a payload and a wanted number of frames, ValidatePayload gives n exactly where the payload is
-- n times ten bytes long, n is at least 1, and the wanted number is 0 or n.
validate_payload_lem :
    (payload : List ℕ) (want n : ℕ)
    → (validate_payload payload want ≡ inr n)
      ↔ ((length payload ≡ 10 * n) × (1 ≤ n) × ((want ≡ 0) ⊎ (want ≡ n)))
unfolding validate_payload
validate_payload_lem payload want n = ground arith
