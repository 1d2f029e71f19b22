-- ===== src/Pitch.antt =====
-- internal/pitch and internal/pitch/closedloop: how pitch delays are coded in the P1, P2 and P0
-- fields.
pub mod Adaptive
pub mod Delay
pub mod Parity
mod Tests
