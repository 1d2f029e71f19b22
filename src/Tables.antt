-- ===== src/Tables.antt =====
-- internal/tables, the numeric tables of the standard that the decoder reads.
pub mod PitchInterp
pub mod LspL1
pub mod LspL2
pub mod LspL3
pub mod LspMa
pub mod LspCos
pub mod Gain
