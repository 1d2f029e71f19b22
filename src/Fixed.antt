-- ===== src/Fixed.antt =====
-- internal/fixed: the saturating 16-bit and 32-bit operations of ITU-T G.191 on which all signal
-- code stands. A Word16 or Word32 is an integer in range. Go's int64 never overflows here: each
-- value that the package widens stays below 2 ^ 62.
-- An operation may set the package's sticky flag `overflow`: for saturation, the 32-bit sums and left
-- shift, `LMult`, `LMac`, `LMsu` and `Round` a function `…_sets` says whether it does.
pub mod Saturate
pub mod Shift
pub mod Mult
pub mod Norm
pub mod Div
mod Tests
