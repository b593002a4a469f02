-- ===== src/Common/Bits.antt =====
-- Laws of `&`, `|` and `^` at variables, from one equation for the lowest digit.
mod Step
mod Xor
mod Mask
mod Shift
pub use Step.*
pub use Xor.*
pub use Shift.*
pub use Mask.*
