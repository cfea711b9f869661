-- ===== src/Bits.antt =====
-- Bitwise operations on machine words as arithmetic: `|`, `&`, `~` and `1 << j` bit by bit, and
-- masks of low and high bits as remainders and quotients.
mod Step
mod Digit
mod Mask
unfoldable pub use Digit.*
pub use Step.{bit_or_halves, bit_and_halves, bit_or-zero, bit_and-zero}
pub use Mask.*
