-- ===== src/Bits.antt =====
-- The laws of `^` on unsigned words, at every width, as the checksum uses them.
pub mod Digit
pub mod Step
pub mod Xor
pub use Step.{bit_xor_step, bit_and-one}
pub use Xor.{bit_xor_comm, bit_xor_assoc, bit_xor-zero, bit_xor_self, bit_xor-lt, bit_xor-top}
