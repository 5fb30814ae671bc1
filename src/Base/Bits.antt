-- ===== src/Base/Bits.antt =====
-- Laws of the bit operations at variables: the native operations are opened one binary digit at a
-- time, and the laws follow by induction on a bound of the operands.
mod Step
pub mod Xor
pub mod Mask
pub mod Digit
