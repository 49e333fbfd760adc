-- ===== src/RoundTrip.antt =====
-- The decoder of src/asm_unmarshal.cpp inverts the encoder of src/asm_marshal.cpp.
pub mod Encodable
pub mod Slots
pub mod Alu
pub mod Wide
pub mod Memory
pub mod Jump
pub mod Instruction
pub mod Labels
pub mod Program
