-- ===== src/Unmarshal.antt =====
-- The decoder of src/asm_unmarshal.cpp: arithmetic, memory, jumps and calls, and the loop over a
-- program. A note is kept in order, with the instruction that it is about.
pub mod Alu
pub mod Memory
pub mod Jump
pub mod Loop
pub mod Quiet
