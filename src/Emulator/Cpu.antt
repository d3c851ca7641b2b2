-- ===== src/Emulator/Cpu.antt =====
-- The processor (cpu.c): the instructions by kind, the step that decodes and executes one, and
-- what holds of them.
pub mod Flow
pub mod Alu
pub mod Store
pub mod Io
pub mod Step
pub mod Valid
pub mod Calls
pub mod Bounds
pub mod Safety
pub mod Cycle
pub mod Flagged
pub mod Arithmetic
pub mod Dump
pub mod Bcd
