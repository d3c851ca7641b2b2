-- ===== src/Emulator.antt =====
-- The CHIP-8 emulator (emulator/src/emulator).
pub mod Opcode
pub mod Memory
pub mod Display
pub mod Timer
pub mod Keyboard
pub mod Machine
pub mod Cpu
pub mod Disassembler
pub mod Isa
pub mod Boot
pub mod Listing
pub mod Tests
