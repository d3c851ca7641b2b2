-- ===== src/Emulator/Tests.antt =====
-- Concrete machines and programs, on which the theorems about the emulator are run.
pub mod Processor
pub mod Programs
pub mod Devices
use c_lang_examples.Prelude.{
  ℕ, refl, arith, Bool, List, [], ◌∷◌, replicate, All, All-replicate, all_bytes-All, IsByte, IsU16,
}
use c_lang_examples.Emulator.Display.{Display}
use c_lang_examples.Emulator.Timer.{Timer}
use c_lang_examples.Emulator.Keyboard.{KeyboardState}
use c_lang_examples.Emulator.Machine.{Cpu, Machine}
use c_lang_examples.Emulator.Machine.Invariant.{IsValid}
use c_lang_examples.Emulator.Cpu.Step.{Env}
use c_lang_examples.Emulator.Boot.{machine_init}
use c_lang_examples.Emulator.Boot.Load.{machine_init-IsValid}

-- The storage of a machine before its start.
abbrev pub blank : Machine
blank = record {
  memory = [];
  cpu = record { registers = []; pc = 0; i = 0; stack = []; stack_count = 0 };
  display = record { buffer = [] };
  delay_timer = record { last_tick_timestamp_ms = 0; value = 0 };
  sound_timer = record { last_tick_timestamp_ms = 0; value = 0 };
}

-- V1 holds 200, V2 holds 100, the others are zero; the address register is at 0x300.
abbrev pub two_registers : Cpu
two_registers = record {
  registers = 0 ∷ 200 ∷ 100 ∷ replicate 13 0;
  pc = 0x202;
  i = 0x300;
  stack = replicate 12 0;
  stack_count = 0;
}

abbrev pub running : Machine
running = record (machine_init blank) { cpu = two_registers }

pub running-IsValid : IsValid running
unfolding machine_init
running-IsValid =
    let started = machine_init-IsValid blank in
    record {
      memory_length = started.memory_length;
      memory_bytes = started.memory_bytes;
      registers_length = refl;
      registers_bytes = all_bytes-All two_registers.registers refl;
      pc_word = omega arith;
      i_word = omega arith;
      stack_length = refl;
      stack_words = All-replicate IsU16 12 0 (omega arith);
      stack_fits = omega arith;
      display_length = started.display_length;
      delay_byte = started.delay_byte;
      sound_byte = started.sound_byte;
    }

-- No key is down, and `rand()` gives 77.
abbrev pub idle : Env
idle = record { rand = 77; keyboard_state = λ key. 0 }

-- `V1 := 5`, then `goto 0x200`.
abbrev pub small_rom : List ℕ
small_rom = 0x61 ∷ 0x05 ∷ 0x12 ∷ 0x00 ∷ []

pub small_rom-bytes : All IsByte small_rom
small_rom-bytes = all_bytes-All small_rom refl
