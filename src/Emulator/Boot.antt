-- ===== src/Emulator/Boot.antt =====
-- Starting the machine, loading a program and the main loop (machine.c). The bytes of the ROM file,
-- the clock, the events and `rand` come from outside and are arguments; logging, the pause that
-- holds the clock speed and the drawing of the window are not modelled.
pub mod Load
pub mod Font
pub mod Run
use c_lang_examples.Prelude.{
  ℕ, ◌-◌, Bool, ltb, if◌then◌else◌, List, [], ◌∷◌, length, replicate, write_at,
}
use c_lang_examples.Emulator.Memory.{memory_size, memory_program_starting_address, memory_init}
use c_lang_examples.Emulator.Display.{Display, display_clear}
use c_lang_examples.Emulator.Timer.{timer_init, timer_start, timer_update}
use c_lang_examples.Emulator.Machine.{Machine, Exec, Outcome, rom_too_big, ◌>>◌, halt, modify, skip}
use c_lang_examples.Emulator.Cpu.Step.{Env, cpu_init, cpu_step}

abbrev pub program_max_size : ℕ
program_max_size = memory_size - memory_program_starting_address

-- Of the machine before, no part is read.
unfoldable pub machine_init : Machine → Machine
machine_init m = record {
  memory = memory_init;
  cpu = cpu_init;
  display = display_clear m.display;
  delay_timer = timer_init;
  sound_timer = timer_init;
}

-- `rom` is what `file_read_contents` returns.
unfoldable pub machine_load_rom : List ℕ → Exec (Unit {0})
machine_load_rom rom = do
  if ltb program_max_size (length rom) then halt rom_too_big else skip
  modify (λ m. record m {
    memory = write_at m.memory memory_program_starting_address (replicate program_max_size 0);
  })
  modify (λ m. record m { memory = write_at m.memory memory_program_starting_address rom })

-- What one round of the main loop meets: whether an event asks to quit, the clock at the update of
-- each timer, and what the instruction reads.
pub record Round : Type 0 where
  pub quits : Bool
  pub delay_now : ℕ
  pub sound_now : ℕ
  pub env : Env

-- The loop over the rounds of a run; it is left by an event that quits.
unfoldable pub main_loop : List Round → Exec (Unit {0})
main_loop [] = skip
main_loop (round ∷ rounds) = if round.quits then skip else (do
  modify (λ m. record m { delay_timer = timer_update round.delay_now m.delay_timer })
  modify (λ m. record m { sound_timer = timer_update round.sound_now m.sound_timer })
  cpu_step round.env
  main_loop rounds)

unfoldable pub machine_run : ℕ → ℕ → List Round → Exec (Unit {0})
machine_run delay_start sound_start rounds = do
  modify (λ m. record m { delay_timer = timer_start delay_start m.delay_timer })
  modify (λ m. record m { sound_timer = timer_start sound_start m.sound_timer })
  main_loop rounds
