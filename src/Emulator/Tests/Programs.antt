-- ===== src/Emulator/Tests/Programs.antt =====
-- The theorems about whole programs at a concrete program.
use c_lang_examples.Prelude.{◌+◌, ◌*◌, ◌≡◌, arith, false, List, [], ◌∷◌, get_or}
use c_lang_examples.Emulator.Memory.{
  memory_program_starting_address, font_sprites, memory_address_from_sprite_value,
}
use c_lang_examples.Emulator.Machine.{Machine, ok, and_then}
use c_lang_examples.Emulator.Machine.Access.{byte_at}
use c_lang_examples.Emulator.Cpu.Bounds.{Lands}
use c_lang_examples.Emulator.Boot.{Round, machine_init, machine_load_rom, machine_run}
use c_lang_examples.Emulator.Boot.Load.{LoadsRom, machine_load_rom-LoadsRom}
use c_lang_examples.Emulator.Boot.Font.{memory_address_from_sprite_value-machine_load_rom}
use c_lang_examples.Emulator.Boot.Run.{RunOverrun, machine_run-Lands}
use c_lang_examples.Emulator.Listing.{machine_disassemble}
use c_lang_examples.Emulator.Listing.Ends.{Ends, machine_disassemble-Ends}
use c_lang_examples.Emulator.Tests.{
  blank, running, running-IsValid, idle, small_rom, small_rom-bytes,
}

abbrev two_rounds : List Round
two_rounds =
    record { quits = false; delay_now = 1016; sound_now = 1016; env = idle }
    ∷ record { quits = false; delay_now = 1032; sound_now = 1032; env = idle }
    ∷ []

machine_run-Lands_example : Lands (RunOverrun blank small_rom 1000 1000 two_rounds) (
    and_then
      (machine_load_rom small_rom (machine_init blank))
      (λ u. machine_run 1000 1000 two_rounds))
machine_run-Lands_example = machine_run-Lands blank small_rom 1000 1000 two_rounds small_rom-bytes

machine_load_rom-LoadsRom_example : LoadsRom small_rom running (machine_load_rom small_rom running)
machine_load_rom-LoadsRom_example =
    machine_load_rom-LoadsRom small_rom running running-IsValid.memory_length (omega arith)

memory_address_from_sprite_value-machine_load_rom_example :
    (loaded : Machine) × (machine_load_rom small_rom (machine_init blank) ≡ ok tt loaded)
    × (byte_at loaded (memory_address_from_sprite_value 10 + 2)
        ≡ get_or font_sprites (5 * 10 + 2) 0)
memory_address_from_sprite_value-machine_load_rom_example =
    memory_address_from_sprite_value-machine_load_rom blank small_rom 10 2 (omega arith)
      (omega arith) (omega arith)

machine_disassemble-Ends_example :
    Ends running.memory memory_program_starting_address (machine_disassemble 1792 running.memory)
machine_disassemble-Ends_example =
    machine_disassemble-Ends 1792 running.memory
      (running-IsValid.memory_length, running-IsValid.memory_bytes) (omega arith)
