-- ===== src/Emulator/Boot/Font.antt =====
-- The glyphs of the font in the memory of a started machine.
use c_lang_examples.Prelude.{
  ℕ, ◌+◌, ◌-◌, ◌*◌, ◌≤◌, ◌<◌, ◌≡◌, sym, subst, ap, ◌∙◌, arith, if◌then◌else◌, u16, ltb, List,
  length, get_or, replicate, write_at, length-replicate, get_or-write_at,
}
use c_lang_examples.Emulator.Memory.{
  memory_size, memory_program_starting_address, font_sprites, font_mem_address, memory_init,
  load_font_sprites, memory_address_from_sprite_value,
}
use c_lang_examples.Emulator.Machine.{Machine, ok}
use c_lang_examples.Emulator.Machine.Access.{byte_at}
use c_lang_examples.Emulator.Boot.{program_max_size, machine_init, machine_load_rom}
use c_lang_examples.Emulator.Boot.Load.{LoadsRom, machine_init-IsValid, machine_load_rom-LoadsRom}

copied :
    (mem ys : List ℕ) (k : ℕ)
    → length ys ≤ length mem
    → k < length ys
    → get_or (write_at mem 0 ys) k 0 ≡ get_or ys k 0
copied mem ys k h hk =
    let same : k - 0 ≡ k = omega arith in ground (arith, get_or-write_at mem 0 ys k 0 (omega arith))

memory_init_lem : (k : ℕ) → k < 80 → get_or memory_init k 0 ≡ get_or font_sprites k 0
unfolding memory_init load_font_sprites
memory_init_lem k h =
    copied (replicate memory_size 0) font_sprites k
      (subst (λ (n : ℕ). 80 ≤ n) (sym (length-replicate {A = ℕ} memory_size 0)) (omega arith)) h

lower :
    (k : ℕ) (x y : ℕ) {z : ℕ}
    → k < memory_program_starting_address
    → z ≡ (if ltb k memory_program_starting_address then x else y)
    → z ≡ x
lower k x y h e = ground (arith, e)

-- On a started machine with a program of at most 3584 bytes, the five bytes at the address that
-- the code gives a hexadecimal digit are the rows of its glyph in the font.
pub memory_address_from_sprite_value-machine_load_rom :
    (m : Machine) (rom : List ℕ) (digit row : ℕ)
    → length rom ≤ program_max_size
    → digit < 16
    → row < 5
    → (loaded : Machine) × (machine_load_rom rom (machine_init m) ≡ ok tt loaded)
      × (byte_at loaded (memory_address_from_sprite_value digit + row)
          ≡ get_or font_sprites (5 * digit + row) 0)
unfolding memory_address_from_sprite_value machine_init
memory_address_from_sprite_value-machine_load_rom m rom digit row h hd hr =
    let loads : LoadsRom rom (machine_init m) (machine_load_rom rom (machine_init m)) =
      machine_load_rom-LoadsRom rom (machine_init m) (machine_init-IsValid m).memory_length h in
    let at : u16 (font_mem_address + digit * 5) + row ≡ 5 * digit + row = omega arith in
    (
      record (machine_init m) { memory = loads.loaded },
      loads.returns,
      ap (λ (a : ℕ). get_or loads.loaded a 0) at
          ∙ (lower (5 * digit + row) _ _ (omega arith) (loads.bytes (5 * digit + row) (omega arith))
              ∙ memory_init_lem (5 * digit + row) (omega arith)),
    )
