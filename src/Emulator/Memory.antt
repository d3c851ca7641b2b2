-- ===== src/Emulator/Memory.antt =====
-- The memory of the machine and its font (memory.c, memory.h).
use c_lang_examples.Prelude.{ℕ, ◌+◌, ◌*◌, List, [], ◌∷◌, replicate, write_at, u16}

abbrev pub memory_size : ℕ
memory_size = 4096

abbrev pub memory_program_starting_address : ℕ
memory_program_starting_address = 0x0200

abbrev pub font_sprite_size : ℕ
font_sprite_size = 5

abbrev pub font_mem_address : ℕ
font_mem_address = 0x0000

abbrev pub font_sprites : List ℕ
font_sprites =
    0xF0 ∷ 0x90 ∷ 0x90 ∷ 0x90 ∷ 0xF0 ∷ 0x20 ∷ 0x60 ∷ 0x20 ∷ 0x20 ∷ 0x70 ∷ 0xF0 ∷ 0x10 ∷ 0xF0 ∷ 0x80
    ∷ 0xF0 ∷ 0xF0 ∷ 0x10 ∷ 0xF0 ∷ 0x10 ∷ 0xF0 ∷ 0x90 ∷ 0x90 ∷ 0xF0 ∷ 0x10 ∷ 0x10 ∷ 0xF0 ∷ 0x80
    ∷ 0xF0 ∷ 0x10 ∷ 0xF0 ∷ 0xF0 ∷ 0x80 ∷ 0xF0 ∷ 0x90 ∷ 0xF0 ∷ 0xF0 ∷ 0x10 ∷ 0x20 ∷ 0x40 ∷ 0x40
    ∷ 0xF0 ∷ 0x90 ∷ 0xF0 ∷ 0x90 ∷ 0xF0 ∷ 0xF0 ∷ 0x90 ∷ 0xF0 ∷ 0x10 ∷ 0xF0 ∷ 0xF0 ∷ 0x90 ∷ 0xF0
    ∷ 0x90 ∷ 0x90 ∷ 0xE0 ∷ 0x90 ∷ 0xE0 ∷ 0x90 ∷ 0xE0 ∷ 0xF0 ∷ 0x80 ∷ 0x80 ∷ 0x80 ∷ 0xF0 ∷ 0xE0
    ∷ 0x90 ∷ 0x90 ∷ 0x90 ∷ 0xE0 ∷ 0xF0 ∷ 0x80 ∷ 0xF0 ∷ 0x80 ∷ 0xF0 ∷ 0xF0 ∷ 0x80 ∷ 0xF0 ∷ 0x80
    ∷ 0x80 ∷ []

-- `memcpy` of the font into the memory.
unfoldable pub load_font_sprites : List ℕ → List ℕ
load_font_sprites mem = write_at mem font_mem_address font_sprites

-- The zeroed memory with the font.
unfoldable pub memory_init : List ℕ
unfolding load_font_sprites
memory_init = load_font_sprites (replicate memory_size 0)

unfoldable pub memory_address_from_sprite_value : ℕ → ℕ
memory_address_from_sprite_value sprite_value =
    u16 (font_mem_address + sprite_value * font_sprite_size)
