-- ===== src/Emulator/Display.antt =====
-- The display buffer and the drawing of sprites (display.c, display.h). The window, the renderer
-- and the drawing of the buffer through SDL are not modelled.
pub mod Bytes
pub mod Pixels
pub mod Redraw
pub mod Collision
use c_lang_examples.Prelude.{
  ℕ, zero, suc, ◌+◌, ◌*◌, ◌%◌, Bool, true, false, not, ◌&&◌, if◌then◌else◌, xor, Option, none, some,
  List, get_elem?, set, replicate,
}
use c_lang_examples.Emulator.Opcode.{bit_is_set}

abbrev pub display_width : ℕ
display_width = 64

abbrev pub display_height : ℕ
display_height = 32

-- `Pixel buffer[DISPLAY_WIDTH][DISPLAY_HEIGHT]`, row after row as C lays it out.
pub record Display : Type 0 where
  pub buffer : List Bool

-- The place of `buffer[x][y]`.
abbrev pub pixel_index : ℕ → ℕ → ℕ
pixel_index x y = x * display_height + y

unfoldable pub display_clear : Display → Display
display_clear d = record { buffer = replicate (display_width * display_height) false }

-- The outcome of drawing: the display and `pixel_erased`; `none` is an access out of bounds.
abbrev pub Drawn : Type 0
Drawn = Option (Display × Bool)

-- The inner loop of `display_draw_sprite`, from `offset_x` on, with `rounds` bits left: the next
-- one is the bit `rounds - 1`.
unfoldable pub draw_sprite_byte : ℕ → ℕ → ℕ → ℕ → ℕ → Display → Bool → Drawn
draw_sprite_byte zero sprite_byte offset_x pixel_x pixel_y d pixel_erased = some (d, pixel_erased)
draw_sprite_byte (suc bit) sprite_byte offset_x pixel_x pixel_y d pixel_erased =
    let new_pixel = bit_is_set sprite_byte bit in
    let place = pixel_index ((pixel_x + offset_x) % display_width) pixel_y in
    elim (get_elem? d.buffer place) [
      | none ↦ none
      | some current_pixel ↦
          draw_sprite_byte bit sprite_byte (offset_x + 1) pixel_x pixel_y
            (record d { buffer = set d.buffer place (xor current_pixel new_pixel) })
            (if current_pixel && not new_pixel then true else pixel_erased)
    ]

-- The outer loop, at row `i` with `rounds` rows left.
unfoldable pub draw_sprite_rows : ℕ → ℕ → List ℕ → ℕ → ℕ → Display → Bool → Drawn
draw_sprite_rows zero i sprite pixel_x pixel_y d pixel_erased = some (d, pixel_erased)
draw_sprite_rows (suc rounds) i sprite pixel_x pixel_y d pixel_erased = elim (get_elem? sprite i) [
  | none ↦ none
  | some sprite_byte ↦ elim (draw_sprite_byte 8 sprite_byte 0 pixel_x pixel_y d pixel_erased) [
    | none ↦ none
    | some (d', erased') ↦
        draw_sprite_rows rounds (i + 1) sprite pixel_x ((pixel_y + 1) % display_height) d' erased'
  ]
]

-- `sprite` is the memory from the sprite's address on.
unfoldable pub display_draw_sprite : Display → ℕ → ℕ → List ℕ → ℕ → Drawn
display_draw_sprite d x y sprite sprite_len =
    draw_sprite_rows sprite_len 0 sprite (x % display_width) (y % display_height) d false
