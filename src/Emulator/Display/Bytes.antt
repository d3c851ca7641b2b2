-- ===== src/Emulator/Display/Bytes.antt =====
-- What drawing one byte of a sprite does to each pixel.
use native.Mathlib.Decide.{ℕ_discrete}
use c_lang_examples.Prelude.{
  ℕ, zero, suc, ◌+◌, ◌-◌, ◌%◌, ◌<◌, ◌≡◌, refl, Bool, true, false, not, ◌&&◌, ltb, leb, ◌==◌,
  if◌then◌else◌, xor, some, length, get_or, set, arith, length-set, get_elem?-eq-get_or,
  get_or-set_self, get_or-set_ne,
}
use c_lang_examples.Emulator.Opcode.{bit_is_set}
use c_lang_examples.Emulator.Display.{
  Display, Drawn, display_width, display_height, pixel_index, draw_sprite_byte,
}

-- `buffer[a][b]`
abbrev pub pixel : Display → ℕ → ℕ → Bool
pixel d a b = get_or d.buffer (pixel_index a b) false

-- How far the column `a` lies to the right of `px`, and the row `b` below `py`, round the edge.
abbrev pub columns_from : ℕ → ℕ → ℕ
columns_from px a = (a + display_width - px) % display_width

abbrev pub rows_from : ℕ → ℕ → ℕ
rows_from py b = (b + display_height - py) % display_height

-- The bit of a sprite byte, drawn from column `px` on, that falls on column `a`.
abbrev pub byte_bit : ℕ → ℕ → ℕ → Bool
byte_bit sprite_byte px a =
    if ltb (columns_from px a) 8 then bit_is_set sprite_byte (7 - columns_from px a) else false

-- The drawing ends inside the buffer and xors `cover` onto it.
pub record Draws (d : Display) (cover : ℕ → ℕ → Bool) (drawn : Drawn) : Type 0 where
  pub display : Display
  pub erased : Bool
  pub returns : drawn ≡ some (display, erased)
  pub same_length : length display.buffer ≡ 2048
  pub pixels :
      (a b : ℕ)
      → a < display_width
      → b < display_height
      → pixel display a b ≡ xor (pixel d a b) (cover a b)

abbrev pub byte_cover : ℕ → ℕ → ℕ → ℕ → ℕ → ℕ → Bool
byte_cover offset_x sprite_byte px py a b =
    if (b == py) && leb offset_x (columns_from px a) then byte_bit sprite_byte px a else false

abbrev pub place : ℕ → ℕ → ℕ → ℕ
place px offset_x py = pixel_index ((px + offset_x) % display_width) py

abbrev pub flipped : Display → ℕ → Bool → Display
flipped d at bit = record d { buffer = set d.buffer at (xor (get_or d.buffer at false) bit) }

-- One pixel is flipped by its bit.
pixel-flipped :
    (d : Display) (px py offset_x a b : ℕ) (bit : Bool)
    → length d.buffer ≡ 2048
    → px < display_width
    → py < display_height
    → a < display_width
    → b < display_height
    → offset_x < 8
    → pixel (flipped d (place px offset_x py) bit) a b
      ≡ xor (pixel d a b) (if (b == py) && (columns_from px a == offset_x) then bit else false)
pixel-flipped d px py offset_x a b bit e hx hy ha hb ho =
    elim (ℕ_discrete (place px offset_x py) (pixel_index a b)) [
      | yes here ↦ ground (
        arith,
        get_or-set_self d.buffer (place px offset_x py)
            (xor (get_or d.buffer (place px offset_x py) false) bit) false (omega arith),
      )
      | no there ↦ ground (
        arith,
        get_or-set_ne d.buffer (place px offset_x py) (pixel_index a b)
            (xor (get_or d.buffer (place px offset_x py) false) bit) false there,
      )
    ]

pub draw_sprite_byte-suc :
    (bit sprite_byte offset_x px py : ℕ) (d : Display) (erased : Bool)
    → py < display_height
    → length d.buffer ≡ 2048
    → let at = place px offset_x py in
      let new = bit_is_set sprite_byte bit in
      draw_sprite_byte (suc bit) sprite_byte offset_x px py d erased
      ≡ draw_sprite_byte bit sprite_byte
          (offset_x + 1)
          px
          py
          (flipped d at new)
          (if get_or d.buffer at false && not new then true else erased)
unfolding draw_sprite_byte
draw_sprite_byte-suc bit sprite_byte offset_x px py d erased hy len =
    rw (get_elem?-eq-get_or d.buffer (place px offset_x py) false (omega arith), draw_sprite_byte)

Draws-flipped :
    (bit sprite_byte offset_x px py : ℕ) (d : Display) {drawn : Drawn}
    → suc bit + offset_x ≡ 8
    → px < display_width
    → py < display_height
    → length d.buffer ≡ 2048
    → Draws
        (flipped d (place px offset_x py) (bit_is_set sprite_byte bit))
        (byte_cover (offset_x + 1) sprite_byte px py)
        drawn
    → Draws d (byte_cover offset_x sprite_byte px py) drawn
Draws-flipped bit sprite_byte offset_x px py d e hx hy len rest = record {
  display = rest.display;
  erased = rest.erased;
  returns = rest.returns;
  same_length = rest.same_length;
  pixels = λ a b ha hb. ground (
    arith,
    rest.pixels a b ha hb,
    pixel-flipped d px py offset_x a b (bit_is_set sprite_byte bit) len hx hy ha hb (omega arith),
  );
}

-- A byte of the sprite is drawn within its row.
pub draw_sprite_byte-Draws :
    (bits sprite_byte offset_x px py : ℕ) (d : Display) (erased : Bool)
    → bits + offset_x ≡ 8
    → px < display_width
    → py < display_height
    → length d.buffer ≡ 2048
    → Draws d
        (byte_cover offset_x sprite_byte px py)
        (draw_sprite_byte bits sprite_byte offset_x px py d erased)
draw_sprite_byte-Draws zero sprite_byte offset_x px py d erased e hx hy len = record {
  display = d;
  erased = erased;
  returns = unfold draw_sprite_byte in refl;
  same_length = len;
  pixels = λ a b ha hb. ground arith;
}
draw_sprite_byte-Draws (suc bit) sprite_byte offset_x px py d erased e hx hy len =
    rw (draw_sprite_byte-suc bit sprite_byte offset_x px py d erased hy len) (
      Draws-flipped bit sprite_byte offset_x px py d e hx hy len (
        draw_sprite_byte-Draws bit sprite_byte (offset_x + 1) px py
          (flipped d (place px offset_x py) (bit_is_set sprite_byte bit)) _ (omega arith) hx hy
          (omega (arith, length-set d.buffer))))
