-- ===== src/Emulator/Display/Collision.antt =====
-- The flag that drawing returns.
use c_lang_examples.Prelude.{
  ℕ, zero, suc, ◌+◌, ◌%◌, ◌≤◌, ◌<◌, ◌≡◌, refl, ap, sym, ◌∙◌, none, Bool, true, false, not, ◌&&◌,
  some, List, length, get_or, arith, length-set, if◌then◌else◌, get_elem?-eq-get_or,
}
use c_lang_examples.Emulator.Opcode.{bit_is_set}
use c_lang_examples.Emulator.Display.{
  Display, Drawn, display_width, display_height, draw_sprite_byte, draw_sprite_rows,
  display_draw_sprite,
}
use c_lang_examples.Emulator.Display.Bytes.{pixel, place, flipped, Draws, draw_sprite_byte-suc}
use c_lang_examples.Emulator.Display.Pixels.{sprite_bit, display_draw_sprite-Draws}

solid_bit : (bit : ℕ) → bit < 8 → bit_is_set 255 bit ≡ true
unfolding bit_is_set
solid_bit zero h = refl
solid_bit (suc zero) h = refl
solid_bit (suc (suc zero)) h = refl
solid_bit (suc (suc (suc zero))) h = refl
solid_bit (suc (suc (suc (suc zero)))) h = refl
solid_bit (suc (suc (suc (suc (suc zero))))) h = refl
solid_bit (suc (suc (suc (suc (suc (suc zero)))))) h = refl
solid_bit (suc (suc (suc (suc (suc (suc (suc zero))))))) h = refl
solid_bit (suc (suc (suc (suc (suc (suc (suc (suc bit)))))))) h = absurd (omega arith)

-- A step of drawing that returns with the given flag, on a display of the same size.
record KeepsFlag (erased : Bool) (drawn : Drawn) : Type 0 where
  display : Display
  returns : drawn ≡ some (display, erased)
  same_length : length display.buffer ≡ 2048

kept_flag : (p erased : Bool) → (if p && false then true else erased) ≡ erased
kept_flag true erased = refl
kept_flag false erased = refl

-- A byte of eight set bits leaves the flag as it is.
draw_solid_byte :
    (bits offset_x px py : ℕ) (d : Display) (erased : Bool)
    → bits + offset_x ≡ 8
    → px < display_width
    → py < display_height
    → length d.buffer ≡ 2048
    → KeepsFlag erased (draw_sprite_byte bits 255 offset_x px py d erased)
draw_solid_byte zero offset_x px py d erased e hx hy len = record {
  display = d;
  returns = unfold draw_sprite_byte in refl;
  same_length = len;
}
draw_solid_byte (suc bit) offset_x px py d erased e hx hy len =
    rw
      (
        draw_sprite_byte-suc bit 255 offset_x px py d erased hy len,
        solid_bit bit (omega arith),
        kept_flag (get_or d.buffer (place px offset_x py) false) erased,
      )
      (draw_solid_byte bit (offset_x + 1) px py (flipped d (place px offset_x py) true) erased
        (omega arith) hx hy (omega (arith, length-set d.buffer)))

draw_solid_rows :
    (rounds i px py : ℕ) (sprite : List ℕ) (d : Display) (erased : Bool)
    → rounds + i ≤ length sprite
    → ((k : ℕ) → k < rounds + i → get_or sprite k 0 ≡ 255)
    → px < display_width
    → py < display_height
    → length d.buffer ≡ 2048
    → KeepsFlag erased (draw_sprite_rows rounds i sprite px py d erased)
unfolding draw_sprite_rows
draw_solid_rows zero i px py sprite d erased hs solid hx hy len = record {
  display = d;
  returns = refl;
  same_length = len;
}
draw_solid_rows (suc rounds) i px py sprite d erased hs solid hx hy len =
    let row : KeepsFlag erased (draw_sprite_byte 8 255 0 px py d erased) =
      draw_solid_byte 8 0 px py d erased refl hx hy len in
    let rest : KeepsFlag erased
        (draw_sprite_rows rounds (i + 1) sprite px ((py + 1) % display_height) row.display erased) =
      draw_solid_rows rounds (i + 1) px ((py + 1) % display_height) sprite row.display erased
        (omega arith) (λ k h. solid k (omega arith)) hx (omega arith) row.same_length in
    record {
      display = rest.display;
      returns = rw (
        get_elem?-eq-get_or sprite i 0 (omega arith),
        solid i (omega arith),
        row.returns,
        rest.returns,
        draw_sprite_rows,
      );
      same_length = rest.same_length;
    }

-- On a display of the right size, a sprite of at most 32 bytes that are all 255 inverts each pixel
-- that it covers, and yet the flag that tells of an erased pixel is returned unset, whatever the
-- display holds.
pub display_draw_sprite-solid :
    (d : Display) (x y : ℕ) (sprite : List ℕ) (sprite_len : ℕ)
    → length d.buffer ≡ 2048
    → sprite_len ≤ length sprite
    → sprite_len ≤ display_height
    → ((k : ℕ) → k < sprite_len → get_or sprite k 0 ≡ 255)
    → (after : Display) × (display_draw_sprite d x y sprite sprite_len ≡ some (after, false))
      × ((a b : ℕ)
          → a < display_width
          → b < display_height
          → sprite_bit x y sprite sprite_len a b ≡ true
          → pixel after a b ≡ not (pixel d a b))
unfolding display_draw_sprite
display_draw_sprite-solid d x y sprite sprite_len len hs hn solid =
    let drawn : Draws d (sprite_bit x y sprite sprite_len)
        (display_draw_sprite d x y sprite sprite_len) =
      display_draw_sprite-Draws d x y sprite sprite_len len hs hn in
    let flag : KeepsFlag false (display_draw_sprite d x y sprite sprite_len) =
      draw_solid_rows sprite_len 0 (x % display_width) (y % display_height) sprite d false
        (omega arith) (λ k h. solid k (omega arith)) (omega arith) (omega arith) len in
    let same : flag.display ≡ drawn.display =
      ap (λ (o : Drawn). elim o [ none ↦ d | some (e, f) ↦ e ])
        (sym flag.returns ∙ drawn.returns) in
    (
      flag.display,
      flag.returns,
      λ a b ha hb on.
          ap (λ (e : Display). pixel e a b) same ∙ (drawn.pixels a b ha hb ∙ ground arith),
    )
