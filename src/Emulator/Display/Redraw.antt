-- ===== src/Emulator/Display/Redraw.antt =====
-- Drawing a sprite again takes it off the display.
use c_lang_examples.Prelude.{
  ℕ, ◌/◌, ◌%◌, ◌≤◌, ◌<◌, ◌≡◌, ap, ◌∙◌, sym, subst, Bool, false, some, List, length, get_or, arith,
  xor, xor-xor, get_or_ext,
}
use c_lang_examples.Emulator.Display.{
  Display, display_width, display_height, pixel_index, display_draw_sprite,
}
use c_lang_examples.Emulator.Display.Bytes.{pixel, Draws}
use c_lang_examples.Emulator.Display.Pixels.{sprite_bit, display_draw_sprite-Draws}

-- Displays of the right size with the same pixels are equal.
display_ext :
    (d d' : Display)
    → length d.buffer ≡ 2048
    → length d'.buffer ≡ 2048
    → ((a b : ℕ) → a < display_width → b < display_height → pixel d a b ≡ pixel d' a b)
    → d ≡ d'
display_ext d d' len len' same = λ j. record { buffer = buffers j }
  where
    at_index : (k : ℕ) → k < length d.buffer → get_or d.buffer k false ≡ get_or d'.buffer k false
    at_index k h =
        let e : pixel_index (k / 32) (k % 32) ≡ k = omega arith in
        subst (λ (n : ℕ). get_or d.buffer n false ≡ get_or d'.buffer n false) e
          (same (k / 32) (k % 32) (omega arith) (omega arith))

    buffers : d.buffer ≡ d'.buffer
    buffers = get_or_ext false d.buffer d'.buffer (len ∙ sym len') at_index

-- On a display of the right size, a sprite of at most 32 bytes that is drawn a second time at the
-- same place leaves the display as it was before the first.
pub display_draw_sprite_twice :
    (d : Display) (x y : ℕ) (sprite : List ℕ) (sprite_len : ℕ)
    → length d.buffer ≡ 2048
    → sprite_len ≤ length sprite
    → sprite_len ≤ display_height
    → (once : Display) × (first second : Bool) × (display_draw_sprite d x y sprite sprite_len
        ≡ some (once, first))
      × (display_draw_sprite once x y sprite sprite_len ≡ some (d, second))
display_draw_sprite_twice d x y sprite sprite_len len hs hn =
    let bits = sprite_bit x y sprite sprite_len in
    let one : Draws d bits (display_draw_sprite d x y sprite sprite_len) =
      display_draw_sprite-Draws d x y sprite sprite_len len hs hn in
    let two : Draws one.display bits (display_draw_sprite one.display x y sprite sprite_len) =
      display_draw_sprite-Draws one.display x y sprite sprite_len one.same_length hs hn in
    let back : two.display ≡ d = display_ext two.display d two.same_length len λ a b ha hb.
      two.pixels a b ha hb
      ∙ (ap (λ (p : Bool). xor p (bits a b)) (one.pixels a b ha hb)
          ∙ xor-xor (pixel d a b) (bits a b)) in
    (
      one.display,
      one.erased,
      two.erased,
      one.returns,
      two.returns ∙ ap (λ (e : Display). some (e, two.erased)) back,
    )
