-- ===== src/Emulator/Display/Pixels.antt =====
-- What drawing a sprite does to each pixel.
use native.Mathlib.Decide.{ℕ_discrete, dec_lt}
use c_lang_examples.Prelude.{
  ℕ, zero, suc, ◌+◌, ◌%◌, ◌≤◌, ◌<◌, ◌≡◌, refl, ap, ◌∙◌, subst, Bool, false, ◌&&◌, ltb, leb,
  if◌then◌else◌, xor, none, List, length, get_or, arith, get_elem?-none, get_elem?-eq-get_or,
}
use c_lang_examples.Emulator.Display.{
  Display, Drawn, display_width, display_height, draw_sprite_byte, draw_sprite_rows,
  display_draw_sprite,
}
use c_lang_examples.Emulator.Display.Bytes.{
  pixel, rows_from, byte_bit, Draws, byte_cover, draw_sprite_byte-Draws,
}

-- The bit of a sprite of `sprite_len` bytes at column `x` and row `y` that falls on a pixel.
unfoldable pub sprite_bit : ℕ → ℕ → List ℕ → ℕ → ℕ → ℕ → Bool
sprite_bit x y sprite sprite_len a b =
    let row = rows_from (y % display_height) b in
    if ltb row sprite_len then byte_bit (get_or sprite row 0) (x % display_width) a else false

abbrev rows_cover : ℕ → ℕ → List ℕ → ℕ → ℕ → ℕ → ℕ → Bool
rows_cover i sprite_len sprite px y a b =
    if leb i (rows_from y b) && ltb (rows_from y b) sprite_len
    then byte_bit (get_or sprite (rows_from y b) 0) px a
    else false

draw_sprite_rows-suc :
    (rounds i px py : ℕ) (sprite : List ℕ) (d : Display) (erased : Bool) {cover : ℕ → ℕ → Bool}
    → i < length sprite
    → (byte : Draws d cover (draw_sprite_byte 8 (get_or sprite i 0) 0 px py d erased))
    → draw_sprite_rows (suc rounds) i sprite px py d erased
      ≡ draw_sprite_rows rounds
          (i + 1)
          sprite
          px
          ((py + 1) % display_height)
          byte.display
          byte.erased
unfolding draw_sprite_rows
draw_sprite_rows-suc rounds i px py sprite d erased h byte =
    rw (get_elem?-eq-get_or sprite i 0 h, byte.returns, draw_sprite_rows)

-- Drawing one row and then the rest is drawing them all.
Draws-row :
    (i px y : ℕ) (sprite : List ℕ) (sprite_len : ℕ) (d d' : Display) {drawn : Drawn}
    → i < sprite_len
    → sprite_len ≤ display_height
    → y < display_height
    → ((a b : ℕ)
        → a < display_width
        → b < display_height
        → pixel d' a b
          ≡ xor (pixel d a b) (byte_cover 0 (get_or sprite i 0) px ((y + i) % display_height) a b))
    → Draws d' (rows_cover (i + 1) sprite_len sprite px y) drawn
    → Draws d (rows_cover i sprite_len sprite px y) drawn
Draws-row i px y sprite sprite_len d d' hi hn hy row rest = record {
  display = rest.display;
  erased = rest.erased;
  returns = rest.returns;
  same_length = rest.same_length;
  pixels = λ a b ha hb. elim (ℕ_discrete (rows_from y b) i) [
    | yes here ↦ rw here (ground (arith, rest.pixels a b ha hb, row a b ha hb))
    | no there ↦ ground (arith, rest.pixels a b ha hb, row a b ha hb)
  ];
}

draw_sprite_rows-Draws :
    (rounds i px y : ℕ) (sprite : List ℕ) (sprite_len : ℕ) (d : Display) (erased : Bool)
    → rounds + i ≡ sprite_len
    → sprite_len ≤ length sprite
    → sprite_len ≤ display_height
    → px < display_width
    → y < display_height
    → length d.buffer ≡ 2048
    → Draws d
        (rows_cover i sprite_len sprite px y)
        (draw_sprite_rows rounds i sprite px ((y + i) % display_height) d erased)
draw_sprite_rows-Draws zero i px y sprite sprite_len d erased e hs hn hx hy len = record {
  display = d;
  erased = erased;
  returns = unfold draw_sprite_rows in refl;
  same_length = len;
  pixels = λ a b ha hb. ground arith;
}
draw_sprite_rows-Draws (suc rounds) i px y sprite sprite_len d erased e hs hn hx hy len =
    let row : Draws d (byte_cover 0 (get_or sprite i 0) px ((y + i) % display_height))
        (draw_sprite_byte 8 (get_or sprite i 0) 0 px ((y + i) % display_height) d erased) =
      draw_sprite_byte-Draws 8 (get_or sprite i 0) 0 px ((y + i) % display_height) d erased
        (omega arith) hx (omega arith) len in
    let next : ((y + i) % display_height + 1) % display_height ≡ (y + (i + 1)) % display_height =
      omega arith in
    rw
      (
        draw_sprite_rows-suc rounds i px ((y + i) % display_height) sprite d erased (omega arith)
            row,
        next,
      )
      (Draws-row i px y sprite sprite_len d row.display (omega arith) hn hy row.pixels (
        draw_sprite_rows-Draws rounds (i + 1) px y sprite sprite_len row.display row.erased
          (omega arith) hs hn hx hy row.same_length))

Draws-cover :
    {d : Display} {cover cover' : ℕ → ℕ → Bool} {drawn : Drawn}
    → ((a b : ℕ) → cover a b ≡ cover' a b)
    → Draws d cover drawn
    → Draws d cover' drawn
Draws-cover {d} e draws = record {
  display = draws.display;
  erased = draws.erased;
  returns = draws.returns;
  same_length = draws.same_length;
  pixels = λ a b ha hb. draws.pixels a b ha hb ∙ ap (xor (pixel d a b)) (e a b);
}

-- Drawing a sprite of at most 32 bytes on a display of the right size stays inside the buffer and
-- xors each pixel with the bit of the sprite that falls on it, round the edges, and with nothing
-- where no bit falls.
pub display_draw_sprite-Draws :
    (d : Display) (x y : ℕ) (sprite : List ℕ) (sprite_len : ℕ)
    → length d.buffer ≡ 2048
    → sprite_len ≤ length sprite
    → sprite_len ≤ display_height
    → Draws d (sprite_bit x y sprite sprite_len) (display_draw_sprite d x y sprite sprite_len)
unfolding display_draw_sprite
display_draw_sprite-Draws d x y sprite sprite_len len hs hn = Draws-cover covers (
    subst
      (λ (row : ℕ).
        Draws d (rows_cover 0 sprite_len sprite (x % display_width) (y % display_height))
          (draw_sprite_rows sprite_len 0 sprite (x % display_width) row d false))
      start rows)
  where
    start : (y % display_height + 0) % display_height ≡ y % display_height
    start = omega arith

    rows : Draws d (rows_cover 0 sprite_len sprite (x % display_width) (y % display_height)) (
        draw_sprite_rows sprite_len 0 sprite
          (x % display_width)
          ((y % display_height + 0) % display_height)
          d
          false)
    rows =
        draw_sprite_rows-Draws sprite_len 0 (x % display_width) (y % display_height) sprite
          sprite_len d false (omega arith) hs hn (omega arith) (omega arith) len

    covers :
        (a b : ℕ)
        → rows_cover 0 sprite_len sprite (x % display_width) (y % display_height) a b
          ≡ sprite_bit x y sprite sprite_len a b
    covers a b = unfold sprite_bit in ground arith

draw_sprite_rows-none :
    (rounds i px py : ℕ) (sprite : List ℕ) (d : Display) (erased : Bool)
    → length sprite < rounds + i
    → i ≤ length sprite
    → px < display_width
    → py < display_height
    → length d.buffer ≡ 2048
    → draw_sprite_rows rounds i sprite px py d erased ≡ none
draw_sprite_rows-none zero i px py sprite d erased short h hx hy len = absurd (omega arith)
draw_sprite_rows-none (suc rounds) i px py sprite d erased short h hx hy len =
    elim (dec_lt i (length sprite)) [
      | no past ↦
          unfold draw_sprite_rows in rw (get_elem?-none sprite i (omega arith), draw_sprite_rows)
      | yes inside ↦
          let row : Draws d (byte_cover 0 (get_or sprite i 0) px py)
              (draw_sprite_byte 8 (get_or sprite i 0) 0 px py d erased) =
            draw_sprite_byte-Draws 8 (get_or sprite i 0) 0 px py d erased (omega arith) hx hy len in
          rw (draw_sprite_rows-suc rounds i px py sprite d erased inside row) (
            draw_sprite_rows-none rounds (i + 1) px ((py + 1) % display_height) sprite row.display
              row.erased (omega arith) (omega arith) hx (omega arith) row.same_length)
    ]

-- On a display of the right size, a sprite that is shorter than the number of bytes to draw is
-- read past its end.
pub display_draw_sprite-none :
    (d : Display) (x y : ℕ) (sprite : List ℕ) (sprite_len : ℕ)
    → length d.buffer ≡ 2048
    → length sprite < sprite_len
    → display_draw_sprite d x y sprite sprite_len ≡ none
unfolding display_draw_sprite
display_draw_sprite-none d x y sprite sprite_len len short =
    draw_sprite_rows-none sprite_len 0 (x % display_width) (y % display_height) sprite d false
      (omega arith) (omega arith) (omega arith) (omega arith) len
