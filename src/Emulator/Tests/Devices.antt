-- ===== src/Emulator/Tests/Devices.antt =====
-- The theorems about the display and the timers at concrete states.
use c_lang_examples.Prelude.{
  ℕ, zero, suc, ◌-◌, ◌<◌, ◌≡◌, refl, arith, Bool, true, false, not, some, List, [], ◌∷◌, get_or,
  replicate, length-replicate,
}
use c_lang_examples.Emulator.Display.{Display, display_width, display_height, display_draw_sprite}
use c_lang_examples.Emulator.Display.Bytes.{pixel, Draws}
use c_lang_examples.Emulator.Display.Pixels.{sprite_bit, display_draw_sprite-Draws}
use c_lang_examples.Emulator.Display.Redraw.{display_draw_sprite_twice}
use c_lang_examples.Emulator.Display.Collision.{display_draw_sprite-solid}
use c_lang_examples.Emulator.Timer.{Timer}
use c_lang_examples.Emulator.Timer.Countdown.{periods_since, timer_updates, timer_updates_lem}

abbrev white : Display
white = record { buffer = replicate 2048 true }

-- Drawn at column 62 and row 30, the sprite goes round both edges.
abbrev bricks : List ℕ
bricks = 255 ∷ 255 ∷ 255 ∷ []

bricks-solid : (k : ℕ) → k < 3 → get_or bricks k 0 ≡ 255
bricks-solid zero h = refl
bricks-solid (suc zero) h = refl
bricks-solid (suc (suc zero)) h = refl
bricks-solid (suc (suc (suc k))) h = absurd (omega arith)

display_draw_sprite-Draws_example :
    Draws white (sprite_bit 62 30 bricks 3) (display_draw_sprite white 62 30 bricks 3)
display_draw_sprite-Draws_example =
    display_draw_sprite-Draws white 62 30 bricks 3 (length-replicate 2048 true) (omega arith)
      (omega arith)

display_draw_sprite_twice_example :
    (once : Display) × (first second : Bool) × (display_draw_sprite white 62 30 bricks 3
      ≡ some (once, first))
    × (display_draw_sprite once 62 30 bricks 3 ≡ some (white, second))
display_draw_sprite_twice_example =
    display_draw_sprite_twice white 62 30 bricks 3 (length-replicate 2048 true) (omega arith)
      (omega arith)

display_draw_sprite-solid_example :
    (after : Display) × (display_draw_sprite white 62 30 bricks 3 ≡ some (after, false))
    × ((a b : ℕ)
        → a < display_width
        → b < display_height
        → sprite_bit 62 30 bricks 3 a b ≡ true
        → pixel after a b ≡ not (pixel white a b))
display_draw_sprite-solid_example =
    display_draw_sprite-solid white 62 30 bricks 3 (length-replicate 2048 true) (omega arith)
      (omega arith) bricks-solid

abbrev counting : Timer
counting = record { last_tick_timestamp_ms = 1000; value = 200 }

timer_updates_lem_example :
    timer_updates (1016 ∷ 1032 ∷ []) counting
    ≡ record counting { value = counting.value - periods_since 1000 (1016 ∷ 1032 ∷ []) }
timer_updates_lem_example =
    timer_updates_lem (1016 ∷ 1032 ∷ []) counting
      ((omega arith, omega arith), ((omega arith, omega arith), tt))
