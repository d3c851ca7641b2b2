-- ===== src/Emulator/Timer.antt =====
-- The delay and sound timers (timer.c, timer.h). The clock `SDL_GetTicks64` is an argument.
pub mod Countdown
use c_lang_examples.Prelude.{
  ℕ, zero, suc, ◌+◌, ◌-◌, ◌*◌, ◌/◌, ◌^◌, Bool, not, ltb, if◌then◌else◌, u8, u64,
}

abbrev pub clock_frequency_hz : ℕ
clock_frequency_hz = 60

abbrev pub clock_timeup_duration_ms : ℕ
clock_timeup_duration_ms = 1 * 1000 / clock_frequency_hz

pub record Timer : Type 0 where
  pub last_tick_timestamp_ms : ℕ
  pub value : ℕ

unfoldable pub timer_init : Timer
timer_init = record { last_tick_timestamp_ms = 0; value = 0 }

unfoldable pub timer_start : ℕ → Timer → Timer
timer_start now t = record t { last_tick_timestamp_ms = now }

unfoldable pub timer_is_active : Timer → Bool
timer_is_active t = ltb 0 t.value

unfoldable pub timer_tick : Timer → Timer
timer_tick t = if ltb 0 t.value then record t { value = t.value - 1 } else t

-- `while (ticks_count--) timer_tick(t);`
unfoldable pub timer_ticks : ℕ → Timer → Timer
timer_ticks zero t = t
timer_ticks (suc ticks_count) t = timer_ticks ticks_count (timer_tick t)

unfoldable pub timer_update : ℕ → Timer → Timer
unfolding timer_is_active
timer_update now_timestamp_ms t =
    let elapsed_time_ms = u64 (now_timestamp_ms + 2 ^ 64 - t.last_tick_timestamp_ms) in
    if not (timer_is_active t)
    then t
    else if ltb elapsed_time_ms clock_timeup_duration_ms
    then t
    else timer_ticks (elapsed_time_ms / clock_timeup_duration_ms) t

unfoldable pub timer_get_value : Timer → ℕ
timer_get_value t = t.value

unfoldable pub timer_set_value : Timer → ℕ → Timer
timer_set_value t value = record t { value = u8 value }
