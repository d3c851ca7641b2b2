-- ===== src/Emulator/Timer/Countdown.antt =====
-- How the timers count down.
use c_lang_examples.Prelude.{
  ℕ, zero, suc, ◌+◌, ◌-◌, ◌/◌, ◌^◌, ◌≤◌, ◌<◌, ◌≡◌, arith, u64, u8, List, [], ◌∷◌, All,
}
use c_lang_examples.Emulator.Timer.{
  Timer, timer_tick, timer_ticks, timer_update, timer_set_value, timer_is_active,
}

timer_tick_lem : (t : Timer) → timer_tick t ≡ record t { value = t.value - 1 }
unfolding timer_tick
timer_tick_lem t = ground arith

-- Ticking `n` times lowers the value by `n`, and no further than to zero.
pub timer_ticks_lem : (n : ℕ) (t : Timer) → timer_ticks n t ≡ record t { value = t.value - n }
unfolding timer_ticks
timer_ticks_lem zero t = ground arith
timer_ticks_lem (suc n) t =
    rw (timer_tick_lem t, timer_ticks_lem n (record t { value = t.value - 1 })) (ground arith)

-- An update lowers the value by the whole 16 ms periods since the recorded timestamp, and no
-- further than to zero; the timestamp stays.
pub timer_update_lem :
    (now : ℕ) (t : Timer)
    → t.last_tick_timestamp_ms ≤ now
    → now < 2 ^ 64
    → timer_update now t ≡ record t { value = t.value - (now - t.last_tick_timestamp_ms) / 16 }
unfolding timer_update timer_is_active
timer_update_lem now t h k =
    let elapsed : u64 (now + 2 ^ 64 - t.last_tick_timestamp_ms) ≡ now - t.last_tick_timestamp_ms =
      omega arith in
    rw (elapsed, timer_ticks_lem ((now - t.last_tick_timestamp_ms) / 16) t) (ground arith)

-- The sum of the whole periods between `start` and each of the times.
abbrev pub periods_since : ℕ → List ℕ → ℕ
periods_since start [] = 0
periods_since start (now ∷ times) = (now - start) / 16 + periods_since start times

-- The updates of the main loop, at the given times.
abbrev pub timer_updates : List ℕ → Timer → Timer
timer_updates [] t = t
timer_updates (now ∷ times) t = timer_updates times (timer_update now t)

abbrev pub After : ℕ → List ℕ → Type 0
After start = All (λ now. (start ≤ now) × (now < 2 ^ 64))

-- Each update counts again all the time since the timer was started: a run of updates, at times
-- that are not before the start and fit in 64 bits, lowers the value by the sum, over the updates,
-- of the whole 16 ms periods since the start, and no further than to zero.
pub timer_updates_lem :
    (times : List ℕ) (t : Timer)
    → After t.last_tick_timestamp_ms times
    → timer_updates times t
      ≡ record t { value = t.value - periods_since t.last_tick_timestamp_ms times }
timer_updates_lem [] t h = ground arith
timer_updates_lem (now ∷ times) t h =
    rw
      (
        timer_update_lem now t h.0.0 h.0.1,
        timer_updates_lem times
            (record t { value = t.value - (now - t.last_tick_timestamp_ms) / 16 }) h.1,
      )
      (ground arith)

-- A timer that was started at least 4080 ms ago, 255 periods, is at zero after the next update,
-- whatever value it has been set to since, while the clock fits in 64 bits.
pub timer_update-timer_set_value :
    (now value : ℕ) (t : Timer)
    → t.last_tick_timestamp_ms + 4080 ≤ now
    → now < 2 ^ 64
    → (timer_update now (timer_set_value t value)).value ≡ 0
unfolding timer_set_value
timer_update-timer_set_value now value t h k =
    rw (timer_update_lem now (record t { value = u8 value }) (omega arith) k) (omega arith)
