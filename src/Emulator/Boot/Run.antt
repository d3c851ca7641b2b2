-- ===== src/Emulator/Boot/Run.antt =====
-- A run of the machine, from its start to any round of the main loop.
use c_lang_examples.Prelude.{
  ℕ, ◌+◌, ◌-◌, ◌/◌, ◌^◌, u64, ◌≤◌, Bool-cases, inl, inr, ◌≡◌, refl, sym, subst, true, false, arith,
  List, [], ◌∷◌, All, IsByte,
}
use c_lang_examples.Emulator.Timer.{Timer, timer_start, clock_timeup_duration_ms, timer_update}
use c_lang_examples.Emulator.Timer.Countdown.{timer_ticks_lem}
use c_lang_examples.Emulator.Machine.{Machine, ok, pure, and_then, ◌>>=◌}
use c_lang_examples.Emulator.Machine.Invariant.{IsValid, Meets-bind_eq, Meets-excuse, returns}
use c_lang_examples.Emulator.Cpu.Step.{cpu_step}
use c_lang_examples.Emulator.Cpu.Bounds.{Lands}
use c_lang_examples.Emulator.Cpu.Cycle.{StepOverrun, cpu_step-Lands}
use c_lang_examples.Emulator.Boot.{Round, main_loop, machine_init, machine_load_rom, machine_run}
use c_lang_examples.Emulator.Boot.Load.{machine_init-IsValid, machine_load_rom-Lands}

timer_update-le : (now : ℕ) (t : Timer) → (timer_update now t).value ≤ t.value
unfolding timer_update
timer_update-le now t = ground (
  arith,
  timer_ticks_lem (u64 (now + 2 ^ 64 - t.last_tick_timestamp_ms) / clock_timeup_duration_ms) t,
)

abbrev delay_updated : ℕ → Machine → Machine
delay_updated now m = record m { delay_timer = timer_update now m.delay_timer }

abbrev sound_updated : ℕ → Machine → Machine
sound_updated now m = record m { sound_timer = timer_update now m.sound_timer }

updated-IsValid :
    (now later : ℕ) (m : Machine) → IsValid m → IsValid (sound_updated later (delay_updated now m))
updated-IsValid now later m v =
    ground (arith, timer_update-le now m.delay_timer, timer_update-le later m.sound_timer)

-- The machine of a round behind the updates of its timers.
abbrev pub ticked : Round → Machine → Machine
ticked round m = sound_updated round.sound_now (delay_updated round.delay_now m)

-- Rounds of the main loop from a machine that come to a step which overruns: the first round does
-- not quit, and its step overruns, or completes and a later one does.
pub data LoopOverrun : List Round → Machine → Type 0 where
  now :
      (round : Round) (rounds : List Round) (m : Machine)
      → round.quits ≡ false
      → StepOverrun (ticked round m)
      → LoopOverrun (round ∷ rounds) m
  later :
      (round : Round) (rounds : List Round) (m next : Machine)
      → round.quits ≡ false
      → cpu_step round.env (ticked round m) ≡ ok tt next
      → LoopOverrun rounds next
      → LoopOverrun (round ∷ rounds) m

main_loop-quits :
    (round : Round) (rounds : List Round) (m : Machine)
    → round.quits ≡ true
    → main_loop (round ∷ rounds) m ≡ ok tt m
unfolding main_loop pure
main_loop-quits round rounds m e = rw e refl

main_loop-goes :
    (round : Round) (rounds : List Round) (m : Machine)
    → round.quits ≡ false
    → main_loop (round ∷ rounds) m
      ≡ and_then (cpu_step round.env (ticked round m)) (λ u. main_loop rounds)
unfolding main_loop ◌>>=◌
main_loop-goes round rounds m e = rw e refl

-- The main loop, run on a valid machine through any rounds, leaves a valid machine or stops the
-- program, unless one of its rounds comes to a step that overruns.
pub main_loop-Lands :
    (rounds : List Round) (m : Machine)
    → IsValid m
    → Lands (LoopOverrun rounds m) (main_loop rounds m)
unfolding main_loop pure
main_loop-Lands [] m v = returns v
main_loop-Lands (round ∷ rounds) m v =
    let step =
      cpu_step-Lands round.env (ticked round m)
        (updated-IsValid round.delay_now round.sound_now m v) in
    elim (Bool-cases round.quits) [
      | inl e ↦
          subst (Lands (LoopOverrun (round ∷ rounds) m)) (sym (main_loop-quits round rounds m e))
            (returns v)
      | inr e ↦
          subst (Lands (LoopOverrun (round ∷ rounds) m)) (sym (main_loop-goes round rounds m e)) (
            Meets-bind_eq (Meets-excuse (now round rounds m e) step) (λ u next same v'.
              Meets-excuse (later round rounds m next e same) (main_loop-Lands rounds next v')))
    ]

-- The machine whose timers are started.
abbrev pub started : ℕ → ℕ → Machine → Machine
started delay_start sound_start m = record m {
  delay_timer = timer_start delay_start m.delay_timer;
  sound_timer = timer_start sound_start m.sound_timer;
}

-- A run from a machine: the program is loaded, and the rounds behind it come to a step that
-- overruns.
pub record RunOverrun (m : Machine) (rom : List ℕ) (delay_start sound_start : ℕ)
    (rounds : List Round) : Type 0 where
  pub loaded : Machine
  pub loads : machine_load_rom rom (machine_init m) ≡ ok tt loaded
  pub overrun : LoopOverrun rounds (started delay_start sound_start loaded)

-- A machine that is started, given a program of bytes and run through any rounds is valid in the
-- end or has stopped the program, unless the program is loaded and a round of its main loop comes to
-- a step that overruns: no earlier round quits, and every earlier step completes.
pub machine_run-Lands :
    (m : Machine) (rom : List ℕ) (delay_start sound_start : ℕ) (rounds : List Round)
    → All IsByte rom
    → Lands (RunOverrun m rom delay_start sound_start rounds) (
        and_then
          (machine_load_rom rom (machine_init m))
          (λ u. machine_run delay_start sound_start rounds))
unfolding machine_run timer_start ◌>>=◌
machine_run-Lands m rom delay_start sound_start rounds h =
    Meets-bind_eq
      (Meets-excuse (λ never. absurd never)
        (machine_load_rom-Lands rom (machine_init m) (machine_init-IsValid m) h))
      (λ u loaded same v.
        Meets-excuse (λ over. record { loaded = loaded; loads = same; overrun = over })
          (main_loop-Lands rounds (started delay_start sound_start loaded) (ground (arith, v))))
