-- ===== src/Emulator/Boot/Load.antt =====
-- The machine after its start, and the memory after the loading of a program.
use c_lang_examples.Prelude.{
  ℕ, zero, suc, ◌+◌, ◌-◌, ◌≤◌, ◌<◌, ◌≡◌, refl, sym, ap, ◌∙◌, subst, arith, if◌then◌else◌, ltb, Bool,
  false, true, Bool-cases, inl, inr, List, length, get_or, replicate, write_at, length-write_at,
  length-replicate, get_or-write_at_twice, All, All-replicate, All-write_at, all_bytes-All, IsByte,
  IsU16,
}
use c_lang_examples.Emulator.Memory.{
  memory_size, memory_program_starting_address, font_sprites, font_mem_address, memory_init,
  load_font_sprites,
}
use c_lang_examples.Emulator.Display.{display_clear}
use c_lang_examples.Emulator.Timer.{timer_init}
use c_lang_examples.Emulator.Machine.{
  Machine, Stop, Exec, Outcome, ok, skip, ◌>>◌, rom_too_big, ◌>>=◌, halt,
}
use c_lang_examples.Emulator.Machine.Invariant.{IsValid, returns, stops}
use c_lang_examples.Emulator.Machine.Access.{byte_at}
use c_lang_examples.Emulator.Cpu.Step.{cpu_init}
use c_lang_examples.Emulator.Cpu.Bounds.{Lands}
use c_lang_examples.Emulator.Boot.{program_max_size, machine_init, machine_load_rom}

memory_init-bytes : All IsByte memory_init
unfolding memory_init load_font_sprites
memory_init-bytes =
    All-write_at IsByte (replicate memory_size 0) font_mem_address font_sprites
      (All-replicate IsByte memory_size 0 (omega arith)) (all_bytes-All font_sprites refl)

-- Whatever the storage of the machine held, it is well-formed after the start.
pub machine_init-IsValid : (m : Machine) → IsValid (machine_init m)
unfolding machine_init memory_init load_font_sprites cpu_init timer_init display_clear
machine_init-IsValid m = record {
  memory_length =
      length-write_at (replicate memory_size 0) font_mem_address font_sprites
      ∙ length-replicate {A = ℕ} memory_size 0;
  memory_bytes = memory_init-bytes;
  registers_length = refl;
  registers_bytes = All-replicate IsByte 16 0 (omega arith);
  pc_word = omega arith;
  i_word = omega arith;
  stack_length = refl;
  stack_words = All-replicate IsU16 12 0 (omega arith);
  stack_fits = omega arith;
  display_length = length-replicate {A = Bool} 2048 false;
  delay_byte = omega arith;
  sound_byte = omega arith;
}

passed :
    (b : Bool) (e : Stop) (k : Exec (Unit {0})) (m : Machine)
    → b ≡ false
    → ((if b then halt e else skip) >> k) m ≡ k m
unfolding ◌>>=◌
passed true e k m h = absurd (ground arith)
passed false e k m h = refl

replicate_zero : (n i : ℕ) → get_or (replicate {A = ℕ} n 0) i 0 ≡ (let z : ℕ = 0 in z)
replicate_zero zero i = refl
replicate_zero (suc n) zero = refl
replicate_zero (suc n) (suc i) = replicate_zero n i

-- The loading returns, and of the machine only the memory may differ: its bytes from 0x200 on are
-- those of the program, then zeroes to the end; those below stay.
pub record LoadsRom (rom : List ℕ) (m : Machine) (loading : Outcome (Unit {0})) : Type 0 where
  pub loaded : List ℕ
  pub returns : loading ≡ ok tt (record m { memory = loaded })
  pub same_length : length loaded ≡ memory_size
  pub bytes :
      (k : ℕ)
      → k < memory_size
      → get_or loaded k 0 ≡ (
          if ltb k memory_program_starting_address
          then byte_at m k
          else get_or rom (k - memory_program_starting_address) 0)

-- On a machine with 4096 bytes of memory, a program of at most 3584 bytes is put at 0x200, with
-- zeroes behind it up to the end of the memory; the memory below and the rest of the machine stay.
pub machine_load_rom-LoadsRom :
    (rom : List ℕ) (m : Machine)
    → length m.memory ≡ memory_size
    → length rom ≤ program_max_size
    → LoadsRom rom m (machine_load_rom rom m)
unfolding machine_load_rom ◌>>=◌
machine_load_rom-LoadsRom rom m e h =
    let zeroes : List ℕ = replicate program_max_size 0 in
    let zeroed : List ℕ = write_at m.memory memory_program_starting_address zeroes in
    let count : length zeroes ≡ program_max_size = length-replicate {A = ℕ} program_max_size 0 in
    let fits : ltb program_max_size (length rom) ≡ false = ground arith in
    record {
      loaded = write_at zeroed memory_program_starting_address rom;
      returns = passed (ltb program_max_size (length rom)) rom_too_big _ m fits;
      same_length =
          length-write_at zeroed memory_program_starting_address rom
          ∙ (length-write_at m.memory memory_program_starting_address zeroes ∙ e);
      bytes = λ k hk.
          get_or-write_at_twice m.memory zeroes rom memory_program_starting_address k
            (ap (λ (n : ℕ). memory_program_starting_address + n) count ∙ sym e)
            (subst (λ (n : ℕ). length rom ≤ n) (sym count) h) (replicate_zero program_max_size)
            (subst (λ (n : ℕ). k < n) (sym e) hk);
    }

with_memory-IsValid :
    (m : Machine) (mem : List ℕ)
    → IsValid m
    → length mem ≡ memory_size
    → All IsByte mem
    → IsValid (record m { memory = mem })
with_memory-IsValid m mem v e h = ground arith

-- Loading a program of bytes on a valid machine never faults: it ends in a valid machine, or
-- stops.
pub machine_load_rom-Lands :
    (rom : List ℕ) (m : Machine) → IsValid m → All IsByte rom → Lands ⊥ (machine_load_rom rom m)
unfolding machine_load_rom ◌>>=◌
machine_load_rom-Lands rom m v h = elim (Bool-cases (ltb program_max_size (length rom))) [
  | inl big ↦ rw big (stops rom_too_big)
  | inr fits ↦
      let zeroes : List ℕ = replicate program_max_size 0 in
      let zeroed : List ℕ = write_at m.memory memory_program_starting_address zeroes in
      let zeroed_bytes : All IsByte zeroed =
        All-write_at IsByte m.memory memory_program_starting_address zeroes v.memory_bytes
          (All-replicate IsByte program_max_size 0 (omega arith)) in
      rw fits (
        returns (
          with_memory-IsValid m (write_at zeroed memory_program_starting_address rom) v
            (length-write_at zeroed memory_program_starting_address rom
              ∙ (length-write_at m.memory memory_program_starting_address zeroes ∙ v.memory_length))
            (All-write_at IsByte zeroed memory_program_starting_address rom zeroed_bytes h)))
]
