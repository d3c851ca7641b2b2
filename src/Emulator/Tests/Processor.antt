-- ===== src/Emulator/Tests/Processor.antt =====
-- The theorems about the processor at concrete machines and opcodes.
use c_lang_examples.Prelude.{
  ℕ, ◌+◌, ◌*◌, ◌%◌, ◌≤◌, ◌<◌, ◌≡◌, ◌⊎◌, ◌↔◌, refl, arith, true, false, leb, ◌==◌, if◌then◌else◌,
  List, replicate, get_or, set,
}
use c_lang_examples.Emulator.Opcode.{opcode_decode_register_x, opcode_decode_register_y}
use c_lang_examples.Emulator.Memory.{memory_size}
use c_lang_examples.Emulator.Machine.{
  Machine, ok, stop, pc_overflow, zero_opcode, unsupported_opcode, ◌>>=◌, ◌>>◌, halt, modify_cpu,
  vf,
}
use c_lang_examples.Emulator.Machine.Access.{register, byte_at}
use c_lang_examples.Emulator.Cpu.Flow.{exec_call_subroutine, exec_return}
use c_lang_examples.Emulator.Cpu.Alu.{exec_vx_plus_vy, exec_vx_minus_vy, exec_set_vx_vy_minus_vx}
use c_lang_examples.Emulator.Cpu.Store.{exec_set_bcd, exec_reg_dump, exec_reg_load}
use c_lang_examples.Emulator.Cpu.Step.{cpu_decode_and_exec_opcode, cpu_step}
use c_lang_examples.Emulator.Cpu.Calls.{at_pc, exec_return-exec_call_subroutine}
use c_lang_examples.Emulator.Cpu.Bounds.{Lands}
use c_lang_examples.Emulator.Cpu.Safety.{Overrun, cpu_decode_and_exec_opcode-Lands}
use c_lang_examples.Emulator.Cpu.Cycle.{word_at, cpu_step_lem, StepOverrun, cpu_step-Lands}
use c_lang_examples.Emulator.Cpu.Flagged.{Flagged}
use c_lang_examples.Emulator.Cpu.Arithmetic.{
  exec_vx_plus_vy_lem, exec_vx_minus_vy_lem, exec_set_vx_vy_minus_vx_lem,
}
use c_lang_examples.Emulator.Cpu.Dump.{exec_reg_load-exec_reg_dump}
use c_lang_examples.Emulator.Cpu.Bcd.{exec_set_bcd_lem}
use c_lang_examples.Emulator.Disassembler.{disassembler_disassemble}
use c_lang_examples.Emulator.Isa.{Instruction, Matches, cls, drw, execute, listing}
use c_lang_examples.Emulator.Isa.Decode.{
  cpu_decode_and_exec_opcode-execute, disassembler_disassemble-listing, unsupported_opcode_lem,
}
use c_lang_examples.Emulator.Tests.{running, running-IsValid, idle}

cpu_step-Lands_example : Lands (StepOverrun running) (cpu_step idle running)
cpu_step-Lands_example = cpu_step-Lands idle running running-IsValid

cpu_step_lem_example : cpu_step idle running ≡ (
    if leb memory_size running.cpu.pc
    then stop pc_overflow
    else if word_at running running.cpu.pc == 0
    then stop zero_opcode
    else cpu_decode_and_exec_opcode idle
        (word_at running running.cpu.pc)
        (at_pc running (running.cpu.pc + 2)))
cpu_step_lem_example = cpu_step_lem idle running running-IsValid (omega arith)

cpu_decode_and_exec_opcode-Lands_example :
    Lands (Overrun running 0xF333) (cpu_decode_and_exec_opcode idle 0xF333 running)
cpu_decode_and_exec_opcode-Lands_example =
    cpu_decode_and_exec_opcode-Lands idle 0xF333 running running-IsValid

cpu_decode_and_exec_opcode-execute_example :
    cpu_decode_and_exec_opcode idle 0xD125 ≡ execute idle drw 0xD125
cpu_decode_and_exec_opcode-execute_example =
    cpu_decode_and_exec_opcode-execute idle 0xD125 drw (omega arith) refl

disassembler_disassemble-listing_example :
    disassembler_disassemble 0xD125 ≡ (listing drw 0xD125, true)
disassembler_disassemble-listing_example =
    disassembler_disassemble-listing 0xD125 drw (omega arith) refl

-- 8129 is no instruction: no operation of the group 8 ends in 9.
none-Matches : (instruction : Instruction) → ¬ (Matches instruction 0x8129)
none-Matches cls k = absurd (ground arith)
none-Matches _ k = absurd (ground arith)

unsupported_opcode_lem_example :
    (cpu_decode_and_exec_opcode idle 0x8129 ≡ halt unsupported_opcode)
    × ((disassembler_disassemble 0x8129).1 ≡ false)
unsupported_opcode_lem_example = unsupported_opcode_lem idle 0x8129 (omega arith) none-Matches

exec_return-exec_call_subroutine_example :
    (exec_call_subroutine 0x2345 >>= λ _. exec_return 0x00EE) running
    ≡ ok tt (record running {
      cpu = record (running.cpu) {
        stack = set running.cpu.stack running.cpu.stack_count running.cpu.pc;
      };
    })
exec_return-exec_call_subroutine_example =
    exec_return-exec_call_subroutine running 0x2345 0x00EE running-IsValid (omega arith)

exec_vx_plus_vy_lem_example :
    (after : Machine) × (exec_vx_plus_vy 0x8124 running ≡ ok tt after)
    × Flagged running (opcode_decode_register_x 0x8124) after
    × (register after vf * 256 + register after (opcode_decode_register_x 0x8124)
        ≡ register running (opcode_decode_register_x 0x8124)
          + register running (opcode_decode_register_y 0x8124))
unfolding opcode_decode_register_x opcode_decode_register_y
exec_vx_plus_vy_lem_example =
    exec_vx_plus_vy_lem running 0x8124 running-IsValid (omega arith) (omega arith)

exec_vx_minus_vy_lem_example :
    (after : Machine) × (exec_vx_minus_vy 0x8215 running ≡ ok tt after)
    × Flagged running (opcode_decode_register_x 0x8215) after
    × ((register after (opcode_decode_register_x 0x8215)
            + register running (opcode_decode_register_y 0x8215))
          % 256
        ≡ register running (opcode_decode_register_x 0x8215))
    × ((register after vf ≡ 1) ↔ (
        register running (opcode_decode_register_y 0x8215)
        < register running (opcode_decode_register_x 0x8215)))
unfolding opcode_decode_register_x opcode_decode_register_y
exec_vx_minus_vy_lem_example =
    exec_vx_minus_vy_lem running 0x8215 running-IsValid (omega arith) (omega arith)

exec_set_vx_vy_minus_vx_lem_example :
    (after : Machine) × (exec_set_vx_vy_minus_vx 0x8217 running ≡ ok tt after)
    × Flagged running (opcode_decode_register_x 0x8217) after
    × ((register after (opcode_decode_register_x 0x8217)
            + register running (opcode_decode_register_x 0x8217))
          % 256
        ≡ register running (opcode_decode_register_y 0x8217))
    × ((register after vf ≡ 1) ↔ (
        register running (opcode_decode_register_x 0x8217)
        < register running (opcode_decode_register_y 0x8217)))
unfolding opcode_decode_register_x opcode_decode_register_y
exec_set_vx_vy_minus_vx_lem_example =
    exec_set_vx_vy_minus_vx_lem running 0x8217 running-IsValid (omega arith) (omega arith)

exec_set_bcd_lem_example :
    (memory : List ℕ) × (exec_set_bcd 0xF133 running ≡ ok tt (record running { memory = memory }))
    × (get_or memory running.cpu.i 0 * 100
          + get_or memory (running.cpu.i + 1) 0 * 10
          + get_or memory (running.cpu.i + 2) 0
        ≡ register running (opcode_decode_register_x 0xF133))
    × (get_or memory running.cpu.i 0 ≤ 9)
    × (get_or memory (running.cpu.i + 1) 0 ≤ 9)
    × (get_or memory (running.cpu.i + 2) 0 ≤ 9)
    × ((a : ℕ)
        → (a < running.cpu.i) ⊎ (running.cpu.i + 3 ≤ a)
        → get_or memory a 0 ≡ byte_at running a)
exec_set_bcd_lem_example = exec_set_bcd_lem running 0xF133 running-IsValid (omega arith)

exec_reg_load-exec_reg_dump_example :
    (after : Machine) × ((exec_reg_dump 0xF255
          >> (modify_cpu (λ c. record c { registers = replicate 16 9 }) >> exec_reg_load 0xF255))
        running
      ≡ ok tt after)
    × ((r : ℕ) → r ≤ opcode_decode_register_x 0xF255 → register after r ≡ register running r)
    × ((r : ℕ)
        → opcode_decode_register_x 0xF255 < r
        → register after r ≡ get_or (replicate 16 9) r 0)
unfolding opcode_decode_register_x
exec_reg_load-exec_reg_dump_example =
    exec_reg_load-exec_reg_dump running 0xF255 (replicate 16 9) running-IsValid (omega arith) refl
