-- ===== src/Emulator/Cpu/Flow.antt =====
-- The program counter, the call stack, and the instructions that jump, call, return and skip.
use c_lang_examples.Prelude.{
  ℕ, ◌+◌, ◌-◌, ◌*◌, ◌^◌, bit_or, leb, not, ◌==◌, if◌then◌else◌, length, ltb, get_elem?, set, u16,
}
use c_lang_examples.Emulator.Opcode.{
  opcode_decode_address, opcode_decode_register_x, opcode_decode_register_y,
  opcode_decode_const_8bit,
}
use c_lang_examples.Emulator.Machine.{
  Exec, stack_overflow, stack_underflow, ◌>>=◌, ◌>>◌, halt, gets, or_fault, skip, modify_cpu,
  stack_capacity, read_register, read_memory, set_pc, fault,
}

-- `(memory[pc] << 8) | memory[pc + 1]`
unfoldable pub fetch_opcode : Exec ℕ
unfolding read_memory
fetch_opcode = do
  pc ← gets (λ m. m.cpu.pc)
  high ← read_memory pc
  low ← read_memory (pc + 1)
  gets (λ m. u16 (bit_or (high * 2 ^ 8) low))

unfoldable pub cpu_pc_advance : Exec (Unit {0})
unfolding set_pc
cpu_pc_advance = do pc ← gets (λ m. m.cpu.pc); set_pc (pc + 2)

unfoldable pub cpu_pc_advance_back : Exec (Unit {0})
unfolding set_pc
cpu_pc_advance_back = do pc ← gets (λ m. m.cpu.pc); set_pc (pc + 2 ^ 16 - 2)

unfoldable pub cpu_goto_address : ℕ → Exec (Unit {0})
unfolding set_pc
cpu_goto_address address = set_pc address

-- `stack[n] = address`
unfoldable pub write_stack : ℕ → ℕ → Exec (Unit {0})
write_stack n address m =
    if ltb n (length m.cpu.stack)
    then modify_cpu (λ c. record c { stack = set c.stack n (u16 address) }) m
    else fault

unfoldable pub cpu_stack_push : ℕ → Exec (Unit {0})
unfolding write_stack
cpu_stack_push address = do
  stack_count ← gets (λ m. m.cpu.stack_count)
  if leb stack_capacity stack_count then halt stack_overflow else skip
  write_stack stack_count address
  modify_cpu (λ c. record c { stack_count = c.stack_count + 1 })

unfoldable pub cpu_stack_pop : Exec ℕ
cpu_stack_pop = do
  stack_count ← gets (λ m. m.cpu.stack_count)
  if stack_count == 0 then halt stack_underflow else skip
  modify_cpu (λ c. record c { stack_count = c.stack_count - 1 })
  top ← gets (λ m. get_elem? m.cpu.stack m.cpu.stack_count)
  or_fault top

unfoldable pub exec_return : ℕ → Exec (Unit {0})
unfolding cpu_goto_address
exec_return opcode = do ret_addr ← cpu_stack_pop; cpu_goto_address ret_addr

unfoldable pub exec_call : ℕ → Exec (Unit {0})
unfolding cpu_goto_address
exec_call opcode = do
  let address = opcode_decode_address opcode
  pc ← gets (λ m. m.cpu.pc)
  cpu_stack_push pc
  cpu_goto_address address

unfoldable pub exec_goto : ℕ → Exec (Unit {0})
unfolding cpu_goto_address
exec_goto opcode = cpu_goto_address (opcode_decode_address opcode)

unfoldable pub exec_call_subroutine : ℕ → Exec (Unit {0})
unfolding cpu_goto_address
exec_call_subroutine opcode = do
  let address = opcode_decode_address opcode
  pc ← gets (λ m. m.cpu.pc)
  cpu_stack_push pc
  cpu_goto_address address

unfoldable pub exec_if_equals : ℕ → Exec (Unit {0})
unfolding cpu_pc_advance read_register
exec_if_equals opcode = do
  vx ← read_register (opcode_decode_register_x opcode)
  if vx == opcode_decode_const_8bit opcode then cpu_pc_advance else skip

unfoldable pub exec_if_not_equals : ℕ → Exec (Unit {0})
unfolding cpu_pc_advance read_register
exec_if_not_equals opcode = do
  vx ← read_register (opcode_decode_register_x opcode)
  if not (vx == opcode_decode_const_8bit opcode) then cpu_pc_advance else skip

unfoldable pub exec_skip_next_if_vx_equals_vy : ℕ → Exec (Unit {0})
unfolding cpu_pc_advance read_register
exec_skip_next_if_vx_equals_vy opcode = do
  vx ← read_register (opcode_decode_register_x opcode)
  vy ← read_register (opcode_decode_register_y opcode)
  if vx == vy then cpu_pc_advance else skip

unfoldable pub exec_if_vx_not_equals_to_vy : ℕ → Exec (Unit {0})
unfolding cpu_pc_advance read_register
exec_if_vx_not_equals_to_vy opcode = do
  vx ← read_register (opcode_decode_register_x opcode)
  vy ← read_register (opcode_decode_register_y opcode)
  if not (vx == vy) then cpu_pc_advance else skip

unfoldable pub exec_jump_to_addr_plus_v0 : ℕ → Exec (Unit {0})
unfolding cpu_goto_address read_register
exec_jump_to_addr_plus_v0 opcode = do
  v0 ← read_register 0
  cpu_goto_address (opcode_decode_address opcode + v0)
