-- ===== src/Emulator/Cpu/Arithmetic.antt =====
-- What the instructions with a flag compute (8xy4 to 8xyE).
use c_lang_examples.Prelude.{
  ℕ, ◌+◌, ◌-◌, ◌*◌, ◌/◌, ◌%◌, ◌<◌, ◌≡◌, ◌≢◌, ◌↔◌, arith, ltb, if◌then◌else◌, u8,
}
use c_lang_examples.Emulator.Opcode.{opcode_decode_register_x, opcode_decode_register_y, bit_is_set}
use c_lang_examples.Emulator.Opcode.Fields.{
  opcode_decode_register_x-lt, opcode_decode_register_y-lt, bit_is_set_lem,
}
use c_lang_examples.Emulator.Machine.{Machine, ok, vf, ◌>>=◌, read_register, write_register}
use c_lang_examples.Emulator.Machine.Invariant.{IsValid}
use c_lang_examples.Emulator.Machine.Access.{
  register, with_register, register-lt, read_register_lem, write_register_lem,
}
use c_lang_examples.Emulator.Cpu.Alu.{
  exec_vx_plus_vy, exec_vx_minus_vy, exec_set_vx_rshift_one, exec_set_vx_vy_minus_vx,
  exec_set_vx_lshift_one,
}
use c_lang_examples.Emulator.Cpu.Flagged.{
  Flagged, flagged, register-flagged_flag, register-flagged_result, flagged-Flagged,
  register-with_flag, length-with_flag, no_vf, not_vf,
}

module _ (m : Machine) (opcode : ℕ) (v : IsValid m)
    (nx : opcode_decode_register_x opcode ≢ vf) where
  abbrev x : ℕ
  x = opcode_decode_register_x opcode

  abbrev y : ℕ
  y = opcode_decode_register_y opcode

  read_x : read_register x m ≡ ok (register m x) m
  read_x = read_register_lem m x v.registers_length (opcode_decode_register_x-lt opcode)

  read_y : read_register y m ≡ ok (register m y) m
  read_y = read_register_lem m y v.registers_length (opcode_decode_register_y-lt opcode)

  module _ (flag : ℕ) where
    write_flag : write_register vf flag m ≡ ok tt (with_register m vf flag)
    write_flag = write_register_lem m vf flag v.registers_length (omega arith)

    write_x : (n : ℕ) → write_register x n (with_register m vf flag) ≡ ok tt (flagged m flag x n)
    write_x n =
        write_register_lem (with_register m vf flag) x n
          (length-with_flag m flag v.registers_length) (opcode_decode_register_x-lt opcode)

    reread_x :
        read_register x (with_register m vf flag) ≡ ok (register m x) (with_register m vf flag)
    reread_x = rw (← register-with_flag m flag x nx) (
        read_register_lem (with_register m vf flag) x (length-with_flag m flag v.registers_length)
          (opcode_decode_register_x-lt opcode))

    reread_y :
        y ≢ vf
        → read_register y (with_register m vf flag) ≡ ok (register m y) (with_register m vf flag)
    reread_y ny = rw (← register-with_flag m flag y ny) (
        read_register_lem (with_register m vf flag) y (length-with_flag m flag v.registers_length)
          (opcode_decode_register_y-lt opcode))

    value_flag : (n : ℕ) → register (flagged m flag x n) vf ≡ u8 flag
    value_flag n =
        register-flagged_flag m flag x n v.registers_length (opcode_decode_register_x-lt opcode) nx

    value_x : (n : ℕ) → register (flagged m flag x n) x ≡ u8 n
    value_x n =
        register-flagged_result m flag x n v.registers_length (opcode_decode_register_x-lt opcode)
          nx

    is_flagged : (n : ℕ) → flag < 2 → Flagged m x (flagged m flag x n)
    is_flagged n =
        flagged-Flagged m flag x n v.registers_length (opcode_decode_register_x-lt opcode) nx

  -- 8xy4 on a valid machine, with operands other than VF: VF and Vx become the two digits, to the
  -- base 256, of the sum of Vx and Vy; nothing else changes.
  pub exec_vx_plus_vy_lem :
      opcode_decode_register_y opcode ≢ vf
      → (after : Machine) × (exec_vx_plus_vy opcode m ≡ ok tt after)
        × Flagged m (opcode_decode_register_x opcode) after
        × (register after vf * 256 + register after (opcode_decode_register_x opcode)
            ≡ register m (opcode_decode_register_x opcode)
              + register m (opcode_decode_register_y opcode))
  unfolding exec_vx_plus_vy ◌>>=◌
  exec_vx_plus_vy_lem ny =
      let sum = register m x + register m y in
      let flag = if ltb 255 sum then 0x01 else 0x00 in
      (
        flagged m flag x sum,
        rw (no_vf nx ny, read_x, read_y, write_flag flag, write_x flag sum),
        is_flagged flag sum (ground arith),
        ground (arith, value_flag flag sum, value_x flag sum, register-lt m x v, register-lt m y v),
      )

  -- 8xy5 on a valid machine, with operands other than VF: Vx becomes the difference of Vx and Vy
  -- to the modulus 256, and VF tells whether Vx was greater than Vy; nothing else changes.
  pub exec_vx_minus_vy_lem :
      opcode_decode_register_y opcode ≢ vf
      → (after : Machine) × (exec_vx_minus_vy opcode m ≡ ok tt after)
        × Flagged m (opcode_decode_register_x opcode) after
        × ((register after (opcode_decode_register_x opcode)
                + register m (opcode_decode_register_y opcode))
              % 256
            ≡ register m (opcode_decode_register_x opcode))
        × ((register after vf ≡ 1) ↔ (
            register m (opcode_decode_register_y opcode)
            < register m (opcode_decode_register_x opcode)))
  unfolding exec_vx_minus_vy ◌>>=◌
  exec_vx_minus_vy_lem ny =
      let difference = register m x + 256 - register m y in
      let flag = if ltb (register m y) (register m x) then 0x01 else 0x00 in
      (
        flagged m flag x difference,
        rw (
          no_vf nx ny,
          read_x,
          read_y,
          write_flag flag,
          reread_x flag,
          reread_y flag ny,
          write_x flag difference,
        ),
        is_flagged flag difference (ground arith),
        ground (arith, value_x flag difference, register-lt m x v, register-lt m y v),
        ground (arith, value_flag flag difference),
      )

  -- 8xy7 on a valid machine, with operands other than VF: Vx becomes the difference of Vy and Vx
  -- to the modulus 256, and VF tells whether Vy was greater than Vx; nothing else changes.
  pub exec_set_vx_vy_minus_vx_lem :
      opcode_decode_register_y opcode ≢ vf
      → (after : Machine) × (exec_set_vx_vy_minus_vx opcode m ≡ ok tt after)
        × Flagged m (opcode_decode_register_x opcode) after
        × ((register after (opcode_decode_register_x opcode)
                + register m (opcode_decode_register_x opcode))
              % 256
            ≡ register m (opcode_decode_register_y opcode))
        × ((register after vf ≡ 1) ↔ (
            register m (opcode_decode_register_x opcode)
            < register m (opcode_decode_register_y opcode)))
  unfolding exec_set_vx_vy_minus_vx ◌>>=◌
  exec_set_vx_vy_minus_vx_lem ny =
      let difference = register m y + 256 - register m x in
      let flag = if ltb (register m x) (register m y) then 0x01 else 0x00 in
      (
        flagged m flag x difference,
        rw (
          no_vf nx ny,
          read_x,
          read_y,
          write_flag flag,
          reread_x flag,
          reread_y flag ny,
          write_x flag difference,
        ),
        is_flagged flag difference (ground arith),
        ground (arith, value_x flag difference, register-lt m x v, register-lt m y v),
        ground (arith, value_flag flag difference),
      )

  -- 8xy6 on a valid machine, with an operand other than VF: Vx is halved, and VF becomes the
  -- remainder; nothing else changes.
  pub exec_set_vx_rshift_one_lem :
      (after : Machine) × (exec_set_vx_rshift_one opcode m ≡ ok tt after)
      × Flagged m (opcode_decode_register_x opcode) after
      × (2 * register after (opcode_decode_register_x opcode) + register after vf
          ≡ register m (opcode_decode_register_x opcode))
  unfolding exec_set_vx_rshift_one ◌>>=◌
  exec_set_vx_rshift_one_lem =
      let half = register m x / 2 in
      let flag = if bit_is_set (register m x) 0 then 0x01 else 0x00 in
      (
        flagged m flag x half,
        rw (not_vf nx, read_x, write_flag flag, reread_x flag, write_x flag half),
        is_flagged flag half (ground arith),
        ground (
          arith,
          value_flag flag half,
          value_x flag half,
          register-lt m x v,
          bit_is_set_lem (register m x) 0,
        ),
      )

  -- 8xyE on a valid machine, with an operand other than VF: VF and Vx become the two digits, to
  -- the base 256, of twice Vx; nothing else changes.
  pub exec_set_vx_lshift_one_lem :
      (after : Machine) × (exec_set_vx_lshift_one opcode m ≡ ok tt after)
      × Flagged m (opcode_decode_register_x opcode) after
      × (register after vf * 256 + register after (opcode_decode_register_x opcode)
          ≡ 2 * register m (opcode_decode_register_x opcode))
  unfolding exec_set_vx_lshift_one ◌>>=◌
  exec_set_vx_lshift_one_lem =
      let double = register m x * 2 in
      let flag = if bit_is_set (register m x) 7 then 0x01 else 0x00 in
      (
        flagged m flag x double,
        rw (not_vf nx, read_x, write_flag flag, reread_x flag, write_x flag double),
        is_flagged flag double (ground arith),
        ground (
          arith,
          value_flag flag double,
          value_x flag double,
          register-lt m x v,
          bit_is_set_lem (register m x) 7,
        ),
      )
