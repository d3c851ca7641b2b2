-- ===== src/Emulator/Keyboard.antt =====
-- The keyboard (keyboard.c). The state of the real keyboard, `SDL_GetKeyboardState`, is an
-- argument: a function from scan codes to bytes.
use c_lang_examples.Prelude.{
  ℕ, ◌+◌, Bool, ◌==◌, if◌then◌else◌, Option, none, some, List, [], ◌∷◌, get_elem?,
}

-- The `SDL_SCANCODE_*` that the keymap names.
pub data Scancode : Type 0 where
  sc_1 sc_2 sc_3 sc_4 sc_q sc_w sc_e sc_r sc_a sc_s sc_d sc_f sc_z sc_x sc_c sc_v : Scancode

abbrev pub KeyboardState : Type 0
KeyboardState = Scancode → ℕ

abbrev pub keyboard_keys_count : ℕ
keyboard_keys_count = 16

-- Indexed by the emulated key, 0 to F.
abbrev pub keymap : List Scancode
keymap =
    sc_x ∷ sc_1 ∷ sc_2 ∷ sc_3 ∷ sc_q ∷ sc_w ∷ sc_e ∷ sc_a ∷ sc_s ∷ sc_d ∷ sc_z ∷ sc_c ∷ sc_4 ∷ sc_r
    ∷ sc_f ∷ sc_v ∷ []

-- `none` is a read of `keymap` out of bounds.
unfoldable pub keyboard_is_key_pressed : KeyboardState → ℕ → Option Bool
keyboard_is_key_pressed keyboard_state kb_value = elim (get_elem? keymap kb_value) [
  | none ↦ none
  | some key_scan_code ↦ some (keyboard_state key_scan_code == 1)
]

-- The loop over the keys from `k` on.
unfoldable pub first_pressed : KeyboardState → ℕ → List Scancode → Option ℕ
first_pressed keyboard_state k [] = none
first_pressed keyboard_state k (key_scan_code ∷ rest) =
    if keyboard_state key_scan_code == 1 then some k else first_pressed keyboard_state (k + 1) rest

unfoldable pub keyboard_get_pressed_key : KeyboardState → Option ℕ
unfolding first_pressed
keyboard_get_pressed_key keyboard_state = first_pressed keyboard_state 0 keymap
