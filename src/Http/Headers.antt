-- ===== src/Http/Headers.antt =====
-- The check of the headers of a request (http.c): bytes that may not stand there, and the blank line
-- that ends them. A result that is RESULT_ERR is `none`.
pub mod Sound
pub mod Complete
use c_lang_examples.Prelude.{
  ℕ, zero, suc, ◌+◌, ◌-◌, Bool, true, false, not, ◌&&◌, ◌||◌, ◌==◌, leb, ltb, if◌then◌else◌, Option,
  none, some, List, [], ◌∷◌, length, take,
}
use c_lang_examples.Prelude.Ended.{Ended, done, aborted, undefined}

abbrev pub cr : ℕ
cr = b'\r'

abbrev pub lf : ℕ
lf = b'\n'

-- `iscntrl` in the "C" locale
abbrev pub is_cntrl : ℕ → Bool
is_cntrl c = ltb c 32 || (c == 127)

unfoldable pub http_headers_is_valid_byte : ℕ → Bool
http_headers_is_valid_byte unsafe_byte =
    if unsafe_byte == 0
    then false
    else if is_cntrl unsafe_byte && (not (unsafe_byte == cr) && not (unsafe_byte == lf))
    then false
    else true

-- The state of the search after a byte, or `none` where the byte ends the headers.
unfoldable pub state_after : ℕ → ℕ → Option ℕ
state_after state unsafe_byte =
    if (state == 0) && (unsafe_byte == cr)
    then some 1
    else if (state == 1) && (unsafe_byte == cr)
    then some state
    else if (state == 1) && (unsafe_byte == lf)
    then some 2
    else if (state == 2) && (unsafe_byte == cr)
    then some 3
    else if (state == 3) && (unsafe_byte == lf)
    then none
    else some 0

-- The loop, with the bytes that are left, the state, and the index of the first of them.
unfoldable pub validate_from : List ℕ → ℕ → ℕ → Option ℕ
validate_from [] state i = none
validate_from (unsafe_byte ∷ rest) state i = elim (http_headers_is_valid_byte unsafe_byte) [
  | false ↦ none
  | true ↦ elim (state_after state unsafe_byte) [
    | none ↦ some (i - 2)
    | some next ↦ validate_from rest next (i + 1)
  ]
]

-- The bytes are those of the buffer, and their number is its size.
unfoldable pub http_headers_validate : List ℕ → Ended (Option ℕ)
http_headers_validate unsafe_cstr_buffer =
    if ltb 1 (length unsafe_cstr_buffer)
    then done (validate_from unsafe_cstr_buffer 0 0)
    else aborted
