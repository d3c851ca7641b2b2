-- ===== src/Http/Tests.antt =====
-- Runs of the parts of the server.
use c_lang_examples.Prelude.{
  ℕ, zero, suc, ◌≤◌, ◌≡◌, refl, sym, ap, ◌∙◌, arith, true, false, Option, none, some, List, [], ◌∷◌,
  length, take,
}
use c_lang_examples.Prelude.Ended.{done, aborted}
use c_lang_examples.Http.Headers.{
  cr, lf, http_headers_is_valid_byte, state_after, validate_from, http_headers_validate,
}
use c_lang_examples.Http.Headers.Sound.{EndsAt, http_headers_validate-EndsAt}
use c_lang_examples.Http.Headers.Complete.{http_headers_validate-finds}
use Prim.Native.String.{String}
use c_lang_examples.Http.Scanner.{scanner_next_until_char, connect_bytes, http_method_parse}
use c_lang_examples.Http.Scanner.Split.{Splits, scanner_next_until_char-Splits}
use c_lang_examples.Http.Config.{Strtoull, Config, config_init_from_env, parse_ull}
use c_lang_examples.Http.Config.Settings.{config_init_from_env_lem}
use c_lang_examples.Http.DynamicArray.{
  Realloc, dynamic_array_init, dynamic_array_push_back, dynamic_array_push_back_byte,
}
use c_lang_examples.Http.DynamicArray.Memory.{IsRealloc, Pushed, bytes_of}
use c_lang_examples.Http.DynamicArray.Bytes.{
  dynamic_array_push_back-Pushed, dynamic_array_push_back_byte-Pushed, dynamic_array_init-Holds,
}

abbrev one_line : List ℕ
one_line = b'A' ∷ cr ∷ lf ∷ cr ∷ lf ∷ b'b' ∷ []

one_line-EndsAt : EndsAt one_line 2
unfolding http_headers_validate validate_from state_after http_headers_is_valid_byte
one_line-EndsAt = http_headers_validate-EndsAt one_line 2 refl

http_headers_validate-EndsAt_example : EndsAt one_line 2
unfolding http_headers_validate validate_from state_after http_headers_is_valid_byte
http_headers_validate-EndsAt_example = http_headers_validate-EndsAt one_line 2 refl

http_headers_validate-finds_example :
    (found : ℕ) × (http_headers_validate one_line ≡ done (some found))
    × (found ≤ 2)
    × EndsAt one_line found
http_headers_validate-finds_example =
    http_headers_validate-finds one_line 2 one_line-EndsAt (λ s. absurd (omega (arith, s.0)))

-- One byte stops the server; CR LF CR before the blank line hides it.
stopped : http_headers_validate (b'A' ∷ []) ≡ aborted
unfolding http_headers_validate
stopped = refl

hidden : http_headers_validate (b'A' ∷ cr ∷ lf ∷ cr ∷ cr ∷ lf ∷ cr ∷ lf ∷ []) ≡ done none
unfolding http_headers_validate validate_from state_after http_headers_is_valid_byte
hidden = refl

-- Memory of a size, with the bytes that fit, and zeroes behind them.
abbrev resized : ℕ → List ℕ → List ℕ
resized zero xs = []
resized (suc n) [] = 0 ∷ resized n []
resized (suc n) (x ∷ xs) = x ∷ resized n xs

length-resized : (n : ℕ) (xs : List ℕ) → length (resized n xs) ≡ n
length-resized zero xs = refl
length-resized (suc n) [] = ap suc (length-resized n [])
length-resized (suc n) (x ∷ xs) = ap suc (length-resized n xs)

take-resized :
    (n size : ℕ) (xs : List ℕ) → n ≤ size → n ≤ length xs → take n (resized size xs) ≡ take n xs
take-resized zero size xs h k = refl
take-resized (suc n) zero xs h k = absurd (omega arith)
take-resized (suc n) (suc size) [] h k = absurd (omega arith)
take-resized (suc n) (suc size) (x ∷ xs) h k =
    ap (λ l. x ∷ l) (take-resized n size xs (omega arith) (omega arith))

abbrev resizing : Realloc
resizing old size = some (resized size (bytes_of old))

abbrev given : Option (List ℕ) → List ℕ
given none = []
given (some memory) = memory

resizing-IsRealloc : IsRealloc resizing
resizing-IsRealloc = record {
  sized = λ old size new e. ap length (sym (ap given e)) ∙ length-resized size (bytes_of old);
  kept = λ old size new n e h k.
      ap (take n) (sym (ap given e)) ∙ take-resized n size (bytes_of old) h k;
}

abbrev hello : List ℕ
hello = b'h' ∷ b'e' ∷ b'y' ∷ []

dynamic_array_push_back-Pushed_example :
    Pushed resizing dynamic_array_init [] hello
      (dynamic_array_push_back resizing hello dynamic_array_init)
dynamic_array_push_back-Pushed_example =
    dynamic_array_push_back-Pushed resizing dynamic_array_init [] hello resizing-IsRealloc
      dynamic_array_init-Holds (omega arith) (omega arith)

dynamic_array_push_back_byte-Pushed_example :
    Pushed resizing dynamic_array_init []
      (b'h' ∷ [])
      (dynamic_array_push_back_byte resizing b'h' dynamic_array_init)
dynamic_array_push_back_byte-Pushed_example =
    dynamic_array_push_back_byte-Pushed resizing dynamic_array_init [] resizing-IsRealloc
      dynamic_array_init-Holds (omega arith) b'h'

-- "GET /": the method, up to the space.
abbrev get_line : List ℕ
get_line = b'G' ∷ b'E' ∷ b'T' ∷ b' ' ∷ b'/' ∷ cr ∷ lf ∷ []

scanner_next_until_char-Splits_example :
    Splits get_line 0 7
      (b'G' ∷ b'E' ∷ b'T' ∷ [])
      (b' ' ∷ b'/' ∷ cr ∷ lf ∷ [])
      (scanner_next_until_char get_line (record { input = record { ptr = some 0; len = 7 } }) b' ')
scanner_next_until_char-Splits_example =
    scanner_next_until_char-Splits get_line 0 7 (b'G' ∷ b'E' ∷ b'T' ∷ [])
      (b' ' ∷ b'/' ∷ cr ∷ lf ∷ []) refl b' ' (b'/' ∷ cr ∷ lf ∷ []) refl
      (omega arith, (omega arith, (omega arith, tt)))

-- A slice of three bytes gives one of seven, if the text goes on with the rest of the name.
past_the_end : http_method_parse connect_bytes 0 3 ≡ some (record { ptr = some 0; len = 7 })
unfolding http_method_parse
past_the_end = refl

abbrev config_of_nothing : Config
config_of_nothing = record {
  debug = false;
  server_host = "";
  server_port = 0;
  tcp_backlog = 0;
  read_timeout_ms = 0;
  write_timeout_ms = 0;
  connection_timeout_ms = 0;
}

abbrev port_of : String → Option String
port_of key = some "x"

-- What `strtoull` gives for a text that has no digits.
abbrev no_number : Strtoull
no_number value = (0, false)

config_init_from_env_lem_example :
    config_init_from_env port_of no_number config_of_nothing
    ≡ (true, record config_of_nothing { debug = true; server_host = "x" })
unfolding parse_ull
config_init_from_env_lem_example = config_init_from_env_lem port_of no_number config_of_nothing
