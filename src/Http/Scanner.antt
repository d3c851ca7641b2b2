-- ===== src/Http/Scanner.antt =====
-- Slices of strings and the scanner (str.c, scanner.c), and the names of the methods (http/method.c,
-- `http_method_parse` of http.c). A pointer is its offset in the one text that is scanned, and the
-- null pointer is `none`. A result that is RESULT_ERR is `none`.
pub mod Split
use Prim.Native.String.{String}
use c_lang_examples.Prelude.{
  ℕ, zero, suc, ◌+◌, ◌-◌, Bool, true, false, not, ◌&&◌, ◌||◌, ◌==◌, leb, ltb, if◌then◌else◌, Option,
  none, some, List, [], ◌∷◌, length, take, drop,
}

pub record StrSlice : Type 0 where
  pub ptr : Option ℕ
  pub len : ℕ

unfoldable pub str_slice_empty : StrSlice
str_slice_empty = record { ptr = none; len = 0 }

unfoldable pub str_slice_from_buffer : Option ℕ → ℕ → StrSlice
str_slice_from_buffer buf buf_len = record { ptr = buf; len = buf_len }

unfoldable pub str_slice_is_empty : StrSlice → Bool
str_slice_is_empty s = elim s.ptr [ none ↦ true | some ptr ↦ s.len == 0 ]

-- The bytes of a slice.
abbrev pub bytes_at : List ℕ → ℕ → ℕ → List ℕ
bytes_at text ptr len = take len (drop ptr text)

-- `memchr`: the first place of a byte.
abbrev pub first_char : ℕ → List ℕ → Option ℕ
first_char c [] = none
first_char c (b ∷ bytes) = elim (b == c) [
  | true ↦ some 0
  | false ↦ elim (first_char c bytes) [ none ↦ none | some offset ↦ some (suc offset) ]
]

-- Whether bytes begin with a pattern.
abbrev pub begins : List ℕ → List ℕ → Bool
begins [] bytes = true
begins (p ∷ pattern) [] = false
begins (p ∷ pattern) (b ∷ bytes) = (b == p) && begins pattern bytes

-- `memmem`: the first place of a pattern.
abbrev pub first_slice : List ℕ → List ℕ → Option ℕ
first_slice pattern [] = elim pattern [ [] ↦ some 0 | p ∷ rest ↦ none ]
first_slice pattern (b ∷ bytes) = elim (begins pattern (b ∷ bytes)) [
  | true ↦ some 0
  | false ↦ elim (first_slice pattern bytes) [ none ↦ none | some offset ↦ some (suc offset) ]
]

pub record Scanner : Type 0 where
  pub input : StrSlice

-- What both searches do with the place that is found.
abbrev pub split_at : Option ℕ → ℕ → ℕ → Option (StrSlice × Scanner)
split_at found ptr len = elim found [
  | none ↦ none
  | some offset ↦ some (
    record { ptr = some ptr; len = offset },
    record { input = record { ptr = some (ptr + offset); len = len - offset } },
  )
]

unfoldable pub scanner_next_until_char : List ℕ → Scanner → ℕ → Option (StrSlice × Scanner)
scanner_next_until_char text s c = if str_slice_is_empty s.input then none else elim s.input.ptr [
  | none ↦ none
  | some ptr ↦ split_at (first_char c (bytes_at text ptr s.input.len)) ptr s.input.len
]

unfoldable pub scanner_next_until_slice : List ℕ → Scanner → List ℕ → Option (StrSlice × Scanner)
scanner_next_until_slice text s pattern =
    if str_slice_is_empty s.input then none else elim s.input.ptr [
      | none ↦ none
      | some ptr ↦ split_at (first_slice pattern (bytes_at text ptr s.input.len)) ptr s.input.len
    ]

unfoldable pub scanner_next_until_end : Scanner → Option (StrSlice × Scanner)
scanner_next_until_end s = if str_slice_is_empty s.input then none else elim s.input.ptr [
  | none ↦ none
  | some ptr ↦ some (
    s.input,
    record { input = record { ptr = some (ptr + s.input.len); len = s.input.len - s.input.len } },
  )
]

pub data HttpMethod : Type 0 where
  get put post head trace delete connect options : HttpMethod

-- The table of names; every method of the enumeration is below the count.
unfoldable pub http_method_cstr : HttpMethod → String
http_method_cstr get = "GET"
http_method_cstr put = "PUT"
http_method_cstr post = "POST"
http_method_cstr head = "HEAD"
http_method_cstr trace = "TRACE"
http_method_cstr delete = "DELETE"
http_method_cstr connect = "CONNECT"
http_method_cstr options = "OPTIONS"

abbrev pub http_request_method_max_size : ℕ
http_request_method_max_size = 7

-- "CONNECT"
abbrev pub connect_bytes : List ℕ
connect_bytes = b'C' ∷ b'O' ∷ b'N' ∷ b'N' ∷ b'E' ∷ b'C' ∷ b'T' ∷ []

-- The pointer is not null; `memcmp` compares as many bytes as the name has, of the text.
unfoldable pub http_method_parse : List ℕ → ℕ → ℕ → Option StrSlice
http_method_parse text ptr len =
    if ltb http_request_method_max_size len
    then none
    else if begins connect_bytes (drop ptr text)
    then some (record { ptr = some ptr; len = 7 })
    else none
