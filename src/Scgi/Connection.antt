-- ===== src/Scgi/Connection.antt =====
-- A connection (`connection_handle` of main.c, and strutils.c), up to the response. What arrives at
-- the socket is a list of bytes, behind which the peer has closed it; `strtoul` is an argument: the
-- number that it reads, and whether `errno` is set. The messages are not modelled.
pub mod Serve
use c_lang_examples.Prelude.{
  ℕ, zero, suc, ◌+◌, ◌-◌, ◌^◌, Bool, true, false, not, ◌&&◌, ◌||◌, ◌==◌, leb, ltb, if◌then◌else◌,
  Option, none, some, List, [], ◌∷◌, ◌++◌, length, take, drop, set, replicate, write_at,
}
use c_lang_examples.Prelude.Ended.{Ended, done, undefined, ◌>>=◌}
use c_lang_examples.Scgi.Parser.{Run, scgi_parser_init, scgi_parser_parse}
use c_lang_examples.Scgi.Memory.{is_digit}

abbrev pub Strtoul : Type 0
Strtoul = List ℕ → ℕ × Bool

abbrev pub ulong_max : ℕ
ulong_max = 2 ^ 64 - 1

abbrev pub scgi_headers_max_size : ℕ
scgi_headers_max_size = 1024

-- The number, or `none` for 1.
unfoldable pub cstr_parse_size_t : Strtoul → List ℕ → Option ℕ
cstr_parse_size_t strtoul cstr =
    let read = strtoul cstr in
    if read.1 then none else if leb ulong_max read.0 then none else some read.0

abbrev pub max_digits : ℕ
max_digits = 9

-- The array of digits, of 16 zeroes at first.
abbrev pub no_digits : List ℕ
no_digits = replicate 16 0

-- A byte of the size of the headers: the digits go on with the array, or end, or are bad.
pub data SizeByte : Type 0 where
  more : List ℕ → SizeByte
  colon bad : SizeByte

unfoldable pub size_byte : ℕ → ℕ → List ℕ → SizeByte
size_byte c digits_count digits =
    if c == b':'
    then colon
    else if not (is_digit c)
    then bad
    else if leb max_digits digits_count
    then bad
    else more (set digits digits_count c)

-- The loop that reads the size: the digits, and what arrives behind the colon.
unfoldable pub read_size : List ℕ → ℕ → List ℕ → Option (List ℕ × List ℕ)
read_size [] digits_count digits = none
read_size (c ∷ socket) digits_count digits = elim (size_byte c digits_count digits) [
  | more longer ↦ read_size socket (digits_count + 1) longer
  | colon ↦ some (digits, socket)
  | bad ↦ none
]

-- The connection is closed without a response, or the parser has run, and a response follows.
pub data Handled : Type 0 where
  closed : Handled
  parsed : ℕ → Run → Handled

-- The comma behind the headers, with the headers in the input buffer. Where the socket is closed
-- before the comma, the byte that is tested was never written. The parser is given the part of the
-- buffer that has the headers and the comma.
unfoldable pub read_comma : ℕ → List ℕ → List ℕ → Ended Handled
read_comma fuel headers [] = undefined
read_comma fuel headers (dummy ∷ socket) = if not (dummy == b',') then done closed else (do
  parser ← scgi_parser_init (headers ++ dummy ∷ []) (length (headers ++ dummy ∷ []))
  result ← scgi_parser_parse fuel parser
  done (parsed result.0 result.1))

-- The headers of a size that is read.
unfoldable pub read_headers : ℕ → ℕ → List ℕ → Ended Handled
read_headers fuel headers_size socket =
    if leb scgi_headers_max_size headers_size
    then done closed
    else if ltb (length socket) headers_size
    then done closed
    else read_comma fuel (take headers_size socket) (drop headers_size socket)

unfoldable pub connection_handle : Strtoul → ℕ → List ℕ → Ended Handled
connection_handle strtoul fuel socket = elim (read_size socket 0 no_digits) [
  | none ↦ done closed
  | some size ↦ elim (cstr_parse_size_t strtoul size.0) [
    | none ↦ done closed
    | some headers_size ↦ read_headers fuel headers_size size.1
  ]
]
