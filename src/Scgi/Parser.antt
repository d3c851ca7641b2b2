-- ===== src/Scgi/Parser.antt =====
-- The parser of requests (scgi.c, scgi.h). A pointer into the input buffer is its offset. Of what
-- the parser writes to the standard error stream, the header names, header values and the body that
-- it reports are kept, as the bytes that it copies; the other messages are not.
pub mod Walk
pub mod Ends
pub mod Request
pub mod Whole
use c_lang_examples.Prelude.{
  ℕ, zero, suc, ◌+◌, ◌-◌, ◌^◌, u64, Bool, true, false, not, ◌&&◌, ◌==◌, leb, ltb, if◌then◌else◌,
  Option, none, some, List, [], ◌∷◌, ◌++◌, length, take, drop, get_elem?,
}
use c_lang_examples.Prelude.Ended.{Ended, done, aborted, undefined, unfinished, ◌>>=◌}

pub data ScgiParserState : Type 0 where
  parsing_header_name parsing_header_value parsing_body finished : ScgiParserState

pub record ScgiParser : Type 0 where
  pub state : ScgiParserState
  pub input_buffer : List ℕ
  pub input_buffer_size : ℕ
  pub cursor_start : ℕ
  pub cursor_end : ℕ

pub data Report : Type 0 where
  header_name header_value body : List ℕ → Report

-- A parser and what it has reported.
pub record Run : Type 0 where
  pub parser : ScgiParser
  pub reports : List Report

unfoldable pub scgi_parser_init : List ℕ → ℕ → Ended ScgiParser
scgi_parser_init input_buffer input_buffer_size =
    if ltb 0 input_buffer_size
    then done (record {
      state = parsing_header_name;
      input_buffer = input_buffer;
      input_buffer_size = input_buffer_size;
      cursor_start = 0;
      cursor_end = 0;
    })
    else aborted

unfoldable pub scgi_parser_eof : ScgiParser → Bool
scgi_parser_eof parser = leb parser.input_buffer_size parser.cursor_end

unfoldable pub scgi_parser_cursor_size : ScgiParser → ℕ
scgi_parser_cursor_size parser = u64 (parser.cursor_end + 2 ^ 64 - parser.cursor_start)

-- The bytes of `memcpy(to, parser->cursor_start, byte_len)`; a read outside the buffer is undefined.
abbrev pub copied : ℕ → ScgiParser → Ended (List ℕ)
copied byte_len parser =
    if leb (parser.cursor_start + byte_len) (length parser.input_buffer)
    then done (take byte_len (drop parser.cursor_start parser.input_buffer))
    else undefined

abbrev pub is_finished : ScgiParserState → Bool
is_finished finished = true
is_finished parsing_header_name = false
is_finished parsing_header_value = false
is_finished parsing_body = false

-- The size of the arrays that a header name, a header value and the body are copied to.
abbrev pub copy_size : ℕ
copy_size = 256

-- How a round of the loop ends: it goes on, or the function returns a code.
pub data Round : Type 0 where
  goes : Run → Round
  returns : ℕ → Run → Round

-- `cursor_end++`
abbrev pub skip : Run → Run
skip run = record run { parser = record (run.parser) { cursor_end = run.parser.cursor_end + 1 } }

-- `state = next`, `cursor_end++`, `cursor_start = cursor_end`
abbrev pub enter : ScgiParserState → Run → Run
enter next run = record run {
  parser = record (run.parser) {
    state = next;
    cursor_end = run.parser.cursor_end + 1;
    cursor_start = run.parser.cursor_end + 1;
  };
}

abbrev pub reporting : Report → Run → Run
reporting report run = record run { reports = run.reports ++ report ∷ [] }

-- A header name or value ends: it is copied and reported, if it fits.
unfoldable pub ends_header : (List ℕ → Report) → ScgiParserState → Run → Ended Round
ends_header report next run =
    if leb (copy_size - 1) (scgi_parser_cursor_size run.parser) then done (returns 1 run) else (do
      bytes ← copied (scgi_parser_cursor_size run.parser) run.parser
      done (goes (reporting (report bytes) (enter next run))))

unfoldable pub name_round : ℕ → Run → Ended Round
name_round c run =
    if c == b','
    then done (goes (enter parsing_body run))
    else if not (c == 0)
    then done (goes (skip run))
    else ends_header header_name parsing_header_value run

unfoldable pub value_round : ℕ → Run → Ended Round
value_round c run =
    if not (c == 0)
    then done (goes (skip run))
    else ends_header header_value parsing_header_name run

-- The byte at `cursor_end`, and what a round does with it.
abbrev pub with_byte : (ℕ → Run → Ended Round) → Run → Ended Round
with_byte read run = elim (get_elem? run.parser.input_buffer run.parser.cursor_end) [
  | none ↦ undefined
  | some c ↦ read c run
]

-- The body of the loop, by the state; the loop does not run in the state that is finished.
abbrev pub round_in : ScgiParserState → Run → Ended Round
round_in parsing_header_name run = with_byte name_round run
round_in parsing_header_value run = with_byte value_round run
round_in parsing_body run = done (goes (skip run))
round_in finished run = undefined

unfoldable pub round : Run → Ended Round
round run = round_in run.parser.state run

abbrev pub loops : Run → Bool
loops run = not (is_finished run.parser.state) && not (scgi_parser_eof run.parser)

unfoldable pub rounds : ℕ → Run → Ended Round
rounds zero run = unfinished
rounds (suc fuel) run = elim (loops run) [
  | false ↦ done (goes run)
  | true ↦ round run >>= λ ended. elim ended [
    | goes next ↦ rounds fuel next
    | returns code last ↦ done (returns code last)
  ]
]

abbrev pub is_body : ScgiParserState → Bool
is_body parsing_body = true
is_body parsing_header_name = false
is_body parsing_header_value = false
is_body finished = false

-- What follows the loop.
unfoldable pub finish : Run → Ended (ℕ × Run)
finish run =
    if scgi_parser_eof run.parser && is_body run.parser.state
    then if leb (copy_size - 1) (scgi_parser_cursor_size run.parser) then done (1, run) else (do
      bytes ← copied (scgi_parser_cursor_size run.parser) run.parser
      done (
        0,
        reporting (body bytes) (record run {
          parser = record (run.parser) { state = finished; cursor_start = run.parser.cursor_end };
        }),
      ))
    else done (1, run)

unfoldable pub scgi_parser_parse : ℕ → ScgiParser → Ended (ℕ × Run)
scgi_parser_parse fuel parser = do
  ended ← rounds fuel (record { parser = parser; reports = [] })
  elim ended [ goes run ↦ finish run | returns code run ↦ done (code, run) ]
