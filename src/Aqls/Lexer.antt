-- ===== src/Aqls/Lexer.antt =====
-- The lexer (lexer.c, lexer.h). `regexec` of the C library is an argument: for each of the three
-- compiled patterns, the length of the match at the start of the text behind the cursor, if there
-- is one. The patterns begin with `^`, so a match starts where the text does.
pub mod Match
pub mod Scan
pub mod Peek
pub mod Steps
pub mod Read
pub mod Next
pub mod Agree
use c_lang_examples.Prelude.{
  ℕ, zero, suc, ◌+◌, ◌-◌, Bool, true, false, not, ◌&&◌, ◌==◌, leb, ltb, if◌then◌else◌, Option, none,
  some, List, [], ◌∷◌, length, drop, get_elem?,
}
use c_lang_examples.Prelude.Ended.{Ended, done, aborted, exited, undefined, ◌>>=◌, ◌>>◌}
use c_lang_examples.TokenQueue.{
  TokenQueue, aqls_token_queue_init, aqls_token_queue_is_empty, aqls_token_queue_peek,
  aqls_token_queue_pop, aqls_token_queue_append,
}
use c_lang_examples.Aqls.Token.{
  Strview, AqlsTokenKind, token_error, token_eof, token_string_literal, token_id, AqlsToken,
  aqls_token_eof,
}

abbrev pub Regex : Type 0
Regex = List ℕ → Option ℕ

pub record AqlsLexerPattern : Type 0 where
  pub token_kind : AqlsTokenKind
  pub regex : Regex

pub record AqlsLexer : Type 0 where
  pub input : List ℕ
  pub input_len : ℕ
  pub cursor : ℕ
  pub pos : ℕ
  pub ignore : Regex
  pub patterns : List AqlsLexerPattern
  pub lookahead : TokenQueue AqlsToken

abbrev pub aqls_lookahead : ℕ
aqls_lookahead = 10

-- The patterns "^[ \t\r\n]+", "^'[^']*'" and "^[a-zA-Z#][a-zA-Z#\\.]*", compiled; whether `calloc`
-- gives the memory of the queue; and the token of zeroes that it holds at first.
unfoldable pub aqls_lexer_init : Regex → Regex → Regex → Bool → AqlsToken → List ℕ → Ended AqlsLexer
aqls_lexer_init ignore string_literal id allocated blank input = do
  lookahead ← aqls_token_queue_init allocated blank aqls_lookahead
  done (record {
    input = input;
    input_len = length input;
    cursor = 0;
    pos = 0;
    ignore = ignore;
    patterns =
        record { token_kind = token_string_literal; regex = string_literal }
        ∷ record { token_kind = token_id; regex = id }
        ∷ [];
    lookahead = lookahead;
  })

unfoldable pub aqls_lexer_has_more_tokens : AqlsLexer → Bool
aqls_lexer_has_more_tokens lexer = ltb lexer.pos lexer.input_len

unfoldable pub advance : AqlsLexer → ℕ → Ended AqlsLexer
advance lexer offset =
    if leb (lexer.pos + offset) lexer.input_len
    then done (record lexer { pos = lexer.pos + offset; cursor = lexer.cursor + offset })
    else aborted

unfoldable pub advance_token : AqlsLexer → AqlsToken → Ended AqlsLexer
unfolding advance
advance_token lexer token =
    if leb (lexer.pos + token.lexeme.len) lexer.input_len
    then advance lexer token.lexeme.len
    else aborted

unfoldable pub skip_ignored : AqlsLexer → Ended AqlsLexer
unfolding advance
skip_ignored lexer = elim (lexer.ignore (drop lexer.cursor lexer.input)) [
  | none ↦ done lexer
  | some match_len ↦ if ltb 0 match_len then advance lexer match_len else aborted
]

abbrev pub token_at_cursor : AqlsTokenKind → ℕ → ℕ → AqlsToken
token_at_cursor kind cursor len = record {
  kind = kind;
  lexeme = record { str = some cursor; len = len };
}

-- The loop over the patterns: the token of the first that matches.
unfoldable pub match_patterns : List AqlsLexerPattern → List ℕ → ℕ → Ended (Option AqlsToken)
match_patterns [] input cursor = done none
match_patterns (pattern ∷ patterns) input cursor = elim (pattern.regex (drop cursor input)) [
  | none ↦ match_patterns patterns input cursor
  | some match_len ↦
      if ltb 0 match_len
      then done (some (token_at_cursor pattern.token_kind cursor match_len))
      else aborted
]

abbrev pub error_token : ℕ → AqlsToken
error_token cursor = token_at_cursor token_error cursor 0

-- The token is appended to the lookahead, and returned.
unfoldable pub look_ahead : AqlsLexer → AqlsToken → Ended (AqlsToken × AqlsLexer)
look_ahead lexer token = do
  lookahead ← aqls_token_queue_append lexer.lookahead token
  done (token, record lexer { lookahead = lookahead })

-- The end of the ignored text at the cursor, as `peek` finds it: by how much it moves on.
unfoldable pub ignored_ahead : AqlsLexer → Ended ℕ
ignored_ahead lexer = elim (lexer.ignore (drop lexer.cursor lexer.input)) [
  | none ↦ done 0
  | some match_len ↦
      if ltb 0 match_len
      then if leb (lexer.pos + match_len) lexer.input_len then done match_len else aborted
      else aborted
]

-- The token of `peek` at a cursor that has text behind it.
unfoldable pub peek_at : AqlsLexer → ℕ → Ended (AqlsToken × AqlsLexer)
unfolding look_ahead
peek_at lexer cursor = do
  found ← match_patterns lexer.patterns lexer.input cursor
  elim found [ some token ↦ look_ahead lexer token | none ↦ look_ahead lexer (error_token cursor) ]

unfoldable pub aqls_lexer_peek_token : AqlsLexer → Ended (AqlsToken × AqlsLexer)
unfolding aqls_lexer_has_more_tokens look_ahead ignored_ahead peek_at
aqls_lexer_peek_token lexer =
    if not (aqls_token_queue_is_empty lexer.lookahead)
    then (do token ← aqls_token_queue_peek lexer.lookahead; done (token, lexer))
    else if not (aqls_lexer_has_more_tokens lexer)
    then look_ahead lexer aqls_token_eof
    else (do
      skipped ← ignored_ahead lexer
      if leb lexer.input_len (lexer.pos + skipped)
          then look_ahead lexer aqls_token_eof
          else peek_at lexer (lexer.cursor + skipped))

unfoldable pub aqls_lexer_peek_tokens : AqlsLexer → ℕ → List AqlsToken → ℕ
aqls_lexer_peek_tokens lexer n tokens = 0

-- A token of the lookahead is taken: the cursor walks up to it, and over it.
unfoldable pub take_token : AqlsToken → AqlsLexer → Ended (AqlsToken × AqlsLexer)
unfolding advance_token
take_token token lexer = elim token.lexeme.str [
  | none ↦ done (token, lexer)
  | some str ↦
      if leb lexer.cursor str
      then (do
        there ← advance lexer (str - lexer.cursor)
        behind ← advance_token there token
        done (token, behind))
      else undefined
]

-- The token of `next` behind the ignored text.
unfoldable pub next_at : AqlsLexer → Ended (AqlsToken × AqlsLexer)
unfolding advance_token
next_at lexer = do
  found ← match_patterns lexer.patterns lexer.input lexer.cursor
  elim found [
    | some token ↦ (do behind ← advance_token lexer token; done (token, behind))
    | none ↦ done (error_token lexer.cursor, lexer)
  ]

unfoldable pub aqls_lexer_next_token : AqlsLexer → Ended (AqlsToken × AqlsLexer)
unfolding aqls_lexer_has_more_tokens skip_ignored take_token next_at
aqls_lexer_next_token lexer =
    if not (aqls_token_queue_is_empty lexer.lookahead)
    then (do
      popped ← aqls_token_queue_pop lexer.lookahead
      take_token popped.0 (record lexer { lookahead = popped.1 }))
    else if not (aqls_lexer_has_more_tokens lexer)
    then done (aqls_token_eof, lexer)
    else (do
      skipped ← skip_ignored lexer
      if not (aqls_lexer_has_more_tokens skipped)
          then done (aqls_token_eof, skipped)
          else next_at skipped)

-- The lines and columns of `aqls_lexer_get_line_column_from_pos`: the loop over the text, with
-- `rounds` characters to go.
unfoldable pub line_column_from : ℕ → List ℕ → ℕ → ℕ → ℕ × ℕ
line_column_from zero text line column = (line, column)
line_column_from (suc rounds) [] line column = (line, column)
line_column_from (suc rounds) (c ∷ text) line column =
    line_column_from rounds text (if c == b'\n' then line + 1 else line)
      (if c == b'\n' then 1 else column + 1)

unfoldable pub aqls_lexer_get_line_column_from_pos : AqlsLexer → ℕ → ℕ × ℕ
aqls_lexer_get_line_column_from_pos lexer pos = line_column_from pos lexer.input 1 1

unfoldable pub aqls_lexer_get_line_column : AqlsLexer → ℕ × ℕ
unfolding aqls_lexer_get_line_column_from_pos
aqls_lexer_get_line_column lexer = aqls_lexer_get_line_column_from_pos lexer lexer.pos

-- The loop stops at the cursor, wherever the input ends.
unfoldable pub aqls_lexer_get_line_column_from_cursor : AqlsLexer → ℕ → Ended (ℕ × ℕ)
aqls_lexer_get_line_column_from_cursor lexer cursor =
    if leb cursor (length lexer.input)
    then done (line_column_from cursor lexer.input 1 1)
    else undefined

-- The compiled patterns and the memory of the queue are given back; nothing of them is kept.
unfoldable pub aqls_lexer_free : AqlsLexer → AqlsLexer
aqls_lexer_free lexer = record lexer { input = []; input_len = 0; cursor = 0; pos = 0 }
