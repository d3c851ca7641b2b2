-- ===== src/Aqls/Lexer/Steps.antt =====
-- What a call of `next` returns and leaves, and how it walks over a token.
use c_lang_examples.Prelude.{ℕ, ◌+◌, ◌-◌, ◌≤◌, ◌<◌, ◌≡◌, refl, arith, le→leb, [], length, drop}
use c_lang_examples.Prelude.Ended.{done}
use c_lang_examples.TokenQueue.{TokenQueue}
use c_lang_examples.TokenQueue.Fifo.{Holds}
use c_lang_examples.Aqls.Token.{AqlsTokenKind, AqlsToken, aqls_token_eof}
use c_lang_examples.Aqls.Lexer.{
  AqlsLexer, advance, advance_token, token_at_cursor, error_token, take_token,
  aqls_lexer_next_token,
}
use c_lang_examples.Aqls.Lexer.Match.{NoMatch, FirstMatch}
use c_lang_examples.Aqls.Lexer.Scan.{skip}
use c_lang_examples.Aqls.Lexer.Peek.{token_of, moved, start}

-- Where `next` leaves the position, by the token that it returns: nothing but ignored text is left,
-- and the token is the end of the text; or the position is behind the ignored text, where no pattern
-- matches, and the token is an error there; or it is right behind the match of the first pattern that
-- matches behind the ignored text, and the token is this match, of the kind of the pattern.
pub data Moves (lexer : AqlsLexer) (token : AqlsToken) (after : ℕ) : Type 0 where
  finished :
      lexer.pos ≤ after
      → after ≤ length lexer.input
      → skip lexer.ignore lexer.input lexer.pos ≡ length lexer.input
      → token ≡ aqls_token_eof
      → Moves lexer token after
  stuck :
      lexer.pos ≤ after
      → after < length lexer.input
      → skip lexer.ignore lexer.input lexer.pos ≡ after
      → NoMatch lexer.patterns (drop after lexer.input)
      → token ≡ error_token after
      → Moves lexer token after
  over :
      (kind : AqlsTokenKind) (start n : ℕ)
      → lexer.pos ≤ start
      → 0 < n
      → start + n ≡ after
      → after ≤ length lexer.input
      → skip lexer.ignore lexer.input lexer.pos ≡ start
      → FirstMatch lexer.patterns (drop start lexer.input) kind n
      → token ≡ token_at_cursor kind start n
      → Moves lexer token after

-- What `next` returns and leaves.
pub record Steps (lexer : AqlsLexer) : Type 0 where
  pub queue : TokenQueue AqlsToken
  pub after : ℕ
  pub returns :
      aqls_lexer_next_token lexer
      ≡ done (token_of lexer, record lexer { pos = after; cursor = after; lookahead = queue })
  pub emptied : Holds queue []
  pub moves : Moves lexer (token_of lexer) after

pub take_token_lem :
    (lexer : AqlsLexer) (kind : AqlsTokenKind) (start n after : ℕ)
    → lexer.cursor ≡ lexer.pos
    → lexer.pos ≤ start
    → start + n ≡ after
    → after ≤ lexer.input_len
    → take_token (token_at_cursor kind start n) lexer
      ≡ done (token_at_cursor kind start n, moved lexer after)
unfolding take_token advance advance_token
take_token_lem lexer kind start n after agrees h ends k =
    rw
      (
        le→leb lexer.cursor start (omega (arith, agrees)),
        le→leb (lexer.pos + (start - lexer.cursor)) lexer.input_len (omega (arith, agrees, ends)),
        le→leb (lexer.pos + (start - lexer.cursor) + n) lexer.input_len
            (omega (arith, agrees, ends)),
        (let e : lexer.pos + (start - lexer.cursor) ≡ start = omega (arith, agrees) in e),
        (let e : lexer.cursor + (start - lexer.cursor) ≡ start = omega (arith, agrees) in e),
        ends,
      )
      refl
