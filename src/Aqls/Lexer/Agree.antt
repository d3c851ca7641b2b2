-- ===== src/Aqls/Lexer/Agree.antt =====
-- `peek` and `next` together: what one call says of the next.
use c_lang_examples.Prelude.{◌≡◌, refl, []}
use c_lang_examples.Prelude.Ended.{done}
use c_lang_examples.TokenQueue.Fifo.{Holds}
use c_lang_examples.Aqls.Token.{AqlsToken}
use c_lang_examples.Aqls.Lexer.{AqlsLexer, aqls_lexer_peek_token, aqls_lexer_next_token}
use c_lang_examples.Aqls.Lexer.Peek.{token_of, IsValid, aqls_lexer_peek_token-token_at}
use c_lang_examples.Aqls.Lexer.Steps.{Moves}
use c_lang_examples.Aqls.Lexer.Next.{
  aqls_lexer_next_token-Steps, IsValid-settled, IsValid-peeked, Moves-inside,
}

-- The token, and the lexer after `peek`, after `next`, and after `next` behind a `peek`.
pub record Agrees (lexer : AqlsLexer) : Type 0 where
  pub token : AqlsToken
  pub peeked : AqlsLexer
  pub direct : AqlsLexer
  pub after : AqlsLexer
  pub peeks : aqls_lexer_peek_token lexer ≡ done (token, peeked)
  pub stays : peeked ≡ record lexer { lookahead = peeked.lookahead }
  pub peeked_valid : IsValid peeked
  pub nexts : aqls_lexer_next_token lexer ≡ done (token, direct)
  pub takes : aqls_lexer_next_token peeked ≡ done (token, after)

-- A well-formed lexer peeks at a token without moving and stays well-formed; `next` returns that
-- token, whether it is asked before the `peek` or behind it.
pub aqls_lexer_peek_token-Agrees : (lexer : AqlsLexer) → IsValid lexer → Agrees lexer
aqls_lexer_peek_token-Agrees lexer v =
    let (queue, e, holds) = aqls_lexer_peek_token-token_at lexer v in
    let valid = IsValid-peeked lexer v queue holds in
    record {
      token = token_of lexer;
      peeked = record lexer { lookahead = queue };
      direct = _;
      after = _;
      peeks = e;
      stays = refl;
      peeked_valid = valid;
      nexts = (aqls_lexer_next_token-Steps lexer v).returns;
      takes = (aqls_lexer_next_token-Steps (record lexer { lookahead = queue }) valid).returns;
    }

-- The token that `next` returns, and the lexer that it leaves.
pub record Advances (lexer : AqlsLexer) : Type 0 where
  pub token : AqlsToken
  pub after : AqlsLexer
  pub returns : aqls_lexer_next_token lexer ≡ done (token, after)
  pub valid : IsValid after
  pub same_text : after.input ≡ lexer.input
  pub same_ignore : after.ignore ≡ lexer.ignore
  pub same_patterns : after.patterns ≡ lexer.patterns
  pub emptied : Holds after.lookahead []
  pub moves : Moves lexer token after.pos

-- `next` of a well-formed lexer returns and leaves it well-formed over the same text, ignored text and
-- patterns, with no token in the lookahead. If nothing but ignored text is left, its token is the end of the text, and the
-- position stays in the text. If no pattern matches behind the ignored text, it is an error there,
-- with the position on that text. Else it is the match of the first pattern that matches behind the
-- ignored text, of the kind of this pattern and not empty, with the position right behind it.
pub aqls_lexer_next_token-Advances : (lexer : AqlsLexer) → IsValid lexer → Advances lexer
aqls_lexer_next_token-Advances lexer v =
    let steps = aqls_lexer_next_token-Steps lexer v in
    record {
      token = token_of lexer;
      after = _;
      returns = steps.returns;
      valid =
          IsValid-settled lexer v steps.after steps.queue
            (Moves-inside lexer (token_of lexer) steps.after steps.moves) steps.emptied;
      same_text = refl;
      same_ignore = refl;
      same_patterns = refl;
      emptied = steps.emptied;
      moves = steps.moves;
    }
