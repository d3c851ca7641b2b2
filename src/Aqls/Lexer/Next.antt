-- ===== src/Aqls/Lexer/Next.antt =====
-- What `next` of a well-formed lexer returns, and where it leaves the lexer.
use c_lang_examples.Prelude.{ℕ, ◌+◌, ◌≤◌, ◌≡◌, refl, ◌∙◌, arith, [], ◌∷◌, length}
use c_lang_examples.TokenQueue.{TokenQueue}
use c_lang_examples.TokenQueue.Fifo.{
  Holds, aqls_token_queue_is_empty-Holds, aqls_token_queue_pop-Holds,
}
use c_lang_examples.Aqls.Token.{token_error, AqlsToken, aqls_token_eof}
use c_lang_examples.Aqls.Lexer.{AqlsLexer, take_token, aqls_lexer_next_token}
use c_lang_examples.Aqls.Lexer.Scan.{Found, ended, failed, matched}
use c_lang_examples.Aqls.Lexer.Peek.{token_of, empty, one, IsValid, token-Found}
use c_lang_examples.Aqls.Lexer.Steps.{Moves, finished, stuck, over, Steps, take_token_lem}
use c_lang_examples.Aqls.Lexer.Read.{next_reads}

-- The token of the lookahead is the one at the position: `next` walks over it.
module _ (lexer : AqlsLexer) (v : IsValid lexer) (rest : TokenQueue AqlsToken)
    (holds : Holds rest [])
    (taken : aqls_lexer_next_token lexer
      ≡ take_token (token_of lexer) (record lexer { lookahead = rest })) where
  pub next_takes :
      Found lexer.ignore lexer.patterns lexer.input lexer.pos (token_of lexer) → Steps lexer
  unfolding take_token aqls_token_eof
  next_takes (ended left e) = record {
    queue = rest;
    after = lexer.pos;
    returns = taken ∙ rw (e, v.agrees) refl;
    emptied = holds;
    moves = finished (omega arith) v.inside left e;
  }
  next_takes (failed from begins h k unmatched e) = record {
    queue = rest;
    after = from;
    returns =
        taken
        ∙ rw e (
            take_token_lem (record lexer { lookahead = rest }) token_error from 0 from v.agrees h
              (omega arith) (omega (arith, v.measured, k)));
    emptied = holds;
    moves = stuck h k begins unmatched e;
  }
  next_takes (matched kind from n begins h first positive k e) = record {
    queue = rest;
    after = from + n;
    returns =
        taken
        ∙ rw e (
            take_token_lem (record lexer { lookahead = rest }) kind from n (from + n) v.agrees h
              refl (omega (arith, v.measured, k)));
    emptied = holds;
    moves = over kind from n h positive refl k begins first e;
  }

-- `next` of a well-formed lexer returns the token at its position, the lookahead is empty after it,
-- and the position moves to the end of the token.
pub aqls_lexer_next_token-Steps : (lexer : AqlsLexer) → IsValid lexer → Steps lexer
unfolding aqls_lexer_next_token
aqls_lexer_next_token-Steps lexer v = elim v.held [
  | empty h ↦ next_reads lexer v h
  | one h ↦
      let (rest, peeked, popped, holds) =
        aqls_token_queue_pop-Holds lexer.lookahead (token_of lexer) [] h in
      next_takes lexer v rest holds
        (rw (aqls_token_queue_is_empty-Holds lexer.lookahead (token_of lexer ∷ []) h, popped) refl)
        (token-Found lexer v)
]

-- A lexer is well-formed wherever its position is inside the input and the lookahead is empty.
pub IsValid-settled :
    (lexer : AqlsLexer)
    → IsValid lexer
    → (pos : ℕ) (queue : TokenQueue AqlsToken) → pos ≤ length lexer.input
    → Holds queue []
    → IsValid (record lexer { pos = pos; cursor = pos; lookahead = queue })
IsValid-settled lexer v pos queue h holds = record {
  measured = v.measured;
  agrees = refl;
  inside = h;
  ignore_bounded = v.ignore_bounded;
  patterns_bounded = v.patterns_bounded;
  held = empty holds;
}

-- It stays well-formed when `peek` puts the token at the position into its lookahead.
pub IsValid-peeked :
    (lexer : AqlsLexer)
    → IsValid lexer
    → (queue : TokenQueue AqlsToken) → Holds queue (token_of lexer ∷ [])
    → IsValid (record lexer { lookahead = queue })
IsValid-peeked lexer v queue holds = record {
  measured = v.measured;
  agrees = v.agrees;
  inside = v.inside;
  ignore_bounded = v.ignore_bounded;
  patterns_bounded = v.patterns_bounded;
  held = one holds;
}

pub Moves-inside :
    (lexer : AqlsLexer) (token : AqlsToken) (after : ℕ)
    → Moves lexer token after
    → after ≤ length lexer.input
Moves-inside lexer token after (finished h k left e) = k
Moves-inside lexer token after (stuck h k begins unmatched e) = omega arith
Moves-inside lexer token after (over kind from n h positive e k begins first f) = k
