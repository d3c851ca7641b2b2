-- ===== src/Aqls/Parser/Ends.antt =====
-- That the statements of a text end: every statement moves the lexer on.
use mathlib.Core.Bool.{false≢true}
use c_lang_examples.Prelude.{
  ℕ, zero, suc, ◌+◌, ◌-◌, ◌≤◌, ◌<◌, ◌≡◌, inl, inr, refl, sym, ap, ◌∙◌, arith, true, ◌&&◌,
  Bool-cases, Option, none, some, List, length,
}
use c_lang_examples.Prelude.Ended.{done, ◌>>=◌}
use c_lang_examples.Aqls.Token.{AqlsToken, aqls_token_eof, shown, string_view_cmp_sized_cstr}
use c_lang_examples.Aqls.Lexer.{AqlsLexer, aqls_lexer_next_token}
use c_lang_examples.Aqls.Lexer.Peek.{token_of, IsValid, aqls_lexer_peek_token-token_at}
use c_lang_examples.Aqls.Lexer.Steps.{Moves, finished, stuck, over, Steps}
use c_lang_examples.Aqls.Lexer.Next.{
  aqls_lexer_next_token-Steps, IsValid-settled, IsValid-peeked, Moves-inside,
}
use c_lang_examples.Aqls.Ast.{AqlsAstStmt, aqls_ast_statements_append}
use c_lang_examples.Aqls.Parser.{
  AqlsParser, is_id, is_string_literal, write_keyword, is_keyword, parse_statement_write,
  parse_statement, parse_statements_from,
}
use c_lang_examples.Aqls.Parser.Returns.{
  Returns, exits, gives, Returns-then, aqls_ast_statement_write_new-Returns,
  aqls_ast_statements_append-Returns,
}

-- The lexer of a parser, further on in the same text.
pub record IsAt (before : AqlsLexer) (least : ℕ) (lexer : AqlsLexer) : Type 0 where
  pub valid : IsValid lexer
  pub same : lexer.input ≡ before.input
  pub reached : least ≤ lexer.pos

pub Moves-forward :
    (lexer : AqlsLexer) (token : AqlsToken) (after : ℕ)
    → Moves lexer token after
    → lexer.pos ≤ after
Moves-forward lexer token after (finished h k left e) = h
Moves-forward lexer token after (stuck h k begins unmatched e) = h
Moves-forward lexer token after (over kind start n h positive e k begins first f) = omega arith

-- An identifier is behind the position.
pub Moves-id :
    (lexer : AqlsLexer) (token : AqlsToken) (after : ℕ)
    → Moves lexer token after
    → is_id token.kind ≡ true
    → lexer.pos < after
unfolding aqls_token_eof
Moves-id lexer token after (finished h k left e) id =
    absurd (false≢true (sym (ap (λ t. is_id t.kind) e) ∙ id))
Moves-id lexer token after (stuck h k begins unmatched e) id =
    absurd (false≢true (sym (ap (λ t. is_id t.kind) e) ∙ id))
Moves-id lexer token after (over kind start n h positive e k begins first f) id = omega arith

pub Steps-IsAt :
    (lexer : AqlsLexer)
    → IsValid lexer
    → (steps : Steps lexer) (least : ℕ) → least ≤ steps.after
    → IsAt lexer least
        (record lexer { pos = steps.after; cursor = steps.after; lookahead = steps.queue })
Steps-IsAt lexer v steps least h = record {
  valid =
      IsValid-settled lexer v steps.after steps.queue
        (Moves-inside lexer (token_of lexer) steps.after steps.moves) steps.emptied;
  same = refl;
  reached = h;
}

pub next-Returns :
    (lexer : AqlsLexer)
    → IsValid lexer
    → Returns (λ r. IsAt lexer lexer.pos r.1) (aqls_lexer_next_token lexer)
next-Returns lexer v =
    let steps = aqls_lexer_next_token-Steps lexer v in
    gives _ steps.returns (
      Steps-IsAt lexer v steps lexer.pos
        (Moves-forward lexer (token_of lexer) steps.after steps.moves))

-- `next` walks over an identifier.
pub next_id-Returns :
    (lexer : AqlsLexer)
    → IsValid lexer
    → is_id (token_of lexer).kind ≡ true
    → Returns (λ r. IsAt lexer (lexer.pos + 1) r.1) (aqls_lexer_next_token lexer)
next_id-Returns lexer v id =
    let steps = aqls_lexer_next_token-Steps lexer v in
    gives _ steps.returns (
      Steps-IsAt lexer v steps (lexer.pos + 1)
        (let h = Moves-id lexer (token_of lexer) steps.after steps.moves id in omega (arith, h)))

pub parse_statement_write-Returns :
    (parser : AqlsParser)
    → IsValid parser.lexer
    → is_id (token_of parser.lexer).kind ≡ true
    → Returns
        (λ r. IsAt parser.lexer (parser.lexer.pos + 1) (r.1).lexer)
        (parse_statement_write parser)
unfolding parse_statement_write
parse_statement_write-Returns parser v id =
    Returns-then (next_id-Returns parser.lexer v id) (λ write w.
      Returns-then (next-Returns write.1 w.valid) (λ operand o.
        elim (Bool-cases (is_string_literal (operand.0).kind)) [
          | inl e ↦ rw e (
              Returns-then (aqls_ast_statement_write_new-Returns write.0 operand.0 parser.heap)
                (λ made m. gives _ refl (record {
                  valid = o.valid;
                  same = o.same ∙ w.same;
                  reached = omega (arith, o.reached, w.reached);
                })))
          | inr e ↦ rw e (exits refl)
        ]))

pub is_keyword-id :
    (input : List ℕ) (token : AqlsToken) (keyword : List ℕ) (len : ℕ)
    → is_keyword input token keyword len ≡ true
    → is_id token.kind ≡ true
unfolding is_keyword
is_keyword-id input token keyword len e = elim (Bool-cases (is_id token.kind)) [
  | inl yes_id ↦ yes_id
  | inr no_id ↦ absurd (
      false≢true (
        sym (ap (λ b. b && string_view_cmp_sized_cstr (shown input token.lexeme) keyword len) no_id)
        ∙ e))
]

-- Where the lexer must be after `parse_statement`: further on if there is a statement.
abbrev pub target : ℕ → Option AqlsAstStmt → ℕ
target pos none = pos
target pos (some statement) = pos + 1

pub parse_statement-Returns :
    (parser : AqlsParser)
    → IsValid parser.lexer
    → Returns
        (λ r. IsAt parser.lexer (target parser.lexer.pos r.0) (r.1).lexer)
        (parse_statement parser)
unfolding parse_statement
parse_statement-Returns parser v =
    let (queue, e, holds) = aqls_lexer_peek_token-token_at parser.lexer v in
    let lexer = record parser.lexer { lookahead = queue } in
    let valid : IsValid lexer = IsValid-peeked parser.lexer v queue holds in
    rw e
      (elim (Bool-cases (is_keyword parser.lexer.input (token_of parser.lexer) write_keyword 5)) [
        | inl k ↦ rw k (
            Returns-then
              (parse_statement_write-Returns (record parser { lexer = lexer }) valid
                (is_keyword-id parser.lexer.input (token_of parser.lexer) write_keyword 5 k))
              (λ made m.
                gives _ refl (record { valid = m.valid; same = m.same; reached = m.reached })))
        | inr k ↦ rw k (gives _ refl (record { valid = valid; same = refl; reached = omega arith }))
      ])

-- A loop that runs on the fuel, by how much text is left.
abbrev pub Loops : ℕ → Type 0
Loops fuel =
    (last : Option ℕ) (parser : AqlsParser)
    → IsValid parser.lexer
    → length parser.lexer.input - parser.lexer.pos < fuel
    → Returns (λ r. IsAt parser.lexer parser.lexer.pos r.lexer)
        (parse_statements_from fuel last parser)

-- What the loop does with a statement that is parsed.
pub statement-Returns :
    (fuel : ℕ)
    → Loops fuel
    → (last : Option ℕ) (parser : AqlsParser) → IsValid parser.lexer
    → length parser.lexer.input - parser.lexer.pos < suc fuel
    → (statement : AqlsAstStmt) (after : AqlsParser)
    → IsAt parser.lexer (parser.lexer.pos + 1) after.lexer
    → Returns
        (λ r. IsAt parser.lexer parser.lexer.pos r.lexer)
        (do
          appended ← aqls_ast_statements_append last statement after.heap
          parse_statements_from fuel (some appended.0) (record after { heap = appended.1 }))
statement-Returns fuel loop last parser v h statement after at =
    Returns-then (aqls_ast_statements_append-Returns last statement after.heap) (λ appended a.
      elim (loop (some appended.0) (record after { heap = appended.1 }) at.valid
        (omega (arith, h, at.reached, ap length at.same, at.valid.inside))) [
          | exits e ↦ exits e
          | gives final e there ↦ gives final e (record {
            valid = there.valid;
            same = there.same ∙ at.same;
            reached = omega (arith, there.reached, at.reached);
          })
        ])

pub parsed-Returns :
    (fuel : ℕ)
    → Loops fuel
    → (last : Option ℕ) (parser : AqlsParser) → IsValid parser.lexer
    → length parser.lexer.input - parser.lexer.pos < suc fuel
    → (statement : Option AqlsAstStmt) (after : AqlsParser)
    → IsAt parser.lexer (target parser.lexer.pos statement) after.lexer
    → Returns
        (λ r. IsAt parser.lexer parser.lexer.pos r.lexer)
        (elim statement [
          | none ↦ done after
          | some statement ↦ (do
            appended ← aqls_ast_statements_append last statement after.heap
            parse_statements_from fuel (some appended.0) (record after { heap = appended.1 }))
        ])
parsed-Returns fuel loop last parser v h none after at = gives _ refl at
parsed-Returns fuel loop last parser v h (some statement) after at =
    statement-Returns fuel loop last parser v h statement after at

-- With more fuel than there is text left, the loop over the statements ends.
pub parse_statements_from-Returns : (fuel : ℕ) → Loops fuel
unfolding parse_statements_from
parse_statements_from-Returns zero last parser v h = absurd (omega arith)
parse_statements_from-Returns (suc fuel) last parser v h =
    Returns-then (parse_statement-Returns parser v) (λ parsed at.
      parsed-Returns fuel (parse_statements_from-Returns fuel) last parser v h parsed.0 parsed.1 at)
