-- ===== src/Aqls/Parser/Whole.antt =====
-- That parsing ends, and the syntax tree that it ends with.
use c_lang_examples.Prelude.{
  ℕ, ◌-◌, ◌<◌, ◌≡◌, inl, inr, refl, ap, ◌∙◌, subst, arith, Bool, true, false, Bool-cases, none,
  some, List, length,
}
use c_lang_examples.Prelude.Ended.{exited}
use c_lang_examples.TokenQueue.{aqls_token_queue_init}
use c_lang_examples.TokenQueue.Fifo.{aqls_token_queue_init-Holds}
use c_lang_examples.Aqls.Token.{AqlsToken}
use c_lang_examples.Aqls.Lexer.{Regex, aqls_lexer_init, aqls_lookahead}
use c_lang_examples.Aqls.Lexer.Match.{IsBounded}
use c_lang_examples.Aqls.Lexer.Peek.{IsValid, empty}
use c_lang_examples.Aqls.Ast.{AqlsAstCompilationUnit, AqlsAst, Heap}
use c_lang_examples.Aqls.Parser.{
  AqlsParser, end_keyword, is_keyword, parse_statements, parse_end, parse_compilation_unit,
  aqls_parser_parse,
}
use c_lang_examples.Aqls.Parser.Returns.{
  Returns, exits, gives, Returns-then, aqls_ast_end_new-Returns,
  aqls_ast_compilation_unit_new-Returns, aqls_ast_new-Returns,
}
use c_lang_examples.Aqls.Parser.Ends.{IsAt, next-Returns, parse_statements_from-Returns}

-- What `parse_end` returns: a token END of the text.
pub parse_end-Returns :
    (parser : AqlsParser)
    → IsValid parser.lexer
    → Returns
        (λ r.
          IsAt parser.lexer parser.lexer.pos (r.1).lexer
          × (is_keyword parser.lexer.input (r.0).end_token end_keyword 3 ≡ true))
        (parse_end parser)
unfolding parse_end
parse_end-Returns parser v = Returns-then (next-Returns parser.lexer v) (λ end at.
    elim (Bool-cases (is_keyword parser.lexer.input end.0 end_keyword 3)) [
      | inl k ↦ rw k (
          Returns-then (aqls_ast_end_new-Returns end.0 parser.heap) (λ made same.
            gives _ refl (at, ap (λ t. is_keyword parser.lexer.input t end_keyword 3) same ∙ k)))
      | inr k ↦ rw k (exits refl)
    ])

-- The syntax tree that a parser ends with: it has no statements, and a token END of the text.
pub record IsParsed (input : List ℕ) (result : ℕ × AqlsParser) : Type 0 where
  pub ast : AqlsAst
  pub zero_returned : result.0 ≡ 0
  pub set : (result.1).ast ≡ some ast
  pub no_statements : ast.compilation_unit.statements ≡ none
  pub ends : is_keyword input ast.compilation_unit.end.end_token end_keyword 3 ≡ true
  pub valid : IsValid (result.1).lexer

parse_statements-Returns :
    (fuel : ℕ) (parser : AqlsParser)
    → IsValid parser.lexer
    → length parser.lexer.input - parser.lexer.pos < fuel
    → Returns
        (λ r. IsAt parser.lexer parser.lexer.pos (r.1).lexer × (r.0 ≡ none))
        (parse_statements fuel parser)
unfolding parse_statements
parse_statements-Returns fuel parser v h =
    Returns-then (parse_statements_from-Returns fuel none parser v h)
      (λ parsed at. gives _ refl (at, refl))

-- What a compilation unit of a text is.
abbrev IsUnit : List ℕ → AqlsAstCompilationUnit → Type 0
IsUnit input made =
    (made.statements ≡ none) × (is_keyword input made.end.end_token end_keyword 3 ≡ true)

parse_compilation_unit-Returns :
    (fuel : ℕ) (parser : AqlsParser)
    → IsValid parser.lexer
    → length parser.lexer.input - parser.lexer.pos < fuel
    → Returns
        (λ r. IsValid (r.1).lexer × IsUnit parser.lexer.input r.0)
        (parse_compilation_unit fuel parser)
unfolding parse_compilation_unit
parse_compilation_unit-Returns fuel parser v h =
    Returns-then (parse_statements-Returns fuel parser v h) (λ statements s.
      Returns-then (parse_end-Returns statements.1 s.0.valid) (λ end e.
        Returns-then (aqls_ast_compilation_unit_new-Returns statements.0 end.0 (end.1).heap)
          (λ made m. gives _ refl (
            e.0.valid,
            (
              ap (λ u. u.statements) m ∙ s.1,
              subst (λ input. is_keyword input made.0.end.end_token end_keyword 3 ≡ true) s.0.same
                  (ap (λ u. is_keyword (statements.1).lexer.input u.end.end_token end_keyword 3) m
                    ∙ e.1),
            ),
          ))))

denied : (blank : AqlsToken) (capacity : ℕ) → aqls_token_queue_init false blank capacity ≡ exited
unfolding aqls_token_queue_init
denied blank capacity = refl

aqls_lexer_init-Returns :
    (ignore string_literal id : Regex) (allocated : Bool) (blank : AqlsToken) (input : List ℕ)
    → IsBounded ignore
    → IsBounded string_literal
    → IsBounded id
    → Returns
        (λ lexer. IsValid lexer × (lexer.input ≡ input))
        (aqls_lexer_init ignore string_literal id allocated blank input)
unfolding aqls_lexer_init
aqls_lexer_init-Returns ignore string_literal id false blank input bi bs bd =
    exits (rw (denied blank aqls_lookahead) refl)
aqls_lexer_init-Returns ignore string_literal id true blank input bi bs bd =
    let (queue, e, holds) = aqls_token_queue_init-Holds blank aqls_lookahead (omega arith) in
    rw e (
      gives _ refl (
        record {
          measured = refl;
          agrees = refl;
          inside = omega arith;
          ignore_bounded = bi;
          patterns_bounded = (bs, (bd, tt));
          held = empty holds;
        },
        refl,
      ))

-- With patterns whose matches are not empty and lie in the text, and with more fuel than the text is
-- long, parsing exits, or returns 0 with a syntax tree that has no statements, whatever the text
-- has, and a token that is taken for END; the lexer is well-formed then.
pub aqls_parser_parse-IsParsed :
    (fuel : ℕ) (heap : Heap) (ignore string_literal id : Regex) (allocated : Bool)
    (blank : AqlsToken) (input : List ℕ)
    → IsBounded ignore
    → IsBounded string_literal
    → IsBounded id
    → length input < fuel
    → Returns
        (IsParsed input)
        (aqls_parser_parse fuel heap ignore string_literal id allocated blank input)
unfolding aqls_parser_parse
aqls_parser_parse-IsParsed fuel heap ignore string_literal id allocated blank input bi bs bd h =
    Returns-then (aqls_lexer_init-Returns ignore string_literal id allocated blank input bi bs bd)
      (λ lexer l.
        Returns-then
          (parse_compilation_unit-Returns fuel (record { lexer = lexer; heap = heap; ast = none })
            l.0 (omega (arith, h, ap length l.1)))
          (λ made m. Returns-then (aqls_ast_new-Returns made.0 (made.1).heap) (λ tree t.
            gives _ refl (record {
              ast = tree.0;
              zero_returned = refl;
              set = refl;
              no_statements = ap (λ a. a.compilation_unit.statements) t ∙ m.1.0;
              ends =
                  subst
                    (λ text.
                      is_keyword text tree.0.compilation_unit.end.end_token end_keyword 3 ≡ true)
                    l.1
                    (ap (λ a. is_keyword lexer.input a.compilation_unit.end.end_token end_keyword 3)
                        t
                      ∙ m.1.1);
              valid = m.0;
            }))))
