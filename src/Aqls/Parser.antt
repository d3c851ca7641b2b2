-- ===== src/Aqls/Parser.antt =====
-- The parser (parser.c, parser.h). The loop of `parse_statements` runs on fuel. What it prints when a
-- token is unexpected is not modelled: it then ends the program.
pub mod Returns
pub mod Ends
pub mod Whole
use c_lang_examples.Prelude.{
  ℕ, zero, suc, ◌+◌, Bool, true, false, not, ◌&&◌, if◌then◌else◌, Option, none, some, List, [], ◌∷◌,
}
use c_lang_examples.Prelude.Ended.{Ended, done, exited, unfinished, ◌>>=◌, ◌>>◌}
use c_lang_examples.Aqls.Token.{
  AqlsTokenKind, token_error, token_eof, token_string_literal, token_id, AqlsToken, Strview, shown,
  string_view_cmp_sized_cstr,
}
use c_lang_examples.Aqls.Lexer.{
  Regex, AqlsLexer, aqls_lexer_init, aqls_lexer_peek_token, aqls_lexer_next_token, aqls_lexer_free,
}
use c_lang_examples.Aqls.Ast.{
  AqlsAstStmt, AqlsAstEnd, AqlsAstCompilationUnit, AqlsAst, Heap, aqls_ast_new,
  aqls_ast_compilation_unit_new, aqls_ast_statements_append, aqls_ast_statement_write_new,
  aqls_ast_end_new,
}

pub record AqlsParser : Type 0 where
  pub lexer : AqlsLexer
  pub heap : Heap
  pub ast : Option AqlsAst

-- The lexer is set up by `aqls_parser_parse`; the path of the file is not read and is left out.
unfoldable pub aqls_parser_init : AqlsParser → AqlsParser
aqls_parser_init parser = record parser { ast = none }

unfoldable pub aqls_parser_free : AqlsParser → AqlsParser
aqls_parser_free parser = record parser { lexer = aqls_lexer_free parser.lexer }

abbrev pub is_id : AqlsTokenKind → Bool
is_id token_id = true
is_id token_error = false
is_id token_eof = false
is_id token_string_literal = false

abbrev pub is_string_literal : AqlsTokenKind → Bool
is_string_literal token_string_literal = true
is_string_literal token_error = false
is_string_literal token_eof = false
is_string_literal token_id = false

abbrev pub write_keyword : List ℕ
write_keyword = b'W' ∷ b'R' ∷ b'I' ∷ b'T' ∷ b'E' ∷ []

abbrev pub end_keyword : List ℕ
end_keyword = b'E' ∷ b'N' ∷ b'D' ∷ []

-- `kind == AQLS_TOKEN_ID && string_view_cmp_sized_cstr(lexeme, keyword, len) == 0`
unfoldable pub is_keyword : List ℕ → AqlsToken → List ℕ → ℕ → Bool
is_keyword input token keyword len =
    is_id token.kind && string_view_cmp_sized_cstr (shown input token.lexeme) keyword len

unfoldable pub parse_statement_write : AqlsParser → Ended (AqlsAstStmt × AqlsParser)
parse_statement_write parser = do
  write ← aqls_lexer_next_token parser.lexer
  operand ← aqls_lexer_next_token write.1
  if is_string_literal (operand.0).kind
      then (do
        made ← aqls_ast_statement_write_new write.0 operand.0 parser.heap
        done (made.0, record parser { lexer = operand.1; heap = made.1 }))
      else exited

unfoldable pub parse_statement : AqlsParser → Ended (Option AqlsAstStmt × AqlsParser)
unfolding is_keyword parse_statement_write
parse_statement parser = do
  lookahead ← aqls_lexer_peek_token parser.lexer
  let there = record parser { lexer = lookahead.1 }
  if is_keyword parser.lexer.input lookahead.0 write_keyword 5
      then (do made ← parse_statement_write there; done (some made.0, made.1))
      else done (none, there)

-- The loop of `parse_statements`, with the node that it made last.
unfoldable pub parse_statements_from : ℕ → Option ℕ → AqlsParser → Ended AqlsParser
unfolding parse_statement
parse_statements_from zero last parser = unfinished
parse_statements_from (suc fuel) last parser = do
  parsed ← parse_statement parser
  elim parsed.0 [
    | none ↦ done parsed.1
    | some statement ↦ (do
      appended ← aqls_ast_statements_append last statement (parsed.1).heap
      parse_statements_from fuel (some appended.0) (record (parsed.1) { heap = appended.1 }))
  ]

-- `statements` stays the null pointer that it begins as.
unfoldable pub parse_statements : ℕ → AqlsParser → Ended (Option ℕ × AqlsParser)
unfolding parse_statements_from
parse_statements fuel parser = do
  parsed ← parse_statements_from fuel none parser
  done (none, parsed)

unfoldable pub parse_end : AqlsParser → Ended (AqlsAstEnd × AqlsParser)
unfolding is_keyword
parse_end parser = do
  end ← aqls_lexer_next_token parser.lexer
  if is_keyword parser.lexer.input end.0 end_keyword 3
      then (do
        made ← aqls_ast_end_new end.0 parser.heap
        done (made.0, record parser { lexer = end.1; heap = made.1 }))
      else exited

unfoldable pub parse_compilation_unit : ℕ → AqlsParser → Ended (AqlsAstCompilationUnit × AqlsParser)
unfolding parse_statements parse_end
parse_compilation_unit fuel parser = do
  statements ← parse_statements fuel parser
  end ← parse_end statements.1
  made ← aqls_ast_compilation_unit_new statements.0 end.0 (end.1).heap
  done (made.0, record (end.1) { heap = made.1 })

-- The arguments are the fuel and the heap, and those of `aqls_lexer_init`. The compilation unit is
-- never the null pointer, so the result is 0.
unfoldable pub aqls_parser_parse :
    ℕ → Heap → Regex → Regex → Regex → Bool → AqlsToken → List ℕ → Ended (ℕ × AqlsParser)
unfolding parse_compilation_unit
aqls_parser_parse fuel heap ignore string_literal id allocated blank input = do
  lexer ← aqls_lexer_init ignore string_literal id allocated blank input
  unit ← parse_compilation_unit fuel (record { lexer = lexer; heap = heap; ast = none })
  made ← aqls_ast_new unit.0 (unit.1).heap
  done (0, record (unit.1) { ast = some made.0; heap = made.1 })
