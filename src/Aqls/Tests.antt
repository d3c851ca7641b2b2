-- ===== src/Aqls/Tests.antt =====
-- Runs of the lexer and the parser on a text, with the three patterns written out.
use mathlib.Core.Bool.{false≢true}
use c_lang_examples.Prelude.{
  ℕ, suc, ◌+◌, ◌≤◌, ◌<◌, ◌≡◌, inl, inr, subst, refl, ap, arith, Bool, true, false, not, ◌&&◌, ◌||◌,
  ◌==◌, leb, ltb, Bool-cases, if◌then◌else◌, Option, none, some, List, [], ◌∷◌, length,
}
use c_lang_examples.Prelude.Ended.{done}
use c_lang_examples.TokenQueue.{
  TokenQueue, aqls_token_queue_init, aqls_token_queue_is_empty, aqls_token_queue_append,
  aqls_token_queue_pop,
}
use c_lang_examples.TokenQueue.Fifo.{aqls_token_queue_init-Holds}
use c_lang_examples.Aqls.Token.{
  AqlsToken, aqls_token_eof, string_view_cmp_sized_cstr, token_string_literal, token_id,
}
use c_lang_examples.Aqls.Lexer.{
  Regex, AqlsLexer, aqls_lexer_init, aqls_lexer_peek_token, aqls_lexer_next_token, match_patterns,
}
use c_lang_examples.Aqls.Lexer.Match.{IsBounded}
use c_lang_examples.Aqls.Lexer.Peek.{IsValid, empty}
use c_lang_examples.Aqls.Lexer.Agree.{
  Agrees, Advances, aqls_lexer_peek_token-Agrees, aqls_lexer_next_token-Advances,
}
use c_lang_examples.Aqls.Ast.{
  Heap, aqls_ast_statement_write_new, alloc_or_panic, aqls_ast_statements_append, aqls_ast_end_new,
  aqls_ast_compilation_unit_new, aqls_ast_new,
}
use c_lang_examples.Aqls.Parser.{aqls_parser_parse}
use c_lang_examples.Aqls.Parser.Returns.{Returns}
use c_lang_examples.Aqls.Parser.Whole.{IsParsed, aqls_parser_parse-IsParsed}

-- How many bytes at the start of a text a test accepts.
abbrev span : (ℕ → Bool) → List ℕ → ℕ
span test [] = 0
span test (c ∷ text) = let rest = span test text in if test c then suc rest else 0

span-length : (test : ℕ → Bool) (text : List ℕ) → span test text ≤ length text
span-length test [] = omega arith
span-length test (c ∷ text) = elim (Bool-cases (test c)) [
  | inl e ↦ rw e (omega (arith, span-length test text))
  | inr e ↦ rw e (omega arith)
]

abbrev is_blank : ℕ → Bool
is_blank c = (c == b' ') || (c == b'\n')

abbrev is_letter : ℕ → Bool
is_letter c = (leb b'a' c && leb c b'z') || (leb b'A' c && leb c b'Z')

-- "^[ \n]+" and "^[a-zA-Z]+"
abbrev match_when : Bool → ℕ → Option ℕ
match_when true n = some n
match_when false n = none

abbrev spans : (ℕ → Bool) → Regex
spans test text = match_when (ltb 0 (span test text)) (span test text)

abbrev is_plain : ℕ → Bool
is_plain c = not (c == b'\'')

-- "^'[^']*'"
abbrev quoted : Regex
quoted [] = none
quoted (c ∷ text) =
    match_when ((c == b'\'') && ltb (span is_plain text) (length text)) (span is_plain text + 2)

match_when-bounded :
    (test : Bool) (m n most : ℕ)
    → (test ≡ true → (0 < m) × (m ≤ most))
    → match_when test m ≡ some n
    → (0 < n) × (n ≤ most)
match_when-bounded true m n most h e =
    subst (λ k. (0 < k) × (k ≤ most)) (ap (λ o. elim o [ none ↦ 0 | some k ↦ k ]) e) (h refl)
match_when-bounded false m n most h e =
    absurd (false≢true (ap (λ o. elim o [ none ↦ false | some k ↦ true ]) e))

spans-IsBounded : (test : ℕ → Bool) → IsBounded (spans test)
spans-IsBounded test text n =
    match_when-bounded (ltb 0 (span test text)) (span test text) n (length text)
      (λ e. (ground arith, span-length test text))

quoted-IsBounded : IsBounded quoted
quoted-IsBounded [] n =
    λ e. absurd (false≢true (ap (λ o. elim o [ none ↦ false | some k ↦ true ]) e))
quoted-IsBounded (c ∷ text) n =
    match_when-bounded ((c == b'\'') && ltb (span is_plain text) (length text))
      (span is_plain text + 2) n (suc (length text)) (λ e. (omega arith, ground (arith, e)))

abbrev write_hi_end : List ℕ
write_hi_end =
    b'W' ∷ b'R' ∷ b'I' ∷ b'T' ∷ b'E' ∷ b' ' ∷ b'\'' ∷ b'h' ∷ b'i' ∷ b'\'' ∷ b'\n' ∷ b'E' ∷ b'N'
    ∷ b'D' ∷ []

abbrev roomy : Heap
roomy = record { nodes = []; memory = 20 }

aqls_parser_parse-IsParsed_example : Returns (IsParsed write_hi_end) (
    aqls_parser_parse 15 roomy
      (spans is_blank)
      quoted
      (spans is_letter)
      true
      aqls_token_eof
      write_hi_end)
aqls_parser_parse-IsParsed_example =
    aqls_parser_parse-IsParsed 15 roomy (spans is_blank) quoted (spans is_letter) true
      aqls_token_eof write_hi_end (spans-IsBounded is_blank) quoted-IsBounded
      (spans-IsBounded is_letter) (omega arith)

abbrev queue_of_write : TokenQueue AqlsToken
queue_of_write = (aqls_token_queue_init-Holds aqls_token_eof 10 (omega arith)).0

abbrev lexer_of_write : AqlsLexer
lexer_of_write = record {
  input = write_hi_end;
  input_len = 14;
  cursor = 5;
  pos = 5;
  ignore = spans is_blank;
  patterns =
      record { token_kind = token_string_literal; regex = quoted }
      ∷ record { token_kind = token_id; regex = spans is_letter }
      ∷ [];
  lookahead = queue_of_write;
}

lexer_of_write-IsValid : IsValid lexer_of_write
lexer_of_write-IsValid = record {
  measured = refl;
  agrees = refl;
  inside = omega arith;
  ignore_bounded = spans-IsBounded is_blank;
  patterns_bounded = (quoted-IsBounded, (spans-IsBounded is_letter, tt));
  held = empty (aqls_token_queue_init-Holds aqls_token_eof 10 (omega arith)).2;
}

aqls_lexer_peek_token-Agrees_example : Agrees lexer_of_write
aqls_lexer_peek_token-Agrees_example =
    aqls_lexer_peek_token-Agrees lexer_of_write lexer_of_write-IsValid

aqls_lexer_next_token-Advances_example : Advances lexer_of_write
aqls_lexer_next_token-Advances_example =
    aqls_lexer_next_token-Advances lexer_of_write lexer_of_write-IsValid

-- How many statements are parsed into the heap, and whether the parsing ends with a tree.
abbrev statements_of : List ℕ → ℕ × Bool
statements_of input =
    elim (aqls_parser_parse 15 roomy (spans is_blank) quoted (spans is_letter) true aqls_token_eof
      input) [ done r ↦ (length (r.1).heap.nodes, true) | _ ↦ (0, false) ]

-- A statement; a keyword that is cut short; text behind END; and no END.
statements_of_texts :
    (statements_of write_hi_end ≡ (1, true))
    × (statements_of (b'W' ∷ b'\'' ∷ b'\'' ∷ b'E' ∷ []) ≡ (1, true))
    × (statements_of (b'E' ∷ b'N' ∷ b'D' ∷ b' ' ∷ b'!' ∷ []) ≡ (0, true))
    × (statements_of (b'W' ∷ b'\'' ∷ b'\'' ∷ []) ≡ (0, false))
unfolding aqls_parser_parse aqls_lexer_init aqls_token_queue_init aqls_lexer_peek_token
    aqls_token_queue_is_empty match_patterns aqls_token_queue_append string_view_cmp_sized_cstr
    aqls_lexer_next_token aqls_token_queue_pop aqls_ast_statement_write_new alloc_or_panic
    aqls_ast_statements_append aqls_ast_end_new aqls_ast_compilation_unit_new aqls_ast_new
    aqls_token_eof
statements_of_texts = (refl, refl, refl, refl)
