-- ===== src/Aqls/Token.antt =====
-- Views of strings and tokens (string-view.c, string-view.h, token/token.c, token/token.h). A pointer
-- into the input of the lexer is its offset, and the null pointer is `none`; the text that a view
-- shows is taken from the input. What the functions print is the list of the texts that they write.
use Prim.Native.String.{String}
use c_lang_examples.Prelude.{
  ℕ, zero, suc, Bool, true, false, ◌&&◌, ◌==◌, ltb, if◌then◌else◌, Option, none, some, List, [],
  ◌∷◌, ◌++◌, length, take, drop,
}

pub record Strview : Type 0 where
  pub str : Option ℕ
  pub len : ℕ

unfoldable pub string_view_empty : Strview
string_view_empty = record { str = none; len = 0 }

unfoldable pub string_view_from_sized_cstr : Option ℕ → ℕ → Strview
string_view_from_sized_cstr str str_len = record { str = str; len = str_len }

-- The bytes that a view of a text shows.
abbrev pub shown : List ℕ → Strview → List ℕ
shown text view = elim view.str [ none ↦ [] | some offset ↦ take view.len (drop offset text) ]

-- `fwrite` of the bytes; the result is how many are written.
unfoldable pub string_view_fwrite : List ℕ → Strview → List ℕ × ℕ
string_view_fwrite text view = elim view.str [
  | none ↦ ([], 0)
  | some offset ↦ if ltb 0 view.len then (take view.len (drop offset text), view.len) else ([], 0)
]

-- `memcmp(a, b, n) == 0`
abbrev pub memory_equal : ℕ → List ℕ → List ℕ → Bool
memory_equal zero a b = true
memory_equal (suc n) (c ∷ a) (d ∷ b) = (c == d) && memory_equal n a b
memory_equal (suc n) _ _ = false

-- `string_view_cmp(a, b) == 0`, on the bytes that the views show.
unfoldable pub string_view_cmp : List ℕ → List ℕ → Bool
string_view_cmp a b = memory_equal (if ltb (length a) (length b) then length a else length b) a b

-- `string_view_cmp_sized_cstr(a, b, b_len) == 0`
unfoldable pub string_view_cmp_sized_cstr : List ℕ → List ℕ → ℕ → Bool
unfolding string_view_cmp
string_view_cmp_sized_cstr a b b_len = string_view_cmp a (take b_len b)

pub data AqlsTokenKind : Type 0 where
  token_error token_eof token_string_literal token_id : AqlsTokenKind

pub record AqlsToken : Type 0 where
  pub kind : AqlsTokenKind
  pub lexeme : Strview

-- The kinds are those of the enumeration, so the default of the switch is not reached.
unfoldable pub aqls_token_str : AqlsTokenKind → String
aqls_token_str token_error = "ERROR"
aqls_token_str token_eof = "EOF"
aqls_token_str token_string_literal = "STRING_LITERAL"
aqls_token_str token_id = "ID"

-- What a call of `fprintf`, `fputc` or `fputs` writes, or the bytes of a view.
pub data Written : Type 0 where
  text : String → Written
  bytes : List ℕ → Written

abbrev pub lexeme_written : List ℕ → Strview → List Written
lexeme_written input view =
    if ltb 0 view.len then text "(" ∷ bytes (shown input view) ∷ text ")" ∷ [] else []

unfoldable pub aqls_token_fprint : List ℕ → AqlsToken → List Written
unfolding aqls_token_str
aqls_token_fprint input token =
    (text "<" ∷ text (aqls_token_str token.kind) ∷ [])
    ++ (elim token.kind [
      | token_string_literal ↦ lexeme_written input token.lexeme
      | token_id ↦ lexeme_written input token.lexeme
      | token_eof ↦ []
      | token_error ↦ []
    ]
        ++ (text "> " ∷ []))

unfoldable pub aqls_token_eof : AqlsToken
aqls_token_eof = record { kind = token_eof; lexeme = record { str = none; len = 0 } }

unfoldable pub aqls_token_error : AqlsToken
aqls_token_error = record { kind = token_error; lexeme = record { str = none; len = 0 } }

unfoldable pub aqls_token_string_literal : AqlsToken
aqls_token_string_literal = record {
  kind = token_string_literal;
  lexeme = record { str = none; len = 0 };
}
