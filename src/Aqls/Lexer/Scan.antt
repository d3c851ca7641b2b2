-- ===== src/Aqls/Lexer/Scan.antt =====
-- The token that a position of the input holds.
use native.Mathlib.Decide.{dec_lt}
use c_lang_examples.Prelude.{
  ℕ, ◌+◌, ◌≤◌, ◌<◌, ◌≡◌, inl, inr, refl, ap, arith, leb, le→leb, lt→leb_false, Option-cases,
  if◌then◌else◌, Option, none, some, List, length, drop, length-drop,
}
use c_lang_examples.Aqls.Token.{AqlsTokenKind, AqlsToken, aqls_token_eof}
use c_lang_examples.Aqls.Lexer.Match.{
  IsBounded, AreBounded, first_match, NoMatch, FirstMatch, Finds, nothing, something,
  first_match-Finds,
}
use c_lang_examples.Aqls.Lexer.{Regex, AqlsLexerPattern, token_at_cursor, error_token}

abbrev pub token_or_error : ℕ → Option AqlsToken → AqlsToken
token_or_error cursor none = error_token cursor
token_or_error cursor (some token) = token

-- Where the text behind a position begins that is not ignored.
abbrev pub skip : Regex → List ℕ → ℕ → ℕ
skip ignore input pos = elim (ignore (drop pos input)) [ none ↦ pos | some n ↦ pos + n ]

-- The token behind a position: the end of the text if nothing but ignored text is left, or the
-- first match of a pattern behind the ignored text, or an error there.
unfoldable pub token_at : Regex → List AqlsLexerPattern → List ℕ → ℕ → AqlsToken
token_at ignore patterns input pos =
    let start = skip ignore input pos in
    if leb (length input) start
    then aqls_token_eof
    else token_or_error start (first_match patterns input start)

-- What a token can be, by the place where the ignored text ends.
pub data Found (ignore : Regex) (patterns : List AqlsLexerPattern) (input : List ℕ) (pos : ℕ)
    (token : AqlsToken) : Type 0 where
  ended :
      skip ignore input pos ≡ length input
      → token ≡ aqls_token_eof
      → Found ignore patterns input pos token
  failed :
      (start : ℕ)
      → skip ignore input pos ≡ start
      → pos ≤ start
      → start < length input
      → NoMatch patterns (drop start input)
      → token ≡ error_token start
      → Found ignore patterns input pos token
  matched :
      (kind : AqlsTokenKind) (start n : ℕ)
      → skip ignore input pos ≡ start
      → pos ≤ start
      → FirstMatch patterns (drop start input) kind n
      → 0 < n
      → start + n ≤ length input
      → token ≡ token_at_cursor kind start n
      → Found ignore patterns input pos token

module _ (input : List ℕ) where
  pub skip_bounds :
      (ignore : Regex) (pos : ℕ)
      → IsBounded ignore
      → pos ≤ length input
      → (pos ≤ skip ignore input pos) × (skip ignore input pos ≤ length input)
  skip_bounds ignore pos bounded h = elim (Option-cases (ignore (drop pos input))) [
    | inl e ↦ rw (e, skip) (omega arith, h)
    | inr (n, e) ↦
        rw (e, skip)
          (omega arith, omega (arith, (bounded (drop pos input) n e).1, length-drop pos input))
  ]

  token_or_error-Found :
      (ignore : Regex) (patterns : List AqlsLexerPattern) (pos start : ℕ) (found : Option AqlsToken)
      → skip ignore input pos ≡ start
      → pos ≤ start
      → start < length input
      → Finds patterns input start found
      → Found ignore patterns input pos (token_or_error start found)
  token_or_error-Found ignore patterns pos start found e h k (nothing unmatched q) =
      failed start e h k unmatched (ap (token_or_error start) q)
  token_or_error-Found ignore patterns pos start found e h k
        (something kind n first positive fits q) =
      matched kind start n e h first positive fits (ap (token_or_error start) q)

  pub token_at-Found :
      (ignore : Regex) (patterns : List AqlsLexerPattern) (pos : ℕ)
      → IsBounded ignore
      → AreBounded patterns
      → pos ≤ length input
      → Found ignore patterns input pos (token_at ignore patterns input pos)
  unfolding token_at
  token_at-Found ignore patterns pos bounded each h =
      let within = skip_bounds ignore pos bounded h in
      elim (dec_lt (skip ignore input pos) (length input)) [
        | yes k ↦ rw (lt→leb_false (length input) (skip ignore input pos) k) (
            token_or_error-Found ignore patterns pos (skip ignore input pos)
              (first_match patterns input (skip ignore input pos)) refl within.0 k
              (first_match-Finds input patterns (skip ignore input pos) each within.1))
        | no k ↦
            rw (le→leb (length input) (skip ignore input pos) (omega arith))
              (ended (omega (arith, within.1)) refl)
      ]
