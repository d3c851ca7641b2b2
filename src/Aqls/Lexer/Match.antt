-- ===== src/Aqls/Lexer/Match.antt =====
-- The pattern that matches first at a position of the input.
use c_lang_examples.Prelude.{
  ℕ, ◌+◌, ◌≤◌, ◌<◌, ◌≡◌, inl, inr, refl, sym, ap, subst, arith, lt→ltb, All, ◌++◌, Option-cases,
  Option, none, some, List, [], ◌∷◌, length, drop, length-drop,
}
use c_lang_examples.Prelude.Ended.{done}
use c_lang_examples.Aqls.Token.{AqlsTokenKind, AqlsToken}
use c_lang_examples.Aqls.Lexer.{Regex, AqlsLexerPattern, token_at_cursor, match_patterns}

-- A match is not empty and lies in the text.
abbrev pub IsBounded : Regex → Type 0
IsBounded regex = (text : List ℕ) (n : ℕ) → regex text ≡ some n → (0 < n) × (n ≤ length text)

abbrev pub AreBounded : List AqlsLexerPattern → Type 0
AreBounded [] = Unit
AreBounded (pattern ∷ patterns) = IsBounded pattern.regex × AreBounded patterns

-- The first token of a pattern at a cursor.
abbrev pub first_match : List AqlsLexerPattern → List ℕ → ℕ → Option AqlsToken
first_match [] input cursor = none
first_match (pattern ∷ patterns) input cursor = elim (pattern.regex (drop cursor input)) [
  | none ↦ first_match patterns input cursor
  | some n ↦ some (token_at_cursor pattern.token_kind cursor n)
]

-- No pattern matches at the beginning of a text.
abbrev pub NoMatch : List AqlsLexerPattern → List ℕ → Type 0
NoMatch patterns text = All (λ pattern. pattern.regex text ≡ none) patterns

-- The first pattern that matches at the beginning of a text is of a kind, and matches `n` bytes.
pub record FirstMatch (patterns : List AqlsLexerPattern) (text : List ℕ) (kind : AqlsTokenKind)
    (n : ℕ) : Type 0 where
  pub before : List AqlsLexerPattern
  pub pattern : AqlsLexerPattern
  pub behind : List AqlsLexerPattern
  pub split : patterns ≡ before ++ pattern ∷ behind
  pub unmatched : NoMatch before text
  pub matches : pattern.regex text ≡ some n
  pub of_kind : pattern.token_kind ≡ kind

-- What the patterns find at a cursor.
pub data Finds (patterns : List AqlsLexerPattern) (input : List ℕ) (cursor : ℕ)
    (found : Option AqlsToken) : Type 0 where
  nothing : NoMatch patterns (drop cursor input) → found ≡ none → Finds patterns input cursor found
  something :
      (kind : AqlsTokenKind) (n : ℕ)
      → FirstMatch patterns (drop cursor input) kind n
      → 0 < n
      → cursor + n ≤ length input
      → found ≡ some (token_at_cursor kind cursor n)
      → Finds patterns input cursor found

-- A pattern that does not match, before the others.
Finds-behind :
    (pattern : AqlsLexerPattern) (patterns : List AqlsLexerPattern) (input : List ℕ) (cursor : ℕ)
    (found : Option AqlsToken)
    → pattern.regex (drop cursor input) ≡ none
    → Finds patterns input cursor found
    → Finds (pattern ∷ patterns) input cursor found
Finds-behind pattern patterns input cursor found e (nothing unmatched k) = nothing (e, unmatched) k
Finds-behind pattern patterns input cursor found e (something kind n first positive fits k) =
    something kind n
      (record {
        before = pattern ∷ first.before;
        pattern = first.pattern;
        behind = first.behind;
        split = ap (λ l. pattern ∷ l) first.split;
        unmatched = (e, first.unmatched);
        matches = first.matches;
        of_kind = first.of_kind;
      })
      positive fits k

module _ (input : List ℕ) where
  first_match-none :
      (pattern : AqlsLexerPattern) (patterns : List AqlsLexerPattern) (cursor : ℕ)
      → pattern.regex (drop cursor input) ≡ none
      → first_match (pattern ∷ patterns) input cursor ≡ first_match patterns input cursor
  first_match-none pattern patterns cursor e =
      ap
        (λ o. elim o [
          | none ↦ first_match patterns input cursor
          | some n ↦ some (token_at_cursor pattern.token_kind cursor n)
        ])
        e

  first_match-some :
      (pattern : AqlsLexerPattern) (patterns : List AqlsLexerPattern) (cursor n : ℕ)
      → pattern.regex (drop cursor input) ≡ some n
      → first_match (pattern ∷ patterns) input cursor
        ≡ some (token_at_cursor pattern.token_kind cursor n)
  first_match-some pattern patterns cursor n e =
      ap
        (λ o. elim o [
          | none ↦ first_match patterns input cursor
          | some n ↦ some (token_at_cursor pattern.token_kind cursor n)
        ])
        e

  pub first_match-Finds :
      (patterns : List AqlsLexerPattern) (cursor : ℕ)
      → AreBounded patterns
      → cursor ≤ length input
      → Finds patterns input cursor (first_match patterns input cursor)
  first_match-Finds [] cursor bounded h = nothing tt refl
  first_match-Finds (pattern ∷ patterns) cursor bounded h =
      elim (Option-cases (pattern.regex (drop cursor input))) [
        | inl e ↦
            Finds-behind pattern patterns input cursor
              (first_match (pattern ∷ patterns) input cursor) e
              (subst (Finds patterns input cursor)
                (sym (first_match-none pattern patterns cursor e))
                (first_match-Finds patterns cursor bounded.1 h))
        | inr (n, e) ↦
            let bounds = bounded.0 (drop cursor input) n e in
            something pattern.token_kind n
              (record {
                before = [];
                pattern = pattern;
                behind = patterns;
                split = refl;
                unmatched = tt;
                matches = e;
                of_kind = refl;
              })
              bounds.0 (omega (arith, bounds.1, length-drop cursor input))
              (first_match-some pattern patterns cursor n e)
      ]

  pub match_patterns_lem :
      (patterns : List AqlsLexerPattern) (cursor : ℕ)
      → AreBounded patterns
      → match_patterns patterns input cursor ≡ done (first_match patterns input cursor)
  unfolding match_patterns
  match_patterns_lem [] cursor bounded = refl
  match_patterns_lem (pattern ∷ patterns) cursor bounded =
      elim (Option-cases (pattern.regex (drop cursor input))) [
        | inl e ↦ rw (e, match_patterns) (match_patterns_lem patterns cursor bounded.1)
        | inr (n, e) ↦ rw (e, lt→ltb 0 n (bounded.0 (drop cursor input) n e).0, match_patterns)
      ]
