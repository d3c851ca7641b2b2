-- ===== src/Aqls/Lexer/Peek.antt =====
-- `peek` and `next` of a well-formed lexer return the token at its position.
use native.Mathlib.Decide.{dec_lt}
use c_lang_examples.Prelude.{
  ℕ, ◌+◌, ◌≤◌, ◌<◌, ◌≡◌, inl, inr, refl, ap, ◌∙◌, arith, true, false, ltb, lt→ltb, le→leb,
  lt→leb_false, Bool-cases, Option-cases, some, [], ◌∷◌, length, drop, length-drop,
}
use c_lang_examples.Prelude.Ended.{done}
use c_lang_examples.TokenQueue.{TokenQueue}
use c_lang_examples.TokenQueue.Fifo.{
  Holds, aqls_token_queue_is_empty-Holds, aqls_token_queue_append-Holds, aqls_token_queue_pop-Holds,
}
use c_lang_examples.Aqls.Token.{AqlsToken, aqls_token_eof}
use c_lang_examples.Aqls.Lexer.{
  AqlsLexer, aqls_lexer_has_more_tokens, advance, skip_ignored, match_patterns, look_ahead,
  ignored_ahead, peek_at, aqls_lexer_peek_token,
}
use c_lang_examples.Aqls.Lexer.Match.{IsBounded, AreBounded, first_match, match_patterns_lem}
use c_lang_examples.Aqls.Lexer.Scan.{skip, token_at, Found, skip_bounds, token_at-Found}

abbrev pub token_of : AqlsLexer → AqlsToken
token_of lexer = token_at lexer.ignore lexer.patterns lexer.input lexer.pos

-- The lookahead is empty, or holds the token at the position.
pub data Held (lexer : AqlsLexer) : Type 0 where
  empty : Holds lexer.lookahead [] → Held lexer
  one : Holds lexer.lookahead (token_of lexer ∷ []) → Held lexer

-- The cursor and the position agree and are inside the input; the patterns are bounded.
pub record IsValid (lexer : AqlsLexer) : Type 0 where
  pub measured : lexer.input_len ≡ length lexer.input
  pub agrees : lexer.cursor ≡ lexer.pos
  pub inside : lexer.pos ≤ length lexer.input
  pub ignore_bounded : IsBounded lexer.ignore
  pub patterns_bounded : AreBounded lexer.patterns
  pub held : Held lexer

abbrev pub moved : AqlsLexer → ℕ → AqlsLexer
moved lexer pos = record lexer { pos = pos; cursor = pos }

module _ (lexer : AqlsLexer) (v : IsValid lexer) where
  abbrev pub start : ℕ
  start = skip lexer.ignore lexer.input lexer.pos

  pub start_bounds : (lexer.pos ≤ start) × (start ≤ length lexer.input)
  start_bounds = skip_bounds lexer.input lexer.ignore lexer.pos v.ignore_bounded v.inside

  advance_lem :
      (n : ℕ)
      → lexer.pos + n ≤ length lexer.input
      → advance lexer n ≡ done (moved lexer (lexer.pos + n))
  unfolding advance
  advance_lem n h =
      rw (le→leb (lexer.pos + n) lexer.input_len (omega (arith, v.measured)), v.agrees)

  match_bounds :
      (n : ℕ)
      → lexer.ignore (drop lexer.pos lexer.input) ≡ some n
      → (0 < n) × (lexer.pos + n ≤ lexer.input_len)
  match_bounds n e =
      let bounds = v.ignore_bounded (drop lexer.pos lexer.input) n e in
      (bounds.0, omega (arith, bounds.1, length-drop lexer.pos lexer.input, v.measured, v.inside))

  ignored_ahead_lem : (n : ℕ) × (ignored_ahead lexer ≡ done n) × (lexer.pos + n ≡ start)
  unfolding ignored_ahead
  ignored_ahead_lem = elim (Option-cases (lexer.ignore (drop lexer.pos lexer.input))) [
    | inl e ↦ (0, rw (v.agrees, e), rw (e, skip) (omega arith))
    | inr (n, e) ↦ (
      n,
      rw (
        v.agrees,
        e,
        ignored_ahead,
        lt→ltb 0 n (match_bounds n e).0,
        le→leb (lexer.pos + n) lexer.input_len (match_bounds n e).1,
      ),
      rw (e, skip),
    )
  ]

  pub skip_ignored_lem : skip_ignored lexer ≡ done (moved lexer start)
  unfolding skip_ignored
  skip_ignored_lem = elim (Option-cases (lexer.ignore (drop lexer.pos lexer.input))) [
    | inl e ↦ rw (v.agrees, e, skip) refl
    | inr (n, e) ↦
        rw (v.agrees, e, skip_ignored, skip, lt→ltb 0 n (match_bounds n e).0)
          (advance_lem n (omega (arith, (match_bounds n e).1, v.measured)))
  ]

  match_lem :
      match_patterns lexer.patterns lexer.input start
      ≡ done (first_match lexer.patterns lexer.input start)
  match_lem = match_patterns_lem lexer.input lexer.patterns start v.patterns_bounded

  pub token-Found : Found lexer.ignore lexer.patterns lexer.input lexer.pos (token_of lexer)
  token-Found =
      token_at-Found lexer.input lexer.ignore lexer.patterns lexer.pos v.ignore_bounded
        v.patterns_bounded v.inside

  pub has_more_lem : aqls_lexer_has_more_tokens lexer ≡ ltb lexer.pos (length lexer.input)
  unfolding aqls_lexer_has_more_tokens
  has_more_lem = rw (v.measured)

  pub at_end : ltb lexer.pos (length lexer.input) ≡ false → token_of lexer ≡ aqls_token_eof
  unfolding token_at
  at_end e = rw (le→leb (length lexer.input) start (ground (arith, start_bounds.0)))

  peek_at_lem : start < length lexer.input → peek_at lexer start ≡ look_ahead lexer (token_of lexer)
  unfolding peek_at token_at
  peek_at_lem k =
      rw (match_lem, lt→leb_false (length lexer.input) start k)
        (elim (Option-cases (first_match lexer.patterns lexer.input start)) [
          | inl none_found ↦ rw (none_found) refl
          | inr (found, some_found) ↦ rw (some_found) refl
        ])

  pub past_end : length lexer.input ≤ start → token_of lexer ≡ aqls_token_eof
  unfolding token_at
  past_end e = rw (le→leb (length lexer.input) start e)

  peek_fills_ahead :
      (n : ℕ)
      → Holds lexer.lookahead []
      → ltb lexer.pos (length lexer.input) ≡ true
      → ignored_ahead lexer ≡ done n
      → lexer.pos + n ≡ start
      → aqls_lexer_peek_token lexer ≡ look_ahead lexer (token_of lexer)
  unfolding aqls_lexer_peek_token
  peek_fills_ahead n h more ahead reaches =
      let there : lexer.cursor + n ≡ start = omega (arith, v.agrees, reaches) in
      rw (aqls_token_queue_is_empty-Holds lexer.lookahead [] h, has_more_lem, more, ahead)
        (elim (dec_lt start (length lexer.input)) [
          | yes k ↦
              rw (lt→leb_false lexer.input_len (lexer.pos + n) (omega (arith, v.measured, reaches)))
                (ap (peek_at lexer) there ∙ peek_at_lem k)
          | no k ↦
              rw
                (
                  le→leb lexer.input_len (lexer.pos + n) (omega (arith, v.measured, reaches)),
                  past_end (omega arith),
                )
                refl
        ])

  -- Where the lookahead is empty, `peek` appends the token at the position to it.
  peek_fills :
      Holds lexer.lookahead [] → aqls_lexer_peek_token lexer ≡ look_ahead lexer (token_of lexer)
  unfolding aqls_lexer_peek_token
  peek_fills h = elim (Bool-cases (ltb lexer.pos (length lexer.input))) [
    | inl more ↦
        let (n, ahead, reaches) = ignored_ahead_lem in peek_fills_ahead n h more ahead reaches
    | inr none_left ↦
        rw
          (
            aqls_token_queue_is_empty-Holds lexer.lookahead [] h,
            has_more_lem,
            none_left,
            at_end none_left,
          )
          refl
  ]

  -- `peek` returns the token at the position, and holds it in the lookahead; else it leaves the
  -- lexer as it is.
  pub aqls_lexer_peek_token-token_at :
      (queue : TokenQueue AqlsToken) × (aqls_lexer_peek_token lexer
        ≡ done (token_of lexer, record lexer { lookahead = queue }))
      × Holds queue (token_of lexer ∷ [])
  unfolding aqls_lexer_peek_token look_ahead
  aqls_lexer_peek_token-token_at = elim v.held [
    | empty h ↦
        let (queue, e, holds) =
          aqls_token_queue_append-Holds lexer.lookahead [] (token_of lexer) h h.room in
        (queue, peek_fills h ∙ rw e, holds)
    | one h ↦
        let (rest, e, popped, holds) =
          aqls_token_queue_pop-Holds lexer.lookahead (token_of lexer) [] h in
        (
          lexer.lookahead,
          rw (aqls_token_queue_is_empty-Holds lexer.lookahead (token_of lexer ∷ []) h, e),
          h,
        )
  ]
