-- ===== src/Aqls/Lexer/Read.antt =====
-- `next` where the lookahead is empty: it reads the text.
use native.Mathlib.Decide.{dec_lt}
use c_lang_examples.Prelude.{
  ◌+◌, ◌≤◌, ◌<◌, ◌≡◌, inl, inr, refl, ap, ◌∙◌, arith, true, false, ltb, lt→ltb, le→leb,
  lt→leb_false, le→ltb_false, Bool-cases, if◌then◌else◌, [], length,
}
use c_lang_examples.Prelude.Ended.{done}
use c_lang_examples.TokenQueue.Fifo.{Holds, aqls_token_queue_is_empty-Holds}
use c_lang_examples.Aqls.Token.{aqls_token_eof}
use c_lang_examples.Aqls.Lexer.{
  AqlsLexer, aqls_lexer_has_more_tokens, advance, advance_token, next_at, aqls_lexer_next_token,
}
use c_lang_examples.Aqls.Lexer.Match.{
  Finds, nothing, something, first_match, first_match-Finds, match_patterns_lem,
}
use c_lang_examples.Aqls.Lexer.Scan.{token_or_error, token_at}
use c_lang_examples.Aqls.Lexer.Peek.{
  token_of, IsValid, moved, start, start_bounds, skip_ignored_lem, has_more_lem, at_end, past_end,
}
use c_lang_examples.Aqls.Lexer.Steps.{finished, stuck, over, Steps}

-- The token at the position, where text is left behind what is ignored.
token_of-first_match :
    (lexer : AqlsLexer) (v : IsValid lexer)
    → start lexer v < length lexer.input
    → token_of lexer
      ≡ token_or_error (start lexer v) (first_match lexer.patterns lexer.input (start lexer v))
unfolding token_at
token_of-first_match lexer v h = rw (lt→leb_false (length lexer.input) (start lexer v) h)

module _ (lexer : AqlsLexer) (v : IsValid lexer) (h : Holds lexer.lookahead []) where
  start_at_end : ltb lexer.pos (length lexer.input) ≡ false → start lexer v ≡ length lexer.input
  start_at_end e = ground (arith, start_bounds lexer v)

  next_at_end : ltb lexer.pos (length lexer.input) ≡ false → Steps lexer
  unfolding aqls_lexer_next_token
  next_at_end e = record {
    queue = lexer.lookahead;
    after = lexer.pos;
    returns =
        rw
          (
            aqls_token_queue_is_empty-Holds lexer.lookahead [] h,
            has_more_lem lexer v,
            e,
            at_end lexer v e,
            v.agrees,
          )
          refl;
    emptied = h;
    moves = finished (omega arith) v.inside (start_at_end e) (at_end lexer v e);
  }

  -- Behind the ignored text, `next` goes on by what is left.
  next_skips :
      ltb lexer.pos (length lexer.input) ≡ true
      → aqls_lexer_next_token lexer ≡ (
          if ltb (start lexer v) lexer.input_len
          then next_at (moved lexer (start lexer v))
          else done (aqls_token_eof, moved lexer (start lexer v)))
  unfolding aqls_lexer_next_token aqls_lexer_has_more_tokens
  next_skips e =
      rw
        (
          aqls_token_queue_is_empty-Holds lexer.lookahead [] h,
          ap (ltb lexer.pos) v.measured ∙ e,
          skip_ignored_lem lexer v,
        )
        (elim (Bool-cases (ltb (start lexer v) lexer.input_len)) [
          | inl k ↦ rw k refl
          | inr k ↦ rw k refl
        ])

  skip_end :
      ltb lexer.pos (length lexer.input) ≡ true → length lexer.input ≤ start lexer v → Steps lexer
  skip_end e k = record {
    queue = lexer.lookahead;
    after = start lexer v;
    returns =
        next_skips e
        ∙ rw
            (
              le→ltb_false (start lexer v) lexer.input_len (omega (arith, v.measured, k)),
              past_end lexer v k,
            )
            refl;
    emptied = h;
    moves =
        finished (start_bounds lexer v).0 (start_bounds lexer v).1
          (omega (arith, k, (start_bounds lexer v).1)) (past_end lexer v k);
  }

  next_found :
      ltb lexer.pos (length lexer.input) ≡ true
      → start lexer v < length lexer.input
      → Finds lexer.patterns lexer.input
          (start lexer v)
          (first_match lexer.patterns lexer.input (start lexer v))
      → Steps lexer
  unfolding next_at advance_token advance
  next_found e k (nothing unmatched none_found) = record {
    queue = lexer.lookahead;
    after = start lexer v;
    returns =
        next_skips e
        ∙ rw
            (
              lt→ltb (start lexer v) lexer.input_len (omega (arith, v.measured, k)),
              token_of-first_match lexer v k,
              match_patterns_lem lexer.input lexer.patterns (start lexer v) v.patterns_bounded,
              none_found,
            )
            refl;
    emptied = h;
    moves =
        stuck (start_bounds lexer v).0 k refl unmatched
          (token_of-first_match lexer v k ∙ ap (token_or_error (start lexer v)) none_found);
  }
  next_found e k (something kind n first positive fits one_found) = record {
    queue = lexer.lookahead;
    after = start lexer v + n;
    returns =
        next_skips e
        ∙ rw
            (
              lt→ltb (start lexer v) lexer.input_len (omega (arith, v.measured, k)),
              token_of-first_match lexer v k,
              match_patterns_lem lexer.input lexer.patterns (start lexer v) v.patterns_bounded,
              one_found,
              le→leb (start lexer v + n) lexer.input_len (omega (arith, v.measured, fits)),
            )
            refl;
    emptied = h;
    moves =
        over kind (start lexer v) n (start_bounds lexer v).0 positive refl fits refl first
          (token_of-first_match lexer v k ∙ ap (token_or_error (start lexer v)) one_found);
  }

  pub next_reads : Steps lexer
  next_reads = elim (Bool-cases (ltb lexer.pos (length lexer.input))) [
    | inr e ↦ next_at_end e
    | inl e ↦ elim (dec_lt (start lexer v) (length lexer.input)) [
      | yes k ↦ next_found e k (
          first_match-Finds lexer.input lexer.patterns (start lexer v) v.patterns_bounded
            (omega arith))
      | no k ↦ skip_end e (omega arith)
    ]
  ]
