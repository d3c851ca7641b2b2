-- ===== src/Scgi/Parser/Ends.antt =====
-- The parser keeps its cursors inside its buffer, reads nothing outside it, and ends.
use mathlib.Core.Bool.{false≢true}
use c_lang_examples.Prelude.{
  ℕ, zero, suc, ◌+◌, ◌-◌, ◌≤◌, ◌<◌, ◌≡◌, ◌⊎◌, inl, inr, refl, sym, ap, ◌∙◌, arith, true, not, ◌&&◌,
  ◌==◌, leb, le→leb, subst, u64, ◌^◌, take, drop, Bool-cases, List, length, get_elem?-some,
}
use c_lang_examples.Prelude.Ended.{Ended, done}
use c_lang_examples.Scgi.Parser.Walk.{Advanced, inside, round_lem, with_byte_lem}
use c_lang_examples.Scgi.Parser.{
  ScgiParserState, ScgiParser, copied, parsing_header_name, parsing_header_value, parsing_body,
  finished, Report, header_name, header_value, Run, Round, goes, returns, skip, enter,
  scgi_parser_eof, scgi_parser_cursor_size, is_finished, ends_header, name_round, value_round,
  round, loops, rounds, copy_size,
}

-- The cursors are in order and inside the buffer, which is at least as long as its size.
pub record IsInside (parser : ScgiParser) : Type 0 where
  pub ordered : parser.cursor_start ≤ parser.cursor_end
  pub within : parser.cursor_end ≤ parser.input_buffer_size
  pub measured : parser.input_buffer_size ≤ length parser.input_buffer

-- A copy of what is between the cursors reads nothing outside the buffer.
pub copied_lem :
    (parser : ScgiParser)
    → IsInside parser
    → copied (scgi_parser_cursor_size parser) parser
      ≡ done (take (scgi_parser_cursor_size parser) (drop parser.cursor_start parser.input_buffer))
unfolding scgi_parser_cursor_size
copied_lem parser h =
    let ordered = h.ordered in
    let within = h.within in
    let measured = h.measured in
    rw
      (le→leb (parser.cursor_start + u64 (parser.cursor_end + 2 ^ 64 - parser.cursor_start))
        (length parser.input_buffer) (omega (arith, ordered, within, measured)))
      refl

-- A round goes on by one byte, with the cursors in order, or returns 1.
Ends : Run → Ended Round → Type 0
Ends run ended =
    ((next : Run) × (ended ≡ done (goes next))
      × Advanced run next
      × (next.parser.cursor_start ≤ next.parser.cursor_end))
    ⊎ (ended ≡ done (returns 1 run))

on :
    (run next : Run)
    → Advanced run next
    → next.parser.cursor_start ≤ next.parser.cursor_end
    → Ends run (done (goes next))
unfolding Ends
on run next a h = inl (next, refl, a, h)

ends_header-Ends :
    (report : List ℕ → Report) (next : ScgiParserState) (run : Run)
    → IsInside run.parser
    → Ends run (ends_header report next run)
unfolding ends_header Ends
ends_header-Ends report next run h =
    elim (Bool-cases (leb (copy_size - 1) (scgi_parser_cursor_size run.parser))) [
      | inl e ↦ rw (ends_header, e) (inr refl)
      | inr e ↦
          rw (ends_header, e, copied_lem run.parser h)
            (inl (
              _,
              refl,
              record { one_further = refl; same_size = refl; same_buffer = refl },
              omega arith,
            ))
    ]

skip-Ends : (run : Run) → IsInside run.parser → Ends run (done (goes (skip run)))
skip-Ends run h =
    on run (skip run) (record { one_further = refl; same_size = refl; same_buffer = refl })
      (let k = h.ordered in omega (arith, k))

value_round-Ends : (c : ℕ) (run : Run) → IsInside run.parser → Ends run (value_round c run)
unfolding value_round
value_round-Ends c run h = elim (Bool-cases (c == 0)) [
  | inl e ↦ rw (value_round, e) (ends_header-Ends header_value parsing_header_name run h)
  | inr e ↦ rw (value_round, e) (skip-Ends run h)
]

name_round-Ends : (c : ℕ) (run : Run) → IsInside run.parser → Ends run (name_round c run)
unfolding name_round
name_round-Ends c run h = elim (Bool-cases (c == b',')) [
  | inl e ↦
      rw (name_round, e)
        (on run (enter parsing_body run)
          (record { one_further = refl; same_size = refl; same_buffer = refl }) (omega arith))
  | inr k ↦ elim (Bool-cases (c == 0)) [
    | inl e ↦ rw (name_round, k, e) (ends_header-Ends header_name parsing_header_value run h)
    | inr e ↦ rw (name_round, k, e) (skip-Ends run h)
  ]
]

State-cases :
    (s : ScgiParserState)
    → (s ≡ parsing_header_name)
      ⊎ ((s ≡ parsing_header_value) ⊎ ((s ≡ parsing_body) ⊎ (s ≡ finished)))
State-cases parsing_header_name = inl refl
State-cases parsing_header_value = inr (inl refl)
State-cases parsing_body = inr (inr (inl refl))
State-cases finished = inr (inr (inr refl))

round-Ends : (run : Run) → loops run ≡ true → IsInside run.parser → Ends run (round run)
round-Ends run l h =
    let (c, at) =
      get_elem?-some run.parser.input_buffer run.parser.cursor_end
        (let k = inside run l in let m = h.measured in omega (arith, m, k)) in
    elim (State-cases run.parser.state) [
      | inl e ↦
          subst (Ends run)
            (sym (round_lem run parsing_header_name e ∙ with_byte_lem name_round run c at))
            (name_round-Ends c run h)
      | inr (inl e) ↦
          subst (Ends run)
            (sym (round_lem run parsing_header_value e ∙ with_byte_lem value_round run c at))
            (value_round-Ends c run h)
      | inr (inr (inl e)) ↦ subst (Ends run) (sym (round_lem run parsing_body e)) (skip-Ends run h)
      | inr (inr (inr e)) ↦ absurd (
          false≢true
            (sym (ap (λ s. not (is_finished s) && not (scgi_parser_eof run.parser)) e) ∙ l))
    ]

next-IsInside :
    (run next : Run)
    → loops run ≡ true
    → IsInside run.parser
    → Advanced run next
    → next.parser.cursor_start ≤ next.parser.cursor_end
    → IsInside next.parser
next-IsInside run next l h a ordered = record {
  ordered = ordered;
  within = (let k = inside run l in omega (arith, k, a.one_further, a.same_size));
  measured = (let k = h.measured in omega (arith, k, a.same_size, ap length a.same_buffer));
}

-- How the loop is left: by the end of it, with the cursors inside the buffer, or by a code, which
-- is 0 or 1.
abbrev pub Settled : Round → Type 0
Settled (goes last) = IsInside last.parser
Settled (returns code last) = code ≤ 1

-- The loop ends, on more fuel than there are bytes left.
pub rounds-done :
    (fuel : ℕ) (run : Run)
    → IsInside run.parser
    → run.parser.input_buffer_size - run.parser.cursor_end < fuel
    → (ended : Round) × (rounds fuel run ≡ done ended) × Settled ended
unfolding rounds Ends
rounds-done zero run h k = absurd (omega arith)
rounds-done (suc fuel) run h k = elim (Bool-cases (loops run)) [
  | inr e ↦ (goes run, rw (rounds, e) refl, h)
  | inl e ↦ elim (round-Ends run e h) [
    | inr q ↦ (returns 1 run, rw (rounds, e, q) refl, omega arith)
    | inl (next, q, a, ordered) ↦
        (let (last, same, settled) =
            rounds-done fuel next (next-IsInside run next e h a ordered)
              (let m = inside run e in omega (arith, k, m, a.one_further, a.same_size)) in
          (last, rw (rounds, e, q) same, settled))
  ]
]
