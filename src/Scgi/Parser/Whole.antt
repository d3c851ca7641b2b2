-- ===== src/Scgi/Parser/Whole.antt =====
-- Parsing ends, and reads back the request that headers and a body are written as.
use c_lang_examples.Prelude.{
  ℕ, ◌+◌, ◌-◌, ◌^◌, u64, leb, inl, inr, ◌&&◌, Bool-cases, ◌≤◌, ◌<◌, ◌≡◌, refl, sym, ap, ◌∙◌, arith,
  false, le→leb, lt→ltb, lt→leb_false, List, [], ◌∷◌, ◌++◌, length, take, drop, length-append, All,
  append_nil, take-length,
}
use c_lang_examples.Prelude.Ended.{Ended, done, ◌>>=◌}
use c_lang_examples.Scgi.Parser.{
  parsing_header_name, parsing_body, finished, ScgiParser, Report, body, Run, goes, returns,
  scgi_parser_init, scgi_parser_parse, scgi_parser_eof, scgi_parser_cursor_size, loops, rounds,
  finish, is_body, copy_size,
}
use c_lang_examples.Scgi.Parser.Walk.{rounds-Walks}
use c_lang_examples.Scgi.Parser.Ends.{IsInside, copied_lem, Settled, rounds-done}
use c_lang_examples.Scgi.Parser.Request.{
  Header, IsHeader, request, reports_of, run_at, walk_request,
}

-- What the parser ends as: it returns 0, in the state that is finished, with reports.
pub record Parses (result : Ended (ℕ × Run)) (reports : List Report) : Type 0 where
  pub last : Run
  pub returned : result ≡ done (0, last)
  pub reported : last.reports ≡ reports
  pub ended : last.parser.state ≡ finished
  pub consumed : last.parser.cursor_start ≡ last.parser.input_buffer_size

-- The run of a request by the parser that `scgi_parser_init` sets up.
abbrev pub parse_request : ℕ → List Header → List ℕ → Ended (ℕ × Run)
parse_request fuel headers content =
    scgi_parser_init (request headers content) (length (request headers content)) >>= λ parser.
    scgi_parser_parse fuel parser

request-long : (headers : List Header) (content : List ℕ) → 0 < length (request headers content)
request-long [] content = omega arith
request-long (header ∷ headers) content =
    omega (arith, length-append header.name (0 ∷ (header.value ++ 0 ∷ request headers content)))

-- The parser at the end of the buffer, in the body: the loop ends, and the body is reported.
module _ (buffer : List ℕ) (start : ℕ) (before : List Report) (content : List ℕ)
    (there : drop start buffer ≡ content) (ends : start + length content ≡ length buffer) where
  abbrev pub finished_run : Run
  finished_run = record {
    parser = record {
      state = finished;
      input_buffer = buffer;
      input_buffer_size = length buffer;
      cursor_start = start + length content;
      cursor_end = start + length content;
    };
    reports = before ++ body content ∷ [];
  }

  loops_end : loops (run_at buffer parsing_body start (start + length content) before) ≡ false
  unfolding scgi_parser_eof
  loops_end = rw (le→leb (length buffer) (start + length content) (omega (arith, ends))) refl

  finish_lem :
      length content < 255
      → finish (run_at buffer parsing_body start (start + length content) before)
        ≡ done (0, finished_run)
  unfolding finish scgi_parser_eof scgi_parser_cursor_size
  finish_lem short =
      let size : u64 (start + length content + 2 ^ 64 - start) ≡ length content = omega arith in
      rw
        (
          le→leb (length buffer) (start + length content) (omega (arith, ends)),
          size,
          lt→leb_false 255 (length content) short,
          le→leb (start + length content) (length buffer) (omega (arith, ends)),
          there,
          (ap (take (length content)) (sym (append_nil content)) ∙ take-length content []),
        )
        refl

parse_lem :
    (fuel : ℕ) (buffer : List ℕ) (last : Run)
    → 0 < length buffer
    → rounds fuel (run_at buffer parsing_header_name 0 0 []) ≡ done (goes last)
    → (scgi_parser_init buffer (length buffer) >>= λ parser. scgi_parser_parse fuel parser)
      ≡ finish last
unfolding scgi_parser_init scgi_parser_parse
parse_lem fuel buffer last long e = rw (lt→ltb 0 (length buffer) long, e) refl

-- A request of well-formed headers and a body shorter than 255 bytes is parsed, on more fuel than
-- it has bytes: the parser returns 0, has reported the names, the values and the body in the order
-- of the request, and is at its end.
pub scgi_parser_parse-request :
    (fuel : ℕ) (headers : List Header) (content : List ℕ)
    → All IsHeader headers
    → length content < 255
    → length (request headers content) < fuel
    → Parses (parse_request fuel headers content) (reports_of headers content)
scgi_parser_parse-request fuel headers content good short enough =
    let buffer = request headers content in
    let (start, before, walked, same, there, ends) =
      walk_request buffer headers content good 0 [] refl in
    let looped =
      rounds-Walks (run_at buffer parsing_header_name 0 0 [])
        (run_at buffer parsing_body start (start + length content) before) walked
        (loops_end buffer start before content there ends) fuel (omega (arith, enough)) in
    record {
      last = finished_run buffer start before content there ends;
      returned =
          parse_lem fuel buffer (run_at buffer parsing_body start (start + length content) before)
            (request-long headers content) looped
          ∙ (finish_lem buffer start before content there ends short);
      reported = same;
      ended = refl;
      consumed = ends;
    }

finish-done :
    (run : Run)
    → IsInside run.parser
    → (result : ℕ × Run) × (finish run ≡ done result) × (result.0 ≤ 1)
unfolding finish
finish-done run h = elim (Bool-cases (scgi_parser_eof run.parser && is_body run.parser.state)) [
  | inr e ↦ rw (finish, e) (_, refl, omega arith)
  | inl e ↦ elim (Bool-cases (leb (copy_size - 1) (scgi_parser_cursor_size run.parser))) [
    | inl k ↦ rw (finish, e, k) (_, refl, omega arith)
    | inr k ↦ rw (finish, e, k, copied_lem run.parser h) (_, refl, omega arith)
  ]
]

-- The parser returns 0 or 1 from every state, on more fuel than there are bytes left, if its cursors
-- are in order, at most its size, and its buffer is at least as long as its size: no byte outside
-- the buffer is read, at the cursor or by a copy.
pub scgi_parser_parse-done :
    (fuel : ℕ) (parser : ScgiParser)
    → parser.cursor_start ≤ parser.cursor_end
    → parser.cursor_end ≤ parser.input_buffer_size
    → parser.input_buffer_size ≤ length parser.input_buffer
    → parser.input_buffer_size - parser.cursor_end < fuel
    → (result : ℕ × Run) × (scgi_parser_parse fuel parser ≡ done result) × (result.0 ≤ 1)
unfolding scgi_parser_parse
scgi_parser_parse-done fuel parser ordered within measured k =
    let (ended, e, settled) =
      rounds-done fuel (record { parser = parser; reports = [] })
        (record { ordered = ordered; within = within; measured = measured }) k in
    elim ended
        as (λ r.
          rounds fuel (record { parser = parser; reports = [] }) ≡ done r
          → Settled r
          → (result : ℕ × Run) × (scgi_parser_parse fuel parser ≡ done result) × (result.0 ≤ 1)) [
            | goes run ↦ λ e h.
                let (result, same, small) = finish-done run h in
                (result, rw (e, scgi_parser_parse) same, small)
            | returns code run ↦ λ e h. ((code, run), rw (e, scgi_parser_parse) refl, h)
          ]
      e settled
