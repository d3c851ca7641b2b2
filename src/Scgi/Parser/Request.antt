-- ===== src/Scgi/Parser/Request.antt =====
-- The parser reads the request that a list of headers and a body are written as.
use c_lang_examples.Prelude.{
  ℕ, suc, ◌+◌, ◌-◌, ◌^◌, ◌≤◌, u64, le→leb, ◌<◌, ◌≡◌, ◌≢◌, refl, sym, ap, ◌∙◌, arith, false, ◌==◌,
  lt→leb_false, some, List, [], ◌∷◌, ◌++◌, length, drop, get_elem?, length-drop, All, All-map,
  All-every, drop-cons, append_nil, append_assoc, take-length,
}
use c_lang_examples.Prelude.Ended.{Ended, done}
use c_lang_examples.Scgi.Parser.{
  ScgiParserState, parsing_header_name, parsing_header_value, parsing_body, Report, header_name,
  header_value, body, Run, Round, goes, skip, enter, scgi_parser_eof, scgi_parser_cursor_size,
  is_finished, ends_header, name_round, value_round, with_byte, round_in, round,
}
use c_lang_examples.Scgi.Parser.Walk.{Walks, stay, walk, Walks-trans, round_lem, with_byte_lem}

pub record Header : Type 0 where
  pub name : List ℕ
  pub value : List ℕ

-- Names and values are shorter than 255 bytes and without zeroes, and names without commas.
pub record IsHeader (header : Header) : Type 0 where
  pub plain_name : All (λ c. (c ≢ 0) × (c ≢ b',')) header.name
  pub plain_value : All (λ c. c ≢ 0) header.value
  pub short_name : length header.name < 255
  pub short_value : length header.value < 255

-- Every name and value with a zero behind it, then a comma, then the body.
abbrev pub request : List Header → List ℕ → List ℕ
request [] content = b',' ∷ content
request (header ∷ headers) content =
    header.name ++ 0 ∷ (header.value ++ 0 ∷ request headers content)

abbrev pub reports_of : List Header → List ℕ → List Report
reports_of [] content = body content ∷ []
reports_of (header ∷ headers) content =
    header_name header.name ∷ header_value header.value ∷ reports_of headers content

skips_value : (c : ℕ) → c ≢ 0 → (run : Run) → value_round c run ≡ done (goes (skip run))
unfolding value_round
skips_value c h run = let test : (c == 0) ≡ false = ground arith in rw test refl

skips_name :
    (c : ℕ) → (c ≢ 0) × (c ≢ b',') → (run : Run) → name_round c run ≡ done (goes (skip run))
unfolding name_round
skips_name c h run =
    let zero_test : (c == 0) ≡ false = (let k = h.0 in ground arith) in
    let comma_test : (c == b',') ≡ false = (let k = h.1 in ground arith) in
    rw (comma_test, zero_test) refl

name_ends : (run : Run) → name_round 0 run ≡ ends_header header_name parsing_header_value run
unfolding name_round
name_ends run = refl

value_ends : (run : Run) → value_round 0 run ≡ ends_header header_value parsing_header_name run
unfolding value_round
value_ends run = refl

comma_enters : (run : Run) → name_round b',' run ≡ done (goes (enter parsing_body run))
unfolding name_round
comma_enters run = refl

module _ (buffer : List ℕ) where
  abbrev pub run_at : ScgiParserState → ℕ → ℕ → List Report → Run
  run_at state start end reports = record {
    parser = record {
      state = state;
      input_buffer = buffer;
      input_buffer_size = length buffer;
      cursor_start = start;
      cursor_end = end;
    };
    reports = reports;
  }

  -- A state walks over a word of bytes that it skips.
  walk_word :
      (state : ScgiParserState) (start : ℕ) (reports : List Report)
      → is_finished state ≡ false
      → (w rest : List ℕ) (p : ℕ)
      → All
          (λ c.
            (q : ℕ)
            → get_elem? buffer q ≡ some c
            → round (run_at state start q reports)
              ≡ done (goes (run_at state start (q + 1) reports)))
          w
      → drop p buffer ≡ w ++ rest
      → Walks (run_at state start p reports) (run_at state start (p + length w) reports)
        × (drop (p + length w) buffer ≡ rest)
  unfolding scgi_parser_eof
  walk_word state start reports going [] rest p skips e =
      let same : p + 0 ≡ p = omega arith in rw same (stay _, e)
  walk_word state start reports going (c ∷ w) rest p skips e =
      let (at, behind, inside) = drop-cons buffer p c (w ++ rest) e in
      let further : p + 1 + length w ≡ p + suc (length w) = omega arith in
      let (walked, left) = walk_word state start reports going w rest (p + 1) skips.1 behind in
      rw (sym further) (
        walk _ _ _ (rw (going, lt→leb_false (length buffer) p inside) refl) (skips.0 p at)
            (record { one_further = refl; same_size = refl; same_buffer = refl }) walked,
        left,
      )

  -- The end of a header name or value that fits is reported.
  ends_header_lem :
      (report : List ℕ → Report) (state next : ScgiParserState) (w rest : List ℕ) (p : ℕ)
      (reports : List Report)
      → length w < 255
      → drop p buffer ≡ w ++ rest
      → p + length w ≤ length buffer
      → ends_header report next (run_at state p (p + length w) reports)
        ≡ done (goes (run_at next (p + length w + 1) (p + length w + 1) (reports ++ report w ∷ [])))
  unfolding ends_header scgi_parser_cursor_size
  ends_header_lem report state next w rest p reports short e fits =
      let size : u64 (p + length w + 2 ^ 64 - p) ≡ length w = omega arith in
      rw
        (
          size,
          lt→leb_false 255 (length w) short,
          le→leb (p + length w) (length buffer) fits,
          e,
          take-length w rest,
        )
        refl

  -- A state that skips a word, and reports it at the zero behind it.
  walk_part :
      (state next : ScgiParserState) (report : List ℕ → Report) (read : ℕ → Run → Ended Round)
      → is_finished state ≡ false
      → ((run : Run) → round_in state run ≡ with_byte read run)
      → ((run : Run) → read 0 run ≡ ends_header report next run)
      → (w rest : List ℕ) (p : ℕ) (reports : List Report)
      → All (λ c. (run : Run) → read c run ≡ done (goes (skip run))) w
      → length w < 255
      → drop p buffer ≡ w ++ 0 ∷ rest
      → (after : ℕ) × Walks
          (run_at state p p reports)
          (run_at next after after (reports ++ report w ∷ []))
        × (drop after buffer ≡ rest)
  unfolding scgi_parser_eof
  walk_part state next report read going reads zero_ends w rest p reports skips short e =
      let reading : (c q : ℕ)
          → get_elem? buffer q ≡ some c
          → round (run_at state p q reports) ≡ read c (run_at state p q reports) =
        λ c q at.
          round_lem (run_at state p q reports) state refl
          ∙ (reads (run_at state p q reports)
              ∙ with_byte_lem read (run_at state p q reports) c at) in
      let (walked, left) =
        walk_word state p reports going w (0 ∷ rest) p
          (All-map (λ c skip_it q at. reading c q at ∙ skip_it (run_at state p q reports)) w skips)
          e in
      let (at, behind, inside) = drop-cons buffer (p + length w) 0 rest left in
      (
        p + length w + 1,
        Walks-trans _ _ _ walked (
            walk _ _ _ (rw (going, lt→leb_false (length buffer) (p + length w) inside) refl)
              (reading 0 (p + length w) at
                ∙ (zero_ends (run_at state p (p + length w) reports)
                    ∙ ends_header_lem report state next w (0 ∷ rest) p reports short e
                        (omega (arith, inside))))
              (record { one_further = refl; same_size = refl; same_buffer = refl }) (stay _)),
        behind,
      )

  -- A header name and a header value, each with its zero, are reported.
  walk_header :
      (header : Header)
      → IsHeader header
      → (rest : List ℕ) (p : ℕ) (reports : List Report)
      → drop p buffer ≡ header.name ++ 0 ∷ (header.value ++ 0 ∷ rest)
      → (after : ℕ) × Walks (run_at parsing_header_name p p reports) (
          run_at parsing_header_name after after
            ((reports ++ header_name header.name ∷ []) ++ header_value header.value ∷ []))
        × (drop after buffer ≡ rest)
  walk_header header good rest p reports e =
      let (middle, named, left) =
        walk_part parsing_header_name parsing_header_value header_name name_round refl (λ run. refl)
          name_ends header.name (header.value ++ 0 ∷ rest) p reports
          (All-map skips_name header.name good.plain_name) good.short_name e in
      let (after, valued, behind) =
        walk_part parsing_header_value parsing_header_name header_value value_round refl
          (λ run. refl) value_ends header.value rest middle
          (reports ++ header_name header.name ∷ [])
          (All-map skips_value header.value good.plain_value) good.short_value left in
      (after, Walks-trans _ _ _ named valued, behind)

  -- The comma, and the body.
  walk_body :
      (content : List ℕ) (p : ℕ) (reports : List Report)
      → drop p buffer ≡ b',' ∷ content
      → Walks
          (run_at parsing_header_name p p reports)
          (run_at parsing_body (p + 1) (p + 1 + length content) reports)
        × (drop (p + 1) buffer ≡ content)
        × (p + 1 + length content ≡ length buffer)
  unfolding scgi_parser_eof
  walk_body content p reports e =
      let (at, behind, inside) = drop-cons buffer p b',' content e in
      let (walked, left) =
        walk_word parsing_body (p + 1) reports refl content [] (p + 1)
          (All-every (λ c q at. round_lem (run_at parsing_body (p + 1) q reports) parsing_body refl)
            content)
          (behind ∙ sym (append_nil content)) in
      let begins : round (run_at parsing_header_name p p reports)
          ≡ done (goes (run_at parsing_body (p + 1) (p + 1) reports)) =
        round_lem (run_at parsing_header_name p p reports) parsing_header_name refl
        ∙ (with_byte_lem name_round (run_at parsing_header_name p p reports) b',' at
            ∙ comma_enters (run_at parsing_header_name p p reports)) in
      (
        walk _ _ _ (rw (lt→leb_false (length buffer) p inside) refl) begins
            (record { one_further = refl; same_size = refl; same_buffer = refl }) walked,
        behind,
        (let n = ap length behind in omega (arith, n, inside, length-drop (p + 1) buffer)),
      )

  -- The headers and the body of a request are walked over, and the headers reported.
  pub walk_request :
      (headers : List Header) (content : List ℕ)
      → All IsHeader headers
      → (p : ℕ) (reports : List Report) → drop p buffer ≡ request headers content
      → (start : ℕ) × (before : List Report) × Walks
          (run_at parsing_header_name p p reports)
          (run_at parsing_body start (start + length content) before)
        × (before ++ body content ∷ [] ≡ reports ++ reports_of headers content)
        × (drop start buffer ≡ content)
        × (start + length content ≡ length buffer)
  walk_request [] content good p reports e =
      let (walked, there, ends) = walk_body content p reports e in
      (p + 1, reports, walked, refl, there, ends)
  walk_request (header ∷ headers) content good p reports e =
      let (after, walked, left) = walk_header header good.0 (request headers content) p reports e in
      let (start, before, on, same, there, ends) =
        walk_request headers content good.1 after
          ((reports ++ header_name header.name ∷ []) ++ header_value header.value ∷ []) left in
      (
        start,
        before,
        Walks-trans _ _ _ walked on,
        same
            ∙ (append_assoc (reports ++ header_name header.name ∷ [])
                  (header_value header.value ∷ []) (reports_of headers content)
                ∙ append_assoc reports (header_name header.name ∷ [])
                    (header_value header.value ∷ reports_of headers content)),
        there,
        ends,
      )
