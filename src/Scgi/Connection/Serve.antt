-- ===== src/Scgi/Connection/Serve.antt =====
-- A connection that sends a well-formed request has its headers parsed.
use mathlib.Core.Bool.{false≢true}
use c_lang_examples.Prelude.{
  ℕ, suc, ◌+◌, ◌≤◌, ◌<◌, ◌≡◌, refl, ap, ◌∙◌, arith, Bool, true, false, ◌==◌, lt→leb_false,
  le→ltb_false, some, List, [], ◌∷◌, ◌++◌, length, drop, set, write_at, All, append_assoc,
  take-length, length-append,
}
use c_lang_examples.Prelude.Ended.{Ended, done, aborted, exited, undefined, unfinished, ◌>>=◌}
use c_lang_examples.Scgi.Parser.{ScgiParser, Run, scgi_parser_init, scgi_parser_parse}
use c_lang_examples.Scgi.Parser.Request.{Header, IsHeader, request, reports_of}
use c_lang_examples.Scgi.Parser.Whole.{scgi_parser_parse-request}
use c_lang_examples.Scgi.Memory.{is_digit}
use c_lang_examples.Scgi.Connection.{
  Strtoul, ulong_max, scgi_headers_max_size, cstr_parse_size_t, max_digits, no_digits, size_byte,
  read_size, Handled, parsed, read_comma, read_headers, connection_handle,
}

-- The headers of a request, without the comma.
abbrev pub headers_text : List Header → List ℕ
headers_text [] = []
headers_text (header ∷ headers) = header.name ++ 0 ∷ (header.value ++ 0 ∷ headers_text headers)

headers_text-comma :
    (headers : List Header) (content : List ℕ)
    → headers_text headers ++ b',' ∷ content ≡ request headers content
headers_text-comma [] content = refl
headers_text-comma (header ∷ headers) content =
    append_assoc header.name (0 ∷ (header.value ++ 0 ∷ headers_text headers)) (b',' ∷ content)
    ∙ ap (λ l. header.name ++ 0 ∷ l)
        (append_assoc header.value (0 ∷ headers_text headers) (b',' ∷ content)
          ∙ ap (λ l. header.value ++ 0 ∷ l) (headers_text-comma headers content))

read_size-digits :
    (digits rest array : List ℕ) (count : ℕ)
    → All (λ c. is_digit c ≡ true) digits
    → count + length digits ≤ 9
    → read_size (digits ++ b':' ∷ rest) count array ≡ some (write_at array count digits, rest)
unfolding read_size size_byte
read_size-digits [] rest array count good h = refl
read_size-digits (c ∷ digits) rest array count good h =
    let other : (c == b':') ≡ false = (let g = good.0 in ground arith) in
    let one : count + 1 ≡ suc count = omega arith in
    rw (read_size, size_byte, other, good.0, lt→leb_false max_digits count (omega arith), one)
      (read_size-digits digits rest (set array count c) (suc count) good.1 (omega arith))

drop-length : (xs ys : List ℕ) → drop (length xs) (xs ++ ys) ≡ ys
drop-length [] ys = refl
drop-length (x ∷ xs) ys = drop-length xs ys

-- What a connection that is served has done.
pub record Serves (headers : List Header) (call : Ended Handled) : Type 0 where
  pub last : Run
  pub returned : call ≡ done (parsed 0 last)
  pub reported : last.reports ≡ reports_of headers []

abbrev is_done : Ended (ℕ × Run) → Bool
is_done (done _) = true
is_done aborted = false
is_done exited = false
is_done undefined = false
is_done unfinished = false

then_parsed :
    (call : Ended ScgiParser) (fuel : ℕ) (last : Run)
    → (call >>= λ parser. scgi_parser_parse fuel parser) ≡ done (0, last)
    → (call >>= λ parser.
        (scgi_parser_parse fuel parser >>= λ result. done (parsed result.0 result.1)))
      ≡ done (parsed 0 last)
then_parsed (done parser) fuel last e = rw e refl
then_parsed aborted fuel last e = absurd (false≢true (ap is_done e))
then_parsed exited fuel last e = absurd (false≢true (ap is_done e))
then_parsed undefined fuel last e = absurd (false≢true (ap is_done e))
then_parsed unfinished fuel last e = absurd (false≢true (ap is_done e))

read_comma-Serves :
    (fuel : ℕ) (headers : List Header) (rest : List ℕ)
    → All IsHeader headers
    → length (headers_text headers) + 1 < fuel
    → Serves headers (read_comma fuel (headers_text headers) (b',' ∷ rest))
unfolding read_comma
read_comma-Serves fuel headers rest good enough =
    let whole = headers_text-comma headers [] in
    let size = ap length whole in
    let parses = scgi_parser_parse-request fuel headers [] good (omega arith) (
      let a = length-append (headers_text headers) (b',' ∷ []) in omega (arith, enough, size, a)) in
    record {
      last = parses.last;
      returned = then_parsed _ fuel parses.last (
          ap (λ l. scgi_parser_init l (length l) >>= λ parser. scgi_parser_parse fuel parser) whole
          ∙ parses.returned);
      reported = parses.reported;
    }

-- A connection that sends the size in at most nine digits, which `strtoul` reads as the size of the
-- headers, a colon, well-formed headers shorter than 1024 bytes and a comma has its headers parsed
-- without an error, on more fuel than they and the comma have bytes. The names and values are
-- reported in their order, and an empty body, whatever is sent behind the comma.
pub connection_handle-Serves :
    (strtoul : Strtoul) (fuel : ℕ) (headers : List Header) (digits rest : List ℕ)
    → All IsHeader headers
    → All (λ c. is_digit c ≡ true) digits
    → length digits ≤ 9
    → strtoul (write_at no_digits 0 digits) ≡ (length (headers_text headers), false)
    → length (headers_text headers) < 1024
    → length (headers_text headers) + 1 < fuel
    → Serves headers
        (connection_handle strtoul fuel (digits ++ b':' ∷ (headers_text headers ++ b',' ∷ rest)))
unfolding connection_handle cstr_parse_size_t read_headers
connection_handle-Serves strtoul fuel headers digits rest good numeric few reads short enough =
    let served = read_comma-Serves fuel headers rest good enough in
    let text = headers_text headers in
    let whole = length-append text (b',' ∷ rest) in
    record {
      last = served.last;
      returned =
          rw
            (
              connection_handle,
              read_size-digits digits (text ++ b',' ∷ rest) no_digits 0 numeric
                  (omega (arith, few)),
              cstr_parse_size_t,
              reads,
              lt→leb_false ulong_max (length text) (omega (arith, short)),
              read_headers,
              lt→leb_false scgi_headers_max_size (length text) short,
              le→ltb_false (length (text ++ b',' ∷ rest)) (length text) (omega (arith, whole)),
              take-length text (b',' ∷ rest),
              drop-length text (b',' ∷ rest),
            )
            served.returned;
      reported = served.reported;
    }
