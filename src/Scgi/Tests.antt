-- ===== src/Scgi/Tests.antt =====
-- Runs of the parts of the backend.
use c_lang_examples.Prelude.{ℕ, ◌+◌, ◌≤◌, ◌≡◌, refl, arith, List, [], ◌∷◌, All, false, ◌++◌}
use c_lang_examples.Prelude.Ended.{done}
use c_lang_examples.Scgi.Parser.{ScgiParser, Run, parsing_header_name, scgi_parser_parse}
use c_lang_examples.Scgi.Parser.Request.{Header, IsHeader, reports_of}
use c_lang_examples.Scgi.Parser.Whole.{
  Parses, parse_request, scgi_parser_parse-request, scgi_parser_parse-done,
}
use c_lang_examples.Scgi.Connection.{Strtoul, connection_handle}
use c_lang_examples.Scgi.Connection.Serve.{headers_text, Serves, connection_handle-Serves}
use c_lang_examples.Scgi.Memory.{
  FixedBufferAllocator, fixed_buffer_allocator_malloc, BufferedReader,
  buffered_reader_read_digits_until,
}
use c_lang_examples.Scgi.Memory.Parts.{
  HasGiven, Gives, fixed_buffer_allocator_malloc-Gives, buffered_reader_read_digits_until-stored,
}

abbrev scgi_one : List Header
scgi_one = record { name = b'S' ∷ b'C' ∷ []; value = b'1' ∷ [] } ∷ []

scgi_one-IsHeader : All IsHeader scgi_one
scgi_one-IsHeader = (
  record {
    plain_name = ((omega arith, omega arith), ((omega arith, omega arith), tt));
    plain_value = (omega arith, tt);
    short_name = omega arith;
    short_value = omega arith;
  },
  tt,
)

scgi_parser_parse-request_example :
    Parses (parse_request 20 scgi_one (b'h' ∷ b'i' ∷ [])) (reports_of scgi_one (b'h' ∷ b'i' ∷ []))
scgi_parser_parse-request_example =
    scgi_parser_parse-request 20 scgi_one (b'h' ∷ b'i' ∷ []) scgi_one-IsHeader (omega arith)
      (omega arith)

abbrev odd_parser : ScgiParser
odd_parser = record {
  state = parsing_header_name;
  input_buffer = 7 ∷ 0 ∷ 7 ∷ [];
  input_buffer_size = 3;
  cursor_start = 0;
  cursor_end = 0;
}

scgi_parser_parse-done_example :
    (result : ℕ × Run) × (scgi_parser_parse 4 odd_parser ≡ done result) × (result.0 ≤ 1)
scgi_parser_parse-done_example =
    scgi_parser_parse-done 4 odd_parser (omega arith) (omega arith) (omega arith) (omega arith)

abbrev two_of_six : FixedBufferAllocator
two_of_six = record { buffer = 9 ∷ 9 ∷ 9 ∷ 9 ∷ 9 ∷ 9 ∷ []; allocated = 2 }

two_of_six-HasGiven : HasGiven two_of_six ((0, 2) ∷ [])
two_of_six-HasGiven = record {
  packed = (omega arith, tt);
  inside = omega arith;
  addressable = omega arith;
}

fixed_buffer_allocator_malloc-Gives_example :
    Gives two_of_six ((0, 2) ∷ []) 3 (fixed_buffer_allocator_malloc two_of_six 3)
fixed_buffer_allocator_malloc-Gives_example =
    fixed_buffer_allocator_malloc-Gives two_of_six ((0, 2) ∷ []) 3 two_of_six-HasGiven (omega arith)
      (omega arith)

-- Two digits, where one is the most.
abbrev reader_of_two : BufferedReader
reader_of_two = record { input = b'1' ∷ b'2' ∷ b':' ∷ []; buffer = 0 ∷ 0 ∷ 0 ∷ []; cursor = 0 }

buffered_reader_read_digits_until-stored_example :
    buffered_reader_read_digits_until reader_of_two b':' 1
    ≡ done (0, record { input = []; buffer = b'1' ∷ b'2' ∷ 0 ∷ []; cursor = 0 + 2 })
buffered_reader_read_digits_until-stored_example =
    buffered_reader_read_digits_until-stored reader_of_two b':' 1 (b'1' ∷ b'2' ∷ []) [] refl
      (omega arith) (refl, (refl, tt)) (omega arith) refl

-- "5:", the headers, and a body that is not read.
abbrev reads_five : Strtoul
reads_five cstr = (5, false)

connection_handle-Serves_example : Serves scgi_one (
    connection_handle reads_five 7
      ((b'5' ∷ []) ++ b':' ∷ (headers_text scgi_one ++ b',' ∷ b'h' ∷ b'i' ∷ [])))
connection_handle-Serves_example =
    connection_handle-Serves reads_five 7 scgi_one (b'5' ∷ []) (b'h' ∷ b'i' ∷ []) scgi_one-IsHeader
      (refl, tt) (omega arith) refl (omega arith) (omega arith)
