-- ===== src/Scgi/Parser/Walk.antt =====
-- Walks of the parser through its input, as a relation.
use mathlib.Core.Bool.{false≢true}
use c_lang_examples.Prelude.{
  ℕ, zero, suc, ◌+◌, ◌-◌, ◌<◌, ◌≡◌, refl, sym, ap, arith, Bool, true, false, not, ◌&&◌, leb, none,
  some, get_elem?,
}
use c_lang_examples.Prelude.Ended.{Ended, done, undefined}
use c_lang_examples.Scgi.Parser.{
  ScgiParserState, Run, Round, goes, scgi_parser_eof, is_finished, with_byte, round_in, round,
  loops, rounds,
}

-- One byte further on in the same buffer.
pub record Advanced (run next : Run) : Type 0 where
  pub one_further : next.parser.cursor_end ≡ run.parser.cursor_end + 1
  pub same_size : next.parser.input_buffer_size ≡ run.parser.input_buffer_size
  pub same_buffer : next.parser.input_buffer ≡ run.parser.input_buffer

-- Rounds of the loop that all go on.
pub data Walks : Run → Run → Type 0 where
  stay : (run : Run) → Walks run run
  walk :
      (run next last : Run)
      → loops run ≡ true
      → round run ≡ done (goes next)
      → Advanced run next
      → Walks next last
      → Walks run last

pub Walks-trans : (a b c : Run) → Walks a b → Walks b c → Walks a c
Walks-trans a b c (stay _) w = w
Walks-trans a b c (walk _ next _ l r s v) w = walk a next c l r s (Walks-trans next b c v w)

and_right : (a b : Bool) → a && not b ≡ true → b ≡ false
and_right true false e = refl
and_right true true e = sym e
and_right false b e = absurd (false≢true e)

pub inside : (run : Run) → loops run ≡ true → run.parser.cursor_end < run.parser.input_buffer_size
unfolding scgi_parser_eof
inside run e =
    let more =
      and_right (not (is_finished run.parser.state))
        (leb run.parser.input_buffer_size run.parser.cursor_end) e in
    ground (arith, more)

-- The loop follows a walk that ends where the loop does.
pub rounds-Walks :
    (run last : Run)
    → Walks run last
    → loops last ≡ false
    → (fuel : ℕ) → run.parser.input_buffer_size - run.parser.cursor_end < fuel
    → rounds fuel run ≡ done (goes last)
unfolding rounds
rounds-Walks run last w e zero h = absurd (omega arith)
rounds-Walks run last (stay _) e (suc fuel) h = rw (rounds, e) refl
rounds-Walks run last (walk _ next _ l r s w) e (suc fuel) h =
    rw (rounds, l, r)
      (rounds-Walks next last w e fuel
        (let k = inside run l in omega (arith, h, k, s.one_further, s.same_size)))

-- A round by the state, and by the byte at the cursor.
pub round_lem :
    (run : Run) (state : ScgiParserState)
    → run.parser.state ≡ state
    → round run ≡ round_in state run
unfolding round
round_lem run state e = ap (λ s. round_in s run) e

pub with_byte_lem :
    (read : ℕ → Run → Ended Round) (run : Run) (c : ℕ)
    → get_elem? run.parser.input_buffer run.parser.cursor_end ≡ some c
    → with_byte read run ≡ read c run
with_byte_lem read run c e = ap (λ o. elim o [ none ↦ undefined | some c ↦ read c run ]) e
