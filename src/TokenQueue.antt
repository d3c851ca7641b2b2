-- ===== src/TokenQueue.antt =====
-- The token queue of the aqls parser (token/queue.c, token/queue.h under
-- parsing-example/aqls-parser/src/aqls-parser): a ring buffer. A token is any value.
pub mod Fifo
pub mod Tests
use c_lang_examples.Prelude.{
  ℕ, ◌+◌, ◌-◌, ◌%◌, Bool, true, false, ◌==◌, if◌then◌else◌, Option, none, some, List, get_elem?,
  set, replicate, ltb, length,
}
use c_lang_examples.Prelude.Ended.{Ended, done, aborted, exited, undefined}

pub record TokenQueue (A : Type 0) : Type 0 where
  pub items : List A
  pub start : ℕ
  pub end : ℕ
  pub capacity : ℕ
  pub len : ℕ

module _ {A : Type 0} where
  -- Whether `calloc` gives the memory, and the token of zeroes, are arguments.
  unfoldable pub aqls_token_queue_init : Bool → A → ℕ → Ended (TokenQueue A)
  aqls_token_queue_init false blank capacity = exited
  aqls_token_queue_init true blank capacity = done (record {
    items = replicate capacity blank;
    start = 0;
    end = 0;
    capacity = capacity;
    len = 0;
  })

  unfoldable pub aqls_token_queue_is_empty : TokenQueue A → Bool
  aqls_token_queue_is_empty queue = queue.len == 0

  unfoldable pub aqls_token_queue_is_full : TokenQueue A → Bool
  aqls_token_queue_is_full queue = queue.len == queue.capacity

  unfoldable pub aqls_token_queue_append : TokenQueue A → A → Ended (TokenQueue A)
  unfolding aqls_token_queue_is_full
  aqls_token_queue_append queue item =
      if aqls_token_queue_is_full queue
      then aborted
      else if ltb queue.end (length queue.items)
      then done (record queue {
        items = set queue.items queue.end item;
        end = (queue.end + 1) % queue.capacity;
        len = queue.len + 1;
      })
      else undefined

  unfoldable pub aqls_token_queue_pop : TokenQueue A → Ended (A × TokenQueue A)
  unfolding aqls_token_queue_is_empty
  aqls_token_queue_pop queue =
      if aqls_token_queue_is_empty queue
      then aborted
      else elim (get_elem? queue.items queue.start) [
        | none ↦ undefined
        | some token ↦ done (
          token,
          record queue { start = (queue.start + 1) % queue.capacity; len = queue.len - 1 },
        )
      ]

  unfoldable pub aqls_token_queue_peek : TokenQueue A → Ended A
  unfolding aqls_token_queue_is_empty
  aqls_token_queue_peek queue =
      if aqls_token_queue_is_empty queue
      then aborted
      else elim (get_elem? queue.items queue.start) [ none ↦ undefined | some token ↦ done token ]
