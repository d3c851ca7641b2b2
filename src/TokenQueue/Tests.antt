-- ===== src/TokenQueue/Tests.antt =====
-- The theorems about the token queue at a concrete queue.
use c_lang_examples.Prelude.{
  ℕ, zero, suc, ◌+◌, ◌%◌, get_elem?, ◌<◌, ◌≡◌, refl, arith, [], ◌∷◌, ◌++◌,
}
use c_lang_examples.Prelude.Ended.{done}
use c_lang_examples.TokenQueue.{
  TokenQueue, aqls_token_queue_append, aqls_token_queue_pop, aqls_token_queue_peek,
}
use c_lang_examples.TokenQueue.Fifo.{
  Holds, aqls_token_queue_pop-Holds, aqls_token_queue_append-Holds,
}

-- Two tokens in three places, the second of them round the end of the array.
abbrev round_the_end : TokenQueue ℕ
round_the_end = record { items = 22 ∷ 0 ∷ 11 ∷ []; start = 2; end = 1; capacity = 3; len = 2 }

in_place :
    (k : ℕ)
    → k < 2
    → get_elem? round_the_end.items ((round_the_end.start + k) % round_the_end.capacity)
      ≡ get_elem? (11 ∷ 22 ∷ []) k
in_place zero h = refl
in_place (suc zero) h = refl
in_place (suc (suc k)) h = absurd (omega arith)

round_the_end-Holds : Holds round_the_end (11 ∷ 22 ∷ [])
round_the_end-Holds = record {
  room = omega arith;
  allocated = refl;
  counted = refl;
  fits = omega arith;
  begins = omega arith;
  ends = refl;
  stored = in_place;
}

aqls_token_queue_pop-Holds_example :
    (rest : TokenQueue ℕ) × (aqls_token_queue_peek round_the_end ≡ done 11)
    × (aqls_token_queue_pop round_the_end ≡ done (11, rest))
    × Holds rest (22 ∷ [])
aqls_token_queue_pop-Holds_example =
    aqls_token_queue_pop-Holds round_the_end 11 (22 ∷ []) round_the_end-Holds

aqls_token_queue_append-Holds_example :
    (longer : TokenQueue ℕ) × (aqls_token_queue_append round_the_end 33 ≡ done longer)
    × Holds longer ((11 ∷ 22 ∷ []) ++ 33 ∷ [])
aqls_token_queue_append-Holds_example =
    aqls_token_queue_append-Holds round_the_end (11 ∷ 22 ∷ []) 33 round_the_end-Holds (omega arith)
