-- ===== src/TokenQueue/Fifo.antt =====
-- The ring buffer holds a sequence of tokens, first in, first out.
use native.Mathlib.Nat.{mod-lt, mod-eq_of_lt, mod-add-mod, mod-eq-sub-mod}
use native.Mathlib.Decide.{dec_lt}
use c_lang_examples.Prelude.{
  ℕ, zero, suc, ◌+◌, ◌-◌, ◌%◌, ◌≤◌, ◌<◌, ◌≡◌, ◌≢◌, refl, sym, ap, ◌∙◌, subst, arith, true, false,
  ◌==◌, lt→ltb, some, List, [], ◌∷◌, ◌++◌, length, get_elem?, set, replicate, length-replicate, ◌⊎◌,
  inl, inr, length-set, length-append, get_elem?-set_self, get_elem?-set_ne,
}
use c_lang_examples.Prelude.Ended.{done}
use c_lang_examples.TokenQueue.{
  TokenQueue, aqls_token_queue_init, aqls_token_queue_is_empty, aqls_token_queue_is_full,
  aqls_token_queue_append, aqls_token_queue_pop, aqls_token_queue_peek,
}

get_elem?-append :
    {A : Type 0} (xs ys : List A) (i : ℕ) → i < length xs → get_elem? (xs ++ ys) i ≡ get_elem? xs i
get_elem?-append [] ys i h = absurd (omega arith)
get_elem?-append (x ∷ xs) ys zero h = refl
get_elem?-append (x ∷ xs) ys (suc i) h = get_elem?-append xs ys i (omega arith)

get_elem?-append_last :
    {A : Type 0} (xs : List A) (x : A) (i : ℕ) → i ≡ length xs → get_elem? (xs ++ x ∷ []) i ≡ some x
get_elem?-append_last [] x zero h = refl
get_elem?-append_last [] x (suc i) h = absurd (omega arith)
get_elem?-append_last (y ∷ xs) x zero h = absurd (omega arith)
get_elem?-append_last (y ∷ xs) x (suc i) h = get_elem?-append_last xs x i (omega arith)

-- A number below twice the modulus, reduced.
mod_wrap : (n c : ℕ) → n < c + c → ((n < c) × (n % c ≡ n)) ⊎ ((c ≤ n) × (n % c ≡ n - c))
mod_wrap n c h = elim (dec_lt n c) [
  | yes below ↦ inl (below, mod-eq_of_lt below)
  | no above ↦
      let low : c ≤ n = omega arith in
      let rest : n - c < c = omega arith in inr (low, mod-eq-sub-mod low ∙ mod-eq_of_lt rest)
]

-- Fewer steps than the whole round lead to another slot.
slots_differ : (start k n c : ℕ) → start < c → k < n → n < c → (start + n) % c ≢ (start + k) % c
slots_differ start k n c hs hk hn e =
    let far = mod_wrap (start + n) c (omega arith) in
    let near = mod_wrap (start + k) c (omega arith) in absurd (ground (arith, far, near, e))

module _ {A : Type 0} where
  -- The queue holds the tokens in their order, from `start` on round the end of the array.
  pub record Holds (queue : TokenQueue A) (tokens : List A) : Type 0 where
    pub room : 0 < queue.capacity
    pub allocated : length queue.items ≡ queue.capacity
    pub counted : queue.len ≡ length tokens
    pub fits : queue.len ≤ queue.capacity
    pub begins : queue.start < queue.capacity
    pub ends : queue.end ≡ (queue.start + queue.len) % queue.capacity
    pub stored :
        (k : ℕ)
        → k < length tokens
        → get_elem? queue.items ((queue.start + k) % queue.capacity) ≡ get_elem? tokens k

  -- A queue that holds a token has it at `start`: `pop` returns it, and the queue then holds the rest.
  pub aqls_token_queue_pop-Holds :
      (queue : TokenQueue A) (token : A) (tokens : List A)
      → Holds queue (token ∷ tokens)
      → (rest : TokenQueue A) × (aqls_token_queue_peek queue ≡ done token)
        × (aqls_token_queue_pop queue ≡ done (token, rest))
        × Holds rest tokens
  unfolding aqls_token_queue_pop aqls_token_queue_peek aqls_token_queue_is_empty
  aqls_token_queue_pop-Holds queue token tokens h =
      let start : (queue.start + 0) % queue.capacity ≡ queue.start =
        let e : queue.start + 0 ≡ queue.start = omega arith in rw e (mod-eq_of_lt h.begins) in
      let first : get_elem? queue.items queue.start ≡ some token =
        subst (λ (i : ℕ). get_elem? queue.items i ≡ some token) start (h.stored 0 (omega arith)) in
      let filled : (queue.len == 0) ≡ false = ground (arith, h.counted) in
      (
        record queue { start = (queue.start + 1) % queue.capacity; len = queue.len - 1 },
        rw (filled, first, aqls_token_queue_peek),
        rw (filled, first, aqls_token_queue_pop),
        record {
          room = h.room;
          allocated = h.allocated;
          counted = omega (arith, h.counted);
          fits = omega (arith, h.fits);
          begins = mod-lt (queue.start + 1) h.room;
          ends =
              h.ends
              ∙ (ap (λ (n : ℕ). n % queue.capacity)
                    (let e : queue.start + queue.len ≡ queue.start + 1 + (queue.len - 1) =
                        omega (arith, h.counted) in
                      e)
                  ∙ sym (mod-add-mod (queue.start + 1) queue.capacity (queue.len - 1)));
          stored = λ k p.
              ap (get_elem? queue.items) (
                mod-add-mod (queue.start + 1) queue.capacity k
                ∙ ap (λ (n : ℕ). n % queue.capacity)
                    (let e : queue.start + 1 + k ≡ queue.start + suc k = omega arith in e))
              ∙ h.stored (suc k) (omega arith);
        },
      )

  -- A queue that holds fewer tokens than its capacity takes one more: `append` returns, and the
  -- queue then holds the tokens with the new one behind them.
  pub aqls_token_queue_append-Holds :
      (queue : TokenQueue A) (tokens : List A) (token : A)
      → Holds queue tokens
      → length tokens < queue.capacity
      → (longer : TokenQueue A) × (aqls_token_queue_append queue token ≡ done longer)
        × Holds longer (tokens ++ token ∷ [])
  unfolding aqls_token_queue_append aqls_token_queue_is_full
  aqls_token_queue_append-Holds queue tokens token h hc =
      let not_full : (queue.len == queue.capacity) ≡ false = ground (arith, h.counted) in
      let end_inside : queue.end < length queue.items =
        omega (arith, h.allocated, h.ends, mod-lt (queue.start + queue.len) h.room) in
      let one_more : length (tokens ++ token ∷ []) ≡ length tokens + 1 =
        length-append tokens (token ∷ []) in
      (
        record queue {
          items = set queue.items queue.end token;
          end = (queue.end + 1) % queue.capacity;
          len = queue.len + 1;
        },
        rw (not_full, lt→ltb queue.end (length queue.items) end_inside, aqls_token_queue_append),
        record {
          room = h.room;
          allocated = length-set queue.items queue.end token ∙ h.allocated;
          counted = omega (arith, h.counted, one_more);
          fits = omega (arith, h.counted);
          begins = h.begins;
          ends =
              ap (λ (n : ℕ). (n + 1) % queue.capacity) h.ends
              ∙ (mod-add-mod (queue.start + queue.len) queue.capacity 1
                  ∙ ap (λ (n : ℕ). n % queue.capacity)
                      (let e : queue.start + queue.len + 1 ≡ queue.start + (queue.len + 1) =
                          omega arith in
                        e));
          stored = λ k p. elim (dec_lt k (length tokens)) [
            | yes old ↦
                get_elem?-set_ne queue.items queue.end ((queue.start + k) % queue.capacity) token
                  (λ e.
                    slots_differ queue.start k queue.len queue.capacity h.begins
                      (omega (arith, h.counted)) (omega (arith, h.counted)) (sym h.ends ∙ e))
                ∙ (h.stored k old ∙ sym (get_elem?-append tokens (token ∷ []) k old))
            | no new ↦
                let last : k ≡ queue.len = omega (arith, h.counted, one_more) in
                ap (get_elem? (set queue.items queue.end token))
                  (ap (λ (n : ℕ). (queue.start + n) % queue.capacity) last ∙ sym h.ends)
                ∙ (get_elem?-set_self queue.items queue.end token end_inside
                    ∙ sym (get_elem?-append_last tokens token k (last ∙ h.counted)))
          ];
        },
      )

  -- A new queue of a capacity above zero holds no tokens.
  pub aqls_token_queue_init-Holds :
      (blank : A) (capacity : ℕ)
      → 0 < capacity
      → (queue : TokenQueue A) × (aqls_token_queue_init true blank capacity ≡ done queue)
        × Holds queue []
  unfolding aqls_token_queue_init
  aqls_token_queue_init-Holds blank capacity h = (
    record { items = replicate capacity blank; start = 0; end = 0; capacity = capacity; len = 0 },
    refl,
    record {
      room = h;
      allocated = length-replicate capacity blank;
      counted = refl;
      fits = omega arith;
      begins = h;
      ends = sym (mod-eq_of_lt h);
      stored = λ k p. absurd (omega arith);
    },
  )

  -- A queue that holds no tokens is empty, and one that holds some is not.
  pub aqls_token_queue_is_empty-Holds :
      (queue : TokenQueue A) (tokens : List A)
      → Holds queue tokens
      → aqls_token_queue_is_empty queue ≡ (length tokens == 0)
  unfolding aqls_token_queue_is_empty
  aqls_token_queue_is_empty-Holds queue tokens h = rw (h.counted)
