-- ===== src/Http/DynamicArray/Bytes.antt =====
-- The array holds a sequence of bytes, and the operations append to it.
use native.Mathlib.Decide.{dec_lt}
use native.Mathlib.Nat.{mod-eq_of_lt}
use c_lang_examples.Prelude.{
  ℕ, ◌+◌, ◌-◌, ◌*◌, ◌^◌, ◌≤◌, ◌<◌, ◌≡◌, refl, arith, false, ◌==◌, ltb, lt→ltb, le→leb, lt→leb_false,
  le→ltb_false, if◌then◌else◌, List, [], ◌∷◌, length, u64,
}
use c_lang_examples.Http.DynamicArray.{
  Realloc, DynamicArray, dynamic_array_initial_capacity, dynamic_array_grow_factor,
  dynamic_array_is_full, dynamic_array_would_overflow, max_of, dynamic_array_push_back_byte,
  dynamic_array_push_back, dynamic_array_init,
}
use c_lang_examples.Http.DynamicArray.Memory.{
  IsRealloc, Holds, Pushed, appended, stored-Holds, grown-Pushed,
}

-- The capacity that `push_back` asks for.
abbrev wanted : ℕ → ℕ → ℕ
wanted capacity extra_count =
    if capacity == 0
    then max_of dynamic_array_initial_capacity extra_count
    else u64 (dynamic_array_grow_factor * u64 (capacity + extra_count))

extra_count_lem :
    (capacity need : ℕ)
    → capacity < need
    → need < 2 ^ 61
    → u64 (u64 need + 2 ^ 64 - capacity) ≡ need - capacity
extra_count_lem capacity need h small = omega arith

wanted-bounds :
    (capacity need : ℕ)
    → capacity < need
    → need < 2 ^ 61
    → (need ≤ wanted capacity (need - capacity)) × (wanted capacity (need - capacity) < 2 ^ 62)
wanted-bounds capacity need h small = (ground arith, ground arith)

doubled-bounds :
    (capacity need : ℕ)
    → capacity + 1 ≡ need
    → need < 2 ^ 61
    → (need ≤ (
        if capacity == 0
        then dynamic_array_initial_capacity
        else u64 (dynamic_array_grow_factor * capacity)))
      × ((if capacity == 0
            then dynamic_array_initial_capacity
            else u64 (dynamic_array_grow_factor * capacity))
          < 2 ^ 62)
doubled-bounds capacity need h small = (ground arith, ground arith)

-- Whether bytes that are not none go past the capacity.
dynamic_array_would_overflow_lem :
    (self : DynamicArray) (count need : ℕ)
    → 0 < count
    → self.length + count ≡ need
    → need < 2 ^ 61
    → dynamic_array_would_overflow self count ≡ ltb self.capacity need
unfolding dynamic_array_would_overflow
dynamic_array_would_overflow_lem self count need h e small =
    let positive : (count == 0) ≡ false = ground arith in
    rw (positive, e, (let long : u64 need ≡ need = mod-eq_of_lt (omega arith) in long)) refl

module _ (realloc : Realloc) (self : DynamicArray) (bytes buffer : List ℕ)
    (good : IsRealloc realloc) (h : Holds self bytes)
    (small : length bytes + length buffer < 2 ^ 61) where
  -- An array that holds bytes and is given some more, fewer than 2^61 with those it holds, with a
  -- `realloc` that keeps what memory holds: the push appends them and returns 0; or the bytes go past
  -- the capacity, `realloc` gives no memory for some size that holds them all, and the push returns 1
  -- and leaves an array without memory, with its length and capacity as before.
  pub dynamic_array_push_back-Pushed :
      0 < length buffer
      → Pushed realloc self bytes buffer (dynamic_array_push_back realloc buffer self)
  unfolding dynamic_array_push_back
  dynamic_array_push_back-Pushed some_bytes =
      let need : self.length + length buffer ≡ length bytes + length buffer =
        omega (arith, h.counted) in
      let test =
        dynamic_array_would_overflow_lem self (length buffer) (length bytes + length buffer)
          some_bytes need small in
      elim (dec_lt self.capacity (length bytes + length buffer)) [
        | yes over ↦
            let bounds = wanted-bounds self.capacity (length bytes + length buffer) over small in
            rw
              (
                lt→ltb 0 (length buffer) some_bytes,
                test,
                lt→ltb self.capacity (length bytes + length buffer) over,
                need,
                extra_count_lem self.capacity (length bytes + length buffer) over small,
              )
              (grown-Pushed realloc self bytes buffer
                (wanted self.capacity (length bytes + length buffer - self.capacity)) good h
                some_bytes over bounds.0 bounds.1)
        | no under ↦
            let (after, same, holds) = stored-Holds self bytes buffer h (omega arith) some_bytes in
            rw
              (
                lt→ltb 0 (length buffer) some_bytes,
                test,
                le→ltb_false self.capacity (length bytes + length buffer) (omega arith),
              )
              (appended after same holds)
      ]

module _ (realloc : Realloc) (self : DynamicArray) (bytes : List ℕ) (good : IsRealloc realloc)
    (h : Holds self bytes) (small : length bytes + 1 < 2 ^ 61) where
  -- An array that holds fewer than 2^61 - 1 bytes and is given one more, with a `realloc` that keeps
  -- what memory holds: the push appends it and returns 0; or the array is full, `realloc` gives no
  -- memory for some size that holds the bytes, and the push returns 1 and leaves an array without
  -- memory, with its length and capacity as before.
  pub dynamic_array_push_back_byte-Pushed :
      (item : ℕ)
      → Pushed realloc self bytes (item ∷ []) (dynamic_array_push_back_byte realloc item self)
  unfolding dynamic_array_push_back_byte dynamic_array_is_full
  dynamic_array_push_back_byte-Pushed item = elim (dec_lt self.length self.capacity) [
    | yes under ↦
        let (after, same, holds) =
          stored-Holds self bytes (item ∷ []) h (omega (arith, h.counted)) (omega arith) in
        rw (lt→leb_false self.capacity self.length under) (appended after same holds)
    | no over ↦
        let bounds =
          doubled-bounds self.capacity (length bytes + 1) (omega (arith, h.counted, h.fits))
            small in
        rw (le→leb self.capacity self.length (omega arith)) (
          grown-Pushed realloc self bytes (item ∷ [])
            (if self.capacity == 0
              then dynamic_array_initial_capacity
              else u64 (dynamic_array_grow_factor * self.capacity))
            good h (omega arith) (omega (arith, over, h.counted, h.fits)) bounds.0 bounds.1)
  ]

-- A new array holds no bytes.
pub dynamic_array_init-Holds : Holds dynamic_array_init []
unfolding dynamic_array_init
dynamic_array_init-Holds = record {
  counted = refl;
  allocated = refl;
  fits = omega arith;
  there = refl;
  small = omega arith;
}
