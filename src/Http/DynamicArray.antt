-- ===== src/Http/DynamicArray.antt =====
-- The growing array of bytes (dynamic-array.h). The null pointer is `none`. `realloc` is an argument:
-- the memory of the new size, or `none` where there is none; so is whether `calloc` gives memory.
pub mod Memory
pub mod Bytes
use c_lang_examples.Prelude.{
  ℕ, zero, suc, ◌+◌, ◌-◌, ◌*◌, ◌%◌, ◌^◌, Bool, true, false, not, ◌&&◌, ◌==◌, leb, ltb,
  if◌then◌else◌, Option, none, some, List, [], ◌∷◌, length, set, replicate, write_at, u64,
}
use c_lang_examples.Prelude.Ended.{Ended, done, aborted, undefined}

abbrev pub Realloc : Type 0
Realloc = Option (List ℕ) → ℕ → Option (List ℕ)

pub record DynamicArray : Type 0 where
  pub items : Option (List ℕ)
  pub length : ℕ
  pub capacity : ℕ

abbrev pub dynamic_array_initial_capacity : ℕ
dynamic_array_initial_capacity = 8

abbrev pub dynamic_array_grow_factor : ℕ
dynamic_array_grow_factor = 2

unfoldable pub dynamic_array_init : DynamicArray
dynamic_array_init = record { items = none; length = 0; capacity = 0 }

unfoldable pub dynamic_array_init_with_capacity : Bool → ℕ → DynamicArray → Ended (ℕ × DynamicArray)
dynamic_array_init_with_capacity allocated initial_capacity self =
    if ltb 0 initial_capacity
    then if allocated
      then done (
        0,
        record {
          items = some (replicate initial_capacity 0);
          length = 0;
          capacity = initial_capacity;
        },
      )
      else done (1, self)
    else aborted

unfoldable pub dynamic_array_free : DynamicArray → DynamicArray
dynamic_array_free self = record { items = none; length = 0; capacity = 0 }

unfoldable pub dynamic_array_is_full : DynamicArray → Bool
dynamic_array_is_full self = leb self.capacity self.length

unfoldable pub dynamic_array_would_overflow : DynamicArray → ℕ → Bool
dynamic_array_would_overflow self byte_count =
    if byte_count == 0
    then dynamic_array_is_full self
    else ltb self.capacity (u64 (self.length + byte_count))

-- `self->items = realloc(self->items, new_capacity)`; the memory that a failure leaves is lost.
unfoldable pub grown : Realloc → ℕ → DynamicArray → ℕ × DynamicArray
grown realloc new_capacity self = elim (realloc self.items new_capacity) [
  | none ↦ (1, record self { items = none })
  | some items ↦ (0, record self { items = some items; capacity = new_capacity })
]

-- `memcpy(self->items + self->length, buffer, buffer_len)`, and `length += buffer_len`.
unfoldable pub stored : List ℕ → DynamicArray → Ended (ℕ × DynamicArray)
stored buffer self = elim self.items [
  | none ↦ undefined
  | some items ↦
      if leb (self.length + length buffer) (length items)
      then done (
        0,
        record self {
          items = some (write_at items self.length buffer);
          length = u64 (self.length + length buffer);
        },
      )
      else undefined
]

-- What follows the growth: a failure is returned.
abbrev pub then_store : List ℕ → ℕ × DynamicArray → Ended (ℕ × DynamicArray)
then_store buffer (zero, self) = stored buffer self
then_store buffer (suc code, self) = done (suc code, self)

unfoldable pub dynamic_array_push_back_byte : Realloc → ℕ → DynamicArray → Ended (ℕ × DynamicArray)
dynamic_array_push_back_byte realloc item self =
    if dynamic_array_is_full self
    then then_store (item ∷ []) (
        grown realloc
          (if self.capacity == 0
            then dynamic_array_initial_capacity
            else u64 (dynamic_array_grow_factor * self.capacity))
          self)
    else stored (item ∷ []) self

-- `MAX` of commons.h
abbrev pub max_of : ℕ → ℕ → ℕ
max_of x y = if ltb y x then x else y

-- The difference is of `size_t`, so what would be below zero wraps.
unfoldable pub dynamic_array_push_back : Realloc → List ℕ → DynamicArray → Ended (ℕ × DynamicArray)
dynamic_array_push_back realloc buffer self =
    if ltb 0 (length buffer)
    then if dynamic_array_would_overflow self (length buffer)
      then (let extra_count = u64 (u64 (self.length + length buffer) + 2 ^ 64 - self.capacity) in
          then_store buffer (
            grown realloc
              (if self.capacity == 0
                then max_of dynamic_array_initial_capacity extra_count
                else u64 (dynamic_array_grow_factor * u64 (self.capacity + extra_count)))
              self))
      else stored buffer self
    else aborted

unfoldable pub dynamic_array_ensure_capacity : ℕ → DynamicArray → ℕ
dynamic_array_ensure_capacity required_capacity self =
    if leb required_capacity self.capacity then 0 else 1
