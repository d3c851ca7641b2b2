-- ===== src/HashTable.antt =====
-- The hash table with open addressing (hash-table/main.c). A key is the list of the characters of a
-- C string; an entry without a key is unused. The keys that `put` allocates are taken to be
-- allocated; printing is not modelled.
pub mod Probe
pub mod Lookup
pub mod Tests
use c_lang_examples.Prelude.{
  ℕ, zero, suc, ◌+◌, ◌-◌, ◌*◌, ◌%◌, ◌^◌, bit_xor, Bool, true, false, not, ◌&&◌, ◌==◌, ltb,
  if◌then◌else◌, Option, none, some, List, [], ◌∷◌, get_elem?, set, replicate, u8, u64,
}

abbrev pub Key : Type 0
Key = List ℕ

pub record Entry (V : Type 0) : Type 0 where
  pub key : Option Key
  pub value : V

pub record HashTable (V : Type 0) : Type 0 where
  pub entries : List (Entry V)
  pub capacity : ℕ
  pub count : ℕ

-- How a call ends: with a value, by a failed assertion, by `exit`, by what C leaves undefined, or by
-- none of these in the given fuel.
pub data Result (A : Type 0) : Type 0 where
  returned : A → Result A
  aborted exited undefined unfinished : Result A

abbrev pub fnv_1a_32_offset_basis : ℕ
fnv_1a_32_offset_basis = 2166136261

abbrev pub fnv_1a_32_prime : ℕ
fnv_1a_32_prime = 16777619

-- The loop over the characters.
unfoldable pub hash_from : ℕ → Key → ℕ
hash_from hash [] = hash
hash_from hash (c ∷ key) = hash_from ((bit_xor hash (u8 c) * fnv_1a_32_prime) % 2 ^ 32) key

unfoldable pub hash_fnv_1a_32 : Key → ℕ
hash_fnv_1a_32 key = hash_from fnv_1a_32_offset_basis key

-- `strcmp(s, t) == 0`
abbrev pub strings_equal : Key → Key → Bool
strings_equal [] [] = true
strings_equal [] (d ∷ t) = false
strings_equal (c ∷ s) [] = false
strings_equal (c ∷ s) (d ∷ t) = (c == d) && strings_equal s t

module _ {V : Type 0} where
  -- Whether `calloc` gives the memory, and the zero value that it fills in, are arguments.
  unfoldable pub hash_table_init : Bool → V → ℕ → Result (HashTable V)
  hash_table_init false blank size = exited
  hash_table_init true blank size = returned (record {
    entries = replicate size (record { key = none; value = blank });
    capacity = size;
    count = 0;
  })

  unfoldable pub hash_table_free : HashTable V → HashTable V
  hash_table_free ht = record { entries = []; capacity = 0; count = 0 }

  -- The negation of the condition of the loop in `put`.
  abbrev pub ends_probe : Entry V → Key → Bool
  ends_probe entry key = elim entry.key [ none ↦ true | some k ↦ strings_equal k key ]

  -- The loop in `put`, at `i`; `rounds` is `capacity - 1 - count`.
  unfoldable pub probe_put : ℕ → HashTable V → Key → ℕ → Result ℕ
  probe_put zero ht key i = elim (get_elem? ht.entries i) [
    | none ↦ undefined
    | some entry ↦ if ends_probe entry key then returned i else aborted
  ]
  probe_put (suc rounds) ht key i = elim (get_elem? ht.entries i) [
    | none ↦ undefined
    | some entry ↦
        let next = probe_put rounds ht key ((i + 1) % ht.capacity) in
        if ends_probe entry key then returned i else next
  ]

  -- The key and the value are written, and an entry that was unused is counted.
  abbrev pub fill : HashTable V → ℕ → Entry V → Key → V → HashTable V
  fill ht i entry key value = record ht {
    entries = set ht.entries i (record { key = some key; value = value });
    count = elim entry.key [ none ↦ u64 (ht.count + 1) | some k ↦ ht.count ];
  }

  abbrev pub fill_at : HashTable V → Key → V → Result ℕ → Result (HashTable V)
  fill_at ht key value (returned i) = elim (get_elem? ht.entries i) [
    | none ↦ undefined
    | some entry ↦ returned (fill ht i entry key value)
  ]
  fill_at ht key value aborted = aborted
  fill_at ht key value exited = exited
  fill_at ht key value undefined = undefined
  fill_at ht key value unfinished = unfinished

  unfoldable pub hash_table_put : HashTable V → Key → V → Result (HashTable V)
  hash_table_put ht key value =
      let index = hash_fnv_1a_32 key % ht.capacity in
      if ht.capacity == 0 then undefined else elim (get_elem? ht.entries index) [
        | none ↦ undefined
        | some entry ↦ elim entry.key [
          | none ↦ returned (fill ht index entry key value)
          | some k ↦ fill_at ht key value (probe_put (ht.capacity - 1) ht key index)
        ]
      ]

  -- The loop in `get`, with its local `count` and `index`. Its condition calls `strcmp` before it
  -- looks for a NULL key.
  unfoldable pub probe_get : ℕ → ℕ → HashTable V → Key → ℕ → Result (Option V)
  probe_get zero count ht key index = unfinished
  probe_get (suc fuel) count ht key index = elim (get_elem? ht.entries index) [
    | none ↦ undefined
    | some entry ↦ elim entry.key [
      | none ↦ undefined
      | some k ↦
          let next = probe_get fuel (u64 (count + 1)) ht key ((index + 1) % ht.capacity) in
          if strings_equal k key
          then returned (some entry.value)
          else if ltb (u64 (count + 1)) ht.count
          then returned none
          else next
    ]
  ]

  unfoldable pub hash_table_get : ℕ → HashTable V → Key → Result (Option V)
  hash_table_get fuel ht key =
      let index = hash_fnv_1a_32 key % ht.capacity in
      if ht.capacity == 0 then undefined else elim (get_elem? ht.entries index) [
        | none ↦ undefined
        | some entry ↦ elim entry.key [
          | none ↦ returned none
          | some k ↦ probe_get fuel 0 ht key index
        ]
      ]
