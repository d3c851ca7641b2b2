-- ===== src/HashTable/Lookup.antt =====
-- What `hash_table_get` finds.
use native.Mathlib.Nat.{mod-lt}
use c_lang_examples.Prelude.{
  ℕ, suc, ◌+◌, ◌%◌, ◌≤◌, ◌<◌, ◌≡◌, refl, sym, ap, ◌∙◌, subst, arith, true, false, ◌==◌, ltb, lt→ltb,
  if◌then◌else◌, Option, none, some, Option-cases, inl, inr, [], ◌∷◌, length, get_elem?,
  get_elem?-some, get_elem?-set_self, replicate, length-replicate, get_or-replicate,
  get_elem?-eq-get_or,
}
use c_lang_examples.HashTable.{
  Key, Entry, HashTable, returned, strings_equal, ends_probe, hash_fnv_1a_32, fill, hash_table_init,
  hash_table_put, probe_get, hash_table_get,
}
use c_lang_examples.HashTable.Probe.{IsTable, home, suits, entry_suits, put_at_home}

strings_equal_refl : (s : Key) → strings_equal s s ≡ true
strings_equal_refl [] = refl
strings_equal_refl (c ∷ s) = ground (arith, strings_equal_refl s)

module _ {V : Type 0} where
  -- A used home slot decides a lookup, when it holds the key or the table counts two entries.
  get_at_home :
      (fuel : ℕ) (ht : HashTable V) (key k : Key) (entry : Entry V)
      → 0 < ht.capacity
      → get_elem? ht.entries (home ht key) ≡ some entry
      → entry.key ≡ some k
      → hash_table_get (suc fuel) ht key ≡ (
          if strings_equal k key
          then returned (some entry.value)
          else if ltb 1 ht.count
          then returned none
          else probe_get fuel 1 ht key ((home ht key + 1) % ht.capacity))
  unfolding hash_table_get probe_get
  get_at_home fuel ht key k entry room e used =
      let nonzero : (ht.capacity == 0) ≡ false = ground arith in
      rw (nonzero, e, used, hash_table_get) (rw (e, used, probe_get))

  ends_unused : (entry : Entry V) (key : Key) → entry.key ≡ none → ends_probe entry key ≡ true
  ends_unused entry key unused = rw unused

  ends_used :
      (entry : Entry V) (key k : Key)
      → entry.key ≡ some k
      → ends_probe entry key ≡ strings_equal k key
  ends_used entry key k used = rw used

  -- On a table with as many slots as its capacity, and at least one, that counts two entries or
  -- more, a lookup ends at the home slot of the key: if that slot is used by another key, the
  -- lookup returns NULL, wherever in the table the key may be.
  pub hash_table_get-displaced :
      (fuel : ℕ) (ht : HashTable V) (key : Key)
      → IsTable ht
      → suits ht key (home ht key) ≡ false
      → 2 ≤ ht.count
      → hash_table_get (suc fuel) ht key ≡ returned none
  hash_table_get-displaced fuel ht key table taken two =
      let first =
        get_elem?-some ht.entries (home ht key)
          (omega (arith, table.allocated, mod-lt (hash_fnv_1a_32 key) table.room)) in
      let other : ends_probe first.0 key ≡ false =
        subst (λ (o : Option (Entry V)). entry_suits key o ≡ false) first.1 taken in
      elim (Option-cases first.0.key) [
        | inl unused ↦ absurd (ground (arith, ends_unused first.0 key unused, other))
        | inr (k, used) ↦
            get_at_home fuel ht key k first.0 table.room first.1 used
            ∙ rw (sym (ends_used first.0 key k used) ∙ other, lt→ltb 1 ht.count two)
      ]

  -- On a table with as many slots as its capacity, and at least one, where the home slot of a key
  -- is unused or holds the key: `put` returns, and a lookup of the key then gives the value.
  pub hash_table_get-hash_table_put :
      (fuel : ℕ) (ht : HashTable V) (key : Key) (value : V)
      → IsTable ht
      → suits ht key (home ht key) ≡ true
      → (after : HashTable V) × (hash_table_put ht key value ≡ returned after)
        × (hash_table_get (suc fuel) after key ≡ returned (some value))
  hash_table_get-hash_table_put fuel ht key value table free =
      let inside : home ht key < length ht.entries =
        omega (arith, table.allocated, mod-lt (hash_fnv_1a_32 key) table.room) in
      let first = get_elem?-some ht.entries (home ht key) inside in
      let fits : ends_probe first.0 key ≡ true =
        subst (λ (o : Option (Entry V)). entry_suits key o ≡ true) first.1 free in
      (
        fill ht (home ht key) first.0 key value,
        put_at_home ht key table value first.0 first.1 fits,
        get_at_home fuel (fill ht (home ht key) first.0 key value) key key
              (record { key = some key; value = value }) table.room
              (get_elem?-set_self ht.entries (home ht key)
                (record { key = some key; value = value }) inside)
              refl
            ∙ rw (strings_equal_refl key),
      )

  get_at_unused :
      (fuel : ℕ) (ht : HashTable V) (key : Key) (entry : Entry V)
      → 0 < ht.capacity
      → get_elem? ht.entries (home ht key) ≡ some entry
      → entry.key ≡ none
      → hash_table_get fuel ht key ≡ returned none
  unfolding hash_table_get
  get_at_unused fuel ht key entry room e unused =
      let nonzero : (ht.capacity == 0) ≡ false = ground arith in
      rw (nonzero, e, unused, hash_table_get)

  -- When the memory is given, the start makes a table of the given size, in which every lookup
  -- returns NULL if the size is not zero.
  pub hash_table_get-hash_table_init :
      (fuel size : ℕ) (blank : V) (key : Key)
      → 0 < size
      → (ht : HashTable V) × (hash_table_init true blank size ≡ returned ht)
        × IsTable ht
        × (ht.count ≡ 0)
        × (hash_table_get fuel ht key ≡ returned none)
  unfolding hash_table_init
  hash_table_get-hash_table_init fuel size blank key h =
      let entry : Entry V = record { key = none; value = blank } in
      let ht : HashTable V = record {
        entries = replicate size entry;
        capacity = size;
        count = 0;
      } in
      let inside : home ht key < length (replicate size entry) =
        omega (arith, length-replicate size entry, mod-lt (hash_fnv_1a_32 key) h) in
      (
        ht,
        refl,
        record { allocated = length-replicate size entry; room = h },
        refl,
        get_at_unused fuel ht key entry h
            (get_elem?-eq-get_or (replicate size entry) (home ht key) entry inside
              ∙ ap some
                  (get_or-replicate size entry (home ht key) entry (mod-lt (hash_fnv_1a_32 key) h)))
            refl,
      )
