-- ===== src/HashTable/Tests.antt =====
-- The theorems about the hash table at concrete tables.
use c_lang_examples.Prelude.{ℕ, ◌≡◌, refl, arith, none, some, [], ◌∷◌}
use c_lang_examples.HashTable.{
  Key, Entry, HashTable, returned, hash_table_put, hash_table_get, hash_fnv_1a_32, hash_from,
}
use c_lang_examples.HashTable.Probe.{IsTable, Puts, hash_table_put-Puts}
use c_lang_examples.HashTable.Lookup.{hash_table_get-displaced, hash_table_get-hash_table_put}

-- The characters of "a" and of "b".
abbrev a_key : Key
a_key = 97 ∷ []

abbrev b_key : Key
b_key = 98 ∷ []

hash_of_a : hash_fnv_1a_32 a_key ≡ 0xE40C292C
unfolding hash_fnv_1a_32 hash_from
hash_of_a = refl

abbrev unused : Entry ℕ
unused = record { key = none; value = 0 }

abbrev holds_b : Entry ℕ
holds_b = record { key = some b_key; value = 7 }

-- Two slots, both taken by other keys than "a".
abbrev crowded : HashTable ℕ
crowded = record {
  entries = holds_b ∷ record { key = some (99 ∷ []); value = 8 } ∷ [];
  capacity = 2;
  count = 2;
}

abbrev roomy : HashTable ℕ
roomy = record { entries = unused ∷ holds_b ∷ []; capacity = 2; count = 1 }

crowded-IsTable : IsTable crowded
crowded-IsTable = record { allocated = refl; room = omega arith }

roomy-IsTable : IsTable roomy
roomy-IsTable = record { allocated = refl; room = omega arith }

hash_table_put-Puts_example : Puts roomy a_key roomy-IsTable 5 (hash_table_put roomy a_key 5)
hash_table_put-Puts_example = hash_table_put-Puts roomy a_key roomy-IsTable 5

hash_table_get-displaced_example : hash_table_get 1 crowded a_key ≡ returned none
unfolding hash_fnv_1a_32 hash_from
hash_table_get-displaced_example =
    hash_table_get-displaced 0 crowded a_key crowded-IsTable refl (omega arith)

hash_table_get-hash_table_put_example :
    (after : HashTable ℕ) × (hash_table_put roomy a_key 5 ≡ returned after)
    × (hash_table_get 1 after a_key ≡ returned (some 5))
unfolding hash_fnv_1a_32 hash_from
hash_table_get-hash_table_put_example =
    hash_table_get-hash_table_put 0 roomy a_key 5 roomy-IsTable refl
