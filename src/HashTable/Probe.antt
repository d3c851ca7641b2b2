-- ===== src/HashTable/Probe.antt =====
-- Where `hash_table_put` stores a key.
use native.Mathlib.Nat.{mod-lt, mod-eq_of_lt, mod-add-mod}
use c_lang_examples.Prelude.{
  ℕ, zero, suc, ◌+◌, ◌-◌, ◌%◌, ◌≤◌, ◌<◌, ◌≡◌, sym, ap, ◌∙◌, subst, get_elem?-some, arith, Bool,
  Bool-cases, inl, inr, true, false, Option, none, some, Option-cases, length, get_elem?, set, u64,
  ◌==◌,
}
use c_lang_examples.HashTable.{
  Key, Entry, HashTable, Result, returned, aborted, ends_probe, hash_fnv_1a_32, probe_put, fill,
  fill_at, hash_table_put,
}

module _ {V : Type 0} where
  -- The array has the capacity as its length, and room for an entry.
  pub record IsTable (ht : HashTable V) : Type 0 where
    pub allocated : length ht.entries ≡ ht.capacity
    pub room : 0 < ht.capacity

  abbrev pub entry_suits : Key → Option (Entry V) → Bool
  entry_suits key none = false
  entry_suits key (some entry) = ends_probe entry key

  -- The slot is unused or holds the key.
  abbrev pub suits : HashTable V → Key → ℕ → Bool
  suits ht key i = entry_suits key (get_elem? ht.entries i)

  -- The slot `n` places behind a slot, round the end of the array.
  abbrev pub slot : HashTable V → ℕ → ℕ → ℕ
  slot ht i n = (i + n) % ht.capacity

  abbrev pub home : HashTable V → Key → ℕ
  home ht key = hash_fnv_1a_32 key % ht.capacity

  -- The slot `n` is the first from `i` on, `n` places behind it, that suits.
  pub record FirstFit (ht : HashTable V) (key : Key) (i n : ℕ) (entry : Entry V) : Type 0 where
    pub before : (j : ℕ) → j < n → suits ht key (slot ht i j) ≡ false
    pub here : get_elem? ht.entries (slot ht i n) ≡ some entry
    pub fits : ends_probe entry key ≡ true

  -- A probe from `i` with `rounds` steps to go gives the first slot that suits, or aborts if none does.
  pub data Probes (ht : HashTable V) (key : Key) (i rounds : ℕ) : Result ℕ → Type 0 where
    found :
        (n : ℕ) (entry : Entry V)
        → n ≤ rounds
        → FirstFit ht key i n entry
        → Probes ht key i rounds (returned (slot ht i n))
    full :
        ((j : ℕ) → j ≤ rounds → suits ht key (slot ht i j) ≡ false) → Probes ht key i rounds aborted

module _ {V : Type 0} (ht : HashTable V) (key : Key) (table : IsTable ht) where
  slot-zero : (i : ℕ) → i < ht.capacity → slot ht i 0 ≡ i
  slot-zero i h = let e : i + 0 ≡ i = omega arith in rw e (mod-eq_of_lt h)

  slot-suc : (i j : ℕ) → slot ht ((i + 1) % ht.capacity) j ≡ slot ht i (suc j)
  slot-suc i j =
      let e : i + 1 + j ≡ i + suc j = omega arith in
      mod-add-mod (i + 1) ht.capacity j ∙ ap (λ (n : ℕ). n % ht.capacity) e

  first_entry :
      (i : ℕ) → i < ht.capacity → (entry : Entry V) × (get_elem? ht.entries i ≡ some entry)
  first_entry i h = get_elem?-some ht.entries i (omega (arith, table.allocated))

  found_at_once :
      (i rounds : ℕ) (entry : Entry V)
      → i < ht.capacity
      → get_elem? ht.entries i ≡ some entry
      → ends_probe entry key ≡ true
      → Probes ht key i rounds (returned i)
  found_at_once i rounds entry h e fits =
      subst (λ (n : ℕ). Probes ht key i rounds (returned n)) (slot-zero i h)
        (found 0 entry (omega arith) (record {
          before = λ j p. absurd (omega arith);
          here = rw (slot-zero i h) e;
          fits = fits;
        }))

  passed_over :
      (i : ℕ) (entry : Entry V)
      → i < ht.capacity
      → get_elem? ht.entries i ≡ some entry
      → ends_probe entry key ≡ false
      → suits ht key (slot ht i 0) ≡ false
  passed_over i entry h e other =
      subst (λ (n : ℕ). suits ht key n ≡ false) (sym (slot-zero i h))
        (subst (λ (o : Option (Entry V)). entry_suits key o ≡ false) (sym e) other)

  -- One slot that does not suit, and then the probe from the next.
  Probes-suc :
      (i rounds : ℕ) {r : Result ℕ}
      → suits ht key (slot ht i 0) ≡ false
      → Probes ht key ((i + 1) % ht.capacity) rounds r
      → Probes ht key i (suc rounds) r
  Probes-suc i rounds other (found n entry le fit) =
      subst (λ (m : ℕ). Probes ht key i (suc rounds) (returned m)) (sym (slot-suc i n))
        (found (suc n) entry (omega arith) (record {
          before = shifted fit.before;
          here = subst (λ (m : ℕ). get_elem? ht.entries m ≡ some entry) (slot-suc i n) fit.here;
          fits = fit.fits;
        }))
    where
      shifted :
          {m : ℕ}
          → ((j : ℕ) → j < m → suits ht key (slot ht ((i + 1) % ht.capacity) j) ≡ false)
          → (j : ℕ) → j < suc m
          → suits ht key (slot ht i j) ≡ false
      shifted rest zero p = other
      shifted rest (suc j) p =
          subst (λ (m : ℕ). suits ht key m ≡ false) (slot-suc i j) (rest j (omega arith))
  Probes-suc i rounds other (full rest) = full (shifted rest)
    where
      shifted :
          ((j : ℕ) → j ≤ rounds → suits ht key (slot ht ((i + 1) % ht.capacity) j) ≡ false)
          → (j : ℕ) → j ≤ suc rounds
          → suits ht key (slot ht i j) ≡ false
      shifted rest zero p = other
      shifted rest (suc j) p =
          subst (λ (m : ℕ). suits ht key m ≡ false) (slot-suc i j) (rest j (omega arith))

  pub probe_put-Probes :
      (rounds i : ℕ) → i < ht.capacity → Probes ht key i rounds (probe_put rounds ht key i)
  unfolding probe_put
  probe_put-Probes zero i h =
      let first = first_entry i h in
      elim (Bool-cases (ends_probe first.0 key)) [
        | inl fits ↦ rw (first.1, fits, probe_put) (found_at_once i 0 first.0 h first.1 fits)
        | inr other ↦
            rw (first.1, other, probe_put)
              (full (λ j p.
                let e : j ≡ 0 = omega arith in rw e (passed_over i first.0 h first.1 other)))
      ]
  probe_put-Probes (suc rounds) i h =
      let first = first_entry i h in
      elim (Bool-cases (ends_probe first.0 key)) [
        | inl fits ↦
            rw (first.1, fits, probe_put) (found_at_once i (suc rounds) first.0 h first.1 fits)
        | inr other ↦
            rw (first.1, other, probe_put)
              (Probes-suc i rounds (passed_over i first.0 h first.1 other)
                (probe_put-Probes rounds ((i + 1) % ht.capacity) (mod-lt (i + 1) table.room)))
      ]

  -- The outcome of `put`: the value is filled into the first slot, from the home of the key on round
  -- the whole array, that is unused or holds the key; if there is no such slot, an assertion fails.
  pub data Puts (value : V) : Result (HashTable V) → Type 0 where
    stored :
        (n : ℕ) (entry : Entry V)
        → n < ht.capacity
        → FirstFit ht key (home ht key) n entry
        → Puts value (returned (fill ht (slot ht (home ht key) n) entry key value))
    no_room :
        ((j : ℕ) → j < ht.capacity → suits ht key (slot ht (home ht key) j) ≡ false)
        → Puts value aborted

  fill_at-Puts :
      (value : V) {r : Result ℕ}
      → Probes ht key (home ht key) (ht.capacity - 1) r
      → Puts value (fill_at ht key value r)
  fill_at-Puts value (found n entry le fit) =
      rw (fit.here, fill_at) (stored n entry (omega (arith, table.room)) fit)
  fill_at-Puts value (full none_fits) = no_room (λ j p. none_fits j (omega arith))

  nonzero : (ht.capacity == 0) ≡ false
  nonzero = ground (arith, table.room)

  put_unused :
      (value : V) (entry : Entry V)
      → get_elem? ht.entries (home ht key) ≡ some entry
      → entry.key ≡ none
      → hash_table_put ht key value ≡ returned (fill ht (home ht key) entry key value)
  unfolding hash_table_put
  put_unused value entry e unused =
      rw (nonzero, e, unused, hash_table_put)
        (ap
          (λ (k : Option Key). returned (record ht {
            entries = set ht.entries (home ht key) (record { key = some key; value = value });
            count = elim k [ none ↦ u64 (ht.count + 1) | some used ↦ ht.count ];
          }))
          unused)

  put_used :
      (value : V) (entry : Entry V) (k : Key)
      → get_elem? ht.entries (home ht key) ≡ some entry
      → entry.key ≡ some k
      → hash_table_put ht key value
        ≡ fill_at ht key value (probe_put (ht.capacity - 1) ht key (home ht key))
  unfolding hash_table_put
  put_used value entry k e used = rw (nonzero, e, used, hash_table_put)

  probe_at_once :
      (rounds i : ℕ) (entry : Entry V)
      → get_elem? ht.entries i ≡ some entry
      → ends_probe entry key ≡ true
      → probe_put rounds ht key i ≡ returned i
  unfolding probe_put
  probe_at_once zero i entry e fits = rw (e, fits, probe_put)
  probe_at_once (suc rounds) i entry e fits = rw (e, fits, probe_put)

  fill_at_lem :
      (value : V) (i : ℕ) (entry : Entry V)
      → get_elem? ht.entries i ≡ some entry
      → fill_at ht key value (returned i) ≡ returned (fill ht i entry key value)
  fill_at_lem value i entry e = rw (e, fill_at)

  -- A home slot that suits is filled.
  pub put_at_home :
      (value : V) (entry : Entry V)
      → get_elem? ht.entries (home ht key) ≡ some entry
      → ends_probe entry key ≡ true
      → hash_table_put ht key value ≡ returned (fill ht (home ht key) entry key value)
  put_at_home value entry e fits = elim (Option-cases entry.key) [
    | inl unused ↦ put_unused value entry e unused
    | inr (k, used) ↦
        put_used value entry k e used
        ∙ (ap (fill_at ht key value) (probe_at_once (ht.capacity - 1) (home ht key) entry e fits)
            ∙ fill_at_lem value (home ht key) entry e)
  ]

  unused_fits :
      (entry : Entry V)
      → get_elem? ht.entries (home ht key) ≡ some entry
      → entry.key ≡ none
      → FirstFit ht key (home ht key) 0 entry
  unused_fits entry e unused = record {
    before = λ j p. absurd (omega arith);
    here = rw (slot-zero (home ht key) (mod-lt (hash_fnv_1a_32 key) table.room)) e;
    fits = rw unused;
  }

  -- On a table with as many slots as its capacity, and at least one, `put` writes the key and the
  -- value into the first slot, from the home of the key on round the whole array, that is unused or
  -- holds the key, and counts the slot if it was unused; if there is no such slot, an assertion
  -- fails.
  pub hash_table_put-Puts : (value : V) → Puts value (hash_table_put ht key value)
  hash_table_put-Puts value =
      let first = first_entry (home ht key) (mod-lt (hash_fnv_1a_32 key) table.room) in
      elim (Option-cases first.0.key) [
        | inl unused ↦ subst (Puts value) (sym (put_unused value first.0 first.1 unused)) (
            subst (λ (i : ℕ). Puts value (returned (fill ht i first.0 key value)))
              (slot-zero (home ht key) (mod-lt (hash_fnv_1a_32 key) table.room))
              (stored 0 first.0 table.room (unused_fits first.0 first.1 unused)))
        | inr (k, used) ↦ subst (Puts value) (sym (put_used value first.0 k first.1 used)) (
            fill_at-Puts value (
              probe_put-Probes (ht.capacity - 1) (home ht key)
                (mod-lt (hash_fnv_1a_32 key) table.room)))
      ]
