-- ===== src/Http/DynamicArray/Memory.antt =====
-- The memory of the array: storing bytes, and growing.
use native.Mathlib.Nat.{mod-eq_of_lt}
use c_lang_examples.Prelude.{
  ℕ, zero, suc, ◌+◌, ◌^◌, ◌≤◌, ◌<◌, ◌≡◌, inl, inr, refl, sym, ap, ◌∙◌, arith, le→leb, Option-cases,
  Option, none, some, List, [], ◌∷◌, ◌++◌, length, take, set, write_at, u64, length-write_at,
  length-append, append_nil, length-set,
}
use c_lang_examples.Prelude.Ended.{Ended, done}
use c_lang_examples.Http.DynamicArray.{Realloc, DynamicArray, grown, stored, then_store}

abbrev pub bytes_of : Option (List ℕ) → List ℕ
bytes_of none = []
bytes_of (some items) = items

-- Memory that is given has the size that is asked for, and keeps the bytes that were in it.
pub record IsRealloc (realloc : Realloc) : Type 0 where
  pub sized :
      (old : Option (List ℕ)) (size : ℕ) (new : List ℕ)
      → realloc old size ≡ some new
      → length new ≡ size
  pub kept :
      (old : Option (List ℕ)) (size : ℕ) (new : List ℕ) (n : ℕ)
      → realloc old size ≡ some new
      → n ≤ size
      → n ≤ length (bytes_of old)
      → take n new ≡ take n (bytes_of old)

-- The array holds the bytes: they are the first `length` of its memory, which has its capacity.
pub record Holds (self : DynamicArray) (bytes : List ℕ) : Type 0 where
  pub counted : self.length ≡ length bytes
  pub allocated : length (bytes_of self.items) ≡ self.capacity
  pub fits : self.length ≤ self.capacity
  pub there : take self.length (bytes_of self.items) ≡ bytes
  pub small : self.capacity < 2 ^ 62

take-set :
    (xs : List ℕ) (start y : ℕ) (ys : List ℕ)
    → start < length xs
    → take (suc start) (set xs start y) ++ ys ≡ take start xs ++ y ∷ ys
take-set [] start y ys h = absurd (omega arith)
take-set (x ∷ xs) zero y ys h = refl
take-set (x ∷ xs) (suc start) y ys h = ap (λ l. x ∷ l) (take-set xs start y ys (omega arith))

take-write_at :
    (xs : List ℕ) (start : ℕ) (ys : List ℕ)
    → start + length ys ≤ length xs
    → take (start + length ys) (write_at xs start ys) ≡ take start xs ++ ys
take-write_at xs start [] h =
    (let e : start + 0 ≡ start = omega arith in rw e (sym (append_nil (take start xs))))
take-write_at xs start (y ∷ ys) h =
    let e : start + suc (length ys) ≡ suc start + length ys = omega arith in
    rw e (
      take-write_at (set xs start y) (suc start) ys (omega (arith, h, length-set xs start y))
      ∙ take-set xs start y ys (omega (arith, h)))

-- Where the memory has room, the bytes are stored behind those that it holds.
pub stored-Holds :
    (self : DynamicArray) (bytes buffer : List ℕ)
    → Holds self bytes
    → length bytes + length buffer ≤ self.capacity
    → (0 < length buffer)
    → (after : DynamicArray) × (stored buffer self ≡ done (0, after))
      × Holds after (bytes ++ buffer)
unfolding stored
stored-Holds self bytes buffer h room some_bytes = elim (Option-cases self.items) [
  | inl e ↦ absurd (omega (arith, h.allocated, ap (λ i. length (bytes_of i)) e))
  | inr (items, e) ↦
      let kept : length items ≡ self.capacity =
        ap (λ i. length (bytes_of i)) (sym e) ∙ h.allocated in
      let long : u64 (self.length + length buffer) ≡ self.length + length buffer =
        mod-eq_of_lt (omega (arith, h.small, h.counted)) in
      (
        record self {
          items = some (write_at items self.length buffer);
          length = self.length + length buffer;
        },
        rw (e, le→leb (self.length + length buffer) (length items) (omega (arith, h.counted)), long)
            refl,
        record {
          counted = omega (arith, h.counted, length-append bytes buffer);
          allocated = length-write_at items self.length buffer ∙ kept;
          fits = omega (arith, h.counted);
          there =
              take-write_at items self.length buffer (omega (arith, h.counted))
              ∙ ap (λ l. l ++ buffer) (ap (λ i. take self.length (bytes_of i)) (sym e) ∙ h.there);
          small = h.small;
        },
      )
]

-- A growth to a size that holds the bytes keeps them, where memory is given.
grown-Holds :
    (realloc : Realloc) (self : DynamicArray) (bytes items : List ℕ) (new_capacity : ℕ)
    → IsRealloc realloc
    → Holds self bytes
    → self.length ≤ new_capacity
    → new_capacity < 2 ^ 62
    → realloc self.items new_capacity ≡ some items
    → (grown realloc new_capacity self
        ≡ (0, record self { items = some items; capacity = new_capacity }))
      × Holds (record self { items = some items; capacity = new_capacity }) bytes
unfolding grown
grown-Holds realloc self bytes items new_capacity good h fits small given = (
  rw (given, grown) refl,
  record {
    counted = h.counted;
    allocated = good.sized self.items new_capacity items given;
    fits = fits;
    there =
        good.kept self.items new_capacity items self.length given fits
          (omega (arith, h.fits, h.allocated))
        ∙ h.there;
    small = small;
  },
)

-- A push returns 0 and appends; or the bytes go past the capacity and `realloc` gives no memory for
-- a size that holds them all, and the push returns 1 with no memory but with its length and capacity
-- as before.
pub data Pushed (realloc : Realloc) (self : DynamicArray) (bytes buffer : List ℕ)
    (call : Ended (ℕ × DynamicArray)) : Type 0 where
  appended :
      (after : DynamicArray)
      → call ≡ done (0, after)
      → Holds after (bytes ++ buffer)
      → Pushed realloc self bytes buffer call
  denied :
      (size : ℕ)
      → self.capacity < length bytes + length buffer
      → length bytes + length buffer ≤ size
      → realloc self.items size ≡ none
      → call ≡ done (1, record self { items = none })
      → Pushed realloc self bytes buffer call

denied_lem :
    (realloc : Realloc) (self : DynamicArray) (new_capacity : ℕ)
    → realloc self.items new_capacity ≡ none
    → grown realloc new_capacity self ≡ (1, record self { items = none })
unfolding grown
denied_lem realloc self new_capacity e = rw (e, grown) refl

pub grown-Pushed :
    (realloc : Realloc) (self : DynamicArray) (bytes buffer : List ℕ) (new_capacity : ℕ)
    → IsRealloc realloc
    → Holds self bytes
    → (0 < length buffer)
    → self.capacity < length bytes + length buffer
    → length bytes + length buffer ≤ new_capacity
    → new_capacity < 2 ^ 62
    → Pushed realloc self bytes buffer (then_store buffer (grown realloc new_capacity self))
grown-Pushed realloc self bytes buffer new_capacity good h some_bytes over fits small =
    elim (Option-cases (realloc self.items new_capacity)) [
      | inl e ↦ denied new_capacity over fits e (rw (denied_lem realloc self new_capacity e) refl)
      | inr (items, e) ↦
          let (grows, there) =
            grown-Holds realloc self bytes items new_capacity good h (omega (arith, h.counted))
              small e in
          let (after, same, holds) =
            stored-Holds (record self { items = some items; capacity = new_capacity }) bytes buffer
              there fits some_bytes in
          appended after (ap (then_store buffer) grows ∙ same) holds
    ]
