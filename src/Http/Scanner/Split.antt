-- ===== src/Http/Scanner/Split.antt =====
-- The scanner splits its input at the first place of what it looks for.
use mathlib.Core.Bool.{false≢true}
use c_lang_examples.Prelude.{
  ℕ, zero, suc, ◌+◌, ◌-◌, ◌≤◌, ◌<◌, ◌≡◌, ◌≢◌, refl, sym, ap, ◌∙◌, arith, true, false, ◌==◌, Option,
  some, List, [], ◌∷◌, ◌++◌, length, take, drop, length-append, get_or, All,
}
use c_lang_examples.Http.Scanner.{
  StrSlice, str_slice_is_empty, bytes_at, first_char, begins, first_slice, Scanner, split_at,
  scanner_next_until_char, scanner_next_until_slice,
}

drop-drop : (m n : ℕ) (xs : List ℕ) → drop n (drop m xs) ≡ drop (m + n) xs
drop-drop zero n xs = ap (λ k. drop k xs) (omega arith)
drop-drop (suc m) zero [] = let e : suc m + 0 ≡ suc m = omega arith in rw e refl
drop-drop (suc m) (suc n) [] = let e : suc m + suc n ≡ suc (m + suc n) = omega arith in rw e refl
drop-drop (suc m) n (x ∷ xs) =
    let e : suc m + n ≡ suc (m + n) = omega arith in rw e (drop-drop m n xs)

length-take_le : (n : ℕ) (xs : List ℕ) → length (take n xs) ≤ n
length-take_le zero xs = omega arith
length-take_le (suc n) [] = omega arith
length-take_le (suc n) (x ∷ xs) = omega (arith, length-take_le n xs)

-- A beginning that is two pieces.
take-pieces :
    (n : ℕ) (xs w rest : List ℕ)
    → take n xs ≡ w ++ rest
    → (take (length w) xs ≡ w) × (take (n - length w) (drop (length w) xs) ≡ rest)
take-pieces n xs [] rest e = (refl, let z : n - 0 ≡ n = omega arith in rw z e)
take-pieces zero xs (c ∷ w) rest e = absurd (let k = ap length e in omega (arith, k))
take-pieces (suc n) [] (c ∷ w) rest e = absurd (let k = ap length e in omega (arith, k))
take-pieces (suc n) (x ∷ xs) (c ∷ w) rest e =
    let (front, back) = take-pieces n xs w rest (ap (drop 1) e) in
    let less : suc n - suc (length w) ≡ n - length w = omega arith in
    (ap (λ l. x ∷ l) front ∙ ap (λ b. b ∷ w) (ap (λ l. get_or l 0 0) e), rw less back)

first_char-append :
    (c : ℕ) (w rest : List ℕ) → All (λ b. b ≢ c) w → first_char c (w ++ c ∷ rest) ≡ some (length w)
first_char-append c [] rest h =
    let same : (c == c) ≡ true = ground arith in rw (first_char, same) refl
first_char-append c (b ∷ w) rest h =
    let other : (b == c) ≡ false = (let k = h.0 in ground arith) in
    rw (first_char, other, first_char-append c w rest h.1) refl

first_slice-append :
    (pattern w rest : List ℕ)
    → begins pattern rest ≡ true
    → ((k : ℕ) → k < length w → begins pattern (drop k (w ++ rest)) ≡ false)
    → first_slice pattern (w ++ rest) ≡ some (length w)
first_slice-append [] [] [] here before = refl
first_slice-append (p ∷ pattern) [] [] here before = absurd (false≢true here)
first_slice-append pattern [] (b ∷ rest) here before = rw (first_slice, here) refl
first_slice-append pattern (b ∷ w) rest here before =
    rw
      (
        first_slice,
        before 0 (omega arith),
        first_slice-append pattern w rest here (λ k h. before (suc k) (omega arith)),
      )
      refl

-- A search that finds a piece returns it, and the scanner goes on with the piece behind it.
pub record Splits (text : List ℕ) (ptr len : ℕ) (front back : List ℕ)
    (result : Option (StrSlice × Scanner)) : Type 0 where
  pub returned :
      result
      ≡ some (
        record { ptr = some ptr; len = length front },
        record { input = record { ptr = some (ptr + length front); len = len - length front } },
      )
  pub front_shown : bytes_at text ptr (length front) ≡ front
  pub back_shown : bytes_at text (ptr + length front) (len - length front) ≡ back

module _ (text : List ℕ) (ptr len : ℕ) (front back : List ℕ)
    (e : bytes_at text ptr len ≡ front ++ back) where
  split_at-Splits :
      (found : Option ℕ)
      → found ≡ some (length front)
      → Splits text ptr len front back (split_at found ptr len)
  split_at-Splits found f =
      let pieces = take-pieces len (drop ptr text) front back e in
      record {
        returned = rw f refl;
        front_shown = pieces.0;
        back_shown =
            ap (take (len - length front)) (sym (drop-drop ptr (length front) text)) ∙ pieces.1;
      }

  not_empty : 0 < length back → str_slice_is_empty (record { ptr = some ptr; len = len }) ≡ false
  unfolding str_slice_is_empty
  not_empty h =
      let positive : 0 < len =
        (let n = length-take_le len (drop ptr text) in
          let m = ap length e in let a = length-append front back in omega (arith, n, m, a, h)) in
      ground arith

  -- Where the input is bytes that are not the one that is looked for, and then that one and a rest,
  -- the scanner returns the bytes before it, and goes on with it and the rest.
  pub scanner_next_until_char-Splits :
      (c : ℕ) (rest : List ℕ)
      → back ≡ c ∷ rest
      → All (λ b. b ≢ c) front
      → Splits text ptr len front back
          (scanner_next_until_char text (record { input = record { ptr = some ptr; len = len } }) c)
  unfolding scanner_next_until_char
  scanner_next_until_char-Splits c rest b none_before =
      rw (not_empty (omega (arith, ap length b))) (
        split_at-Splits (first_char c (bytes_at text ptr len)) (
          ap (first_char c) (e ∙ ap (λ l. front ++ l) b)
          ∙ first_char-append c front rest none_before))

  -- Where a pattern does not begin before the second piece, and begins there, the scanner stops
  -- there.
  pub scanner_next_until_slice-Splits :
      (pattern : List ℕ)
      → 0 < length back
      → begins pattern back ≡ true
      → ((k : ℕ) → k < length front → begins pattern (drop k (front ++ back)) ≡ false)
      → Splits text ptr len front back (
          scanner_next_until_slice text
            (record { input = record { ptr = some ptr; len = len } })
            pattern)
  unfolding scanner_next_until_slice
  scanner_next_until_slice-Splits pattern some_left here before = rw (not_empty some_left) (
      split_at-Splits (first_slice pattern (bytes_at text ptr len))
        (ap (first_slice pattern) e ∙ first_slice-append pattern front back here before))
