-- ===== src/Prelude/Lists.antt =====
-- Lists: appending, and what is behind a position.
use Prim.Native.Nat.{ℕ, zero, suc, ◌+◌, ◌<◌}
use mathlib.Core.Path.{◌≡◌, refl, ap}
use mathlib.Core.Option.{some}
use mathlib.Core.List.{List, [], ◌∷◌, ◌++◌}
use native.Mathlib.Omega.{arith}
use c_lang_examples.Prelude.Arrays.{length, get_elem?, take, drop, All}

pub drop-cons :
    (xs : List ℕ) (p c : ℕ) (rest : List ℕ)
    → drop p xs ≡ c ∷ rest
    → (get_elem? xs p ≡ some c) × (drop (p + 1) xs ≡ rest) × (p < length xs)
drop-cons [] zero c rest e = absurd (let n = ap length e in omega (arith, n))
drop-cons [] (suc p) c rest e = absurd (let n = ap length e in omega (arith, n))
drop-cons (x ∷ xs) zero c rest e = (ap (λ l. get_elem? l 0) e, ap (drop 1) e, omega arith)
drop-cons (x ∷ xs) (suc p) c rest e =
    let (at, behind, inside) = drop-cons xs p c rest e in
    let further : suc p + 1 ≡ suc (p + 1) = omega arith in
    (at, rw further behind, omega (arith, inside))

pub All-map : {P Q : ℕ → Type 0} → ((c : ℕ) → P c → Q c) → (xs : List ℕ) → All P xs → All Q xs
All-map f [] a = tt
All-map f (x ∷ xs) a = (f x a.0, All-map f xs a.1)

pub All-every : {P : ℕ → Type 0} → ((c : ℕ) → P c) → (xs : List ℕ) → All P xs
All-every f [] = tt
All-every f (x ∷ xs) = (f x, All-every f xs)

pub append_nil : {A : Type 0} (xs : List A) → xs ++ [] ≡ xs
append_nil [] = refl
append_nil (x ∷ xs) = ap (λ l. x ∷ l) (append_nil xs)

pub take-length : (xs ys : List ℕ) → take (length xs) (xs ++ ys) ≡ xs
take-length [] ys = refl
take-length (x ∷ xs) ys = ap (λ l. x ∷ l) (take-length xs ys)

pub append_assoc : {A : Type 0} (xs ys zs : List A) → (xs ++ ys) ++ zs ≡ xs ++ (ys ++ zs)
append_assoc [] ys zs = refl
append_assoc (x ∷ xs) ys zs = ap (λ l. x ∷ l) (append_assoc xs ys zs)
