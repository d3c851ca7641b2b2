-- ===== src/Prelude/Ended.antt =====
-- How a call of a C function ends: with a value, by a failed assertion, by `exit`, by what C leaves
-- undefined, or, where a loop runs on fuel, by none of these in the given fuel.
pub data Ended {ℓ} (A : Type ℓ) : Type ℓ where
  done : A → Ended A
  aborted exited undefined unfinished : Ended A

module _ {ℓ κ} {A : Type ℓ} {B : Type κ} where
  infixl 5 ◌>>=◌ ◌>>◌
  abbrev pub ◌>>=◌ : Ended A → (A → Ended B) → Ended B
  done a >>= f = f a
  aborted >>= f = aborted
  exited >>= f = exited
  undefined >>= f = undefined
  unfinished >>= f = unfinished

  abbrev pub ◌>>◌ : Ended A → Ended B → Ended B
  e >> f = e >>= λ _. f
