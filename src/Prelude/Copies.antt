-- ===== src/Prelude/Copies.antt =====
-- Copies between arrays, as `memcpy` and `memset` make them.
use Prim.Native.Nat.{ℕ, zero, suc, ◌+◌, ◌-◌, ◌≤◌, ◌<◌}
use mathlib.Core.Path.{◌≡◌, sym}
use mathlib.Core.Bool.{◌&&◌}
use mathlib.Core.List.{List, [], ◌∷◌}
use native.Mathlib.Omega.{arith}
use native.Mathlib.Decide.{ℕ_discrete, dec_lt}
use c_lang_examples.Prelude.Tests.{if◌then◌else◌, ltb, leb}
use c_lang_examples.Prelude.Arrays.{
  length, get_or, set, write_at, length-set, length-write_at, get_or-set_self, get_or-set_ne,
  get_or-past,
}

get_or-cons :
    {A : Type 0} (y : A) (ys : List A) (n : ℕ) (d : A)
    → 0 < n
    → get_or (y ∷ ys) n d ≡ get_or ys (n - 1) d
get_or-cons y ys zero d h = absurd (omega arith)
get_or-cons y ys (suc n) d h = let e : suc n - 1 ≡ n = omega arith in rw e

-- A copy leaves the elements before it and behind it, and puts the copied ones in place.
pub get_or-write_at :
    {A : Type 0} (xs : List A) (start : ℕ) (ys : List A) (k : ℕ) (d : A)
    → start + length ys ≤ length xs
    → get_or (write_at xs start ys) k d ≡ (
        if leb start k && ltb k (start + length ys) then get_or ys (k - start) d else get_or xs k d)
get_or-write_at xs start [] k d h = ground arith
get_or-write_at xs start (y ∷ ys) k d h =
    let rest =
      get_or-write_at (set xs start y) (suc start) ys k d (omega (arith, length-set xs start y)) in
    elim (ℕ_discrete k start) [
      | yes here ↦
          let first : k - start ≡ 0 = omega arith in
          let written = get_or-set_self xs start y d (omega arith) in
          rw first (ground (arith, rest, written))
      | no there ↦
          let other = get_or-set_ne xs start k y d (λ e. there (sym e)) in
          elim (dec_lt start k) [
            | yes past ↦
                let step : k - start - 1 ≡ k - suc start = omega arith in
                rw (get_or-cons y ys (k - start) d (omega arith), step)
                  (ground (arith, rest, other))
            | no before ↦ ground (arith, rest, other)
          ]
    ]

-- Two copies to one place, the second no longer than the first: behind the second the first shows.
pub get_or-write_at_twice :
    (mem zeroes rom : List ℕ) (start k : ℕ)
    → start + length zeroes ≡ length mem
    → length rom ≤ length zeroes
    → ((i : ℕ) → get_or zeroes i 0 ≡ 0)
    → k < length mem
    → get_or (write_at (write_at mem start zeroes) start rom) k 0
      ≡ (if ltb k start then get_or mem k 0 else get_or rom (k - start) 0)
get_or-write_at_twice mem zeroes rom start k e h zero_bytes hk = ground (
  arith,
  get_or-write_at (write_at mem start zeroes) start rom k 0
      (omega (arith, length-write_at mem start zeroes)),
  get_or-write_at mem start zeroes k 0 (omega arith),
  get_or-past rom (k - start) 0,
  zero_bytes (k - start),
)
