-- ===== src/Defer.antt =====
-- The deferred calls of a scope (defer/defer.c, defer/defer.h). A function pointer and its argument
-- are any values; what a scope does at its end is the list of the calls it makes, in their order.
pub mod Order
pub mod Tests
use c_lang_examples.Prelude.{
  ℕ, zero, suc, ◌+◌, ltb, if◌then◌else◌, Option, none, some, List, [], ◌∷◌, length, get_elem?, set,
}

abbrev pub defer_items_max_size : ℕ
defer_items_max_size = 16

-- The kind and the union of `struct defer_item`.
pub data DeferItem (F G P : Type 0) : Type 0 where
  item_no_arg : F → DeferItem F G P
  item_single_ptr_arg : G → P → DeferItem F G P

pub record Defer (F G P : Type 0) : Type 0 where
  pub items : List (DeferItem F G P)
  pub len : ℕ

-- A failed assertion, and an access out of bounds, which C leaves undefined.
pub data Deferred (A : Type 0) : Type 0 where
  done : A → Deferred A
  aborted undefined : Deferred A

module _ {F G P : Type 0} where
  unfoldable pub defer_scope_begin : Defer F G P → Defer F G P
  defer_scope_begin defer = record defer { len = 0 }

  -- `items[len] = item; len++;`
  abbrev pub store_item : Defer F G P → DeferItem F G P → Deferred (Defer F G P)
  store_item defer item =
      if ltb defer.len (length defer.items)
      then done (record defer { items = set defer.items defer.len item; len = defer.len + 1 })
      else undefined

  unfoldable pub defer_push_no_arg : Defer F G P → F → Deferred (Defer F G P)
  defer_push_no_arg defer func =
      if ltb defer.len defer_items_max_size then store_item defer (item_no_arg func) else aborted

  unfoldable pub defer_push_single_ptr_arg : Defer F G P → G → P → Deferred (Defer F G P)
  defer_push_single_ptr_arg defer func arg =
      if ltb defer.len defer_items_max_size
      then store_item defer (item_single_ptr_arg func arg)
      else aborted

  -- The loop of the end of a scope, with `rounds` items to go: the next one is `items[rounds - 1]`.
  unfoldable pub calls_from : ℕ → List (DeferItem F G P) → Option (List (DeferItem F G P))
  calls_from zero items = some []
  calls_from (suc i) items = elim (get_elem? items i) [
    | none ↦ none
    | some item ↦ elim (calls_from i items) [ none ↦ none | some rest ↦ some (item ∷ rest) ]
  ]

  -- The calls, and the scope after them.
  unfoldable pub defer_scope_end : Defer F G P → Deferred (List (DeferItem F G P) × Defer F G P)
  defer_scope_end defer = elim (calls_from defer.len defer.items) [
    | none ↦ undefined
    | some calls ↦ done (calls, record defer { len = 0 })
  ]
