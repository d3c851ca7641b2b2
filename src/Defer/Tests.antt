-- ===== src/Defer/Tests.antt =====
-- The theorem about deferred calls at a concrete scope.
use c_lang_examples.Prelude.{
  ℕ, ◌-◌, ◌<◌, ◌≡◌, refl, arith, List, [], ◌∷◌, length, get_elem?, replicate,
}
use c_lang_examples.Defer.{
  DeferItem, item_no_arg, item_single_ptr_arg, Defer, done, defer_scope_begin, defer_scope_end,
}
use c_lang_examples.Defer.Order.{then_push, defer_scope_end-push}

abbrev storage : Defer ℕ ℕ ℕ
storage = record { items = replicate 16 (item_no_arg 0); len = 3 }

abbrev two_calls : List (DeferItem ℕ ℕ ℕ)
two_calls = item_no_arg 5 ∷ item_single_ptr_arg 6 7 ∷ []

defer_scope_end-push_example :
    (filled : Defer ℕ ℕ ℕ) × (calls : List (DeferItem ℕ ℕ ℕ)) × (emptied : Defer ℕ ℕ ℕ) × (then_push
        (done (defer_scope_begin storage))
        two_calls
      ≡ done filled)
    × (defer_scope_end filled ≡ done (calls, emptied))
    × (emptied.len ≡ 0)
    × (length calls ≡ length two_calls)
    × ((k : ℕ)
        → k < length two_calls
        → get_elem? calls k ≡ get_elem? two_calls (length two_calls - 1 - k))
defer_scope_end-push_example = defer_scope_end-push storage two_calls refl (omega arith)
