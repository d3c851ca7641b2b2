-- ===== src/Defer/Order.antt =====
-- The order of the deferred calls.
use c_lang_examples.Prelude.{
  ℕ, zero, suc, ◌+◌, ◌-◌, ◌≤◌, ◌<◌, ◌≡◌, refl, sym, ap, ◌∙◌, arith, ltb, lt→ltb, if◌then◌else◌,
  Option, some, List, [], ◌∷◌, length, get_elem?, set, length-set, get_elem?-some,
  get_elem?-set_self, get_elem?-set_ne,
}
use c_lang_examples.Defer.{
  DeferItem, item_no_arg, item_single_ptr_arg, Defer, Deferred, done, aborted, undefined,
  store_item, defer_items_max_size, defer_scope_begin, defer_push_no_arg, defer_push_single_ptr_arg,
  calls_from, defer_scope_end,
}

module _ {F G P : Type 0} where
  -- The push that the kind of an item asks for.
  abbrev pub push : Defer F G P → DeferItem F G P → Deferred (Defer F G P)
  push defer (item_no_arg func) = defer_push_no_arg defer func
  push defer (item_single_ptr_arg func arg) = defer_push_single_ptr_arg defer func arg

  abbrev pub then_push : Deferred (Defer F G P) → List (DeferItem F G P) → Deferred (Defer F G P)
  then_push r [] = r
  then_push (done defer) (item ∷ items) = then_push (push defer item) items
  then_push aborted (item ∷ items) = aborted
  then_push undefined (item ∷ items) = undefined

  push_lem :
      (defer : Defer F G P) (item : DeferItem F G P)
      → push defer item
        ≡ (if ltb defer.len defer_items_max_size then store_item defer item else aborted)
  unfolding defer_push_no_arg defer_push_single_ptr_arg
  push_lem defer (item_no_arg func) = refl
  push_lem defer (item_single_ptr_arg func arg) = refl

  -- The pushes return, and the items stand in the array in their order from `start` on, behind
  -- what stood there before.
  pub record Pushes (defer : Defer F G P) (items : List (DeferItem F G P))
      (r : Deferred (Defer F G P)) : Type 0 where
    pub after : Defer F G P
    pub returns : r ≡ done after
    pub same_length : length after.items ≡ length defer.items
    pub count : after.len ≡ defer.len + length items
    pub below : (i : ℕ) → i < defer.len → get_elem? after.items i ≡ get_elem? defer.items i
    pub pushed :
        (i : ℕ) → i < length items → get_elem? after.items (defer.len + i) ≡ get_elem? items i

  one_push :
      (defer : Defer F G P) (item : DeferItem F G P)
      → length defer.items ≡ defer_items_max_size
      → defer.len < defer_items_max_size
      → push defer item
        ≡ done (record defer { items = set defer.items defer.len item; len = defer.len + 1 })
  one_push defer item e h =
      push_lem defer item
      ∙ rw (
        lt→ltb defer.len defer_items_max_size h,
        lt→ltb defer.len (length defer.items) (omega arith),
      )

  pub then_push-Pushes :
      (defer : Defer F G P) (items : List (DeferItem F G P))
      → length defer.items ≡ defer_items_max_size
      → defer.len + length items ≤ defer_items_max_size
      → Pushes defer items (then_push (done defer) items)
  then_push-Pushes defer [] e h = record {
    after = defer;
    returns = refl;
    same_length = refl;
    count = omega arith;
    below = λ i p. refl;
    pushed = λ i p. absurd (omega arith);
  }
  then_push-Pushes defer (item ∷ items) e h =
      let next : Defer F G P = record defer {
        items = set defer.items defer.len item;
        len = defer.len + 1;
      } in
      let rest : Pushes next items (then_push (done next) items) =
        then_push-Pushes next items (length-set defer.items defer.len item ∙ e) (omega arith) in
      record {
        after = rest.after;
        returns =
            ap (λ (r : Deferred (Defer F G P)). then_push r items)
              (one_push defer item e (omega arith))
            ∙ rest.returns;
        same_length = rest.same_length ∙ length-set defer.items defer.len item;
        count = omega (arith, rest.count);
        below = λ i p.
            rest.below i (omega arith)
            ∙ get_elem?-set_ne defer.items defer.len i item (omega arith);
        pushed = λ i p.
            elim i
                as (λ (n : ℕ).
                  n < suc (length items)
                  → get_elem? rest.after.items (defer.len + n) ≡ get_elem? (item ∷ items) n) [
                    | zero ↦ λ q.
                        let here : defer.len + 0 ≡ defer.len = omega arith in
                        rw here (
                          rest.below defer.len (omega arith)
                          ∙ get_elem?-set_self defer.items defer.len item (omega arith))
                    | suc n ↦ λ q.
                        let there : defer.len + suc n ≡ defer.len + 1 + n = omega arith in
                        rw there (rest.pushed n (omega arith))
                  ]
              p;
      }

  -- The calls are the first `n` items of the array, the last of them first.
  pub record Backwards (n : ℕ) (items : List (DeferItem F G P))
      (r : Option (List (DeferItem F G P))) : Type 0 where
    pub calls : List (DeferItem F G P)
    pub returns : r ≡ some calls
    pub count : length calls ≡ n
    pub order : (k : ℕ) → k < n → get_elem? calls k ≡ get_elem? items (n - 1 - k)

  pub calls_from-Backwards :
      (n : ℕ) (items : List (DeferItem F G P))
      → n ≤ length items
      → Backwards n items (calls_from n items)
  unfolding calls_from
  calls_from-Backwards zero items h = record {
    calls = [];
    returns = refl;
    count = refl;
    order = λ k p. absurd (omega arith);
  }
  calls_from-Backwards (suc n) items h =
      let last = get_elem?-some items n (omega arith) in
      let rest : Backwards n items (calls_from n items) =
        calls_from-Backwards n items (omega arith) in
      record {
        calls = last.0 ∷ rest.calls;
        returns = rw (last.1, rest.returns, calls_from);
        count = omega (arith, rest.count);
        order = λ k p.
            elim k
                as (λ (j : ℕ).
                  j < suc n → get_elem? (last.0 ∷ rest.calls) j ≡ get_elem? items (suc n - 1 - j)) [
                    | zero ↦ λ q. let e : suc n - 1 - 0 ≡ n = omega arith in rw e (sym last.1)
                    | suc j ↦ λ q.
                        let e : suc n - 1 - suc j ≡ n - 1 - j = omega arith in
                        rw e (rest.order j (omega arith))
                  ]
              p;
      }

  -- In a scope with its sixteen places, at most sixteen deferred calls are all accepted, and the
  -- end of the scope makes them in the reverse of the order in which they were deferred, each
  -- once, and leaves the scope empty.
  pub defer_scope_end-push :
      (storage : Defer F G P) (items : List (DeferItem F G P))
      → length storage.items ≡ defer_items_max_size
      → length items ≤ defer_items_max_size
      → (filled : Defer F G P) × (calls : List (DeferItem F G P)) × (emptied : Defer F G P)
        × (then_push (done (defer_scope_begin storage)) items ≡ done filled)
        × (defer_scope_end filled ≡ done (calls, emptied))
        × (emptied.len ≡ 0)
        × (length calls ≡ length items)
        × ((k : ℕ) → k < length items → get_elem? calls k ≡ get_elem? items (length items - 1 - k))
  unfolding defer_scope_begin defer_scope_end
  defer_scope_end-push storage items e h =
      let pushes : Pushes (defer_scope_begin storage) items
          (then_push (done (defer_scope_begin storage)) items) =
        then_push-Pushes (defer_scope_begin storage) items e (omega arith) in
      let back : Backwards pushes.after.len pushes.after.items
          (calls_from pushes.after.len pushes.after.items) =
        calls_from-Backwards pushes.after.len pushes.after.items
          (omega (arith, pushes.count, pushes.same_length)) in
      let len : pushes.after.len ≡ length items = omega (arith, pushes.count) in
      (
        pushes.after,
        back.calls,
        record (pushes.after) { len = 0 },
        pushes.returns,
        rw (back.returns, defer_scope_end),
        refl,
        back.count ∙ len,
        λ k p.
            back.order k (omega arith)
            ∙ (let e' : pushes.after.len - 1 - k ≡ 0 + (length items - 1 - k) = omega arith in
                rw e' (pushes.pushed (length items - 1 - k) (omega arith))),
      )
