-- ===== src/Http/Headers/Complete.antt =====
-- That the check of the headers finds a blank line.
use c_lang_examples.Prelude.{
  ℕ, zero, suc, ◌+◌, ◌-◌, ◌≤◌, ◌<◌, ◌≡◌, ◌⊎◌, inl, inr, refl, sym, ap, ◌∙◌, subst, arith, lt→ltb,
  Option-cases, none, some, List, [], ◌∷◌, length,
}
use c_lang_examples.Prelude.Ended.{done}
use c_lang_examples.Http.Headers.{
  cr, lf, http_headers_is_valid_byte, state_after, validate_from, http_headers_validate,
}
use c_lang_examples.Http.Headers.Sound.{
  IsValidByte, get_byte, Reached, fresh, after_cr, after_line, after_blank, Reached-step, EndsAt,
  IsRest, IsRest-next, IsRest-first, http_headers_validate-EndsAt,
}

module _ (buffer : List ℕ) where
  -- What the loop does with a valid byte.
  go_on :
      (rest : List ℕ) (state i next : ℕ)
      → IsRest buffer rest i
      → i < length buffer
      → IsValidByte (get_byte buffer i)
      → state_after state (get_byte buffer i) ≡ some next
      → (rest' : List ℕ) × (validate_from rest state i ≡ validate_from rest' next (i + 1))
        × IsRest buffer rest' (i + 1)
  unfolding validate_from
  go_on [] state i next r h valid e = absurd (omega (arith, r.counted))
  go_on (c ∷ rest) state i next r h valid e =
      let here = IsRest-first buffer rest c i r in
      (
        rest,
        rw
            (
              ap http_headers_is_valid_byte (sym here) ∙ valid,
              ap (state_after state) (sym here) ∙ e,
              validate_from,
            )
            refl,
        IsRest-next buffer rest c i r,
      )

  stop :
      (rest : List ℕ) (state i : ℕ)
      → IsRest buffer rest i
      → i < length buffer
      → IsValidByte (get_byte buffer i)
      → state_after state (get_byte buffer i) ≡ none
      → validate_from rest state i ≡ some (i - 2)
  unfolding validate_from
  stop [] state i r h valid e = absurd (omega (arith, r.counted))
  stop (c ∷ rest) state i r h valid e =
      let here = IsRest-first buffer rest c i r in
      rw
        (
          ap http_headers_is_valid_byte (sym here) ∙ valid,
          ap (state_after state) (sym here) ∙ e,
          validate_from,
        )
        refl

  -- The same, at an index that is one further on.
  step :
      (rest : List ℕ) (state i next j : ℕ)
      → i + 1 ≡ j
      → IsRest buffer rest i
      → i < length buffer
      → IsValidByte (get_byte buffer i)
      → state_after state (get_byte buffer i) ≡ some next
      → (rest' : List ℕ) × (validate_from rest state i ≡ validate_from rest' next j)
        × IsRest buffer rest' j
  step rest state i next j e =
      subst
        (λ j.
          IsRest buffer rest i
          → i < length buffer
          → IsValidByte (get_byte buffer i)
          → state_after state (get_byte buffer i) ≡ some next
          → (rest' : List ℕ) × (validate_from rest state i ≡ validate_from rest' next j)
            × IsRest buffer rest' j)
        e (go_on rest state i next)

state_after-blank :
    (state_after 1 lf ≡ some 2) × (state_after 2 cr ≡ some 3) × (state_after 3 lf ≡ none)
unfolding state_after
state_after-blank = (refl, refl, refl)

state_after-cr : (state : ℕ) → (state ≡ 0) ⊎ (state ≡ 1) → state_after state cr ≡ some 1
unfolding state_after
state_after-cr state s = ground arith

-- CR LF CR stands right before the blank line of an offset.
abbrev pub IsSpoiled : List ℕ → ℕ → Type 0
IsSpoiled buffer offset =
    (4 ≤ offset)
    × (get_byte buffer (offset - 4) ≡ cr)
    × (get_byte buffer (offset - 3) ≡ lf)
    × (get_byte buffer (offset - 2) ≡ cr)

-- A blank line is found from each state of the search but the last.
module _ (buffer : List ℕ) (offset : ℕ) (ends : EndsAt buffer offset) where
  from_blank :
      (rest : List ℕ)
      → IsRest buffer rest (offset + 2)
      → validate_from rest 3 (offset + 2) ≡ some offset
  from_blank rest r =
      stop buffer rest 3 (offset + 2) r ends.inside (ends.valid (offset + 2) (omega arith))
        (ap (state_after 3) ends.blank_lf ∙ state_after-blank.2)
      ∙ ap some (omega arith)

  from_line :
      (rest : List ℕ)
      → IsRest buffer rest (offset + 1)
      → validate_from rest 2 (offset + 1) ≡ some offset
  from_line rest r =
      let (rest', e, r') =
        step buffer rest 2 (offset + 1) 3 (offset + 2) (omega arith) r (omega (arith, ends.inside))
          (ends.valid (offset + 1) (omega arith))
          (ap (state_after 2) ends.blank_cr ∙ state_after-blank.1) in
      e ∙ from_blank rest' r'

  from_cr : (rest : List ℕ) → IsRest buffer rest offset → validate_from rest 1 offset ≡ some offset
  from_cr rest r =
      let (rest', e, r') =
        step buffer rest 1 offset 2 (offset + 1) refl r (omega (arith, ends.inside))
          (ends.valid offset (omega arith))
          (ap (state_after 1) ends.line_lf ∙ state_after-blank.0) in
      e ∙ from_line rest' r'

  from_start :
      (rest : List ℕ) (state : ℕ)
      → (state ≡ 0) ⊎ (state ≡ 1)
      → IsRest buffer rest (offset - 1)
      → validate_from rest state (offset - 1) ≡ some offset
  from_start rest state s r =
      let (rest', e, r') =
        step buffer rest state (offset - 1) 1 offset (omega (arith, ends.behind)) r
          (omega (arith, ends.inside)) (ends.valid (offset - 1) (omega arith))
          (ap (state_after state) ends.line_cr ∙ state_after-cr state s) in
      e ∙ from_cr rest' r'

  -- Behind a line end, the blank line is the end of that line and what follows it.
  from_end :
      (rest : List ℕ)
      → IsRest buffer rest (offset - 1)
      → validate_from rest 2 (offset - 1) ≡ some (offset - 2)
  from_end rest r =
      let (rest', e, r') =
        step buffer rest 2 (offset - 1) 3 offset (omega (arith, ends.behind)) r
          (omega (arith, ends.inside)) (ends.valid (offset - 1) (omega arith))
          (ap (state_after 2) ends.line_cr ∙ state_after-blank.1) in
      e
      ∙ stop buffer rest' 3 offset r' (omega (arith, ends.inside)) (ends.valid offset (omega arith))
          (ap (state_after 3) ends.line_lf ∙ state_after-blank.2)

  module _ (clean : ¬ IsSpoiled buffer offset) where
    from_state :
        (rest : List ℕ) (state : ℕ)
        → Reached (get_byte buffer) state (offset - 1)
        → IsRest buffer rest (offset - 1)
        → (found : ℕ) × (validate_from rest state (offset - 1) ≡ some found) × (found ≤ offset)
    from_state rest state (fresh s) r = (offset, from_start rest state (inl s) r, omega arith)
    from_state rest state (after_cr s h a) r =
        (offset, from_start rest state (inr s) r, omega arith)
    from_state rest state (after_line s h a b) r = (
      offset - 2,
      subst (λ t. validate_from rest t (offset - 1) ≡ some (offset - 2)) (sym s) (from_end rest r),
      omega arith,
    )
    from_state rest state (after_blank s h a b c) r = absurd (
        clean (
          omega arith,
          ap (get_byte buffer) (omega arith) ∙ a,
          ap (get_byte buffer) (omega arith) ∙ b,
          ap (get_byte buffer) (omega arith) ∙ c,
        ))

    from_before :
        (gap : ℕ) (rest : List ℕ) (state i : ℕ)
        → i + gap ≡ offset - 1
        → Reached (get_byte buffer) state i
        → IsRest buffer rest i
        → (found : ℕ) × (validate_from rest state i ≡ some found) × (found ≤ offset)
    from_before zero rest state i e reached r =
        let there : i ≡ offset - 1 = omega (arith, e) in
        subst
          (λ j.
            Reached (get_byte buffer) state j
            → IsRest buffer rest j
            → (found : ℕ) × (validate_from rest state j ≡ some found) × (found ≤ offset))
          (sym there) (from_state rest state) reached r
    from_before (suc gap) rest state i e reached r =
        elim (Option-cases (state_after state (get_byte buffer i))) [
          | inl found ↦ (
            i - 2,
            stop buffer rest state i r (omega (arith, e, ends.inside))
                (ends.valid i (omega (arith, e))) found,
            omega (arith, e),
          )
          | inr (next, stepped) ↦
              let (rest', same, r') =
                go_on buffer rest state i next r (omega (arith, e, ends.inside))
                  (ends.valid i (omega (arith, e))) stepped in
              let (found, q, h) =
                from_before gap rest' next (i + 1) (omega (arith, e))
                  (Reached-step (get_byte buffer) state i next reached stepped) r' in
              (found, same ∙ q, h)
        ]

-- Where a buffer has a blank line behind valid bytes, and not CR LF CR right before it, the check
-- succeeds, with an offset where headers end that is not behind that line.
pub http_headers_validate-finds :
    (buffer : List ℕ) (offset : ℕ) (ends : EndsAt buffer offset)
    → ¬ IsSpoiled buffer offset
    → (found : ℕ) × (http_headers_validate buffer ≡ done (some found))
      × (found ≤ offset)
      × EndsAt buffer found
unfolding http_headers_validate
http_headers_validate-finds buffer offset ends clean =
    let (found, e, h) =
      from_before buffer offset ends clean (offset - 1) buffer 0 0 (omega arith) (fresh refl)
        (record { counted = omega arith; agrees = λ k. ap (get_byte buffer) (omega arith) }) in
    let returned : http_headers_validate buffer ≡ done (some found) =
      rw (lt→ltb 1 (length buffer) (omega (arith, ends.inside)), e) refl in
    (found, returned, h, http_headers_validate-EndsAt buffer found returned)
