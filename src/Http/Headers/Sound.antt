-- ===== src/Http/Headers/Sound.antt =====
-- What a check of the headers that succeeds has found.
use native.Mathlib.Decide.{ℕ_discrete}
use mathlib.Core.Bool.{false≢true}
use c_lang_examples.Prelude.{
  ℕ, suc, ◌+◌, ◌-◌, ◌≤◌, ◌<◌, ◌≡◌, ◌≢◌, ◌⊎◌, inl, inr, refl, sym, ap, ◌∙◌, subst, arith, true,
  false, ltb, Bool-cases, Option-cases, Option, none, some, List, [], ◌∷◌, length, get_or,
}
use c_lang_examples.Prelude.Ended.{done}
use c_lang_examples.Http.Headers.{
  cr, lf, http_headers_is_valid_byte, state_after, validate_from, http_headers_validate,
}

abbrev pub IsValidByte : ℕ → Type 0
IsValidByte c = http_headers_is_valid_byte c ≡ true

-- The byte at an index, or zero behind the buffer.
abbrev pub get_byte : List ℕ → ℕ → ℕ
get_byte buffer i = get_or buffer i 0

pub none≢some : {offset : ℕ} → Option.none ≢ some offset
none≢some e = false≢true (ap (λ o. elim o [ none ↦ false | some k ↦ true ]) e)

some-injective : {m n : ℕ} → some m ≡ some n → m ≡ n
some-injective e = ap (λ o. elim o [ none ↦ 0 | some k ↦ k ]) e

done_injective : {a b : Option ℕ} → done a ≡ done b → a ≡ b
done_injective e = ap (λ r. elim r [ done o ↦ o | _ ↦ none ]) e

state_after-some :
    (state c next : ℕ)
    → state_after state c ≡ some next
    → (next ≡ 0)
      ⊎ (((next ≡ 1) × (c ≡ cr))
          ⊎ (((next ≡ 2) × (state ≡ 1) × (c ≡ lf)) ⊎ ((next ≡ 3) × (state ≡ 2) × (c ≡ cr))))
unfolding state_after
state_after-some state c next e = ground arith

state_after-none : (state c : ℕ) → state_after state c ≡ none → (state ≡ 3) × (c ≡ lf)
unfolding state_after
state_after-none state c e = ground arith

module _ (at : ℕ → ℕ) where
  -- Behind which bytes of CR LF CR the search stands, before the byte of an index.
  pub data Reached (state i : ℕ) : Type 0 where
    fresh : state ≡ 0 → Reached state i
    after_cr : state ≡ 1 → 1 ≤ i → at (i - 1) ≡ cr → Reached state i
    after_line : state ≡ 2 → 2 ≤ i → at (i - 2) ≡ cr → at (i - 1) ≡ lf → Reached state i
    after_blank :
        state ≡ 3 → 3 ≤ i → at (i - 3) ≡ cr → at (i - 2) ≡ lf → at (i - 1) ≡ cr → Reached state i

  Reached-line : (i : ℕ) → Reached 1 i → at i ≡ lf → Reached 2 (i + 1)
  Reached-line i (after_cr e h a) l =
      after_line refl (omega arith) (let k : i + 1 - 2 ≡ i - 1 = omega arith in rw k a)
        (let k : i + 1 - 1 ≡ i = omega arith in rw k l)
  Reached-line i (fresh e) l = absurd (omega arith)
  Reached-line i (after_line e _ _ _) l = absurd (omega arith)
  Reached-line i (after_blank e _ _ _ _) l = absurd (omega arith)

  Reached-blank : (i : ℕ) → Reached 2 i → at i ≡ cr → Reached 3 (i + 1)
  Reached-blank i (after_line e h a b) l =
      after_blank refl (omega arith) (let k : i + 1 - 3 ≡ i - 2 = omega arith in rw k a)
        (let k : i + 1 - 2 ≡ i - 1 = omega arith in rw k b)
        (let k : i + 1 - 1 ≡ i = omega arith in rw k l)
  Reached-blank i (fresh e) l = absurd (omega arith)
  Reached-blank i (after_cr e _ _) l = absurd (omega arith)
  Reached-blank i (after_blank e _ _ _ _) l = absurd (omega arith)

  pub Reached-step :
      (state i next : ℕ)
      → Reached state i
      → state_after state (at i) ≡ some next
      → Reached next (i + 1)
  Reached-step state i next reached e = elim (state_after-some state (at i) next e) [
    | inl z ↦ fresh z
    | inr (inl (n, c)) ↦ after_cr n (omega arith) (let k : i + 1 - 1 ≡ i = omega arith in rw k c)
    | inr (inr (inl (n, s, c))) ↦
        subst (λ t. Reached t (i + 1)) (sym n)
          (Reached-line i (subst (λ t. Reached t i) s reached) c)
    | inr (inr (inr (n, s, c))) ↦
        subst (λ t. Reached t (i + 1)) (sym n)
          (Reached-blank i (subst (λ t. Reached t i) s reached) c)
  ]

-- The headers of a buffer end at an offset: the LF there is behind a CR and before CR LF, and all
-- bytes up to the end of the blank line are valid.
pub record EndsAt (buffer : List ℕ) (offset : ℕ) : Type 0 where
  pub behind : 1 ≤ offset
  pub inside : offset + 2 < length buffer
  pub line_cr : get_byte buffer (offset - 1) ≡ cr
  pub line_lf : get_byte buffer offset ≡ lf
  pub blank_cr : get_byte buffer (offset + 1) ≡ cr
  pub blank_lf : get_byte buffer (offset + 2) ≡ lf
  pub valid : (k : ℕ) → k < offset + 3 → IsValidByte (get_byte buffer k)

-- The bytes that are left are those of the buffer from an index on.
pub record IsRest (buffer rest : List ℕ) (i : ℕ) : Type 0 where
  pub counted : i + length rest ≡ length buffer
  pub agrees : (k : ℕ) → get_byte rest k ≡ get_byte buffer (i + k)

pub IsRest-next :
    (buffer rest : List ℕ) (c i : ℕ) → IsRest buffer (c ∷ rest) i → IsRest buffer rest (i + 1)
IsRest-next buffer rest c i r = record {
  counted = omega (arith, r.counted);
  agrees = λ k. r.agrees (suc k) ∙ ap (get_byte buffer) (omega arith);
}

pub IsRest-first :
    (buffer rest : List ℕ) (c i : ℕ) → IsRest buffer (c ∷ rest) i → get_byte buffer i ≡ c
IsRest-first buffer rest c i r = sym (r.agrees 0 ∙ ap (get_byte buffer) (omega arith))

blank-EndsAt :
    (buffer : List ℕ) (i : ℕ)
    → Reached (get_byte buffer) 3 i
    → i < length buffer
    → ((k : ℕ) → k < i + 1 → IsValidByte (get_byte buffer k))
    → get_byte buffer i ≡ lf
    → EndsAt buffer (i - 2)
blank-EndsAt buffer i (fresh e) h valid l = absurd (omega arith)
blank-EndsAt buffer i (after_cr e _ _) h valid l = absurd (omega arith)
blank-EndsAt buffer i (after_line e _ _ _) h valid l = absurd (omega arith)
blank-EndsAt buffer i (after_blank e g a b c) h valid l = record {
  behind = omega arith;
  inside = omega arith;
  line_cr = ap (get_byte buffer) (omega arith) ∙ a;
  line_lf = b;
  blank_cr = ap (get_byte buffer) (omega arith) ∙ c;
  blank_lf = ap (get_byte buffer) (omega arith) ∙ l;
  valid = λ k p. valid k (omega arith);
}

module _ (buffer : List ℕ) where
  validate_from-EndsAt :
      (rest : List ℕ) (state i offset : ℕ)
      → IsRest buffer rest i
      → Reached (get_byte buffer) state i
      → ((k : ℕ) → k < i → IsValidByte (get_byte buffer k))
      → validate_from rest state i ≡ some offset
      → EndsAt buffer offset
  unfolding validate_from
  validate_from-EndsAt [] state i offset r reached valid = λ e. absurd (none≢some e)
  validate_from-EndsAt (c ∷ rest) state i offset r reached valid =
      let here : get_byte buffer i ≡ c = IsRest-first buffer rest c i r in
      elim (Bool-cases (http_headers_is_valid_byte c)) [
        | inr bad ↦ rw (bad, validate_from) (λ e. absurd (none≢some e))
        | inl good ↦
            let more : (k : ℕ) → k < i + 1 → IsValidByte (get_byte buffer k) = λ k p.
              elim (ℕ_discrete k i) [
                | yes same ↦
                    ap (λ j. http_headers_is_valid_byte (get_byte buffer j)) same
                    ∙ (ap http_headers_is_valid_byte here ∙ good)
                | no other ↦ valid k (omega (arith, other))
              ] in
            elim (Option-cases (state_after state c)) [
              | inl found ↦
                  rw (good, found, validate_from)
                    (λ e. subst (EndsAt buffer) (some-injective e) (
                      let (three, newline) = state_after-none state c found in
                      blank-EndsAt buffer i
                        (subst (λ t. Reached (get_byte buffer) t i) three reached)
                        (omega (arith, r.counted)) more (here ∙ newline)))
              | inr (next, stepped) ↦
                  rw (good, stepped, validate_from)
                    (validate_from-EndsAt rest next (i + 1) offset (IsRest-next buffer rest c i r)
                      (Reached-step (get_byte buffer) state i next reached (rw here stepped)) more)
            ]
      ]

  -- Where the check succeeds with an offset, the byte there is the LF of the first CR LF of a CR LF
  -- CR LF in the buffer, and all bytes up to the end of these four are valid.
  pub http_headers_validate-EndsAt :
      (offset : ℕ) → http_headers_validate buffer ≡ done (some offset) → EndsAt buffer offset
  unfolding http_headers_validate
  http_headers_validate-EndsAt offset = elim (Bool-cases (ltb 1 (length buffer))) [
    | inl e ↦ rw e (λ q.
        validate_from-EndsAt buffer 0 0 offset
          (record { counted = omega arith; agrees = λ k. ap (get_byte buffer) (omega arith) })
          (fresh refl) (λ k p. absurd (omega arith)) (done_injective q))
    | inr e ↦ rw e (λ q. absurd (false≢true (ap (λ r. elim r [ done _ ↦ true | _ ↦ false ]) q)))
  ]
