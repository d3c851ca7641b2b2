-- ===== src/Aqls/Parser/Returns.antt =====
-- Calls that return a value with a property, or exit; those of the syntax tree do.
use c_lang_examples.Prelude.{ℕ, zero, suc, ◌≡◌, refl, sym, ap, subst, Option, none, some}
use c_lang_examples.Prelude.Ended.{Ended, done, exited, ◌>>=◌}
use c_lang_examples.Aqls.Token.{AqlsToken}
use c_lang_examples.Aqls.Ast.{
  AqlsAstStmt, AqlsAstEnd, AqlsAstCompilationUnit, Heap, alloc_or_panic, aqls_ast_new,
  aqls_ast_compilation_unit_new, aqls_ast_statements_new, aqls_ast_statements_append,
  aqls_ast_statement_write_new, aqls_ast_end_new,
}

-- A call exits, or it returns a value for which `P` holds.
pub data Returns {ℓ κ} {A : Type ℓ} (P : A → Type κ) (call : Ended A) : Type (ℓ ⊔ κ) where
  exits : call ≡ exited → Returns P call
  gives : (a : A) → call ≡ done a → P a → Returns P call

-- What follows a call that exits or returns does so too, if it does for each value.
pub Returns-then {ℓ κ ℓ' κ'} :
    {A : Type ℓ} {B : Type ℓ'} {P : A → Type κ} {Q : B → Type κ'} {call : Ended A} {f : A → Ended B}
    → Returns P call
    → ((a : A) → P a → Returns Q (f a))
    → Returns Q (call >>= f)
Returns-then {f = f} (exits e) next = exits (ap (λ c. c >>= f) e)
Returns-then {Q = Q} {f = f} (gives a e p) next =
    subst (λ c. Returns Q (c >>= f)) (sym e) (next a p)

abbrev pub Any : {A : Type 0} → A → Type 0
Any a = Unit

pub alloc_or_panic-Returns : (heap : Heap) → Returns Any (alloc_or_panic heap)
unfolding alloc_or_panic
alloc_or_panic-Returns heap =
    elim heap.memory as (λ memory. Returns Any (alloc_or_panic (record heap { memory = memory }))) [
      | zero ↦ exits refl
      | suc memory ↦ gives _ refl tt
    ]

pub aqls_ast_statement_write_new-Returns :
    (write_token operand : AqlsToken) (heap : Heap)
    → Returns Any (aqls_ast_statement_write_new write_token operand heap)
unfolding aqls_ast_statement_write_new
aqls_ast_statement_write_new-Returns write_token operand heap =
    Returns-then (alloc_or_panic-Returns heap)
      (λ made m. Returns-then (alloc_or_panic-Returns made) (λ there t. gives _ refl tt))

pub aqls_ast_statements_new-Returns :
    (statement : AqlsAstStmt) (heap : Heap) → Returns Any (aqls_ast_statements_new statement heap)
unfolding aqls_ast_statements_new
aqls_ast_statements_new-Returns statement heap =
    Returns-then (alloc_or_panic-Returns heap) (λ there t. gives _ refl tt)

pub aqls_ast_statements_append-Returns :
    (list : Option ℕ) (statement : AqlsAstStmt) (heap : Heap)
    → Returns Any (aqls_ast_statements_append list statement heap)
unfolding aqls_ast_statements_append
aqls_ast_statements_append-Returns none statement heap =
    Returns-then (aqls_ast_statements_new-Returns statement heap) (λ made m. gives _ refl tt)
aqls_ast_statements_append-Returns (some last) statement heap =
    Returns-then (aqls_ast_statements_new-Returns statement heap) (λ made m. gives _ refl tt)

pub aqls_ast_end_new-Returns :
    (end_token : AqlsToken) (heap : Heap)
    → Returns (λ r. (r.0).end_token ≡ end_token) (aqls_ast_end_new end_token heap)
unfolding aqls_ast_end_new
aqls_ast_end_new-Returns end_token heap =
    Returns-then (alloc_or_panic-Returns heap) (λ there t. gives _ refl refl)

pub aqls_ast_compilation_unit_new-Returns :
    (statements : Option ℕ) (end : AqlsAstEnd) (heap : Heap)
    → Returns
        (λ r. r.0 ≡ record { statements = statements; end = end })
        (aqls_ast_compilation_unit_new statements end heap)
unfolding aqls_ast_compilation_unit_new
aqls_ast_compilation_unit_new-Returns statements end heap =
    Returns-then (alloc_or_panic-Returns heap) (λ there t. gives _ refl refl)

pub aqls_ast_new-Returns :
    (unit : AqlsAstCompilationUnit) (heap : Heap)
    → Returns (λ r. r.0 ≡ record { compilation_unit = unit }) (aqls_ast_new unit heap)
unfolding aqls_ast_new
aqls_ast_new-Returns unit heap =
    Returns-then (alloc_or_panic-Returns heap) (λ there t. gives _ refl refl)
