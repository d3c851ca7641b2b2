-- ===== src/Aqls/Ast.antt =====
-- The syntax tree (ast/ast.c, ast/ast.h). The nodes of the list of statements are changed after they
-- are made, so they stand in a heap and a pointer to one is its index; the other nodes are made once
-- and stand for themselves. `memory` is how many allocations `malloc` still grants; the one after
-- them ends the program, by `panic_if_null`.
use c_lang_examples.Prelude.{
  ℕ, zero, suc, Option, none, some, List, [], ◌∷◌, ◌++◌, length, get_elem?, set,
}
use c_lang_examples.Prelude.Ended.{Ended, done, exited, ◌>>=◌}
use c_lang_examples.Aqls.Token.{AqlsToken}

pub record AqlsAstStmtWrite : Type 0 where
  pub write_token : AqlsToken
  pub operand : AqlsToken

-- The one kind of statement, AQLS_AST_STATEMENT_WRITE.
pub data AqlsAstStmt : Type 0 where
  write_stmt : AqlsAstStmtWrite → AqlsAstStmt

pub record AqlsAstStmtList : Type 0 where
  pub statement : AqlsAstStmt
  pub next : Option ℕ

pub record AqlsAstEnd : Type 0 where
  pub end_token : AqlsToken

pub record AqlsAstCompilationUnit : Type 0 where
  pub statements : Option ℕ
  pub end : AqlsAstEnd

pub record AqlsAst : Type 0 where
  pub compilation_unit : AqlsAstCompilationUnit

pub record Heap : Type 0 where
  pub nodes : List AqlsAstStmtList
  pub memory : ℕ

-- `ALLOC_OR_PANIC`
unfoldable pub alloc_or_panic : Heap → Ended Heap
alloc_or_panic heap = elim heap.memory [
  | zero ↦ exited
  | suc memory ↦ done (record heap { memory = memory })
]

unfoldable pub aqls_ast_new : AqlsAstCompilationUnit → Heap → Ended (AqlsAst × Heap)
aqls_ast_new compilation_unit heap = do
  there ← alloc_or_panic heap
  done (record { compilation_unit = compilation_unit }, there)

unfoldable pub aqls_ast_compilation_unit_new :
    Option ℕ → AqlsAstEnd → Heap → Ended (AqlsAstCompilationUnit × Heap)
aqls_ast_compilation_unit_new statements end heap = do
  there ← alloc_or_panic heap
  done (record { statements = statements; end = end }, there)

unfoldable pub aqls_ast_statements_new : AqlsAstStmt → Heap → Ended (ℕ × Heap)
aqls_ast_statements_new statement heap = do
  there ← alloc_or_panic heap
  done (
    length heap.nodes,
    record there { nodes = heap.nodes ++ record { statement = statement; next = none } ∷ [] },
  )

-- `list->next = new_node`
abbrev pub link : List AqlsAstStmtList → ℕ → ℕ → List AqlsAstStmtList
link nodes list new_node = elim (get_elem? nodes list) [
  | none ↦ nodes
  | some node ↦ set nodes list (record node { next = some new_node })
]

unfoldable pub aqls_ast_statements_append : Option ℕ → AqlsAstStmt → Heap → Ended (ℕ × Heap)
unfolding aqls_ast_statements_new
aqls_ast_statements_append list statement heap = do
  made ← aqls_ast_statements_new statement heap
  elim list [
    | none ↦ done made
    | some last ↦ done (made.0, record (made.1) { nodes = link (made.1).nodes last made.0 })
  ]

unfoldable pub aqls_ast_statement_write_new :
    AqlsToken → AqlsToken → Heap → Ended (AqlsAstStmt × Heap)
aqls_ast_statement_write_new write_token operand heap = do
  made ← alloc_or_panic heap
  there ← alloc_or_panic made
  done (write_stmt (record { write_token = write_token; operand = operand }), there)

unfoldable pub aqls_ast_end_new : AqlsToken → Heap → Ended (AqlsAstEnd × Heap)
aqls_ast_end_new end_token heap = do
  there ← alloc_or_panic heap
  done (record { end_token = end_token }, there)
