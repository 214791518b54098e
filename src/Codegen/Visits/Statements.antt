-- ===== src/Codegen/Visits/Statements.antt =====
-- hzcc/codegen/jvm/FuncAnalyzer.cc: the statements that leave the stack as high as before.
use Prim.Native.Nat.{max}
use hzcc.Prelude.{ℕ, ◌≡◌, true, false, List, [], ◌++◌, Bytes, if◌then◌else◌, ◌⊎◌}
use hzcc.Codegen.Analyzer.{FuncAnalyzer}
use hzcc.Codegen.Visits.{
  uses_iinc, Node, assignment, not_visited, compound, func_call, Nodes, no_node, next_node,
}
use hzcc.Codegen.Visits.Values.{
  slots, assign_needs, needs, needs_args, target_needs, names, names_args, IsValue, AreValues,
  IsTarget,
}

-- The slots that a statement needs on the way.
unfoldable mutual
  unfolding needs needs_args target_needs

  pub stmt_needs : Node → ℕ
  stmt_needs (assignment type lhs l r) =
      if uses_iinc type lhs then 0 else assign_needs false type (slots l) (target_needs l) (needs r)
  stmt_needs (func_call is_void args) = max (needs_args args) (if is_void then 0 else 1)
  stmt_needs (compound stmts) = stmts_need stmts
  stmt_needs _ = 0

  pub stmts_need : Nodes → ℕ
  stmts_need no_node = 0
  stmts_need (next_node n rest) = max (stmt_needs n) (stmts_need rest)

-- The arrays whose names a statement leaves on the return stack, the last one first.
unfoldable mutual
  unfolding names names_args

  pub stmt_names : Node → List Bytes
  stmt_names (assignment type lhs l r) = if uses_iinc type lhs then [] else names r
  stmt_names (func_call is_void args) = names_args args
  stmt_names (compound stmts) = stmts_names stmts
  stmt_names _ = []

  pub stmts_names : Nodes → List Bytes
  stmts_names no_node = []
  stmts_names (next_node n rest) = stmts_names rest ++ stmt_names n

-- Assignments, calls of values, and blocks of these, in the scopes `a` with the global variables `g`.
unfoldable mutual
  unfolding IsValue AreValues IsTarget

  pub IsStatement : FuncAnalyzer → List (Bytes × Bytes) → Node → Type 0
  IsStatement a g (assignment type lhs l r) =
      (uses_iinc type lhs ≡ true)
      ⊎ ((uses_iinc type lhs ≡ false)
          × IsTarget a g false lhs.is_dereference l
          × IsValue a g true r)
  IsStatement a g (func_call is_void args) = AreValues a g false args
  IsStatement a g (compound stmts) = AreStatements a g stmts
  IsStatement a g not_visited = Unit
  IsStatement a g _ = ⊥

  pub AreStatements : FuncAnalyzer → List (Bytes × Bytes) → Nodes → Type 0
  AreStatements a g no_node = Unit
  AreStatements a g (next_node n rest) = IsStatement a g n × AreStatements a g rest
