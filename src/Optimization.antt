-- ===== src/Optimization.antt =====
-- hzcc/optimization: the two passes over functions, and the manager that runs passes. The tree that they
-- work on is of an earlier version: the questions that a statement answers are parameters.
pub mod Commute
pub mod Failure
use hzcc.Prelude.{Bool, true, false, Option, none, some, List, [], ◌∷◌, if◌then◌else◌, Bytes}

-- FuncDeclStmt, as far as the passes look: `none` is a function without a body.
pub record Function (S : Type 0) : Type 0 where
  pub name : Bytes
  pub body : Option (List S)

-- What RunOnFunction answers, success and change, with the function it leaves.
abbrev pub Answer : Type 0 → Type 0
Answer S = (Bool × Bool) × Function S

-- DeadCodeElimination: the loop up to the first return statement, and the erasure behind it.
unfoldable pub until_return : {S : Type 0} → (S → Bool) → List S → Bool × List S
until_return is_return [] = (false, [])
until_return is_return (s ∷ stmts) =
    let rest = until_return is_return stmts in
    if is_return s then (true, s ∷ []) else (rest.0, s ∷ rest.1)

unfoldable pub dead_code_elimination : {S : Type 0} → (S → Bool) → Function S → Answer S
unfolding until_return
dead_code_elimination is_return f = elim f.body [
  | none ↦ ((true, false), f)
  | some stmts ↦
      let (modified, kept) = until_return is_return stmts in
      ((true, modified), record f { body = some kept })
]

-- EmptyStatementRemoval: the loop that erases each empty statement.
unfoldable pub erase_empty : {S : Type 0} → (S → Bool) → List S → Bool × List S
erase_empty is_empty_stmt [] = (false, [])
erase_empty is_empty_stmt (s ∷ stmts) =
    let rest = erase_empty is_empty_stmt stmts in
    if is_empty_stmt s then (true, rest.1) else (rest.0, s ∷ rest.1)

unfoldable pub empty_statement_removal : {S : Type 0} → (S → Bool) → Function S → Answer S
unfolding erase_empty
empty_statement_removal is_empty_stmt f = elim f.body [
  | none ↦ ((true, false), f)
  | some stmts ↦
      let (modified, kept) = erase_empty is_empty_stmt stmts in
      ((true, modified), record f { body = some kept })
]

-- A registered pass: one over functions, or another one, which the manager leaves out.
pub data Pass (S : Type 0) : Type 0 where
  function_pass : (Function S → Answer S) → Pass S
  other_pass : Pass S

-- Status: `unavailable` names the pass that failed.
pub data Status : Type 0 where
  ok_status : Status
  unavailable : Bytes → Status

-- RunFunctionPass, over the map of passes in the order that it is iterated.
unfoldable pub run_function_pass :
    {S : Type 0} → List (Bytes × Pass S) → Function S → Status × Function S
run_function_pass [] f = (ok_status, f)
run_function_pass ((name, other_pass) ∷ passes) f = run_function_pass passes f
run_function_pass ((name, function_pass run) ∷ passes) f =
    let ((status, modified), f') = run f in
    let rest = run_function_pass passes f' in if status then rest else (unavailable name, f')

-- A declaration of the unit. A function that a failed pass leaves is not put back: `moved_out`.
pub data Decl (S : Type 0) : Type 0 where
  func_decl : Function S → Decl S
  other_decl : Decl S
  moved_out : Decl S

-- A declaration in front of those that the rest of the loop leaves.
unfoldable pub keep :
    {S : Type 0} → Decl S → Option (Status × List (Decl S)) → Option (Status × List (Decl S))
keep d none = none
keep d (some (status, decls)) = some (status, d ∷ decls)

-- RunPass, over the declarations in their order; it stops behind the first failure. A declaration that
-- an earlier failure has moved out is dereferenced as a null pointer: `none`.
unfoldable pub run_pass :
    {S : Type 0} → List (Bytes × Pass S) → List (Decl S) → Option (Status × List (Decl S))
unfolding run_function_pass keep
run_pass passes [] = some (ok_status, [])
run_pass passes (moved_out ∷ decls) = none
run_pass passes (other_decl ∷ decls) = keep other_decl (run_pass passes decls)
run_pass passes (func_decl f ∷ decls) =
    let rest = run_pass passes decls in
    let (status, f') = run_function_pass passes f in
    elim status [
      | unavailable name ↦ some (unavailable name, moved_out ∷ decls)
      | ok_status ↦ keep (func_decl f') rest
    ]
