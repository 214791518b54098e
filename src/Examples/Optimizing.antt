-- ===== src/Examples/Optimizing.antt =====
-- hzcc/optimization: functions of a few statements.
use hzcc.Prelude.{◌≡◌, refl, Bool, true, false, some, List, [], ◌∷◌, Bytes, codes}
use hzcc.Optimization.{
  Function, Answer, Pass, function_pass, other_pass, Status, unavailable, until_return,
  dead_code_elimination, erase_empty, empty_statement_removal, run_function_pass, Decl, func_decl,
  other_decl, moved_out, keep, run_pass,
}
use hzcc.Optimization.Commute.{
  return_first, empty_first, run_function_pass-order, run_function_pass_idem,
}
use hzcc.Optimization.Failure.{Leaves, run_pass-Leaves}

data Stmt : Type 0 where
  return_stmt empty_stmt expr_stmt : Stmt

abbrev is_return : Stmt → Bool
is_return return_stmt = true
is_return empty_stmt = false
is_return expr_stmt = false

abbrev is_empty_stmt : Stmt → Bool
is_empty_stmt return_stmt = false
is_empty_stmt empty_stmt = true
is_empty_stmt expr_stmt = false

apart : (s : Stmt) → is_return s ≡ true → is_empty_stmt s ≡ false
apart return_stmt h = refl
apart empty_stmt h = absurd (cc)
apart expr_stmt h = refl

abbrev main_function : Function Stmt
main_function = record {
  name = codes "main";
  body = some (empty_stmt ∷ expr_stmt ∷ return_stmt ∷ expr_stmt ∷ []);
}

run_function_pass-order_example :
    run_function_pass (return_first is_return is_empty_stmt (codes "D") (codes "E")) main_function
    ≡ run_function_pass (empty_first is_return is_empty_stmt (codes "D") (codes "E")) main_function
run_function_pass-order_example =
    run_function_pass-order is_return is_empty_stmt (codes "D") (codes "E") apart main_function

abbrev both : List (Bytes × Pass Stmt)
both = return_first is_return is_empty_stmt (codes "D") (codes "E")

both_passes : (run_function_pass both main_function).1.body ≡ some (expr_stmt ∷ return_stmt ∷ [])
unfolding run_function_pass dead_code_elimination empty_statement_removal until_return erase_empty
both_passes = refl

run_function_pass_idem_example :
    run_function_pass both (run_function_pass both main_function).1
    ≡ run_function_pass both main_function
run_function_pass_idem_example =
    run_function_pass_idem is_return is_empty_stmt (codes "D") (codes "E") apart main_function

-- A pass that fails on each function.
abbrev fails : Function Stmt → Answer Stmt
fails f = ((false, false), f)

abbrev with_failure : List (Bytes × Pass Stmt)
with_failure = (codes "M", other_pass) ∷ (codes "F", function_pass fails) ∷ []

abbrev unit_decls : List (Decl Stmt)
unit_decls = other_decl ∷ func_decl main_function ∷ func_decl main_function ∷ []

run_with_failure :
    run_pass with_failure unit_decls
    ≡ some (unavailable (codes "F"), other_decl ∷ moved_out ∷ func_decl main_function ∷ [])
unfolding run_pass run_function_pass keep
run_with_failure = refl

run_pass-Leaves_example :
    (status : Status) × (left : List (Decl Stmt)) × (run_pass with_failure unit_decls
      ≡ some (status, left))
    × Leaves with_failure status unit_decls left
run_pass-Leaves_example = run_pass-Leaves with_failure unit_decls (tt, (tt, (tt, tt)))
