-- ===== src/Optimization/Failure.antt =====
-- hzcc/optimization/PassManagerImpl.cc: a pass that fails.
use hzcc.Prelude.{◌≡◌, refl, ap, some, List, [], ◌∷◌, Bytes, All}
use hzcc.Optimization.{
  Function, Pass, Status, ok_status, unavailable, run_function_pass, Decl, func_decl, other_decl,
  moved_out, keep, run_pass,
}

-- What a run leaves of the declarations: those that the passes have been over, up to the first function
-- that a pass fails on; this one moved out; and those behind it as they were.
pub data Leaves {S : Type 0} (passes : List (Bytes × Pass S))
    : Status → List (Decl S) → List (Decl S) → Type 0 where
  finished : Leaves passes ok_status [] []
  passed_over :
      (status : Status) (decls left : List (Decl S))
      → Leaves passes status decls left
      → Leaves passes status (other_decl ∷ decls) (other_decl ∷ left)
  passed :
      (f : Function S) (status : Status) (decls left : List (Decl S))
      → (run_function_pass passes f).0 ≡ ok_status
      → Leaves passes status decls left
      → Leaves passes status (func_decl f ∷ decls) (func_decl (run_function_pass passes f).1 ∷ left)
  failed :
      (f : Function S) (name : Bytes) (decls : List (Decl S))
      → (run_function_pass passes f).0 ≡ unavailable name
      → Leaves passes (unavailable name) (func_decl f ∷ decls) (moved_out ∷ decls)

-- A declaration that is still there.
abbrev pub IsPresent : {S : Type 0} → Decl S → Type 0
IsPresent (func_decl f) = Unit
IsPresent other_decl = Unit
IsPresent moved_out = ⊥

-- How RunPass answers.
abbrev Answers : {S : Type 0} → List (Bytes × Pass S) → List (Decl S) → Type 0
Answers {S = S} passes decls =
    (status : Status) × (left : List (Decl S)) × (run_pass passes decls ≡ some (status, left))
    × Leaves passes status decls left

run_pass-func_decl :
    {S : Type 0} (passes : List (Bytes × Pass S)) (f : Function S) (decls : List (Decl S))
    → Answers passes decls
    → (outcome : Status) → (run_function_pass passes f).0 ≡ outcome
    → Answers passes (func_decl f ∷ decls)
unfolding run_pass keep
run_pass-func_decl passes f decls (status, left, eq, leaves) ok_status e = (
  status,
  func_decl (run_function_pass passes f).1 ∷ left,
  rw (e, run_pass) (ap (keep (func_decl (run_function_pass passes f).1)) eq),
  passed f status decls left e leaves,
)
run_pass-func_decl passes f decls rest (unavailable name) e =
    (unavailable name, moved_out ∷ decls, rw (e, run_pass) refl, failed f name decls e)

-- RunPass on declarations of which none has been moved out ends with a status and what it leaves: the
-- passes have been over the functions up to the first one that a pass fails on, this one is moved out,
-- and the declarations behind it are as they were.
pub run_pass-Leaves :
    {S : Type 0} (passes : List (Bytes × Pass S)) (decls : List (Decl S))
    → All IsPresent decls
    → (status : Status) × (left : List (Decl S)) × (run_pass passes decls ≡ some (status, left))
      × Leaves passes status decls left
unfolding run_pass keep
run_pass-Leaves passes [] h = (ok_status, [], refl, finished)
run_pass-Leaves passes (moved_out ∷ decls) h = elim h.0 [ ]
run_pass-Leaves passes (other_decl ∷ decls) h =
    let (status, left, eq, leaves) = run_pass-Leaves passes decls h.1 in
    (status, other_decl ∷ left, ap (keep other_decl) eq, passed_over status decls left leaves)
run_pass-Leaves passes (func_decl f ∷ decls) h =
    run_pass-func_decl passes f decls (run_pass-Leaves passes decls h.1)
      (run_function_pass passes f).0 refl
