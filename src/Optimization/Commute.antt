-- ===== src/Optimization/Commute.antt =====
-- hzcc/optimization: the passes in either order.
use hzcc.Prelude.{
  ◌≡◌, refl, sym, ap, ◌∙◌, Bool, true, false, Option, none, some, List, [], ◌∷◌, Bytes, arith,
}
use hzcc.Optimization.{
  Function, until_return, dead_code_elimination, erase_empty, empty_statement_removal, Pass,
  function_pass, ok_status, run_function_pass,
}

until_return-erase_empty :
    {S : Type 0} (is_return is_empty_stmt : S → Bool)
    → ((s : S) → is_return s ≡ true → is_empty_stmt s ≡ false)
    → (stmts : List S)
    → (until_return is_return (erase_empty is_empty_stmt stmts).1).1
      ≡ (erase_empty is_empty_stmt (until_return is_return stmts).1).1
unfolding until_return erase_empty
until_return-erase_empty r e apart [] = refl
until_return-erase_empty r e apart (s ∷ stmts) =
    let rest = until_return-erase_empty r e apart stmts in grind (arith, rest, apart s)

until_return_idem :
    {S : Type 0} (is_return : S → Bool) (stmts : List S)
    → (until_return is_return (until_return is_return stmts).1) ≡ until_return is_return stmts
unfolding until_return
until_return_idem r [] = refl
until_return_idem r (s ∷ stmts) = let rest = until_return_idem r stmts in grind (arith, rest)

erase_empty_idem :
    {S : Type 0} (is_empty_stmt : S → Bool) (stmts : List S)
    → (erase_empty is_empty_stmt (erase_empty is_empty_stmt stmts).1).1
      ≡ (erase_empty is_empty_stmt stmts).1
unfolding erase_empty
erase_empty_idem e [] = refl
erase_empty_idem e (s ∷ stmts) = let rest = erase_empty_idem e stmts in grind (arith, rest)

-- The map of the two passes, in either order.
abbrev pub return_first :
    {S : Type 0} → (S → Bool) → (S → Bool) → Bytes → Bytes → List (Bytes × Pass S)
return_first is_return is_empty_stmt dce esr =
    (dce, function_pass (dead_code_elimination is_return))
    ∷ (esr, function_pass (empty_statement_removal is_empty_stmt))
    ∷ []

abbrev pub empty_first :
    {S : Type 0} → (S → Bool) → (S → Bool) → Bytes → Bytes → List (Bytes × Pass S)
empty_first is_return is_empty_stmt dce esr =
    (esr, function_pass (empty_statement_removal is_empty_stmt))
    ∷ (dce, function_pass (dead_code_elimination is_return))
    ∷ []

abbrev function_of : {S : Type 0} → Bytes → Option (List S) → Function S
function_of name body = record { name = name; body = body }

commute :
    {S : Type 0} (r e : S → Bool) (dce esr : Bytes)
    → ((s : S) → r s ≡ true → e s ≡ false)
    → (name : Bytes) (body : Option (List S))
    → run_function_pass (return_first r e dce esr) (function_of name body)
      ≡ run_function_pass (empty_first r e dce esr) (function_of name body)
unfolding run_function_pass dead_code_elimination empty_statement_removal
commute r e dce esr apart name none = refl
commute r e dce esr apart name (some stmts) =
    ap (λ kept. (ok_status, function_of name (some kept)))
      (sym (until_return-erase_empty r e apart stmts))

idem :
    {S : Type 0} (r e : S → Bool) (dce esr : Bytes)
    → ((s : S) → r s ≡ true → e s ≡ false)
    → (name : Bytes) (body : Option (List S))
    → run_function_pass
        (return_first r e dce esr)
        (run_function_pass (return_first r e dce esr) (function_of name body)).1
      ≡ run_function_pass (return_first r e dce esr) (function_of name body)
unfolding run_function_pass dead_code_elimination empty_statement_removal
idem r e dce esr apart name none = refl
idem r e dce esr apart name (some stmts) =
    ap (λ kept. (ok_status, function_of name (some kept)))
      (ap (λ l. (erase_empty e l).1)
          (until_return-erase_empty r e apart (until_return r stmts).1
            ∙ ap (λ l. (erase_empty e l.1).1) (until_return_idem r stmts))
        ∙ erase_empty_idem e (until_return r stmts).1)

-- If no return statement is an empty statement, the two passes give the same status on any function,
-- and leave the same function in either order.
pub run_function_pass-order :
    {S : Type 0} (is_return is_empty_stmt : S → Bool) (dce esr : Bytes)
    → ((s : S) → is_return s ≡ true → is_empty_stmt s ≡ false)
    → (f : Function S)
    → run_function_pass (return_first is_return is_empty_stmt dce esr) f
      ≡ run_function_pass (empty_first is_return is_empty_stmt dce esr) f
run_function_pass-order r e dce esr apart f = commute r e dce esr apart f.name f.body

-- If no return statement is an empty statement, the two passes leave a function that they have been over
-- as it is.
pub run_function_pass_idem :
    {S : Type 0} (is_return is_empty_stmt : S → Bool) (dce esr : Bytes)
    → ((s : S) → is_return s ≡ true → is_empty_stmt s ≡ false)
    → (f : Function S)
    → run_function_pass
        (return_first is_return is_empty_stmt dce esr)
        (run_function_pass (return_first is_return is_empty_stmt dce esr) f).1
      ≡ run_function_pass (return_first is_return is_empty_stmt dce esr) f
run_function_pass_idem r e dce esr apart f = idem r e dce esr apart f.name f.body
