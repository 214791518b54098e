-- ===== src/Semantic/Decided.antt =====
-- hzcc/parser/semantic_analyzer.cc: the visit of a well-typed expression.
use hzcc.Prelude.{◌≡◌, refl, ◌∙◌, ap, true, false, Option, none, some, List, [], ◌∷◌}
use hzcc.Semantic.{
  Checked, fine, ◌>>=◌, TypeRef, Ctx, Expr, literal, sizeof_expr, empty_expr, comma,
  lvalue_to_rvalue, cast_expr, decl_ref, moved_out, assign, arithmetic, bitwise, relational,
  logical, subscript, unary, ternary, member, func_call, Exprs, no_expr, next_expr, type_of,
  or_moved,
}
use hzcc.Semantic.Checks.{
  check_found, check_operator, check_arithmetic, cast_to, check_assign, check_ternary,
  check_subscript, check_member, cast_args, same_count, check_params, visit, visit_args,
}
use hzcc.Semantic.Accepted.{HaveTypes, HasParams, IsWellTyped, AreWellTyped}
use hzcc.Semantic.Complete.{
  cast_to_complete, check_operator_complete, arithmetic_from, check_assignable_complete,
  cast_behind, subscript_from, member_from,
}

args_from :
    (ctx : Ctx) (types : List TypeRef) (args : Exprs)
    → HaveTypes ctx types args
    → (same_count types args ≡ true) × (cast_args ctx types args ≡ fine tt)
unfolding cast_args
args_from ctx [] no_expr h = (refl, refl)
args_from ctx [] (next_expr e args) h = elim h [ ]
args_from ctx (type ∷ types) no_expr h = elim h [ ]
args_from ctx (type ∷ types) (next_expr e args) h =
    let (count, rest) = args_from ctx types args h.1 in
    (count, rw (cast_to_complete ctx false e type h.0, rest) refl)

found_from :
    (ctx : Ctx) (o : Option (List TypeRef)) (args : Exprs)
    → HasParams ctx o args
    → check_found ctx o args ≡ fine tt
unfolding check_found
found_from ctx none args h = elim h [ ]
found_from ctx (some []) args h = rw (args_from ctx [] args h).0 refl
found_from ctx (some (type ∷ types)) args h =
    let (count, rest) = args_from ctx (type ∷ types) args h in rw count rest

-- Two visits that accept their expressions, and what follows.
both_visited :
    (ctx : Ctx) (l r : Expr) (check : Expr → Expr → Checked Expr)
    → visit ctx l ≡ fine l
    → visit ctx r ≡ fine r
    → (visit ctx l >>= λ l'. visit ctx r >>= λ r'. check l' r') ≡ check l r
both_visited ctx l r check p q = rw (p, q) refl

mutual
  unfolding visit visit_args IsWellTyped AreWellTyped check_arithmetic check_assign check_ternary
      check_subscript check_member check_params

  visit_of : (ctx : Ctx) (e : Expr) → IsWellTyped ctx e → visit ctx e ≡ fine e
  visit_of ctx (literal kind) h = refl
  visit_of ctx decl_ref h = refl
  visit_of ctx sizeof_expr h = refl
  visit_of ctx empty_expr h = refl
  visit_of ctx moved_out h = elim h [ ]
  visit_of ctx (comma l r) h = refl
  visit_of ctx (lvalue_to_rvalue e) h = refl
  visit_of ctx (cast_expr type e) h = refl
  visit_of ctx (bitwise l r) h =
      both_visited ctx l r (check_operator bitwise ctx) (visit_of ctx l h.0) (visit_of ctx r h.1)
      ∙ check_operator_complete bitwise ctx l r h.2
  visit_of ctx (relational l r) h =
      both_visited ctx l r (check_operator relational ctx) (visit_of ctx l h.0) (visit_of ctx r h.1)
      ∙ check_operator_complete relational ctx l r h.2
  visit_of ctx (logical l r) h =
      both_visited ctx l r (check_operator logical ctx) (visit_of ctx l h.0) (visit_of ctx r h.1)
      ∙ check_operator_complete logical ctx l r h.2
  visit_of ctx (arithmetic l r) h =
      both_visited ctx l r (check_arithmetic ctx) (visit_of ctx l h.0) (visit_of ctx r h.1)
      ∙ arithmetic_from ctx l r (type_of ctx l) (type_of ctx r) h.2 h.3 h.4
  visit_of ctx (assign l r) h =
      both_visited ctx l r (check_assign ctx) (visit_of ctx l h.0) (visit_of ctx r h.1)
      ∙ ap
          (λ m. m >>= λ _.
            type_of ctx l >>= λ t. or_moved (cast_to ctx true r t) >>= λ r'. fine (assign l r'))
          (check_assignable_complete ctx l h.2 h.3)
      ∙ cast_behind ctx r (type_of ctx l) or_moved (assign l) (λ _. refl) h.4
  visit_of ctx (ternary v c t f) h =
      ap (λ m. m >>= λ c'. visit ctx t >>= λ t'. visit ctx f >>= λ f'. check_ternary ctx v c' t' f')
        (visit_of ctx c h.0)
      ∙ both_visited ctx t f (check_ternary ctx v c) (visit_of ctx t h.1) (visit_of ctx f h.2)
      ∙ cast_behind ctx f (type_of ctx t) (λ m. m) (ternary v c t) (λ _. refl) h.3
  visit_of ctx (subscript base e) h =
      both_visited ctx base e (check_subscript ctx) (visit_of ctx base h.0) (visit_of ctx e h.1)
      ∙ subscript_from ctx base e (type_of ctx base) h.2 h.3
  visit_of ctx (unary e) h =
      ap (λ m. m >>= λ _. fine (unary e)) (check_assignable_complete ctx e h.0 h.1)
  visit_of ctx (member base name) h =
      ap (λ m. m >>= λ base'. check_member ctx base' name) (visit_of ctx base h.0)
      ∙ member_from ctx base name (type_of ctx base) h.1 h.2
  visit_of ctx (func_call name args type) h =
      ap (λ m. m >>= λ _. visit_args ctx args >>= λ args'. fine (func_call name args' type))
        (found_from ctx (ctx.funcs name) args h.0)
      ∙ ap (λ m. m >>= λ args'. fine (func_call name args' type)) (visit_args_of ctx args h.1)

  visit_args_of :
      (ctx : Ctx) (args : Exprs) → AreWellTyped ctx args → visit_args ctx args ≡ fine args
  visit_args_of ctx no_expr h = refl
  visit_args_of ctx (next_expr e args) h = rw (visit_of ctx e h.0, visit_args_of ctx args h.1) refl

-- The visit of an expression that is well-typed ends, accepts it, and leaves it as it is. Such an
-- expression needs no cast: an operator has operands of one type, by its address, that is neither void
-- nor numerical, nor an array for arithmetic, an assignment is to an lvalue of the type of its right
-- side that is not const, a branch has the type of the other one, a subscript is an int on an array, a
-- member is one of a struct, a call has the arguments of its function, and the operands of these are
-- well-typed; a unary operator is on an lvalue that is not const, of any kind. A comma, a cast and
-- `sizeof` with any operands, a name and a literal are well-typed as well.
pub visit_complete : (ctx : Ctx) (e : Expr) → IsWellTyped ctx e → visit ctx e ≡ fine e
visit_complete ctx e h = visit_of ctx e h
