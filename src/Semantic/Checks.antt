-- ===== src/Semantic/Checks.antt =====
-- hzcc/parser/semantic_analyzer.cc: the visits of expressions, each with the checks behind the visits of
-- its operands.
use hzcc.Prelude.{Bool, true, false, ◌||◌, Option, none, some, List, [], ◌∷◌, if◌then◌else◌, Bytes}
use hzcc.Semantic.{
  Checked, fine, rejected, undefined, ◌>>=◌, numerical, array, struct_category, TypeRef, address,
  null, Ctx, same_type, Expr, moved_out, assign, arithmetic, bitwise, relational, logical,
  subscript, unary, ternary, member, func_call, Exprs, no_expr, next_expr, is_category, is_const,
  struct_field, is_lvalue, type_of, apply, or_moved,
}

-- The checks on the types of two operands.
unfoldable pub check_types : Ctx → TypeRef → TypeRef → Checked {0} Unit
check_types ctx lhs_type rhs_type =
    if same_type rhs_type (address ctx.void_type) || same_type lhs_type (address ctx.void_type)
    then rejected
    else (is_category numerical ctx rhs_type >>= λ is_numerical.
        if is_numerical then rejected else fine tt)

unfoldable pub check_no_array : Ctx → TypeRef → TypeRef → Checked {0} Unit
check_no_array ctx lhs_type rhs_type = is_category array ctx lhs_type >>= λ lhs_array.
    if lhs_array
    then rejected
    else (is_category array ctx rhs_type >>= λ rhs_array. if rhs_array then rejected else fine tt)

-- The operands are of one type, or the right one is cast; the source drops the cast, and leaves a null
-- pointer in the node.
unfoldable pub match_types :
    (Expr → Expr → Expr) → Ctx → Expr → Expr → TypeRef → TypeRef → Checked Expr
unfolding apply
match_types node ctx l r lhs_type rhs_type =
    if same_type lhs_type rhs_type
    then fine (node l r)
    else or_moved (apply ctx true r lhs_type >>= λ _. fine (node l moved_out))

-- The visits of an operator behind its operands.
unfoldable pub check_operator : (Expr → Expr → Expr) → Ctx → Expr → Expr → Checked Expr
unfolding type_of check_types match_types
check_operator node ctx l r = do
  lhs_type ← type_of ctx l
  rhs_type ← type_of ctx r
  _ ← check_types ctx lhs_type rhs_type
  match_types node ctx l r lhs_type rhs_type

unfoldable pub check_arithmetic : Ctx → Expr → Expr → Checked Expr
unfolding type_of check_types check_no_array match_types
check_arithmetic ctx l r = do
  lhs_type ← type_of ctx l
  rhs_type ← type_of ctx r
  _ ← check_types ctx lhs_type rhs_type
  _ ← check_no_array ctx lhs_type rhs_type
  match_types arithmetic ctx l r lhs_type rhs_type

-- What can be assigned to: an lvalue that is not const.
unfoldable pub check_assignable : Ctx → Expr → Checked {0} Unit
unfolding type_of is_lvalue
check_assignable ctx e =
    if is_lvalue e
    then (type_of ctx e >>= λ type.
        is_const ctx type >>= λ const. if const then rejected else fine tt)
    else rejected

-- A cast to the type, if the expression has another one.
unfoldable pub cast_to : Ctx → Bool → Expr → TypeRef → Checked Expr
unfolding type_of apply
cast_to ctx require_rvalue e type =
    type_of ctx e >>= λ t. if same_type t type then fine e else apply ctx require_rvalue e type

unfoldable pub check_assign : Ctx → Expr → Expr → Checked Expr
unfolding check_assignable cast_to type_of
check_assign ctx l r = do
  _ ← check_assignable ctx l
  lhs_type ← type_of ctx l
  r' ← or_moved (cast_to ctx true r lhs_type)
  fine (assign l r')

unfoldable pub check_ternary : Ctx → Bool → Expr → Expr → Expr → Checked Expr
unfolding cast_to type_of
check_ternary ctx cond_value c t f = do
  true_type ← type_of ctx t
  f' ← cast_to ctx true f true_type
  fine (ternary cond_value c t f')

unfoldable pub check_subscript : Ctx → Expr → Expr → Checked Expr
unfolding cast_to type_of
check_subscript ctx base e = do
  base_type ← type_of ctx base
  is_array ← is_category array ctx base_type
  e' ← if is_array then or_moved (cast_to ctx true e (address ctx.int_type)) else rejected
  fine (subscript base e')

unfoldable pub check_member : Ctx → Expr → Bytes → Checked Expr
unfolding type_of struct_field
check_member ctx base name = type_of ctx base >>= λ base_type.
    is_category struct_category ctx base_type >>= λ is_struct.
    if is_struct
    then (struct_field ctx base_type name >>= λ type.
        if same_type type null then rejected else fine (member base name))
    else rejected

-- The loop over the arguments: their number is that of the parameters. A cast that asks for no rvalue
-- and ends leaves the argument that it is given, so no argument is put in the place of another.
unfoldable pub cast_args : Ctx → List TypeRef → Exprs → Checked {0} Unit
unfolding cast_to
cast_args ctx (type ∷ types) (next_expr e args) =
    let rest = cast_args ctx types args in or_moved (cast_to ctx false e type) >>= λ _. rest
cast_args ctx _ args = fine tt

abbrev pub same_count : List TypeRef → Exprs → Bool
same_count [] no_expr = true
same_count (_ ∷ types) (next_expr _ args) = same_count types args
same_count _ _ = false

-- The arguments against the parameters of the function that is found. The message on a wrong number of
-- arguments is cut two characters before its end, which is before its start without a parameter.
unfoldable pub check_found : Ctx → Option (List TypeRef) → Exprs → Checked {0} Unit
unfolding cast_args
check_found ctx none args = rejected
check_found ctx (some []) args = if same_count [] args then fine tt else undefined
check_found ctx (some (type ∷ types)) args =
    if same_count (type ∷ types) args then cast_args ctx (type ∷ types) args else rejected

unfoldable pub check_params : Ctx → Bytes → Exprs → Checked {0} Unit
unfolding check_found
check_params ctx name args = check_found ctx (ctx.funcs name) args

-- analyzer::visit; the visits that the analyzer does not override do nothing.
unfoldable mutual
  unfolding check_operator check_arithmetic check_assign check_assignable check_ternary
      check_subscript check_member check_params

  pub visit : Ctx → Expr → Checked Expr
  visit ctx moved_out = undefined
  visit ctx (assign l r) = visit ctx l >>= λ l'. visit ctx r >>= λ r'. check_assign ctx l' r'
  visit ctx (ternary cond_value c t f) = visit ctx c >>= λ c'.
      visit ctx t >>= λ t'. visit ctx f >>= λ f'. check_ternary ctx cond_value c' t' f'
  visit ctx (logical l r) =
      visit ctx l >>= λ l'. visit ctx r >>= λ r'. check_operator logical ctx l' r'
  visit ctx (bitwise l r) =
      visit ctx l >>= λ l'. visit ctx r >>= λ r'. check_operator bitwise ctx l' r'
  visit ctx (relational l r) =
      visit ctx l >>= λ l'. visit ctx r >>= λ r'. check_operator relational ctx l' r'
  visit ctx (arithmetic l r) =
      visit ctx l >>= λ l'. visit ctx r >>= λ r'. check_arithmetic ctx l' r'
  visit ctx (unary e) = check_assignable ctx e >>= λ _. fine (unary e)
  visit ctx (subscript base e) =
      visit ctx base >>= λ base'. visit ctx e >>= λ e'. check_subscript ctx base' e'
  visit ctx (member base name) = visit ctx base >>= λ base'. check_member ctx base' name
  visit ctx (func_call name args type) = check_params ctx name args >>= λ _.
      visit_args ctx args >>= λ args'. fine (func_call name args' type)
  visit ctx e = fine e

  pub visit_args : Ctx → Exprs → Checked Exprs
  visit_args ctx no_expr = fine no_expr
  visit_args ctx (next_expr e args) =
      visit ctx e >>= λ e'. visit_args ctx args >>= λ args'. fine (next_expr e' args')
