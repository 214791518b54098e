-- ===== src/Semantic/Typed.antt =====
-- hzcc/parser/semantic_analyzer.cc: the visits of expressions accept what needs no cast.
use hzcc.Prelude.{◌≡◌, refl, ap}
use hzcc.Semantic.{
  Checked, ◌>>=◌, Ctx, Expr, literal, sizeof_expr, empty_expr, comma, lvalue_to_rvalue, cast_expr,
  decl_ref, moved_out, assign, arithmetic, bitwise, relational, logical, subscript, unary, ternary,
  member, func_call, Exprs, no_expr, next_expr, type_of,
}
use hzcc.Semantic.Checks.{
  check_operator, check_arithmetic, check_assignable, check_assign, check_ternary, check_subscript,
  check_member, check_params, visit, visit_args,
}
use hzcc.Semantic.Always.{Always, Always-bind, Always-weaken}
use hzcc.Semantic.Accepted.{IsWellTyped, AreWellTyped, Agree}
use hzcc.Semantic.Sound.{
  check_operator-Same, check_arithmetic-Same, check_assignable-IsMutable, check_assign-Same,
  check_ternary-Same, check_subscript-Same, check_member-Same, check_params-HasParams,
}

abbrev IsAccepted : Ctx → Expr → Checked Expr → Type 0
IsAccepted ctx e o = Always (λ e'. (e' ≡ e) × IsWellTyped ctx e) o

-- A check behind the visits of its operands.
operands-Same :
    (ctx : Ctx) (l r : Expr) (check : Expr → Expr → Checked Expr) (P Q : Expr → Type 0)
    → IsAccepted ctx l (visit ctx l)
    → IsAccepted ctx r (visit ctx r)
    → Always P (check l r)
    → (IsWellTyped ctx l → IsWellTyped ctx r → (e' : Expr) → P e' → Q e')
    → Always Q (visit ctx l >>= λ l'. visit ctx r >>= λ r'. check l' r')
operands-Same ctx l r check P Q h k c f = Always-bind _ _ (visit ctx l) _ h λ l' p.
    Always-bind _ _ (visit ctx r) _ k
      λ r' q. rw (p.0, q.0) (Always-weaken P Q (check l r) c (f p.1 q.1))

operator-Same :
    (node : Expr → Expr → Expr) (ctx : Ctx) (l r : Expr)
    → IsAccepted ctx l (visit ctx l)
    → IsAccepted ctx r (visit ctx r)
    → Always
        (λ e'.
          (e' ≡ node l r)
          × (IsWellTyped ctx l × IsWellTyped ctx r × Agree ctx (type_of ctx l) (type_of ctx r)))
        (visit ctx l >>= λ l'. visit ctx r >>= λ r'. check_operator node ctx l' r')
operator-Same node ctx l r h k =
    operands-Same ctx l r (check_operator node ctx) _ _ h k (check_operator-Same node ctx l r)
      λ p q e' s. (s.0, (p, q, s.1))

mutual
  unfolding visit visit_args IsWellTyped AreWellTyped

  visit-IsAccepted : (ctx : Ctx) (e : Expr) → IsAccepted ctx e (visit ctx e)
  visit-IsAccepted ctx (literal kind) = (refl, tt)
  visit-IsAccepted ctx decl_ref = (refl, tt)
  visit-IsAccepted ctx sizeof_expr = (refl, tt)
  visit-IsAccepted ctx empty_expr = (refl, tt)
  visit-IsAccepted ctx moved_out = tt
  visit-IsAccepted ctx (comma l r) = (refl, tt)
  visit-IsAccepted ctx (lvalue_to_rvalue e) = (refl, tt)
  visit-IsAccepted ctx (cast_expr type e) = (refl, tt)
  visit-IsAccepted ctx (assign l r) =
      operands-Same ctx l r (check_assign ctx) _
        (λ e'. (e' ≡ assign l r) × IsWellTyped ctx (assign l r)) (visit-IsAccepted ctx l)
        (visit-IsAccepted ctx r) (check_assign-Same ctx l r)
        λ p q e' s. (s.0, (p, q, s.1, s.2, s.3))
  visit-IsAccepted ctx (arithmetic l r) =
      operands-Same ctx l r (check_arithmetic ctx) _
        (λ e'. (e' ≡ arithmetic l r) × IsWellTyped ctx (arithmetic l r)) (visit-IsAccepted ctx l)
        (visit-IsAccepted ctx r) (check_arithmetic-Same ctx l r)
        λ p q e' s. (s.0, (p, q, s.1, s.2, s.3))
  visit-IsAccepted ctx (bitwise l r) =
      operator-Same bitwise ctx l r (visit-IsAccepted ctx l) (visit-IsAccepted ctx r)
  visit-IsAccepted ctx (relational l r) =
      operator-Same relational ctx l r (visit-IsAccepted ctx l) (visit-IsAccepted ctx r)
  visit-IsAccepted ctx (logical l r) =
      operator-Same logical ctx l r (visit-IsAccepted ctx l) (visit-IsAccepted ctx r)
  visit-IsAccepted ctx (subscript base e) =
      operands-Same ctx base e (check_subscript ctx) _
        (λ e'. (e' ≡ subscript base e) × IsWellTyped ctx (subscript base e))
        (visit-IsAccepted ctx base) (visit-IsAccepted ctx e) (check_subscript-Same ctx base e)
        λ p q e' s. (s.0, (p, q, s.1, s.2))
  visit-IsAccepted ctx (unary e) =
      Always-bind _ _ (check_assignable ctx e) _ (check_assignable-IsMutable ctx e) λ _ a. (refl, a)
  visit-IsAccepted ctx (ternary v c t f) =
      Always-bind _ _ (visit ctx c) _ (visit-IsAccepted ctx c) λ c' p.
        Always-bind _ _ (visit ctx t) _ (visit-IsAccepted ctx t) λ t' q.
          Always-bind _ _ (visit ctx f) _ (visit-IsAccepted ctx f) λ f' r.
            rw (p.0, q.0, r.0)
              (Always-weaken _ (λ e'. (e' ≡ ternary v c t f) × IsWellTyped ctx (ternary v c t f))
                (check_ternary ctx v c t f) (check_ternary-Same ctx v c t f)
                λ e' s. (s.0, (p.1, q.1, r.1, s.1)))
  visit-IsAccepted ctx (member base name) =
      Always-bind _ _ (visit ctx base) _ (visit-IsAccepted ctx base) λ base' p. rw p.0 (
        Always-weaken _ (λ e'. (e' ≡ member base name) × IsWellTyped ctx (member base name))
          (check_member ctx base name) (check_member-Same ctx base name)
          λ e' s. (s.0, (p.1, s.1, s.2)))
  visit-IsAccepted ctx (func_call name args type) =
      Always-bind _ _ (check_params ctx name args) _ (check_params-HasParams ctx name args) λ _ p.
        Always-bind _ _ (visit_args ctx args) _ (visit_args-AreAccepted ctx args)
          λ args' q. (ap (λ a. func_call name a type) q.0, (p, q.1))

  visit_args-AreAccepted :
      (ctx : Ctx) (args : Exprs)
      → Always (λ args'. (args' ≡ args) × AreWellTyped ctx args) (visit_args ctx args)
  visit_args-AreAccepted ctx no_expr = (refl, tt)
  visit_args-AreAccepted ctx (next_expr e args) =
      Always-bind _ _ (visit ctx e) _ (visit-IsAccepted ctx e) λ e' p.
        Always-bind _ _ (visit_args ctx args) _ (visit_args-AreAccepted ctx args)
          λ args' q. (rw (p.0, q.0) refl, (p.1, q.1))

-- If the visit of an expression accepts it, it leaves the expression as it is, so no cast is ever put
-- in; and the expression is well-typed: an operator has operands of one type, by its address, that is
-- neither void nor numerical, nor an array for arithmetic, an assignment is to an lvalue of the type
-- of its right side that is not const, a branch has the type of the other one, a subscript is an int
-- on an array, a member is one of a struct, a call has the arguments of its function, and the operands
-- of these are well-typed; a unary operator is on an lvalue that is not const. The visit looks at
-- nothing of a comma, a cast and `sizeof`, and at no more of a unary operator: their operands need not
-- be well-typed.
pub visit-IsWellTyped :
    (ctx : Ctx) (e : Expr) → Always (λ e'. (e' ≡ e) × IsWellTyped ctx e) (visit ctx e)
visit-IsWellTyped ctx e = visit-IsAccepted ctx e
