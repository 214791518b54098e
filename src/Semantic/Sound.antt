-- ===== src/Semantic/Sound.antt =====
-- hzcc/parser/semantic_analyzer.cc: what each check accepts, and the visit.
use mathlib.Core.Bool.{true≢false}
use hzcc.Prelude.{
  ◌≡◌, refl, sym, ◌∙◌, ap, Bool, true, false, Option, none, some, List, [], ◌∷◌, if◌then◌else◌,
  Bytes,
}
use hzcc.Semantic.{
  fine, rejected, array, struct_category, TypeRef, address, null, Ctx, same_type, Expr, assign,
  arithmetic, subscript, ternary, member, Exprs, no_expr, next_expr, is_category, is_const,
  struct_field, is_lvalue, type_of, or_moved,
}
use hzcc.Semantic.Checks.{
  check_found, check_types, check_no_array, match_types, check_operator, check_arithmetic,
  check_assignable, cast_to, check_assign, check_ternary, check_subscript, check_member, cast_args,
  same_count, check_params,
}
use hzcc.Semantic.Always.{Always, Always-bind, Always-then, Always-if, Always-moved, Always-weaken}
use hzcc.Semantic.Accepted.{
  HasField, HaveTypes, HasParams, Agree, HasType, HaveOneType, HasCategory, IsMutable, cast_to-Same,
  check_types-Agree, check_no_array-HasCategory, match_types-Same,
}

pub check_operator-Same :
    (node : Expr → Expr → Expr) (ctx : Ctx) (l r : Expr)
    → Always
        (λ e'. (e' ≡ node l r) × Agree ctx (type_of ctx l) (type_of ctx r))
        (check_operator node ctx l r)
unfolding check_operator
check_operator-Same node ctx l r = Always-then _ (type_of ctx l) _ λ t h.
    Always-then _ (type_of ctx r) _ λ u k.
      Always-bind _ _ (check_types ctx t u) _ (check_types-Agree ctx t u) λ _ a.
        Always-weaken _ _ (match_types node ctx l r t u) (match_types-Same node ctx l r t u k)
          λ e' s. (s.0, rw (h, k) (s.1, a.0, a.1))

pub check_arithmetic-Same :
    (ctx : Ctx) (l r : Expr)
    → Always
        (λ e'.
          (e' ≡ arithmetic l r)
          × Agree ctx (type_of ctx l) (type_of ctx r)
          × HasCategory array false ctx (type_of ctx l)
          × HasCategory array false ctx (type_of ctx r))
        (check_arithmetic ctx l r)
unfolding check_arithmetic
check_arithmetic-Same ctx l r = Always-then _ (type_of ctx l) _ λ t h.
    Always-then _ (type_of ctx r) _ λ u k.
      Always-bind _ _ (check_types ctx t u) _ (check_types-Agree ctx t u) λ _ a.
        Always-bind _ _ (check_no_array ctx t u) _ (check_no_array-HasCategory ctx t u) λ _ c.
          Always-weaken _ _ (match_types arithmetic ctx l r t u)
            (match_types-Same arithmetic ctx l r t u k)
            λ e' s. (s.0, rw (h, k) (s.1, a.0, a.1), rw h c.0, rw k c.1)

pub check_assignable-IsMutable :
    (ctx : Ctx) (e : Expr)
    → Always (λ _. (is_lvalue e ≡ true) × IsMutable ctx (type_of ctx e)) (check_assignable ctx e)
unfolding check_assignable
check_assignable-IsMutable ctx e =
    Always-if _ (is_lvalue e) _ _
      (λ v. Always-then _ (type_of ctx e) _ λ t h.
        Always-then _ (is_const ctx t) _
          λ b k. Always-if _ b _ _ (λ _. tt) λ f. (v, rw h (k ∙ ap fine f)))
      (λ _. tt)

pub check_assign-Same :
    (ctx : Ctx) (l r : Expr)
    → Always
        (λ e'.
          (e' ≡ assign l r)
          × (is_lvalue l ≡ true)
          × IsMutable ctx (type_of ctx l)
          × HaveOneType (type_of ctx r) (type_of ctx l))
        (check_assign ctx l r)
unfolding check_assign
check_assign-Same ctx l r =
    Always-bind _ _ (check_assignable ctx l) _ (check_assignable-IsMutable ctx l) λ _ a.
      Always-then _ (type_of ctx l) _ λ t h.
        Always-bind _ _ (or_moved (cast_to ctx true r t)) _
          (Always-moved _ (cast_to ctx true r t) (cast_to-Same ctx true r t))
          λ e' s. (ap (assign l) s.0, a.0, a.1, rw h s.1)

pub check_ternary-Same :
    (ctx : Ctx) (v : Bool) (c t f : Expr)
    → Always
        (λ e'. (e' ≡ ternary v c t f) × HaveOneType (type_of ctx f) (type_of ctx t))
        (check_ternary ctx v c t f)
unfolding check_ternary
check_ternary-Same ctx v c t f = Always-then _ (type_of ctx t) _ λ u h.
    Always-bind _ _ (cast_to ctx true f u) _ (cast_to-Same ctx true f u)
      λ e' s. (ap (ternary v c t) s.0, rw h s.1)

pub check_subscript-Same :
    (ctx : Ctx) (base e : Expr)
    → Always
        (λ e'.
          (e' ≡ subscript base e)
          × HasCategory array true ctx (type_of ctx base)
          × HasType (type_of ctx e) (address ctx.int_type))
        (check_subscript ctx base e)
unfolding check_subscript
check_subscript-Same ctx base e = Always-then _ (type_of ctx base) _ λ t h.
    Always-then _ (is_category array ctx t) _ λ b k.
      Always-bind (λ e'. (e' ≡ e) × HasType (type_of ctx e) (address ctx.int_type) × (b ≡ true)) _
        (if b then or_moved (cast_to ctx true e (address ctx.int_type)) else rejected) _
        (Always-if _ b (or_moved (cast_to ctx true e (address ctx.int_type))) rejected
          (λ v. Always-moved _ (cast_to ctx true e (address ctx.int_type)) (
            Always-weaken _ _ (cast_to ctx true e (address ctx.int_type))
              (cast_to-Same ctx true e (address ctx.int_type)) λ e' s. (s.0, s.1, v)))
          (λ _. tt))
        λ e' s. (ap (subscript base) s.0, rw h (k ∙ ap fine s.2), s.1)

pub check_member-Same :
    (ctx : Ctx) (base : Expr) (name : Bytes)
    → Always
        (λ e'.
          (e' ≡ member base name)
          × HasCategory struct_category true ctx (type_of ctx base)
          × HasField ctx (type_of ctx base) name)
        (check_member ctx base name)
unfolding check_member
check_member-Same ctx base name = Always-then _ (type_of ctx base) _ λ t h.
    Always-then _ (is_category struct_category ctx t) _ λ b k.
      Always-if _ b _ _
        (λ v. Always-then _ (struct_field ctx t name) _ λ u f.
          Always-if _ (same_type u null) _ _ (λ _. tt)
            λ n. (refl, rw h (k ∙ ap fine v), rw (h, f) n))
        (λ _. tt)

cast_args-HaveTypes :
    (ctx : Ctx) (types : List TypeRef) (args : Exprs)
    → same_count types args ≡ true
    → Always (λ _. HaveTypes ctx types args) (cast_args ctx types args)
unfolding cast_args
cast_args-HaveTypes ctx [] no_expr h = tt
cast_args-HaveTypes ctx [] (next_expr e args) h = elim (true≢false (sym h)) [ ]
cast_args-HaveTypes ctx (type ∷ types) no_expr h = elim (true≢false (sym h)) [ ]
cast_args-HaveTypes ctx (type ∷ types) (next_expr e args) h =
    Always-bind _ _ (or_moved (cast_to ctx false e type)) _
      (Always-moved _ (cast_to ctx false e type) (cast_to-Same ctx false e type))
      λ e' s.
        Always-weaken _ _ (cast_args ctx types args) (cast_args-HaveTypes ctx types args h)
          λ _ t. (s.1, t)

check_found-HasParams :
    (ctx : Ctx) (o : Option (List TypeRef)) (args : Exprs)
    → Always (λ _. HasParams ctx o args) (check_found ctx o args)
unfolding check_found
check_found-HasParams ctx none args = tt
check_found-HasParams ctx (some []) no_expr = tt
check_found-HasParams ctx (some []) (next_expr e args) = tt
check_found-HasParams ctx (some (type ∷ types)) args =
    Always-if _ (same_count (type ∷ types) args) _ _ (cast_args-HaveTypes ctx (type ∷ types) args)
      λ _. tt

pub check_params-HasParams :
    (ctx : Ctx) (name : Bytes) (args : Exprs)
    → Always (λ _. HasParams ctx (ctx.funcs name) args) (check_params ctx name args)
unfolding check_params
check_params-HasParams ctx name args = check_found-HasParams ctx (ctx.funcs name) args
