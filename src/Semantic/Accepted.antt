-- ===== src/Semantic/Accepted.antt =====
-- hzcc/parser/semantic_analyzer.cc: the expressions that are accepted.
use native.Mathlib.Omega.{arith}
use hzcc.Prelude.{
  ◌≡◌, refl, ◌∙◌, ap, Bool, true, false, ◌||◌, ◌&&◌, Option, none, some, List, [], ◌∷◌, Bytes,
  Bool-cases, inl, inr,
}
use hzcc.Semantic.{
  Checked, fine, undefined, TypeCategory, numerical, array, struct_category, TypeRef, address,
  new_array, null, Ctx, same_type, Expr, moved_out, assign, arithmetic, bitwise, relational,
  logical, subscript, unary, ternary, member, func_call, Exprs, no_expr, next_expr, is_category,
  is_const, struct_field, is_lvalue, type_of, apply,
}
use hzcc.Semantic.Checks.{check_types, check_no_array, match_types, cast_to}
use hzcc.Semantic.Always.{Always, Always-then, Always-if, or-false}

-- A cast to another type does not end.
apply-differs :
    (ctx : Ctx) (require_rvalue : Bool) (e : Expr) (t type : TypeRef)
    → type_of ctx e ≡ fine t
    → same_type t type ≡ false
    → apply ctx require_rvalue e type ≡ undefined
unfolding apply type_of
apply-differs ctx require_rvalue e t type h d = elim (Bool-cases (require_rvalue && is_lvalue e)) [
  | inl c ↦ rw (c, h, d) refl
  | inr c ↦ rw (c, h, d) refl
]

same_type_sym : (t u : TypeRef) → same_type t u ≡ same_type u t
same_type_sym (address a) (address b) = ground arith
same_type_sym (address a) new_array = refl
same_type_sym (address a) null = refl
same_type_sym new_array (address b) = refl
same_type_sym new_array new_array = refl
same_type_sym new_array null = refl
same_type_sym null (address b) = refl
same_type_sym null new_array = refl
same_type_sym null null = refl

-- The types of two operands that an operator accepts: one type, that is neither void nor numerical.
abbrev pub Agree : Ctx → Checked TypeRef → Checked TypeRef → Type 0
Agree ctx (fine t) (fine u) =
    (same_type t u ≡ true)
    × (same_type t (address ctx.void_type) ≡ false)
    × (is_category numerical ctx u ≡ fine false)
Agree ctx _ _ = ⊥

-- The same type, of any kind, and a type of a category, or of one that is not const.
abbrev pub HasType : Checked TypeRef → TypeRef → Type 0
HasType (fine t) type = same_type t type ≡ true
HasType _ type = ⊥

abbrev pub HaveOneType : Checked TypeRef → Checked TypeRef → Type 0
HaveOneType t (fine u) = HasType t u
HaveOneType t _ = ⊥

abbrev pub HasCategory : TypeCategory → Bool → Ctx → Checked TypeRef → Type 0
HasCategory c b ctx (fine t) = is_category c ctx t ≡ fine b
HasCategory c b ctx _ = ⊥

abbrev pub IsMutable : Ctx → Checked TypeRef → Type 0
IsMutable ctx (fine t) = is_const ctx t ≡ fine false
IsMutable ctx _ = ⊥

abbrev pub NotNull : Checked TypeRef → Type 0
NotNull (fine t) = same_type t null ≡ false
NotNull _ = ⊥

abbrev pub HasField : Ctx → Checked TypeRef → Bytes → Type 0
HasField ctx (fine t) name = NotNull (struct_field ctx t name)
HasField ctx _ name = ⊥

-- Arguments of the types of the parameters, and of a function that there is.
abbrev pub HaveTypes : Ctx → List TypeRef → Exprs → Type 0
HaveTypes ctx [] no_expr = Unit
HaveTypes ctx (type ∷ types) (next_expr e args) =
    HasType (type_of ctx e) type × HaveTypes ctx types args
HaveTypes ctx _ _ = ⊥

abbrev pub HasParams : Ctx → Option (List TypeRef) → Exprs → Type 0
HasParams ctx none args = ⊥
HasParams ctx (some types) args = HaveTypes ctx types args

-- The expressions that need no cast, and whose operators have no numerical operand on the right.
unfoldable mutual
  pub IsWellTyped : Ctx → Expr → Type 0
  IsWellTyped ctx moved_out = ⊥
  IsWellTyped ctx (assign l r) =
      IsWellTyped ctx l
      × IsWellTyped ctx r
      × (is_lvalue l ≡ true)
      × IsMutable ctx (type_of ctx l)
      × HaveOneType (type_of ctx r) (type_of ctx l)
  IsWellTyped ctx (ternary v c t f) =
      IsWellTyped ctx c
      × IsWellTyped ctx t
      × IsWellTyped ctx f
      × HaveOneType (type_of ctx f) (type_of ctx t)
  IsWellTyped ctx (logical l r) =
      IsWellTyped ctx l × IsWellTyped ctx r × Agree ctx (type_of ctx l) (type_of ctx r)
  IsWellTyped ctx (bitwise l r) =
      IsWellTyped ctx l × IsWellTyped ctx r × Agree ctx (type_of ctx l) (type_of ctx r)
  IsWellTyped ctx (relational l r) =
      IsWellTyped ctx l × IsWellTyped ctx r × Agree ctx (type_of ctx l) (type_of ctx r)
  IsWellTyped ctx (arithmetic l r) =
      IsWellTyped ctx l
      × IsWellTyped ctx r
      × Agree ctx (type_of ctx l) (type_of ctx r)
      × HasCategory array false ctx (type_of ctx l)
      × HasCategory array false ctx (type_of ctx r)
  IsWellTyped ctx (unary e) = (is_lvalue e ≡ true) × IsMutable ctx (type_of ctx e)
  IsWellTyped ctx (subscript base e) =
      IsWellTyped ctx base
      × IsWellTyped ctx e
      × HasCategory array true ctx (type_of ctx base)
      × HasType (type_of ctx e) (address ctx.int_type)
  IsWellTyped ctx (member base name) =
      IsWellTyped ctx base
      × HasCategory struct_category true ctx (type_of ctx base)
      × HasField ctx (type_of ctx base) name
  IsWellTyped ctx (func_call name args type) =
      HasParams ctx (ctx.funcs name) args × AreWellTyped ctx args
  IsWellTyped ctx _ = Unit

  pub AreWellTyped : Ctx → Exprs → Type 0
  AreWellTyped ctx no_expr = Unit
  AreWellTyped ctx (next_expr e args) = IsWellTyped ctx e × AreWellTyped ctx args

pub cast_to-Same :
    (ctx : Ctx) (require_rvalue : Bool) (e : Expr) (type : TypeRef)
    → Always (λ e'. (e' ≡ e) × HasType (type_of ctx e) type) (cast_to ctx require_rvalue e type)
unfolding cast_to
cast_to-Same ctx require_rvalue e type = Always-then _ (type_of ctx e) _ λ t h.
    Always-if _ (same_type t type) _ _ (λ s. (refl, rw h s))
      λ d. rw (apply-differs ctx require_rvalue e t type h d) tt

pub check_types-Agree :
    (ctx : Ctx) (t u : TypeRef)
    → Always
        (λ _.
          (same_type t (address ctx.void_type) ≡ false)
          × (is_category numerical ctx u ≡ fine false))
        (check_types ctx t u)
unfolding check_types
check_types-Agree ctx t u =
    Always-if _ (same_type u (address ctx.void_type) || same_type t (address ctx.void_type)) _ _
      (λ _. tt)
      λ v. Always-then _ (is_category numerical ctx u) _ λ b h.
        Always-if _ b _ _ (λ _. tt)
          λ f. (
            (or-false (same_type u (address ctx.void_type)) (same_type t (address ctx.void_type))
                v).1,
            h ∙ ap fine f,
          )

pub check_no_array-HasCategory :
    (ctx : Ctx) (t u : TypeRef)
    → Always
        (λ _. (is_category array ctx t ≡ fine false) × (is_category array ctx u ≡ fine false))
        (check_no_array ctx t u)
unfolding check_no_array
check_no_array-HasCategory ctx t u = Always-then _ (is_category array ctx t) _ λ b h.
    Always-if _ b _ _ (λ _. tt)
      λ f.
        Always-then _ (is_category array ctx u) _
          λ c k. Always-if _ c _ _ (λ _. tt) λ g. (h ∙ ap fine f, k ∙ ap fine g)

pub match_types-Same :
    (node : Expr → Expr → Expr) (ctx : Ctx) (l r : Expr) (t u : TypeRef)
    → type_of ctx r ≡ fine u
    → Always (λ e'. (e' ≡ node l r) × (same_type t u ≡ true)) (match_types node ctx l r t u)
unfolding match_types
match_types-Same node ctx l r t u h =
    Always-if _ (same_type t u) _ _ (λ s. (refl, s))
      λ d. rw (apply-differs ctx true r u t h (same_type_sym u t ∙ d)) tt
