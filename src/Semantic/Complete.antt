-- ===== src/Semantic/Complete.antt =====
-- hzcc/parser/semantic_analyzer.cc: the visits of expressions accept what is well-typed.
use mathlib.Core.Bool.{true≢false}
use native.Mathlib.Omega.{arith}
use hzcc.Prelude.{ℕ, ◌≡◌, refl, sym, Bool, true, false, if◌then◌else◌, Bytes}
use hzcc.Semantic.{
  Checked, fine, rejected, undefined, ◌>>=◌, array, struct_category, TypeRef, address, new_array,
  null, Ctx, same_type, Expr, arithmetic, subscript, member, is_category, is_const, struct_field,
  is_lvalue, type_of, apply, or_moved,
}
use hzcc.Semantic.Checks.{
  check_types, check_no_array, match_types, check_operator, check_assignable, cast_to,
}
use hzcc.Semantic.Accepted.{NotNull, HasField, Agree, HasType, HaveOneType, HasCategory, IsMutable}

cast_from :
    (ctx : Ctx) (require_rvalue : Bool) (e : Expr) (type : TypeRef) (m : Checked TypeRef)
    → HasType m type
    → (m >>= λ t. if same_type t type then fine e else apply ctx require_rvalue e type) ≡ fine e
cast_from ctx require_rvalue e type (fine t) h = rw h refl
cast_from ctx require_rvalue e type rejected h = elim h [ ]
cast_from ctx require_rvalue e type undefined h = elim h [ ]

pub cast_to_complete :
    (ctx : Ctx) (require_rvalue : Bool) (e : Expr) (type : TypeRef)
    → HasType (type_of ctx e) type
    → cast_to ctx require_rvalue e type ≡ fine e
unfolding cast_to
cast_to_complete ctx require_rvalue e type h = cast_from ctx require_rvalue e type (type_of ctx e) h

-- Of two pointers that are equal, both are equal to an address, or neither.
same_type-as :
    (t u : TypeRef) (a : ℕ)
    → same_type t u ≡ true
    → same_type u (address a) ≡ same_type t (address a)
same_type-as (address b) (address c) a h = ground arith
same_type-as null null a h = refl
same_type-as (address b) new_array a h = elim (true≢false (sym h)) [ ]
same_type-as (address b) null a h = elim (true≢false (sym h)) [ ]
same_type-as new_array u a h = elim (true≢false (sym h)) [ ]
same_type-as null (address b) a h = elim (true≢false (sym h)) [ ]
same_type-as null new_array a h = elim (true≢false (sym h)) [ ]

check_types_complete :
    (ctx : Ctx) (t u : TypeRef) → Agree ctx (fine t) (fine u) → check_types ctx t u ≡ fine tt
unfolding check_types
check_types_complete ctx t u h = rw (same_type-as t u ctx.void_type h.0, h.1, h.2) refl

operator_from :
    (node : Expr → Expr → Expr) (ctx : Ctx) (l r : Expr) (m n : Checked TypeRef)
    → Agree ctx m n
    → (m >>= λ t. n >>= λ u. check_types ctx t u >>= λ _. match_types node ctx l r t u)
      ≡ fine (node l r)
unfolding match_types
operator_from node ctx l r (fine t) (fine u) h = rw (check_types_complete ctx t u h, h.0) refl
operator_from node ctx l r (fine t) rejected h = elim h [ ]
operator_from node ctx l r (fine t) undefined h = elim h [ ]
operator_from node ctx l r rejected n h = elim h [ ]
operator_from node ctx l r undefined n h = elim h [ ]

pub check_operator_complete :
    (node : Expr → Expr → Expr) (ctx : Ctx) (l r : Expr)
    → Agree ctx (type_of ctx l) (type_of ctx r)
    → check_operator node ctx l r ≡ fine (node l r)
unfolding check_operator
check_operator_complete node ctx l r h =
    operator_from node ctx l r (type_of ctx l) (type_of ctx r) h

pub arithmetic_from :
    (ctx : Ctx) (l r : Expr) (m n : Checked TypeRef)
    → Agree ctx m n
    → HasCategory array false ctx m
    → HasCategory array false ctx n
    → (m >>= λ t. n >>= λ u. check_types ctx t u >>= λ _.
        check_no_array ctx t u >>= λ _. match_types arithmetic ctx l r t u)
      ≡ fine (arithmetic l r)
unfolding match_types check_no_array
arithmetic_from ctx l r (fine t) (fine u) h a b =
    rw (check_types_complete ctx t u h, a, b, h.0) refl
arithmetic_from ctx l r (fine t) rejected h a b = elim h [ ]
arithmetic_from ctx l r (fine t) undefined h a b = elim h [ ]
arithmetic_from ctx l r rejected n h a b = elim h [ ]
arithmetic_from ctx l r undefined n h a b = elim h [ ]

abbrev passed : Checked {0} Unit
passed = fine tt

assignable_from :
    (ctx : Ctx) (lvalue : Bool) (m : Checked TypeRef)
    → lvalue ≡ true
    → IsMutable ctx m
    → (if lvalue
        then (m >>= λ type. is_const ctx type >>= λ const. if const then rejected else fine tt)
        else rejected)
      ≡ passed
assignable_from ctx lvalue (fine t) v h = rw (v, h) refl
assignable_from ctx lvalue rejected v h = elim h [ ]
assignable_from ctx lvalue undefined v h = elim h [ ]

pub check_assignable_complete :
    (ctx : Ctx) (e : Expr)
    → is_lvalue e ≡ true
    → IsMutable ctx (type_of ctx e)
    → check_assignable ctx e ≡ fine tt
unfolding check_assignable
check_assignable_complete ctx e v h = assignable_from ctx (is_lvalue e) (type_of ctx e) v h

-- A cast behind a type.
pub cast_behind :
    (ctx : Ctx) (e : Expr) (m : Checked TypeRef) (moved : Checked Expr → Checked Expr)
    (node : Expr → Expr)
    → ((a : Expr) → moved (fine a) ≡ fine a)
    → HaveOneType (type_of ctx e) m
    → (m >>= λ t. moved (cast_to ctx true e t) >>= λ e'. fine (node e')) ≡ fine (node e)
cast_behind ctx e (fine t) moved node f h = rw (cast_to_complete ctx true e t h, f e) refl
cast_behind ctx e rejected moved node f h = elim h [ ]
cast_behind ctx e undefined moved node f h = elim h [ ]

pub subscript_from :
    (ctx : Ctx) (base e : Expr) (m : Checked TypeRef)
    → HasCategory array true ctx m
    → HasType (type_of ctx e) (address ctx.int_type)
    → (m >>= λ t. is_category array ctx t >>= λ b.
        (if b then or_moved (cast_to ctx true e (address ctx.int_type)) else rejected) >>= λ e'.
        fine (subscript base e'))
      ≡ fine (subscript base e)
subscript_from ctx base e (fine t) a h =
    rw (a, cast_to_complete ctx true e (address ctx.int_type) h) refl
subscript_from ctx base e rejected a h = elim a [ ]
subscript_from ctx base e undefined a h = elim a [ ]

field_from :
    (ctx : Ctx) (base : Expr) (name : Bytes) (f : Checked TypeRef)
    → NotNull f
    → (f >>= λ type. if same_type type null then rejected else fine (member base name))
      ≡ fine (member base name)
field_from ctx base name (fine t) h = rw h refl
field_from ctx base name rejected h = elim h [ ]
field_from ctx base name undefined h = elim h [ ]

pub member_from :
    (ctx : Ctx) (base : Expr) (name : Bytes) (m : Checked TypeRef)
    → HasCategory struct_category true ctx m
    → HasField ctx m name
    → (m >>= λ t. is_category struct_category ctx t >>= λ b.
        if b
        then (struct_field ctx t name >>= λ type.
            if same_type type null then rejected else fine (member base name))
        else rejected)
      ≡ fine (member base name)
member_from ctx base name (fine t) a h = rw a (field_from ctx base name (struct_field ctx t name) h)
member_from ctx base name rejected a h = elim a [ ]
member_from ctx base name undefined a h = elim a [ ]
