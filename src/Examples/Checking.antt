-- ===== src/Examples/Checking.antt =====
-- hzcc/parser/semantic_analyzer.cc: the visits of expressions at concrete inputs.
use hzcc.Prelude.{◌≡◌, refl, false, none, some, [], ◌∷◌, ◌==◌, if◌then◌else◌, codes, equal}
use hzcc.Semantic.{
  fine, rejected, undefined, numerical, ptr, address, null, Ctx, QualType, Expr, literal,
  string_lit, integer_lit, decl_ref, assign, arithmetic, logical, relational, subscript, func_call,
  no_expr, next_expr, type_of,
}
use hzcc.Semantic.Checks.{visit}
use hzcc.Semantic.Always.{Always}
use hzcc.Semantic.Accepted.{IsWellTyped}
use hzcc.Semantic.Typed.{visit-IsWellTyped}
use hzcc.Semantic.Decided.{visit_complete}

abbrev numerical_type : QualType
numerical_type = record { category = numerical; is_const = false; base_type = null; fields = [] }

abbrev pointer_type : QualType
pointer_type = record { category = ptr; is_const = false; base_type = address 2; fields = [] }

-- The numerical types at the addresses up to 8, a pointer at 9, a function without parameters, and one
-- of a pointer.
abbrev types : Ctx
types = record {
  qual_type = λ n. if n == 9 then pointer_type else numerical_type;
  void_type = 1;
  int_type = 2;
  literal_char = 3;
  literal_float = 4;
  literal_int = 5;
  node_char = 6;
  node_long = 7;
  node_void = 8;
  funcs = λ name.
      if equal name (codes "f")
      then some (address 9 ∷ [])
      else if equal name (codes "g")
      then some []
      else none;
}

-- `f(g()) && g()`
abbrev call : Expr
call = func_call (codes "g") no_expr (address 9)

abbrev both : Expr
both = logical (func_call (codes "f") (next_expr call no_expr) (address 9)) call

visit-IsWellTyped_example : Always (λ e'. (e' ≡ both) × IsWellTyped types both) (visit types both)
visit-IsWellTyped_example = visit-IsWellTyped types both

visit_complete_example : visit types both ≡ fine both
unfolding IsWellTyped type_of equal
visit_complete_example =
    visit_complete types both (((refl, tt), ((tt, tt), tt)), (tt, tt), (refl, refl, refl))

accepts : visit types both ≡ fine both
unfolding visit equal
accepts = refl

-- `1 + 2` is rejected; `1 < g()`, `x = 1`, `"a"[1]` and `g(1)` are undefined.
rejects_sum : visit types (arithmetic (literal integer_lit) (literal integer_lit)) ≡ rejected
unfolding visit equal
rejects_sum = refl

undefined_cast : visit types (relational (literal integer_lit) call) ≡ undefined
unfolding visit equal
undefined_cast = refl

undefined_assignment : visit types (assign decl_ref (literal integer_lit)) ≡ undefined
unfolding visit equal
undefined_assignment = refl

undefined_subscript : visit types (subscript (literal string_lit) (literal integer_lit)) ≡ undefined
unfolding visit equal
undefined_subscript = refl

undefined_call :
    visit types (func_call (codes "g") (next_expr (literal integer_lit) no_expr) (address 9))
    ≡ undefined
unfolding visit equal
undefined_call = refl
