-- ===== src/Semantic.antt =====
-- hzcc/parser/semantic_analyzer.cc: the visits of expressions, with Cast::apply of hzcc/ast/cast/Cast.cc
-- and the types of the nodes of hzcc/ast/expr/Expr.h. Types are compared by their addresses, as the
-- source compares its shared pointers. A node holds what the visits ask for: the type of a call
-- and of a cast, and whether the condition of a ternary expression is deduced to be other than 0.
-- Texts and positions of the diagnostics are left out.
pub mod Checks
pub mod Always
pub mod Accepted
pub mod Sound
pub mod Typed
pub mod Complete
pub mod Decided
use hzcc.Prelude.{
  ℕ, Bool, true, false, not, ◌&&◌, ◌||◌, Option, List, [], ◌∷◌, ◌==◌, if◌then◌else◌, Bytes, equal,
}

-- A status: fine, an error, or undefined behaviour.
pub data Checked {ℓ} (A : Type ℓ) : Type ℓ where
  fine : A → Checked A
  rejected undefined : Checked A

infixl 5 ◌>>=◌
abbrev pub ◌>>=◌ {ℓ κ} : {A : Type ℓ} {B : Type κ} → Checked A → (A → Checked B) → Checked B
fine a >>= f = f a
rejected >>= f = rejected
undefined >>= f = undefined

pub data TypeCategory : Type 0 where
  numerical ptr array struct_category func_ptr enum_category union_category builtin unknown :
      TypeCategory

-- A pointer to a type: an address, that of an array type which is made when it is asked for, as for a
-- string literal, or null.
pub data TypeRef : Type 0 where
  address : ℕ → TypeRef
  new_array null : TypeRef

pub record QualType : Type 0 where
  pub category : TypeCategory
  pub is_const : Bool
  pub base_type : TypeRef
  pub fields : List (Bytes × TypeRef)

-- The types by their addresses, and the functions with the types of their parameters. GetNumericalTypeOf
-- is a static template, so each translation unit has types of its own: the analyzer has void and int, the
-- literals have theirs, and the other nodes those that begin with `node`.
pub record Ctx : Type 0 where
  pub qual_type : ℕ → QualType
  pub void_type : ℕ
  pub int_type : ℕ
  pub literal_char : ℕ
  pub literal_float : ℕ
  pub literal_int : ℕ
  pub node_char : ℕ
  pub node_long : ℕ
  pub node_void : ℕ
  pub funcs : Bytes → Option (List TypeRef)

-- `==` of two pointers; a new array is at no other address.
abbrev pub same_type : TypeRef → TypeRef → Bool
same_type (address a) (address b) = a == b
same_type null null = true
same_type _ _ = false

abbrev pub same_category : TypeCategory → TypeCategory → Bool
same_category numerical numerical = true
same_category array array = true
same_category struct_category struct_category = true
same_category _ _ = false

pub data LiteralKind : Type 0 where
  char_lit real_lit string_lit integer_lit : LiteralKind

-- `moved_out` is a null pointer that a move has left. An `lvalue_to_rvalue` is that cast, a `cast_expr`
-- any other.
mutual
  pub data Expr : Type 0 where
    literal : LiteralKind → Expr
    decl_ref sizeof_expr empty_expr moved_out : Expr
    comma assign arithmetic bitwise relational logical subscript : Expr → Expr → Expr
    unary : Expr → Expr
    ternary : Bool → Expr → Expr → Expr → Expr
    member : Expr → Bytes → Expr
    func_call : Bytes → Exprs → TypeRef → Expr
    lvalue_to_rvalue : Expr → Expr
    cast_expr : TypeRef → Expr → Expr

  pub data Exprs : Type 0 where
    no_expr : Exprs
    next_expr : Expr → Exprs → Exprs

-- `is` of a type, and CONST.
abbrev pub is_category : TypeCategory → Ctx → TypeRef → Checked Bool
is_category c ctx (address a) = fine (same_category (ctx.qual_type a).category c)
is_category c ctx new_array = fine (same_category array c)
is_category c ctx null = undefined

abbrev pub is_const : Ctx → TypeRef → Checked Bool
is_const ctx (address a) = fine (ctx.qual_type a).is_const
is_const ctx new_array = fine false
is_const ctx null = undefined

-- `as` of a type that is of another category is undefined.
unfoldable pub array_base : Ctx → TypeRef → Checked TypeRef
array_base ctx (address a) =
    if same_category (ctx.qual_type a).category array
    then fine (ctx.qual_type a).base_type
    else undefined
array_base ctx new_array = fine (address ctx.literal_char)
array_base ctx null = undefined

unfoldable pub field_type : List (Bytes × TypeRef) → Bytes → TypeRef
field_type [] name = null
field_type ((n, type) ∷ fields) name =
    let rest = field_type fields name in if equal n name then type else rest

unfoldable pub struct_field : Ctx → TypeRef → Bytes → Checked TypeRef
unfolding field_type
struct_field ctx (address a) name =
    if same_category (ctx.qual_type a).category struct_category
    then fine (field_type (ctx.qual_type a).fields name)
    else undefined
struct_field ctx new_array name = undefined
struct_field ctx null name = undefined

-- Whether GetDeducedValue has a value. Literals have no text here: what std::stoi and std::stod throw on
-- a literal that is out of their range is not considered, nor is a division by 0 on the way to a value.
unfoldable pub has_deduced : Expr → Bool
has_deduced (literal string_lit) = false
has_deduced (literal _) = true
has_deduced (arithmetic l r) = has_deduced l && has_deduced r
has_deduced (ternary cond_value c t f) =
    has_deduced c && (cond_value && has_deduced t || not cond_value && has_deduced f)
has_deduced (lvalue_to_rvalue e) = has_deduced e
has_deduced (cast_expr type e) = has_deduced e
has_deduced _ = false

unfoldable pub is_lvalue : Expr → Bool
is_lvalue decl_ref = true
is_lvalue (subscript base e) = true
is_lvalue (member base name) = true
is_lvalue (cast_expr type e) = is_lvalue e
is_lvalue _ = false

abbrev pub literal_type : Ctx → LiteralKind → TypeRef
literal_type ctx char_lit = address ctx.literal_char
literal_type ctx real_lit = address ctx.literal_float
literal_type ctx string_lit = new_array
literal_type ctx integer_lit = address ctx.literal_int

-- The type of a name is read through the pointer of DeclRefExpr that no constructor sets.
unfoldable pub type_of : Ctx → Expr → Checked TypeRef
unfolding array_base struct_field has_deduced
type_of ctx (literal kind) = fine (literal_type ctx kind)
type_of ctx sizeof_expr = fine (address ctx.node_long)
type_of ctx empty_expr = fine (address ctx.node_void)
type_of ctx decl_ref = undefined
type_of ctx moved_out = undefined
type_of ctx (comma l r) = type_of ctx l
type_of ctx (assign l r) = type_of ctx l
type_of ctx (bitwise l r) = type_of ctx l
type_of ctx (arithmetic l r) =
    let lhs = type_of ctx l in let rhs = type_of ctx r in if has_deduced l then rhs else lhs
type_of ctx (relational l r) = fine (address ctx.node_char)
type_of ctx (logical l r) = fine (address ctx.node_char)
type_of ctx (subscript base e) = type_of ctx base >>= λ t. array_base ctx t
type_of ctx (unary e) = type_of ctx e
type_of ctx (ternary cond_value c t f) = type_of ctx t
type_of ctx (member base name) = type_of ctx base >>= λ t. struct_field ctx t name
type_of ctx (func_call name args type) = fine type
type_of ctx (lvalue_to_rvalue e) = type_of ctx e
type_of ctx (cast_expr type e) = fine type

-- Cast::apply. The table of rules starts empty, and the first rule that is asked for is read through the
-- end of the table: no type that differs gets any further.
unfoldable pub apply : Ctx → Bool → Expr → TypeRef → Checked Expr
unfolding type_of is_lvalue
apply ctx require_rvalue rhs lhs_type =
    let ret = if require_rvalue && is_lvalue rhs then lvalue_to_rvalue rhs else rhs in
    type_of ctx ret >>= λ t. if same_type t lhs_type then fine ret else undefined

-- An error that reads the position of the expression that was moved into Cast::apply.
abbrev pub or_moved : Checked Expr → Checked Expr
or_moved rejected = undefined
or_moved o = o
