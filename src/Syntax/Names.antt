-- ===== src/Syntax/Names.antt =====
-- hzcc/ast/SymbTbl.cc, hzcc/ast/CompilationUnit.cc, hzcc/parser/common/name_utils.h: the names of the
-- types and variables in scope, and ParseTypeName of hzcc/parser/syntax/parser/statement_parser.cc.
use hzcc.Prelude.{
  nat_eq, bytes_eq, ℕ, Bool, true, false, ◌||◌, Option, none, some, List, [], ◌∷◌, ◌++◌, ◌==◌,
  if◌then◌else◌, Bytes, equal, length, codes,
}
use hzcc.Token.Kinds.{struct_kw, enum_kw}
use hzcc.Token.Symbols.{iserch_table}
use hzcc.Token.Value.{Position, Token, to_str}
use hzcc.Syntax.Tokens.{
  ◌>>=◌, Parse, Parsed, TokenList, done, error_at, undefined, aborts, pop, peek, unknown_type,
}
use hzcc.Syntax.Tree.{TypeName, TypeProxyExpr, numerical, pointer}

-- A hash map by its pairs: the first pair of a name holds.
unfoldable pub find {ℓ} : {A : Type ℓ} → List (Bytes × A) → Bytes → Option A
find [] name = none
find ((n, a) ∷ rest) name = let later = find rest name in if equal n name then some a else later

unfoldable pub contains {ℓ} : {A : Type ℓ} → List (Bytes × A) → Bytes → Bool
unfolding find
contains table name = elim (find table name) [ none ↦ false | some _ ↦ true ]

pub record SymbTbl : Type 0 where
  pub return_type : Option TypeName
  pub variable_lookup_table : List (Bytes × (Position × TypeName))
  pub named_types : List (Bytes × TypeName)

-- A table and the tables above it, the current one first: `_upper_scope_table` is the rest.
abbrev pub Scopes : Type 0
Scopes = List SymbTbl

-- SymbTbl::has_type and SymbTbl::get_type
unfoldable pub scopes_has_type : Scopes → Bytes → Bool
unfolding contains
scopes_has_type [] name = false
scopes_has_type (s ∷ upper) name =
    let above = scopes_has_type upper name in if contains s.named_types name then true else above

unfoldable pub scopes_get_type : Scopes → Bytes → Option TypeName
unfolding find
scopes_get_type [] name = none
scopes_get_type (s ∷ upper) name =
    let above = scopes_get_type upper name in
    elim (find s.named_types name) [ none ↦ above | some t ↦ some t ]

-- search_table compares pointers when the table is one of C strings. Its strings stand at the
-- addresses 0 to 12 here, and the text of a token, which is allocated, at another one.
abbrev pub k_type_specifier_addresses : List ℕ
k_type_specifier_addresses = 0 ∷ 1 ∷ 2 ∷ 3 ∷ 4 ∷ 5 ∷ 6 ∷ 7 ∷ 8 ∷ 9 ∷ 10 ∷ 11 ∷ 12 ∷ []

abbrev pub token_text_address : ℕ
token_text_address = 13

unfoldable pub is_primitive_type : ℕ → Bool
is_primitive_type address = elim (iserch_table k_type_specifier_addresses address) [
  | none ↦ false
  | some _ ↦ true
]

-- GetPrimitiveType, by the index in the table; no index is LOG(FATAL).
unfoldable pub get_primitive_type : ℕ → Option ℕ
get_primitive_type address = iserch_table k_type_specifier_addresses address

-- to_primitive_type, by the value of PrimitiveType; no value is LOG(FATAL).
unfoldable pub to_primitive_type : Bytes → Option ℕ
to_primitive_type type =
    iserch_table
      (codes "int"
        ∷ codes "char"
        ∷ codes "float"
        ∷ codes "double"
        ∷ codes "void"
        ∷ codes "long"
        ∷ codes "short"
        ∷ codes "bool"
        ∷ codes "complex"
        ∷ codes "imaginary"
        ∷ codes "longlong"
        ∷ codes "long_double"
        ∷ [])
      type

-- CompilationUnit, as far as types and scopes go; no scope is the context that has expired.
pub record CompilationUnit : Type 0 where
  pub named_types : List (Bytes × TypeName)
  pub current_context : Scopes

-- CompilationUnit::has_type, on the text of a token
unfoldable pub has_type : CompilationUnit → Bytes → Bool
unfolding is_primitive_type contains scopes_has_type
has_type unit name =
    if length name == 0
    then false
    else if is_primitive_type token_text_address
    then true
    else if contains unit.named_types name
    then false
    else scopes_has_type unit.current_context name

-- CompilationUnit::get_type; the qualifiers of a type are left out of TypeName.
unfoldable pub get_type : CompilationUnit → Bytes → Option TypeName
unfolding is_primitive_type get_primitive_type find scopes_has_type scopes_get_type
get_type unit name =
    if is_primitive_type token_text_address
    then elim (get_primitive_type token_text_address) [ none ↦ none | some i ↦ some (numerical i) ]
    else elim (find unit.named_types name) [
      | some t ↦ some t
      | none ↦
          if scopes_has_type unit.current_context name
          then scopes_get_type unit.current_context name
          else none
    ]

-- The pointers behind a type, by the tokens that are left.
unfoldable pub pointers : List Token → List Token → TypeName → Parsed TypeName
unfolding peek
pointers [] cached t = undefined
pointers (a ∷ ts) cached t =
    let more = pointers ts cached (pointer t) in
    peek (record { tokens = a ∷ ts; cached_attributes = cached }) >>= λ next.
    if next.token_type == b'*'
    then more
    else done (t, record { tokens = a ∷ ts; cached_attributes = cached })

-- A type by its name; `loc` is where the type starts.
unfoldable pub named_type : CompilationUnit → Bytes → Position → Parse TypeName
unfolding has_type get_type
named_type ctx name loc =
    if has_type ctx name
    then elim (get_type ctx name) [ none ↦ undefined | some t ↦ done t ]
    else error_at unknown_type loc

-- ParseTypeName
unfoldable pub parse_type_name : CompilationUnit → TokenList → Parsed TypeProxyExpr
unfolding pop is_primitive_type to_primitive_type named_type pointers
parse_type_name ctx l = do
  (type, l1) ← pop l
  (t, l2) ←
      if is_primitive_type token_text_address
      then elim (to_primitive_type (to_str type false)) [
        | none ↦ aborts
        | some i ↦ done (numerical i, l1)
      ]
      else if type.token_type == enum_kw || type.token_type == struct_kw
      then (pop l1 >>= λ (name, l2).
          named_type ctx (to_str type false ++ b' ' ∷ to_str name false) type.location >>= λ t.
          done (t, l2))
      else (named_type ctx (to_str type false) type.location >>= λ t. done (t, l1))
  (qualified, l3) ← pointers l2.tokens l2.cached_attributes t
  done (record { loc = type.location; type = qualified }, l3)
