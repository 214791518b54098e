-- ===== src/Codegen/Analyzer.antt =====
-- hzcc/codegen/jvm/FuncAnalyzer.cc: the scopes of a function's local variables, and the table of its
-- stack ids. The visits of the nodes are left out.
pub mod Scopes
use hzcc.Prelude.{
  bytes_eq, ℕ, suc, ◌+◌, Bool, false, ◌||◌, Option, none, some, List, [], ◌∷◌, ◌++◌, ◌==◌,
  if◌then◌else◌, Bytes, equal, length, get_elem?, set,
}

-- LocalSymbol: name, type and line
pub record LocalSymbol : Type 0 where
  pub name : Bytes
  pub type : Bytes
  pub line_no : ℕ

-- ScopedSymbolTable
abbrev pub ScopedSymbolTable : Type 0
ScopedSymbolTable = List LocalSymbol

unfoldable pub add_symbol : ScopedSymbolTable → Bytes → Bytes → ℕ → ScopedSymbolTable
add_symbol table name type line_no =
    table ++ record { name = name; type = type; line_no = line_no } ∷ []

unfoldable pub has_symbol : ScopedSymbolTable → Bytes → Bool
has_symbol [] name = false
has_symbol (s ∷ table) name = equal s.name name || has_symbol table name

-- The type of the first symbol of the name; no symbol is the end of the list, which has no type.
unfoldable pub get_symbol_type : ScopedSymbolTable → Bytes → Option Bytes
get_symbol_type [] name = none
get_symbol_type (s ∷ table) name =
    let later = get_symbol_type table name in if equal s.name name then some s.type else later

-- The tables that are saved, in the order in which their scopes were entered, and the open ones among
-- them by their index, the innermost one first: the source shares the tables by pointers.
pub record FuncAnalyzer : Type 0 where
  pub symbol_table_stack : List ℕ
  pub saved_symbol_table : List ScopedSymbolTable

unfoldable pub enter_scope : FuncAnalyzer → FuncAnalyzer
enter_scope a = record {
  symbol_table_stack = length a.saved_symbol_table ∷ a.symbol_table_stack;
  saved_symbol_table = a.saved_symbol_table ++ [] ∷ [];
}

-- An empty stack has no back to take: `none` is its undefined behaviour.
unfoldable pub leave_scope : FuncAnalyzer → Option FuncAnalyzer
leave_scope a = elim a.symbol_table_stack [
  | [] ↦ none
  | _ ∷ outer ↦ some (record a { symbol_table_stack = outer })
]

-- The constructor enters the scope of the function.
unfoldable pub func_analyzer : FuncAnalyzer
unfolding enter_scope
func_analyzer = enter_scope (record { symbol_table_stack = []; saved_symbol_table = [] })

-- The table of an index.
abbrev pub table_at : List ScopedSymbolTable → ℕ → ScopedSymbolTable
table_at tables i = elim (get_elem? tables i) [ none ↦ [] | some t ↦ t ]

unfoldable pub add_local_variable : FuncAnalyzer → Bytes → Bytes → ℕ → Option FuncAnalyzer
unfolding add_symbol
add_local_variable a name type line_no = elim a.symbol_table_stack [
  | [] ↦ none
  | i ∷ _ ↦ some (record a {
    saved_symbol_table =
        set a.saved_symbol_table i (add_symbol (table_at a.saved_symbol_table i) name type line_no);
  })
]

-- The loops over the open scopes, from the innermost one outwards.
unfoldable pub is_local_from : List ScopedSymbolTable → List ℕ → Bytes → Bool
unfolding has_symbol
is_local_from tables [] name = false
is_local_from tables (i ∷ outer) name =
    has_symbol (table_at tables i) name || is_local_from tables outer name

unfoldable pub is_local : FuncAnalyzer → Bytes → Bool
unfolding is_local_from
is_local a name = is_local_from a.saved_symbol_table a.symbol_table_stack name

unfoldable pub local_var_type_from : List ScopedSymbolTable → List ℕ → Bytes → Option Bytes
unfolding has_symbol get_symbol_type
local_var_type_from tables [] name = some []
local_var_type_from tables (i ∷ outer) name =
    let further = local_var_type_from tables outer name in
    if has_symbol (table_at tables i) name
    then get_symbol_type (table_at tables i) name
    else further

-- GetLocalVarType; a name that no scope has is the empty text.
unfoldable pub get_local_var_type : FuncAnalyzer → Bytes → Option Bytes
unfolding local_var_type_from
get_local_var_type a name = local_var_type_from a.saved_symbol_table a.symbol_table_stack name

-- A type with a bracket is an array's.
unfoldable pub is_array : Bytes → Bool
is_array [] = false
is_array (c ∷ type) = c == b'[' || is_array type

-- `_global_vars.find`
unfoldable pub find_global : List (Bytes × Bytes) → Bytes → Option Bytes
find_global [] name = none
find_global ((n, type) ∷ rest) name =
    let later = find_global rest name in if equal n name then some type else later

-- SaveToVariable and LoadFromVariable: how the stack of the machine changes. `none` is LOG(FATAL).
pub data Change : Type 0 where
  grows shrinks : ℕ → Change

unfoldable pub save_to_variable : FuncAnalyzer → List (Bytes × Bytes) → Bytes → Option Change
unfolding is_local get_local_var_type is_array find_global
save_to_variable a global_vars name =
    if is_local a name
    then elim (get_local_var_type a name) [
      | none ↦ none
      | some type ↦ some (shrinks (if is_array type then 3 else 1))
    ]
    else elim (find_global global_vars name) [
      | none ↦ none
      | some type ↦ some (shrinks (if is_array type then 3 else 1))
    ]

unfoldable pub load_from_variable : FuncAnalyzer → List (Bytes × Bytes) → Bytes → Option Change
unfolding is_local get_local_var_type is_array find_global
load_from_variable a global_vars name =
    if is_local a name
    then elim (get_local_var_type a name) [
      | none ↦ none
      | some type ↦ some (if is_array type then shrinks 1 else grows 1)
    ]
    else elim (find_global global_vars name) [ none ↦ none | some _ ↦ some (grows 1) ]

-- GetLocalVariable: the loop over the symbols of an inner scope. An index past the end of the table is
-- an exception, `none`; at a stack id without variables the source builds a list and drops it.
unfoldable pub share_ids :
    List (List LocalSymbol) → ℕ → ScopedSymbolTable → Option (List (List LocalSymbol))
share_ids ret id [] = some ret
share_ids ret id (s ∷ symbols) = elim (get_elem? ret id) [
  | none ↦ none
  | some vars ↦ elim vars [
    | [] ↦ share_ids ret (suc id) symbols
    | v ∷ vs ↦ share_ids (set ret id ((v ∷ vs) ++ s ∷ [])) (suc id) symbols
  ]
]

-- A stack id for each symbol of the function's own scope.
unfoldable pub own_ids : ScopedSymbolTable → List (List LocalSymbol)
own_ids [] = []
own_ids (s ∷ symbols) = (s ∷ []) ∷ own_ids symbols

-- The index at the front of the source's stack, which is the end of the list here.
unfoldable pub front : List ℕ → Option ℕ
front [] = none
front (i ∷ []) = some i
front (i ∷ j ∷ rest) = front (j ∷ rest)

unfoldable pub is_front : List ℕ → ℕ → Bool
unfolding front
is_front stack i = elim (front stack) [ none ↦ false | some j ↦ j == i ]

-- The loop over the saved tables, from index `i` on.
unfoldable pub merge_tables :
    List ℕ
    → ℕ
    → List ScopedSymbolTable
    → List (List LocalSymbol)
    → ℕ
    → Option (List (List LocalSymbol))
unfolding is_front own_ids share_ids
merge_tables stack i [] ret count = some ret
merge_tables stack i (t ∷ tables) ret count =
    if is_front stack i
    then merge_tables stack (suc i) tables (ret ++ own_ids t) (count + length t)
    else elim (share_ids ret count t) [
      | none ↦ none
      | some ret' ↦ merge_tables stack (suc i) tables ret' count
    ]

unfoldable pub get_local_variable : FuncAnalyzer → Option (List (List LocalSymbol))
unfolding merge_tables
get_local_variable a = merge_tables a.symbol_table_stack 0 a.saved_symbol_table [] 0
