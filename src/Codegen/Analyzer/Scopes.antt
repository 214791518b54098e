-- ===== src/Codegen/Analyzer/Scopes.antt =====
-- hzcc/codegen/jvm/FuncAnalyzer.cc: scopes that are entered, filled and left; and the table of the
-- stack ids.
use hzcc.Prelude.{
  ℕ, zero, suc, ◌+◌, ◌<◌, ◌≡◌, refl, ap, ◌∙◌, Bool, true, false, Option, none, some, List, [], ◌∷◌,
  ◌++◌, append-nil, append_assoc, ◌==◌, if◌then◌else◌, Bytes, length, length-append, get_elem?, set,
  All, arith,
}
use hzcc.Codegen.Analyzer.{
  LocalSymbol, ScopedSymbolTable, add_symbol, has_symbol, get_symbol_type, FuncAnalyzer,
  enter_scope, leave_scope, table_at, add_local_variable, is_local, is_local_from,
  local_var_type_from, get_local_var_type, share_ids, own_ids, front, is_front, merge_tables,
  get_local_variable,
}

-- The open scopes are among the saved tables.
abbrev pub IsScoped : FuncAnalyzer → Type 0
IsScoped a = All (λ i. i < length a.saved_symbol_table) a.symbol_table_stack

table_at-append :
    (xs ys : List ScopedSymbolTable) (i : ℕ) → i < length xs → table_at (xs ++ ys) i ≡ table_at xs i
table_at-append [] ys i h = elim h [ ]
table_at-append (x ∷ xs) ys zero h = refl
table_at-append (x ∷ xs) ys (suc i) h = table_at-append xs ys i (omega arith)

table_at-last :
    (xs : List ScopedSymbolTable) (t : ScopedSymbolTable) → table_at (xs ++ t ∷ []) (length xs) ≡ t
table_at-last [] t = refl
table_at-last (x ∷ xs) t = table_at-last xs t

set-last :
    (xs : List ScopedSymbolTable) (t u : ScopedSymbolTable)
    → set (xs ++ t ∷ []) (length xs) u ≡ xs ++ u ∷ []
set-last [] t u = refl
set-last (x ∷ xs) t u = ap (λ l. x ∷ l) (set-last xs t u)

-- Tables behind those of the open scopes are not looked at.
local_var_type_from-append :
    (tables more : List ScopedSymbolTable) (stack : List ℕ) (name : Bytes)
    → All (λ i. i < length tables) stack
    → local_var_type_from (tables ++ more) stack name ≡ local_var_type_from tables stack name
unfolding local_var_type_from
local_var_type_from-append tables more [] name h = refl
local_var_type_from-append tables more (i ∷ stack) name h =
    rw
      (
        table_at-append tables more i h.0,
        local_var_type_from,
        local_var_type_from-append tables more stack name h.1,
      )
      refl

is_local_from-append :
    (tables more : List ScopedSymbolTable) (stack : List ℕ) (name : Bytes)
    → All (λ i. i < length tables) stack
    → is_local_from (tables ++ more) stack name ≡ is_local_from tables stack name
unfolding is_local_from
is_local_from-append tables more [] name h = refl
is_local_from-append tables more (i ∷ stack) name h =
    rw
      (
        table_at-append tables more i h.0,
        is_local_from,
        is_local_from-append tables more stack name h.1,
      )
      refl

-- Variables that are added one after the other.
abbrev pub add_all : FuncAnalyzer → List LocalSymbol → Option FuncAnalyzer
add_all a [] = some a
add_all a (s ∷ symbols) = elim (add_local_variable a s.name s.type s.line_no) [
  | none ↦ none
  | some a' ↦ add_all a' symbols
]

abbrev in_scope : FuncAnalyzer → ScopedSymbolTable → FuncAnalyzer
in_scope a t = record {
  symbol_table_stack = length a.saved_symbol_table ∷ a.symbol_table_stack;
  saved_symbol_table = a.saved_symbol_table ++ t ∷ [];
}

add_all-in_scope :
    (a : FuncAnalyzer) (t : ScopedSymbolTable) (symbols : List LocalSymbol)
    → add_all (in_scope a t) symbols ≡ some (in_scope a (t ++ symbols))
unfolding add_local_variable add_symbol
add_all-in_scope a t [] = rw (append-nil t) refl
add_all-in_scope a t (s ∷ symbols) =
    rw (table_at-last a.saved_symbol_table t, set-last a.saved_symbol_table t (t ++ s ∷ []))
      (add_all-in_scope a (t ++ s ∷ []) symbols ∙ rw (append_assoc t (s ∷ []) symbols) refl)

-- A scope that is entered, filled with variables and left.
abbrev pub scope_of : FuncAnalyzer → List LocalSymbol → Option FuncAnalyzer
scope_of a symbols = elim (add_all (enter_scope a) symbols) [
  | none ↦ none
  | some a' ↦ leave_scope a'
]

All-below : (n m : ℕ) (stack : List ℕ) → All (λ i. i < n) stack → All (λ i. i < n + m) stack
All-below n m [] h = tt
All-below n m (i ∷ stack) h = (omega (arith, h.0), All-below n m stack h.1)

-- A name stands for the same variable before and behind an inner scope: entering, adding variables and
-- leaving succeeds, and what is local and of which type is as it was, for every name.
pub scope_of-restores :
    (a : FuncAnalyzer) (symbols : List LocalSymbol)
    → IsScoped a
    → (a' : FuncAnalyzer) × (scope_of a symbols ≡ some a')
      × IsScoped a'
      × ((name : Bytes)
          → (get_local_var_type a' name ≡ get_local_var_type a name)
            × (is_local a' name ≡ is_local a name))
unfolding enter_scope leave_scope get_local_var_type is_local
scope_of-restores a symbols scoped = (
  record {
    symbol_table_stack = a.symbol_table_stack;
    saved_symbol_table = a.saved_symbol_table ++ symbols ∷ [];
  },
  rw (add_all-in_scope a [] symbols, scope_of) refl,
  rw (length-append a.saved_symbol_table (symbols ∷ []))
      (All-below (length a.saved_symbol_table) 1 a.symbol_table_stack scoped),
  λ name. (
    local_var_type_from-append a.saved_symbol_table (symbols ∷ []) a.symbol_table_stack name scoped,
    is_local_from-append a.saved_symbol_table (symbols ∷ []) a.symbol_table_stack name scoped,
  ),
)

-- Inside a scope, its own variables hide those outside: a name among them has the type of the first of
-- them with that name.
pub enter_scope-hides :
    (a : FuncAnalyzer) (symbols : List LocalSymbol) (name : Bytes)
    → has_symbol symbols name ≡ true
    → (a' : FuncAnalyzer) × (add_all (enter_scope a) symbols ≡ some a')
      × (is_local a' name ≡ true)
      × (get_local_var_type a' name ≡ get_symbol_type symbols name)
unfolding enter_scope get_local_var_type is_local local_var_type_from is_local_from
enter_scope-hides a symbols name h =
    let last = table_at-last a.saved_symbol_table symbols in
    (in_scope a symbols, add_all-in_scope a [] symbols, rw (last, h) refl, rw (last, h) refl)

length-own_ids : (t : ScopedSymbolTable) → length (own_ids t) ≡ length t
unfolding own_ids
length-own_ids [] = refl
length-own_ids (s ∷ t) = ap suc (length-own_ids t)

past_end : (ret : List (List LocalSymbol)) → get_elem? ret (length ret) ≡ none
past_end [] = refl
past_end (x ∷ ret) = past_end ret

abbrev pub all_empty : List ScopedSymbolTable → Bool
all_empty [] = true
all_empty ([] ∷ tables) = all_empty tables
all_empty ((s ∷ t) ∷ tables) = false

is_front-at : (stack : List ℕ) (i : ℕ) → front stack ≡ some 0 → is_front stack i ≡ (0 == i)
unfolding is_front
is_front-at stack i f = rw (f, is_front) refl

merge_tables-inner :
    (stack : List ℕ) (tables : List ScopedSymbolTable) (i : ℕ) (ret : List (List LocalSymbol))
    → front stack ≡ some 0
    → 0 < i
    → merge_tables stack i tables ret (length ret) ≡ (if all_empty tables then some ret else none)
unfolding merge_tables share_ids
merge_tables-inner stack [] i ret f pos = refl
merge_tables-inner stack ([] ∷ tables) i ret f pos =
    let later : (0 == i) ≡ false = ground arith in
    rw (is_front-at stack i f, later, merge_tables)
      (merge_tables-inner stack tables (suc i) ret f (omega arith))
merge_tables-inner stack ((s ∷ t) ∷ tables) i ret f pos =
    let later : (0 == i) ≡ false = ground arith in
    rw (is_front-at stack i f, later, merge_tables, past_end ret) refl

-- The table of the stack ids can be built only while every inner scope is without variables: it then
-- has one id for each variable of the function's own scope, and is an exception otherwise.
pub get_local_variable-inner :
    (a : FuncAnalyzer) (own : ScopedSymbolTable) (inner : List ScopedSymbolTable)
    → a.saved_symbol_table ≡ own ∷ inner
    → front a.symbol_table_stack ≡ some 0
    → get_local_variable a ≡ (if all_empty inner then some (own_ids own) else none)
unfolding get_local_variable merge_tables
get_local_variable-inner a own inner saved f =
    rw (saved, is_front-at a.symbol_table_stack 0 f)
      (rw (size own) at
        (merge_tables-inner a.symbol_table_stack inner 1 (own_ids own) f (omega arith)))
  where
    size : (t : ScopedSymbolTable) → length (own_ids t) ≡ 0 + length t
    size t = omega (arith, length-own_ids t)
