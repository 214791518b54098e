-- ===== src/Examples/Parsing.antt =====
-- hzcc/parser/syntax/parser/statement_parser.cc: expressions of a few tokens.
use hzcc.Token.Symbols.{iserch_table, iserch_from}
use hzcc.Prelude.{
  nat_eq, bytes_eq, ℕ, ◌≡◌, ◌≢◌, refl, none, List, [], ◌∷◌, Bytes, codes, ◌<◌, arith, false, ◌++◌,
  true, some, equal,
}
use hzcc.Token.Kinds.{k_identity, qual_start, is_qualifier}
use hzcc.Token.Value.{Token, Position, symbol_token, value_token, type_to_str, to_str}
use hzcc.Syntax.Tokens.{TokenList, done, no_fuel, pop, pop_from, peek, peek_rounds, diverges}
use hzcc.Syntax.Tree.{Expr, binary, arithmetic_expr, decl_ref, TypeName, struct_type}
use hzcc.Syntax.Names.{
  CompilationUnit, has_type, get_type, is_primitive_type, contains, find, scopes_has_type,
}
use hzcc.Syntax.Operand.{
  next_type, parse_access_expr, post_operators, parse_primary, parse_suffixes, parse_postfix_expr,
}
use hzcc.Syntax.Operators.{
  comma_rule, parse_binary, parse_comma_expr, parse_assign_expr, parse_conditional_expr,
  parse_logical_or_expr, parse_logical_and_expr, parse_bitwise_or_expr, parse_bitwise_xor_expr,
  parse_bitwise_and_expr, parse_equality_expr, parse_relational_expr, parse_shift_expr,
  parse_additive_expr, parse_multiplicative_expr, parse_unary_expr, additive_rule,
  multiplicative_rule,
}
use hzcc.Syntax.Parser.{step, parse_rule, parse}
use hzcc.Syntax.Grammar.{node_of, Derives, variable, climb, operator}
use hzcc.Syntax.Grammar.Levels.{rank, op_rank}
use hzcc.Syntax.Grammar.Complete.{parse-Derives}
use hzcc.Syntax.Lookup.{has_type-get_type, pop-qualifiers}
use hzcc.Syntax.Progress.{Takes}
use hzcc.Syntax.Progress.Operators.{parse-total, parse-suffix, parse_ends}

abbrev root_unit : CompilationUnit
root_unit = record {
  named_types = [];
  current_context =
      record { return_type = none; variable_lookup_table = []; named_types = [] } ∷ [];
}

abbrev name : Bytes → ℕ → Token
name s col = value_token k_identity s 1 col

abbrev list_of : List Token → TokenList
list_of ts = record { tokens = ts; cached_attributes = [] }

-- a - b - c;
abbrev two_minus : TokenList
two_minus = list_of (
    name (codes "a") 0
    ∷ symbol_token b'-' 1 2
    ∷ name (codes "b") 4
    ∷ symbol_token b'-' 1 6
    ∷ name (codes "c") 8
    ∷ symbol_token b';' 1 9
    ∷ [])

abbrev at_col : ℕ → Position
at_col col = record { row = 1; col = col }

-- The tree of `a - (b - c)`.
abbrev two_minus_tree : Expr
two_minus_tree = binary arithmetic_expr (at_col 2) (codes "-") (decl_ref (at_col 0) (codes "a")) (
    binary arithmetic_expr (at_col 6) (codes "-") (decl_ref (at_col 4) (codes "b"))
      (decl_ref (at_col 8) (codes "c")))

two_minus-tree :
    parse root_unit comma_rule two_minus
    ≡ done (two_minus_tree, list_of (symbol_token b';' 1 9 ∷ []))
unfolding parse parse_rule step parse_binary parse_comma_expr parse_assign_expr
    parse_conditional_expr parse_logical_or_expr parse_logical_and_expr parse_bitwise_or_expr
    parse_bitwise_xor_expr parse_bitwise_and_expr parse_equality_expr parse_relational_expr
    parse_shift_expr parse_additive_expr parse_multiplicative_expr parse_unary_expr
    parse_postfix_expr parse_suffixes parse_primary parse_access_expr post_operators next_type peek
    pop pop_from to_str type_to_str
two_minus-tree = refl

parse-suffix_example : Takes 1 two_minus (list_of (symbol_token b';' 1 9 ∷ []))
parse-suffix_example =
    parse-suffix root_unit comma_rule two_minus (list_of (symbol_token b';' 1 9 ∷ []))
      two_minus_tree two_minus-tree

parse-total_example :
    (parse root_unit comma_rule two_minus ≢ no_fuel)
    × ((t : Token)
        → parse root_unit comma_rule two_minus ≡ diverges t
        → (is_qualifier t.token_type ≡ true) × ((n : ℕ) → peek_rounds n t t ≡ none))
parse-total_example = parse-total root_unit comma_rule two_minus

parse_ends_example :
    (parse root_unit comma_rule two_minus ≢ no_fuel)
    × ((t : Token) → parse root_unit comma_rule two_minus ≢ diverges t)
parse_ends_example =
    parse_ends root_unit comma_rule two_minus (refl, (refl, (refl, (refl, (refl, (refl, tt))))))

abbrev a_token : Token
a_token = name (codes "a") 0

abbrev b_token : Token
b_token = name (codes "b") 4

abbrev c_token : Token
c_token = name (codes "c") 8

abbrev semicolon : Token
semicolon = symbol_token b';' 1 9

-- A name is an operand of `-`.
operand :
    (t : Token)
    → t.token_type ≡ k_identity
    → Derives multiplicative_rule (t ∷ []) (decl_ref t.location (to_str t false))
operand t h = climb multiplicative_rule (t ∷ []) _ refl (variable t h)

semicolon_ends : op_rank semicolon.token_type < rank additive_rule
unfolding op_rank
semicolon_ends = omega arith

-- a + b, read as a sum.
abbrev sum_tokens : List Token
sum_tokens = (a_token ∷ []) ++ symbol_token b'+' 1 2 ∷ b_token ∷ []

abbrev sum_tree : Expr
sum_tree =
    node_of additive_rule (symbol_token b'+' 1 2) (decl_ref (at_col 0) (to_str a_token false))
      (decl_ref (at_col 4) (to_str b_token false))

sum-Derives : Derives additive_rule sum_tokens sum_tree
sum-Derives =
    operator additive_rule (symbol_token b'+' 1 2) (a_token ∷ []) (b_token ∷ []) _ _ refl refl
      (operand a_token refl) (climb additive_rule (b_token ∷ []) _ refl (operand b_token refl))

parse-Derives_example :
    parse root_unit additive_rule (list_of (sum_tokens ++ semicolon ∷ []))
    ≡ done (sum_tree, list_of (semicolon ∷ []))
parse-Derives_example =
    parse-Derives root_unit additive_rule sum_tokens sum_tree semicolon [] [] sum-Derives
      semicolon_ends

-- `const` in front of a name.
abbrev const_token : Token
const_token = symbol_token qual_start 1 0

pop-qualifiers_example :
    pop (list_of ((const_token ∷ []) ++ a_token ∷ semicolon ∷ []))
    ≡ done (a_token, record { tokens = semicolon ∷ []; cached_attributes = [] ++ const_token ∷ [] })
pop-qualifiers_example =
    pop-qualifiers (const_token ∷ []) a_token (semicolon ∷ []) [] (refl, tt) refl

-- A scope with one struct.
abbrev struct_unit : CompilationUnit
struct_unit = record {
  named_types = [];
  current_context =
      record {
        return_type = none;
        variable_lookup_table = [];
        named_types = (codes "struct p", struct_type (codes "p")) ∷ [];
      }
      ∷ [];
}

has_struct : has_type struct_unit (codes "struct p") ≡ true
unfolding has_type is_primitive_type contains find scopes_has_type iserch_table iserch_from equal
has_struct = refl

has_type-get_type_example :
    (find struct_unit.named_types (codes "struct p") ≡ none)
    × ((t : TypeName) × (get_type struct_unit (codes "struct p") ≡ some t))
has_type-get_type_example = has_type-get_type struct_unit (codes "struct p") has_struct
