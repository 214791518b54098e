-- ===== src/Syntax/Grammar.antt =====
-- hzcc/parser/syntax/parser/statement_parser.cc: the grammar that the functions for operators read, on
-- names, literals and parentheses, with the trees that they build.
pub mod Levels
pub mod Operands
pub mod Complete
use hzcc.Prelude.{◌≡◌, Bool, true, false, List, [], ◌∷◌, ◌++◌, ◌==◌}
use hzcc.Token.Kinds.{TokenType, k_identity, int_lit, k_logical_or, k_logical_and}
use hzcc.Token.Value.{Token, to_str}
use hzcc.Syntax.Tree.{
  Expr, assign_expr, logical_expr, bitwise_expr, relational_expr, arithmetic_expr, comma, binary,
  ternary, decl_ref, literal, integer,
}
use hzcc.Syntax.Operators.{
  Rule, comma_rule, assign_rule, conditional_rule, logical_or_rule, logical_and_rule,
  bitwise_or_rule, bitwise_xor_rule, bitwise_and_rule, equality_rule, relational_rule, shift_rule,
  additive_rule, multiplicative_rule, cast_rule, unary_rule, is_assign_op, is_equality_op,
  is_relational_op, is_shift_op, is_additive_op, is_multiplicative_op,
}

-- The rule that reads the left operand of a rule.
abbrev pub next_rule : Rule → Rule
next_rule comma_rule = assign_rule
next_rule assign_rule = conditional_rule
next_rule conditional_rule = logical_or_rule
next_rule logical_or_rule = logical_and_rule
next_rule logical_and_rule = bitwise_or_rule
next_rule bitwise_or_rule = bitwise_xor_rule
next_rule bitwise_xor_rule = bitwise_and_rule
next_rule bitwise_and_rule = equality_rule
next_rule equality_rule = relational_rule
next_rule relational_rule = shift_rule
next_rule shift_rule = additive_rule
next_rule additive_rule = multiplicative_rule
next_rule multiplicative_rule = unary_rule
next_rule cast_rule = unary_rule
next_rule unary_rule = unary_rule

-- The operators of a rule.
abbrev pub op_of : Rule → TokenType → Bool
op_of comma_rule t = b',' == t
op_of assign_rule t = is_assign_op t
op_of conditional_rule t = t == b'?'
op_of logical_or_rule t = k_logical_or == t
op_of logical_and_rule t = k_logical_and == t
op_of bitwise_or_rule t = b'|' == t
op_of bitwise_xor_rule t = b'^' == t
op_of bitwise_and_rule t = b'&' == t
op_of equality_rule t = is_equality_op t
op_of relational_rule t = is_relational_op t
op_of shift_rule t = is_shift_op t
op_of additive_rule t = is_additive_op t
op_of multiplicative_rule t = is_multiplicative_op t
op_of cast_rule t = false
op_of unary_rule t = false

-- The node of an operator of a rule: commas, shifts and bitwise operators hold their right side as the
-- left operand.
abbrev pub node_of : Rule → Token → Expr → Expr → Expr
node_of comma_rule op lhs rhs = comma op.location rhs lhs
node_of assign_rule op lhs rhs = binary assign_expr op.location (to_str op false) lhs rhs
node_of logical_or_rule op lhs rhs = binary logical_expr op.location (to_str op false) lhs rhs
node_of logical_and_rule op lhs rhs = binary logical_expr op.location (to_str op false) lhs rhs
node_of equality_rule op lhs rhs = binary relational_expr op.location (to_str op false) lhs rhs
node_of relational_rule op lhs rhs = binary relational_expr op.location (to_str op false) lhs rhs
node_of additive_rule op lhs rhs = binary arithmetic_expr op.location (to_str op false) lhs rhs
node_of multiplicative_rule op lhs rhs =
    binary arithmetic_expr op.location (to_str op false) lhs rhs
node_of _ op lhs rhs = binary bitwise_expr op.location (to_str op false) rhs lhs

-- The rules for operators with two operands.
abbrev pub is_level : Rule → Bool
is_level conditional_rule = false
is_level cast_rule = false
is_level unary_rule = false
is_level _ = true

-- The texts of a rule, with their trees: the right operand of an operator may hold operators of the
-- same rule, the left one may not.
pub data Derives : Rule → List Token → Expr → Type 0 where
  variable :
      (t : Token)
      → t.token_type ≡ k_identity
      → Derives unary_rule (t ∷ []) (decl_ref t.location (to_str t false))
  integer_literal :
      (t : Token)
      → t.token_type ≡ int_lit
      → Derives unary_rule (t ∷ []) (literal integer t.location (to_str t false))
  parentheses :
      (open_ close : Token) (ts : List Token) (e : Expr)
      → open_.token_type ≡ b'('
      → close.token_type ≡ b')'
      → Derives comma_rule ts e
      → Derives unary_rule (open_ ∷ ts ++ close ∷ []) e
  climb :
      (rule : Rule) (ts : List Token) (e : Expr)
      → is_level rule ≡ true
      → Derives (next_rule rule) ts e
      → Derives rule ts e
  no_choice :
      (ts : List Token) (e : Expr) → Derives logical_or_rule ts e → Derives conditional_rule ts e
  operator :
      (rule : Rule) (op : Token) (ls rs : List Token) (lhs rhs : Expr)
      → is_level rule ≡ true
      → op_of rule op.token_type ≡ true
      → Derives (next_rule rule) ls lhs
      → Derives rule rs rhs
      → Derives rule (ls ++ op ∷ rs) (node_of rule op lhs rhs)
  choice :
      (question colon : Token) (cs ts fs : List Token) (condition true_expr false_expr : Expr)
      → question.token_type ≡ b'?'
      → colon.token_type ≡ b':'
      → Derives logical_or_rule cs condition
      → Derives conditional_rule ts true_expr
      → Derives conditional_rule fs false_expr
      → Derives conditional_rule
          (cs ++ question ∷ (ts ++ colon ∷ fs))
          (ternary question.location condition true_expr false_expr)
