-- ===== src/Syntax/Parser.antt =====
-- hzcc/parser/syntax/parser/statement_parser.cc: the recursion of the functions that parse expressions.
use hzcc.Prelude.{ℕ, zero, suc}
use hzcc.Syntax.Tokens.{Parsed, TokenList, no_fuel, token_count}
use hzcc.Syntax.Tree.{Expr}
use hzcc.Syntax.Names.{CompilationUnit}
use hzcc.Syntax.Operators.{
  Rule, comma_rule, assign_rule, conditional_rule, logical_or_rule, logical_and_rule,
  bitwise_or_rule, bitwise_xor_rule, bitwise_and_rule, equality_rule, relational_rule, shift_rule,
  additive_rule, multiplicative_rule, cast_rule, unary_rule, parse_comma_expr, parse_assign_expr,
  parse_conditional_expr, parse_logical_or_expr, parse_logical_and_expr, parse_bitwise_or_expr,
  parse_bitwise_xor_expr, parse_bitwise_and_expr, parse_equality_expr, parse_relational_expr,
  parse_shift_expr, parse_additive_expr, parse_multiplicative_expr, parse_cast_expr,
  parse_unary_expr,
}

-- The function of a rule, and the calls that it makes behind a token.
unfoldable pub step :
    CompilationUnit → (Rule → TokenList → Parsed Expr) → Rule → TokenList → Parsed Expr
unfolding parse_comma_expr parse_assign_expr parse_conditional_expr parse_logical_or_expr
    parse_logical_and_expr parse_bitwise_or_expr parse_bitwise_xor_expr parse_bitwise_and_expr
    parse_equality_expr parse_relational_expr parse_shift_expr parse_additive_expr
    parse_multiplicative_expr parse_cast_expr parse_unary_expr
step ctx self comma_rule = parse_comma_expr ctx self
step ctx self assign_rule = parse_assign_expr ctx self
step ctx self conditional_rule = parse_conditional_expr ctx self
step ctx self logical_or_rule = parse_logical_or_expr ctx self
step ctx self logical_and_rule = parse_logical_and_expr ctx self
step ctx self bitwise_or_rule = parse_bitwise_or_expr ctx self
step ctx self bitwise_xor_rule = parse_bitwise_xor_expr ctx self
step ctx self bitwise_and_rule = parse_bitwise_and_expr ctx self
step ctx self equality_rule = parse_equality_expr ctx self
step ctx self relational_rule = parse_relational_expr ctx self
step ctx self shift_rule = parse_shift_expr ctx self
step ctx self additive_rule = parse_additive_expr ctx self
step ctx self multiplicative_rule = parse_multiplicative_expr ctx self
step ctx self cast_rule = parse_cast_expr ctx self
step ctx self unary_rule = parse_unary_expr ctx self

unfoldable pub parse_rule : CompilationUnit → ℕ → Rule → TokenList → Parsed Expr
unfolding step
parse_rule ctx zero rule l = no_fuel
parse_rule ctx (suc fuel) rule l = step ctx (parse_rule ctx fuel) rule l

-- Every call behind a token has a shorter list, so its length is fuel enough.
unfoldable pub parse : CompilationUnit → Rule → TokenList → Parsed Expr
unfolding parse_rule
parse ctx rule l = parse_rule ctx (suc (token_count l)) rule l
