-- ===== src/Syntax/Operators.antt =====
-- hzcc/parser/syntax/parser/statement_parser.cc: ParseCommaExpr down to ParseUnaryExpr. `self` answers
-- the calls that come after a token has been taken; Syntax.Parser ties the knot.
use hzcc.Prelude.{Bool, true, false, ◌||◌, ◌==◌, if◌then◌else◌}
use hzcc.Token.Kinds.{
  TokenType, eq_op, ne_op, ge_op, le_op, k_self_increment, k_self_decrement, k_logical_or,
  k_logical_and, k_left_shift, k_right_shift, k_lshift_assign, k_rshift_assign, sizeof_kw,
  struct_kw,
}
use hzcc.Token.Value.{Token, to_str}
use hzcc.Syntax.Tokens.{◌>>=◌, Parse, Parsed, TokenList, done, pop, peek, peek2, check_and_consume}
use hzcc.Syntax.Tree.{
  Expr, Operator, assign_expr, logical_expr, bitwise_expr, relational_expr, arithmetic_expr,
  comma_expr, operator_expr, ternary, explicit_cast, unary, sizeof_type, sizeof_expr,
}
use hzcc.Syntax.Names.{CompilationUnit, has_type, parse_type_name}
use hzcc.Syntax.Operand.{parse_postfix_expr}

-- The functions that a function of the parser calls again behind a token.
pub data Rule : Type 0 where
  comma_rule assign_rule conditional_rule logical_or_rule logical_and_rule bitwise_or_rule : Rule
  bitwise_xor_rule bitwise_and_rule equality_rule relational_rule shift_rule additive_rule : Rule
  multiplicative_rule cast_rule unary_rule : Rule

abbrev pub is_assign_op : TokenType → Bool
is_assign_op t =
    t == b'='
    || (t == 361 || t == 362 || t == 363 || t == 364)
    || t == 366
    || (t == k_lshift_assign || t == k_rshift_assign)
    || (t == 369 || t == 370 || t == 371)

abbrev pub is_equality_op : TokenType → Bool
is_equality_op t = t == eq_op || t == ne_op

abbrev pub is_relational_op : TokenType → Bool
is_relational_op t = t == b'<' || t == b'>' || t == le_op || t == ge_op

abbrev pub is_shift_op : TokenType → Bool
is_shift_op t = t == k_left_shift || t == k_right_shift

abbrev pub is_additive_op : TokenType → Bool
is_additive_op t = t == b'+' || t == b'-'

abbrev pub is_multiplicative_op : TokenType → Bool
is_multiplicative_op t = t == b'*' || t == b'/' || t == b'%'

abbrev pub is_unary_op : TokenType → Bool
is_unary_op t = t == b'-' || t == b'*' || t == b'~' || t == b'!' || t == b'&'

-- What the functions for two operands share: `next` reads the left operand, `again`, the function
-- itself, the right one.
unfoldable pub parse_binary :
    (TokenType → Bool)
    → (Token → Expr → Expr → Expr)
    → (TokenList → Parsed Expr)
    → (TokenList → Parsed Expr)
    → TokenList
    → Parsed Expr
unfolding peek pop
parse_binary is_op node next again l = next l >>= λ (lhs, l1). peek l1 >>= λ op.
    if is_op op.token_type
    then (pop l1 >>= λ (taken, l2). again l2 >>= λ (rhs, l3). done (node op lhs rhs, l3))
    else done (lhs, l1)

abbrev pub operator_node : Operator → Token → Expr → Expr → Expr
operator_node class op lhs rhs = operator_expr class op.location (to_str op false) lhs rhs

module _ (ctx : CompilationUnit) (self : Rule → TokenList → Parsed Expr) where
  -- The second token names a type.
  unfoldable pub names_type : TokenList → Parse Bool
  unfolding peek2 has_type
  names_type l = peek2 l >>= λ name. done (has_type ctx (to_str name false))

  -- The condition of ParseUnaryExpr for a type behind `sizeof`, on the type of the next token.
  unfoldable pub is_sizeof_type : TokenType → TokenList → Parse Bool
  unfolding names_type
  is_sizeof_type type l =
      if type == b'(' then if type == struct_kw then done true else names_type l else done false

  -- The condition of ParseCastExpr for a cast, on the type of the next token.
  unfoldable pub is_cast : TokenType → TokenList → Parse Bool
  unfolding names_type
  is_cast type l = if type == b')' then done true else names_type l

  unfoldable pub parse_unary_expr : TokenList → Parsed Expr
  unfolding peek pop check_and_consume is_sizeof_type
  parse_unary_expr l = peek l >>= λ t.
      if is_unary_op t.token_type
      then (pop l >>= λ (taken, l1).
          self cast_rule l1 >>= λ (rhs, l2). done (unary t.location (to_str t false) rhs, l2))
      else if t.token_type == sizeof_kw
      then (pop l >>= λ (size_of, l1). peek l1 >>= λ paren.
          is_sizeof_type paren.token_type l1 >>= λ is_type.
          if is_type
          then (pop l1 >>= λ (taken, l2). parse_type_name ctx l2 >>= λ (type, l3).
              check_and_consume b')' l3 >>= λ l4. done (sizeof_type size_of.location type, l4))
          else (self unary_rule l1 >>= λ (expr, l2). done (sizeof_expr size_of.location expr, l2)))
      else if t.token_type == k_self_increment || t.token_type == k_self_decrement
      then (pop l >>= λ (taken, l1).
          self unary_rule l1 >>= λ (rhs, l2). done (unary t.location (to_str t false) rhs, l2))
      else parse_postfix_expr (self comma_rule) (self assign_rule) l

  unfoldable pub parse_cast_expr : TokenList → Parsed Expr
  unfolding peek pop check_and_consume is_cast parse_unary_expr
  parse_cast_expr l = peek l >>= λ t. is_cast t.token_type l >>= λ cast.
      if cast
      then (pop l >>= λ (taken, l1). parse_type_name ctx l1 >>= λ (type, l2).
          check_and_consume b')' l2 >>= λ l3.
          self cast_rule l3 >>= λ (expr, l4). done (explicit_cast t.location expr type, l4))
      else parse_unary_expr l

  unfoldable pub parse_multiplicative_expr : TokenList → Parsed Expr
  unfolding parse_binary parse_unary_expr
  parse_multiplicative_expr =
      parse_binary is_multiplicative_op (operator_node arithmetic_expr) parse_unary_expr
        (self multiplicative_rule)

  unfoldable pub parse_additive_expr : TokenList → Parsed Expr
  unfolding parse_binary parse_multiplicative_expr
  parse_additive_expr =
      parse_binary is_additive_op (operator_node arithmetic_expr) parse_multiplicative_expr
        (self additive_rule)

  unfoldable pub parse_shift_expr : TokenList → Parsed Expr
  unfolding parse_binary parse_additive_expr
  parse_shift_expr =
      parse_binary is_shift_op (operator_node bitwise_expr) parse_additive_expr (self shift_rule)

  unfoldable pub parse_relational_expr : TokenList → Parsed Expr
  unfolding parse_binary parse_shift_expr
  parse_relational_expr =
      parse_binary is_relational_op (operator_node relational_expr) parse_shift_expr
        (self relational_rule)

  unfoldable pub parse_equality_expr : TokenList → Parsed Expr
  unfolding parse_binary parse_relational_expr
  parse_equality_expr =
      parse_binary is_equality_op (operator_node relational_expr) parse_relational_expr
        (self equality_rule)

  unfoldable pub parse_bitwise_and_expr : TokenList → Parsed Expr
  unfolding parse_binary parse_equality_expr
  parse_bitwise_and_expr =
      parse_binary (◌==◌ b'&') (operator_node bitwise_expr) parse_equality_expr
        (self bitwise_and_rule)

  unfoldable pub parse_bitwise_xor_expr : TokenList → Parsed Expr
  unfolding parse_binary parse_bitwise_and_expr
  parse_bitwise_xor_expr =
      parse_binary (◌==◌ b'^') (operator_node bitwise_expr) parse_bitwise_and_expr
        (self bitwise_xor_rule)

  unfoldable pub parse_bitwise_or_expr : TokenList → Parsed Expr
  unfolding parse_binary parse_bitwise_xor_expr
  parse_bitwise_or_expr =
      parse_binary (◌==◌ b'|') (operator_node bitwise_expr) parse_bitwise_xor_expr
        (self bitwise_or_rule)

  unfoldable pub parse_logical_and_expr : TokenList → Parsed Expr
  unfolding parse_binary parse_bitwise_or_expr
  parse_logical_and_expr =
      parse_binary (◌==◌ k_logical_and) (operator_node logical_expr) parse_bitwise_or_expr
        (self logical_and_rule)

  unfoldable pub parse_logical_or_expr : TokenList → Parsed Expr
  unfolding parse_binary parse_logical_and_expr
  parse_logical_or_expr =
      parse_binary (◌==◌ k_logical_or) (operator_node logical_expr) parse_logical_and_expr
        (self logical_or_rule)

  unfoldable pub parse_conditional_expr : TokenList → Parsed Expr
  unfolding peek pop check_and_consume parse_logical_or_expr
  parse_conditional_expr l = parse_logical_or_expr l >>= λ (lhs, l1). peek l1 >>= λ t.
      if t.token_type == b'?'
      then (pop l1 >>= λ (taken, l2). self conditional_rule l2 >>= λ (true_expr, l3).
          check_and_consume b':' l3 >>= λ l4. self conditional_rule l4 >>= λ (false_expr, l5).
          done (ternary t.location lhs true_expr false_expr, l5))
      else done (lhs, l1)

  unfoldable pub parse_assign_expr : TokenList → Parsed Expr
  unfolding parse_binary parse_conditional_expr
  parse_assign_expr =
      parse_binary is_assign_op (operator_node assign_expr) parse_conditional_expr
        (self assign_rule)

  unfoldable pub parse_comma_expr : TokenList → Parsed Expr
  unfolding parse_binary parse_assign_expr
  parse_comma_expr =
      parse_binary (◌==◌ b',') (λ op lhs rhs. comma_expr op.location lhs rhs) parse_assign_expr
        (self comma_rule)
