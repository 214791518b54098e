-- ===== src/Syntax/Operand.antt =====
-- hzcc/parser/syntax/parser/statement_parser.cc: ParseAccessExpr and ParsePostfixExpr. The calls that
-- come back to the parser of expressions are arguments: `comma_expr` is ParseCommaExpr, `assign_expr`
-- is ParseAssignExpr.
use hzcc.Prelude.{ℕ, zero, suc, false, not, ◌||◌, List, [], ◌∷◌, ◌++◌, ◌==◌, if◌then◌else◌, Bytes}
use hzcc.Token.Kinds.{
  TokenType, char_lit, int_lit, real_lit, str_lit, k_identity, k_arrow, k_self_increment,
  k_self_decrement, else_kw,
}
use hzcc.Token.Value.{Token, to_str}
use hzcc.Syntax.Tokens.{
  token_count, ◌>>=◌, Parse, Parsed, TokenList, done, error_at, undefined, no_fuel, pop, peek,
  check_and_consume, token_err, term_expected, expected_identifier, else_without_if,
}
use hzcc.Syntax.Tree.{
  Expr, Exprs, none_left, push_back, char_, integer, real_number, string_, array_subscript, member,
  unary, func_call, decl_ref, literal,
}

-- `tokens.peek().type()`
unfoldable pub next_type : TokenList → Parse TokenType
unfolding peek
next_type l = peek l >>= λ t. done t.token_type

-- The loop that joins string literals, over the tokens behind the first one.
unfoldable pub join_strings : List Token → List Token → Bytes → Parsed Bytes
unfolding peek
join_strings [] cached value_str = undefined
join_strings (t ∷ ts) cached value_str =
    let more = join_strings ts cached (value_str ++ to_str t false) in
    peek (record { tokens = t ∷ ts; cached_attributes = cached }) >>= λ next.
    if next.token_type == str_lit
    then more
    else done (value_str, record { tokens = t ∷ ts; cached_attributes = cached })

module _ (comma_expr assign_expr : TokenList → Parsed Expr) where
  -- The loop over the arguments of a call.
  unfoldable pub arguments : ℕ → TokenList → Exprs → Parsed Exprs
  unfolding next_type check_and_consume token_err
  arguments zero l args_expr = no_fuel
  arguments (suc fuel) l args_expr = next_type l >>= λ first.
      if first == b')'
      then done (args_expr, l)
      else (assign_expr l >>= λ (arg, l1). next_type l1 >>= λ type.
          if type == b')'
          then arguments fuel l1 (push_back args_expr arg)
          else (check_and_consume b',' l1 >>= λ l2. peek l2 >>= λ after.
              if after.token_type == b')'
              then error_at term_expected after.location
              else arguments fuel l2 (push_back args_expr arg)))

  -- ParseAccessExpr
  unfoldable pub parse_access_expr : TokenList → Parsed Expr
  unfolding peek pop next_type arguments join_strings
  parse_access_expr l = peek l >>= λ t.
      if t.token_type == k_identity
      then (pop l >>= λ (ident, l1). next_type l1 >>= λ type.
          if type == b'('
          then (pop l1 >>= λ (paren, l2).
              arguments (suc (token_count l2)) l2 none_left >>= λ (args_expr, l3).
              check_and_consume b')' l3 >>= λ l4.
              done (func_call ident.location (to_str ident false) args_expr, l4))
          else done (decl_ref ident.location (to_str ident false), l1))
      else if t.token_type == char_lit
      then (pop l >>= λ (value, l1). done (literal char_ t.location (to_str t false), l1))
      else if t.token_type == int_lit
      then (pop l >>= λ (value, l1). done (literal integer t.location (to_str t false), l1))
      else if t.token_type == real_lit
      then (pop l >>= λ (value, l1). done (literal real_number t.location (to_str t false), l1))
      else if t.token_type == str_lit
      then (pop l >>= λ (lit_start, l1).
          join_strings l1.tokens l1.cached_attributes (to_str lit_start false)
          >>= λ (value_str, l2). done (literal string_ lit_start.location value_str, l2))
      else if t.token_type == else_kw
      then token_err else_without_if l
      else token_err term_expected l

  -- The loop over `[...]`.
  unfoldable pub subscripts : ℕ → TokenList → Expr → Parsed Expr
  unfolding next_type pop check_and_consume
  subscripts zero l final_expr = no_fuel
  subscripts (suc fuel) l final_expr = next_type l >>= λ type.
      if type == b'['
      then (pop l >>= λ (bracket, l1). comma_expr l1 >>= λ (expr, l2).
          check_and_consume b']' l2 >>= λ l3.
          subscripts fuel l3 (array_subscript bracket.location final_expr expr))
      else done (final_expr, l)

  -- The loop over `.` and `->`. It takes two tokens before it looks at the name, and asks the second
  -- of them whether the access is by pointer.
  unfoldable pub members : ℕ → TokenList → Expr → Parsed Expr
  unfolding next_type pop token_err
  members zero l final_expr = no_fuel
  members (suc fuel) l final_expr = next_type l >>= λ type.
      if type == k_arrow || type == b'.'
      then (pop l >>= λ (access, l1). pop l1 >>= λ (second, l2). next_type l2 >>= λ type2.
          if not (type2 == k_identity)
          then token_err expected_identifier l2
          else (pop l2 >>= λ (name, l3). members fuel l3 (
              member (second.token_type == k_arrow) access.location (to_str name false)
                final_expr)))
      else done (final_expr, l)

  -- The loop over `++` and `--`.
  unfoldable pub post_operators : ℕ → TokenList → Expr → Parsed Expr
  unfolding next_type pop
  post_operators zero l final_expr = no_fuel
  post_operators (suc fuel) l final_expr = next_type l >>= λ type.
      if type == k_self_increment || type == k_self_decrement
      then (pop l >>= λ (op, l1).
          post_operators fuel l1 (unary op.location (to_str op false) final_expr))
      else done (final_expr, l)

  unfoldable pub parse_primary : TokenList → Parsed Expr
  unfolding next_type pop check_and_consume parse_access_expr
  parse_primary l = next_type l >>= λ type.
      if type == b'('
      then (pop l >>= λ (paren, l1).
          comma_expr l1 >>= λ (expr, l2). check_and_consume b')' l2 >>= λ l3. done (expr, l3))
      else parse_access_expr l

  -- What follows the operand: one kind of suffixes only.
  unfoldable pub parse_suffixes : TokenList → Expr → Parsed Expr
  unfolding next_type subscripts members post_operators
  parse_suffixes l final_expr = next_type l >>= λ type.
      if type == b'['
      then subscripts (suc (token_count l)) l final_expr
      else if type == k_arrow || type == b'.'
      then members (suc (token_count l)) l final_expr
      else post_operators (suc (token_count l)) l final_expr

  -- ParsePostfixExpr
  unfoldable pub parse_postfix_expr : TokenList → Parsed Expr
  unfolding parse_primary parse_suffixes
  parse_postfix_expr l = parse_primary l >>= λ (final_expr, l1). parse_suffixes l1 final_expr
