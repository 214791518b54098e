-- ===== src/Syntax/Grammar/Operands.antt =====
-- hzcc/parser/syntax/parser/statement_parser.cc: ParseUnaryExpr on names, literals and parentheses, and
-- ParseConditionalExpr.
use hzcc.Prelude.{◌≡◌, refl, Bool, true, false, ◌||◌, List, ◌∷◌, ◌==◌, arith}
use hzcc.Token.Kinds.{
  TokenType, is_qualifier, k_identity, int_lit, k_arrow, k_self_increment, k_self_decrement,
  sizeof_kw,
}
use hzcc.Token.Value.{Token, to_str}
use hzcc.Syntax.Tokens.{
  Parsed, TokenList, done, pop, pop_from, peek, check_and_consume, peek_rounds,
}
use hzcc.Syntax.Tree.{Expr, decl_ref, literal, integer, ternary}
use hzcc.Syntax.Names.{CompilationUnit}
use hzcc.Syntax.Operand.{
  next_type, parse_access_expr, post_operators, parse_primary, parse_suffixes, parse_postfix_expr,
}
use hzcc.Syntax.Operators.{
  Rule, comma_rule, conditional_rule, logical_or_rule, unary_rule, parse_unary_expr,
  parse_conditional_expr, assign_rule, is_unary_op,
}
use hzcc.Syntax.Parser.{step}
use hzcc.Syntax.Grammar.Levels.{is_suffix}

abbrev pub list_of : List Token → List Token → TokenList
list_of ts cached = record { tokens = ts; cached_attributes = cached }

-- The tokens that an operand may start with here.
abbrev pub is_operand : TokenType → Bool
is_operand t = t == k_identity || t == int_lit || t == b'('

-- A token that is no suffix ends an operand.
module _ (comma_expr assign_expr : TokenList → Parsed Expr) (t : Token) (rest cached : List Token)
    (plain : is_qualifier t.token_type ≡ false) (ends : is_suffix t.token_type ≡ false) where
  parse_suffixes-end :
      (e : Expr)
      → parse_suffixes comma_expr assign_expr (list_of (t ∷ rest) cached) e
        ≡ done (e, list_of (t ∷ rest) cached)
  unfolding parse_suffixes next_type peek peek_rounds post_operators
  parse_suffixes-end e =
      let bracket : (t.token_type == b'[') ≡ false = ground arith in
      let access : (t.token_type == k_arrow || t.token_type == b'.') ≡ false = ground arith in
      let inc : (t.token_type == k_self_increment || t.token_type == k_self_decrement) ≡ false =
        ground arith in
      rw (plain, bracket, access, inc) refl

  pub parse_postfix_expr-variable :
      (a : Token)
      → a.token_type ≡ k_identity
      → parse_postfix_expr comma_expr assign_expr (list_of (a ∷ t ∷ rest) cached)
        ≡ done (decl_ref a.location (to_str a false), list_of (t ∷ rest) cached)
  unfolding parse_postfix_expr parse_primary parse_access_expr next_type peek peek_rounds pop
      pop_from
  parse_postfix_expr-variable a h =
      let paren : (t.token_type == b'(') ≡ false = ground arith in
      rw (h, plain, paren) (parse_suffixes-end _)

  pub parse_postfix_expr-integer :
      (a : Token)
      → a.token_type ≡ int_lit
      → parse_postfix_expr comma_expr assign_expr (list_of (a ∷ t ∷ rest) cached)
        ≡ done (literal integer a.location (to_str a false), list_of (t ∷ rest) cached)
  unfolding parse_postfix_expr parse_primary parse_access_expr next_type peek peek_rounds pop
      pop_from
  parse_postfix_expr-integer a h = rw h (parse_suffixes-end _)

  pub parse_postfix_expr-parentheses :
      (open_ close : Token) (inside : List Token) (e : Expr)
      → open_.token_type ≡ b'('
      → close.token_type ≡ b')'
      → comma_expr (list_of inside cached) ≡ done (e, list_of (close ∷ t ∷ rest) cached)
      → parse_postfix_expr comma_expr assign_expr (list_of (open_ ∷ inside) cached)
        ≡ done (e, list_of (t ∷ rest) cached)
  unfolding parse_postfix_expr parse_primary next_type peek peek_rounds pop pop_from
      check_and_consume
  parse_postfix_expr-parentheses open_ close inside e ho hc h =
      rw (ho, h, hc) (parse_suffixes-end _)

-- ParseUnaryExpr hands a token that is no operator on.
pub step-unary :
    (ctx : CompilationUnit) (self : Rule → TokenList → Parsed Expr) (a : Token)
    (ts cached : List Token) (type : TokenType)
    → a.token_type ≡ type
    → is_operand type ≡ true
    → step ctx self unary_rule (list_of (a ∷ ts) cached)
      ≡ parse_postfix_expr (self comma_rule) (self assign_rule) (list_of (a ∷ ts) cached)
unfolding step parse_unary_expr peek peek_rounds
step-unary ctx self a ts cached type h operand =
    let plain : is_qualifier type ≡ false = ground arith in
    let no_op : is_unary_op type ≡ false = ground arith in
    let no_size : (type == sizeof_kw) ≡ false = ground arith in
    let no_inc : (type == k_self_increment || type == k_self_decrement) ≡ false = ground arith in
    rw (h, plain, no_op, no_size, no_inc) refl

module _ (ctx : CompilationUnit) (self : Rule → TokenList → Parsed Expr) where
  pub step-conditional-end :
      (l : TokenList) (e : Expr) (t : Token) (rest cached : List Token)
      → step ctx self logical_or_rule l ≡ done (e, list_of (t ∷ rest) cached)
      → is_qualifier t.token_type ≡ false
      → (t.token_type == b'?') ≡ false
      → step ctx self conditional_rule l ≡ done (e, list_of (t ∷ rest) cached)
  unfolding step parse_conditional_expr peek peek_rounds
  step-conditional-end l e t rest cached h plain other = rw (h, plain, other) refl

  pub step-conditional-choice :
      (l : TokenList) (condition true_expr false_expr : Expr) (question colon : Token)
      (behind others rest cached : List Token)
      → step ctx self logical_or_rule l ≡ done (condition, list_of (question ∷ behind) cached)
      → question.token_type ≡ b'?'
      → self conditional_rule (list_of behind cached)
        ≡ done (true_expr, list_of (colon ∷ others) cached)
      → colon.token_type ≡ b':'
      → self conditional_rule (list_of others cached) ≡ done (false_expr, list_of rest cached)
      → step ctx self conditional_rule l
        ≡ done (ternary question.location condition true_expr false_expr, list_of rest cached)
  unfolding step parse_conditional_expr peek peek_rounds pop pop_from check_and_consume
  step-conditional-choice l c te fe question colon behind others rest cached h hq h2 hc h3 =
      rw (h, hq, h2, hc, h3) refl
