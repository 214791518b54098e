-- ===== src/Syntax/Progress/Operators.antt =====
-- hzcc/parser/syntax/parser/statement_parser.cc: the progress of the operators, and of the parser.
use hzcc.Syntax.Lookup.{peek_rounds-qualifier}
use hzcc.Prelude.{ℕ, zero, suc, ◌≤◌, ◌<◌, ◌≡◌, ◌≢◌, Bool, ◌==◌, arith, none, true, All, false}
use hzcc.Token.Kinds.{TokenType, is_qualifier}
use hzcc.Token.Value.{Token}
use hzcc.Syntax.Tokens.{
  Parsed, TokenList, token_count, done, no_fuel, pop, peek, check_and_consume, peek_rounds,
  diverges,
}
use hzcc.Syntax.Tree.{Expr}
use hzcc.Syntax.Names.{CompilationUnit}
use hzcc.Syntax.Operators.{
  Rule, comma_rule, assign_rule, conditional_rule, logical_or_rule, logical_and_rule,
  bitwise_or_rule, bitwise_xor_rule, bitwise_and_rule, equality_rule, relational_rule, shift_rule,
  additive_rule, multiplicative_rule, cast_rule, unary_rule, parse_binary, parse_comma_expr,
  parse_assign_expr, parse_conditional_expr, parse_logical_or_expr, parse_logical_and_expr,
  parse_bitwise_or_expr, parse_bitwise_xor_expr, parse_bitwise_and_expr, parse_equality_expr,
  parse_relational_expr, parse_shift_expr, parse_additive_expr, parse_multiplicative_expr,
  parse_unary_expr,
}
use hzcc.Syntax.Parser.{step, parse_rule, parse}
use hzcc.Syntax.Progress.{
  Always, Always-bind, Always-if, Takes, Takes-trans, Takes-count, Good, pop-Good, AlwaysIn-weaken,
  Within, Within-IsStuck, IsStuck, ending, peek-AlwaysIn, check_and_consume-Good, Within-plain,
}
use hzcc.Syntax.Progress.Unary.{parse_unary_expr-Good, parse_cast_expr-Good}

module _ (D : Token → Type 0) where
  parse_binary-Good :
      (n : ℕ) (is_op : TokenType → Bool) (node : Token → Expr → Expr → Expr)
      (next again : TokenList → Parsed Expr)
      → ((l : TokenList) → token_count l ≤ n → Within D l → Good D 1 l (next l))
      → ((l : TokenList) → token_count l < n → Within D l → Good D 1 l (again l))
      → (l : TokenList) → token_count l ≤ n
      → Within D l
      → Good D 1 l (parse_binary is_op node next again l)
  unfolding parse_binary
  parse_binary-Good n is_op node next again next-Good again-Good l small w =
      Always-bind D _ _ (next l) (next-Good l small w) λ (lhs, l1) (p1, w1).
        let c1 = Takes-count l l1 p1 in
        Always-bind D _ _ (peek l1) (peek-AlwaysIn D l1 w1) λ op _.
          Always-if D _ (is_op op.token_type) _ _
            (Always-bind D _ _ (pop l1) (pop-Good D l1 w1) λ (taken, l2) (p2, w2).
              let c2 = Takes-count l1 l2 p2 in
              Always-bind D _ _ (again l2) (again-Good l2 (omega arith) w2) λ (rhs, l3) (p3, w3).
                ending D l l3 w3 (omega arith) (Takes-trans l l2 l3 (Takes-trans l l1 l2 p1 p2) p3))
            (p1, w1)

  module _ (ctx : CompilationUnit) (self : Rule → TokenList → Parsed Expr) (n : ℕ)
      (self-Good : (rule : Rule) (l : TokenList)
        → token_count l < n
        → Within D l
        → Good D 1 l (self rule l)) where
    parse_multiplicative_expr-Good :
        (l : TokenList)
        → token_count l ≤ n
        → Within D l
        → Good D 1 l (parse_multiplicative_expr ctx self l)
    unfolding parse_multiplicative_expr
    parse_multiplicative_expr-Good =
        parse_binary-Good n _ _ (parse_unary_expr ctx self) (self multiplicative_rule)
          (parse_unary_expr-Good D ctx self n self-Good) (self-Good multiplicative_rule)

    parse_additive_expr-Good :
        (l : TokenList)
        → token_count l ≤ n
        → Within D l
        → Good D 1 l (parse_additive_expr ctx self l)
    unfolding parse_additive_expr
    parse_additive_expr-Good =
        parse_binary-Good n _ _ (parse_multiplicative_expr ctx self) (self additive_rule)
          parse_multiplicative_expr-Good (self-Good additive_rule)

    parse_shift_expr-Good :
        (l : TokenList) → token_count l ≤ n → Within D l → Good D 1 l (parse_shift_expr ctx self l)
    unfolding parse_shift_expr
    parse_shift_expr-Good =
        parse_binary-Good n _ _ (parse_additive_expr ctx self) (self shift_rule)
          parse_additive_expr-Good (self-Good shift_rule)

    parse_relational_expr-Good :
        (l : TokenList)
        → token_count l ≤ n
        → Within D l
        → Good D 1 l (parse_relational_expr ctx self l)
    unfolding parse_relational_expr
    parse_relational_expr-Good =
        parse_binary-Good n _ _ (parse_shift_expr ctx self) (self relational_rule)
          parse_shift_expr-Good (self-Good relational_rule)

    parse_equality_expr-Good :
        (l : TokenList)
        → token_count l ≤ n
        → Within D l
        → Good D 1 l (parse_equality_expr ctx self l)
    unfolding parse_equality_expr
    parse_equality_expr-Good =
        parse_binary-Good n _ _ (parse_relational_expr ctx self) (self equality_rule)
          parse_relational_expr-Good (self-Good equality_rule)

    parse_bitwise_and_expr-Good :
        (l : TokenList)
        → token_count l ≤ n
        → Within D l
        → Good D 1 l (parse_bitwise_and_expr ctx self l)
    unfolding parse_bitwise_and_expr
    parse_bitwise_and_expr-Good =
        parse_binary-Good n _ _ (parse_equality_expr ctx self) (self bitwise_and_rule)
          parse_equality_expr-Good (self-Good bitwise_and_rule)

    parse_bitwise_xor_expr-Good :
        (l : TokenList)
        → token_count l ≤ n
        → Within D l
        → Good D 1 l (parse_bitwise_xor_expr ctx self l)
    unfolding parse_bitwise_xor_expr
    parse_bitwise_xor_expr-Good =
        parse_binary-Good n _ _ (parse_bitwise_and_expr ctx self) (self bitwise_xor_rule)
          parse_bitwise_and_expr-Good (self-Good bitwise_xor_rule)

    parse_bitwise_or_expr-Good :
        (l : TokenList)
        → token_count l ≤ n
        → Within D l
        → Good D 1 l (parse_bitwise_or_expr ctx self l)
    unfolding parse_bitwise_or_expr
    parse_bitwise_or_expr-Good =
        parse_binary-Good n _ _ (parse_bitwise_xor_expr ctx self) (self bitwise_or_rule)
          parse_bitwise_xor_expr-Good (self-Good bitwise_or_rule)

    parse_logical_and_expr-Good :
        (l : TokenList)
        → token_count l ≤ n
        → Within D l
        → Good D 1 l (parse_logical_and_expr ctx self l)
    unfolding parse_logical_and_expr
    parse_logical_and_expr-Good =
        parse_binary-Good n _ _ (parse_bitwise_or_expr ctx self) (self logical_and_rule)
          parse_bitwise_or_expr-Good (self-Good logical_and_rule)

    parse_logical_or_expr-Good :
        (l : TokenList)
        → token_count l ≤ n
        → Within D l
        → Good D 1 l (parse_logical_or_expr ctx self l)
    unfolding parse_logical_or_expr
    parse_logical_or_expr-Good =
        parse_binary-Good n _ _ (parse_logical_and_expr ctx self) (self logical_or_rule)
          parse_logical_and_expr-Good (self-Good logical_or_rule)

    parse_conditional_expr-Good :
        (l : TokenList)
        → token_count l ≤ n
        → Within D l
        → Good D 1 l (parse_conditional_expr ctx self l)
    unfolding parse_conditional_expr
    parse_conditional_expr-Good l small w =
        Always-bind D _ _ (parse_logical_or_expr ctx self l) (parse_logical_or_expr-Good l small w)
          λ (lhs, l1) (p1, w1).
            let c1 = Takes-count l l1 p1 in
            Always-bind D _ _ (peek l1) (peek-AlwaysIn D l1 w1) λ t _.
              Always-if D _ (t.token_type == b'?') _ _
                (Always-bind D _ _ (pop l1) (pop-Good D l1 w1) λ (taken, l2) (p2, w2).
                  let c2 = Takes-count l1 l2 p2 in
                  Always-bind D _ _ (self conditional_rule l2)
                    (self-Good conditional_rule l2 (omega arith) w2)
                    λ (true_expr, l3) (p3, w3).
                      let c3 = Takes-count l2 l3 p3 in
                      Always-bind D _ _ (check_and_consume b':' l3)
                        (check_and_consume-Good D b':' l3 w3)
                        λ l4 (p4, w4).
                          let c4 = Takes-count l3 l4 p4 in
                          Always-bind D _ _ (self conditional_rule l4)
                            (self-Good conditional_rule l4 (omega arith) w4)
                            λ (false_expr, l5) (p5, w5). ending {m = 1} D l l5 w5 (omega arith) (
                              Takes-trans l l4 l5
                                (Takes-trans l l3 l4
                                  (Takes-trans l l2 l3 (Takes-trans l l1 l2 p1 p2) p3) p4)
                                p5))
                (p1, w1)

    parse_assign_expr-Good :
        (l : TokenList) → token_count l ≤ n → Within D l → Good D 1 l (parse_assign_expr ctx self l)
    unfolding parse_assign_expr
    parse_assign_expr-Good =
        parse_binary-Good n _ _ (parse_conditional_expr ctx self) (self assign_rule)
          parse_conditional_expr-Good (self-Good assign_rule)

    parse_comma_expr-Good :
        (l : TokenList) → token_count l ≤ n → Within D l → Good D 1 l (parse_comma_expr ctx self l)
    unfolding parse_comma_expr
    parse_comma_expr-Good =
        parse_binary-Good n _ _ (parse_assign_expr ctx self) (self comma_rule)
          parse_assign_expr-Good (self-Good comma_rule)

    step-Good :
        (rule : Rule) (l : TokenList)
        → token_count l ≤ n
        → Within D l
        → Good D 1 l (step ctx self rule l)
    unfolding step
    step-Good comma_rule l small w = parse_comma_expr-Good l small w
    step-Good assign_rule l small w = parse_assign_expr-Good l small w
    step-Good conditional_rule l small w = parse_conditional_expr-Good l small w
    step-Good logical_or_rule l small w = parse_logical_or_expr-Good l small w
    step-Good logical_and_rule l small w = parse_logical_and_expr-Good l small w
    step-Good bitwise_or_rule l small w = parse_bitwise_or_expr-Good l small w
    step-Good bitwise_xor_rule l small w = parse_bitwise_xor_expr-Good l small w
    step-Good bitwise_and_rule l small w = parse_bitwise_and_expr-Good l small w
    step-Good equality_rule l small w = parse_equality_expr-Good l small w
    step-Good relational_rule l small w = parse_relational_expr-Good l small w
    step-Good shift_rule l small w = parse_shift_expr-Good l small w
    step-Good additive_rule l small w = parse_additive_expr-Good l small w
    step-Good multiplicative_rule l small w = parse_multiplicative_expr-Good l small w
    step-Good cast_rule l small w = parse_cast_expr-Good D ctx self n self-Good l small w
    step-Good unary_rule l small w = parse_unary_expr-Good D ctx self n self-Good l small w

  parse_rule-Good :
      (ctx : CompilationUnit) (fuel : ℕ) (rule : Rule) (l : TokenList)
      → token_count l < fuel
      → Within D l
      → Good D 1 l (parse_rule ctx fuel rule l)
  unfolding parse_rule
  parse_rule-Good ctx zero rule l h w = elim h [ ]
  parse_rule-Good ctx (suc fuel) rule l h w =
      step-Good ctx (parse_rule ctx fuel) fuel (parse_rule-Good ctx fuel) rule l (omega arith) w

  -- What the parser returns with a tree, and where it does not end.
  pub parse-Good :
      (ctx : CompilationUnit) (rule : Rule) (l : TokenList)
      → Within D l
      → Good D 1 l (parse ctx rule l)
  unfolding parse
  parse-Good ctx rule l w = parse_rule-Good ctx (suc (token_count l)) rule l (omega arith) w

-- What the parser returns with a tree: the token list without one or more tokens at its front.
pub parse-Takes :
    (ctx : CompilationUnit) (rule : Rule) (l : TokenList)
    → Always (λ a. Takes 1 l a.1) (parse ctx rule l)
parse-Takes ctx rule l =
    AlwaysIn-weaken _ _ (parse ctx rule l) (λ a h. h.0)
      (parse-Good IsStuck ctx rule l (Within-IsStuck l))

-- The parser of expressions, started at any of its functions on any token list, never runs out of
-- fuel. Where it does not end all the same, it stands in `peek` at a qualifier, and no number of
-- rounds ends the loop of `peek` on that token.
pub parse-total :
    (ctx : CompilationUnit) (rule : Rule) (l : TokenList)
    → (parse ctx rule l ≢ no_fuel)
      × ((t : Token)
          → parse ctx rule l ≡ diverges t
          → (is_qualifier t.token_type ≡ true) × ((n : ℕ) → peek_rounds n t t ≡ none))
parse-total ctx rule l = (
  λ e. rw e at (parse-Takes ctx rule l),
  λ t e.
      let q : is_qualifier t.token_type ≡ true = rw e at (parse-Takes ctx rule l) in
      (q, peek_rounds-qualifier t q),
)

-- A tree is read from one or more tokens at the front of the list; the tokens behind them are left as
-- they are.
pub parse-suffix :
    (ctx : CompilationUnit) (rule : Rule) (l l' : TokenList) (e : Expr)
    → parse ctx rule l ≡ done (e, l')
    → Takes 1 l l'
parse-suffix ctx rule l l' e h = rw h at (parse-Takes ctx rule l)

-- On a token list without a qualifier the parser of expressions, started at any of its functions, ends:
-- it neither runs out of fuel nor stands in the loop of `peek`.
pub parse_ends :
    (ctx : CompilationUnit) (rule : Rule) (l : TokenList)
    → All (λ t. is_qualifier t.token_type ≡ false) l.tokens
    → (parse ctx rule l ≢ no_fuel) × ((t : Token) → parse ctx rule l ≢ diverges t)
parse_ends ctx rule l plain = (λ e. rw e at always, λ t e. rw e at always)
  where
    always : Good (λ t. ⊥) 1 l (parse ctx rule l)
    always = parse-Good (λ t. ⊥) ctx rule l (Within-plain _ l plain)
