-- ===== src/Syntax/Progress/Unary.antt =====
-- hzcc/parser/syntax/parser/statement_parser.cc: the progress of unary operators, `sizeof` and casts.
use hzcc.Prelude.{ℕ, ◌≤◌, ◌<◌, ◌||◌, List, [], ◌∷◌, ◌==◌, arith}
use hzcc.Token.Kinds.{TokenType, k_self_increment, k_self_decrement, sizeof_kw, struct_kw}
use hzcc.Token.Value.{Token}
use hzcc.Syntax.Tokens.{
  ◌>>=◌, Parse, Parsed, TokenList, token_count, done, undefined, pop, peek, peek2,
  check_and_consume,
}
use hzcc.Syntax.Tree.{Expr}
use hzcc.Syntax.Names.{CompilationUnit, parse_type_name}
use hzcc.Syntax.Operators.{
  Rule, comma_rule, assign_rule, cast_rule, unary_rule, is_unary_op, names_type, is_sizeof_type,
  is_cast, parse_cast_expr, parse_unary_expr,
}
use hzcc.Syntax.Progress.{
  Always-bind, Always-if, Takes-trans, Takes-count, Good, pop-Good, AlwaysIn, Within, ending,
  peek-AlwaysIn, check_and_consume-Good,
}
use hzcc.Syntax.Progress.Names.{parse_type_name-Good}
use hzcc.Syntax.Progress.Operand.{parse_postfix_expr-Good}

module _ (D : Token → Type 0) where
  peek2-Always : (l : TokenList) → Within D l → AlwaysIn D (λ t. Unit) (peek2 l)
  unfolding peek2
  peek2-Always l w = go l.tokens
    where
      go :
          (ts : List Token)
          → AlwaysIn D
              (λ t. Unit)
              (elim ts as (λ ts. Parse Token) [
                | [] ↦ undefined
                | _ ∷ rest ↦ elim rest [ [] ↦ undefined | t ∷ _ ↦ done t ]
              ])
      go [] = tt
      go (a ∷ []) = tt
      go (a ∷ b ∷ _) = tt

  module _ (ctx : CompilationUnit) (self : Rule → TokenList → Parsed Expr) (n : ℕ)
      (self-Good : (rule : Rule) (l : TokenList)
        → token_count l < n
        → Within D l
        → Good D 1 l (self rule l)) where
    names_type-Always :
        (l : TokenList) → Within D l → AlwaysIn D (λ t. Unit) (names_type ctx self l)
    unfolding names_type
    names_type-Always l w = Always-bind D _ _ (peek2 l) (peek2-Always l w) (λ t _. tt)

    is_sizeof_type-Always :
        (type : TokenType) (l : TokenList)
        → Within D l
        → AlwaysIn D (λ t. Unit) (is_sizeof_type ctx self type l)
    unfolding is_sizeof_type
    is_sizeof_type-Always type l w =
        Always-if D _ (type == b'(') _ _
          (Always-if D _ (type == struct_kw) _ _ tt (names_type-Always l w)) tt

    is_cast-Always :
        (type : TokenType) (l : TokenList)
        → Within D l
        → AlwaysIn D (λ t. Unit) (is_cast ctx self type l)
    unfolding is_cast
    is_cast-Always type l w = Always-if D _ (type == b')') _ _ tt (names_type-Always l w)

    -- An operand behind a token: an operator or `sizeof`.
    behind :
        (l : TokenList) (rule : Rule) (node : Token → Expr → Expr)
        → token_count l ≤ n
        → Within D l
        → Good D 1 l (pop l >>= λ (taken, l1). self rule l1 >>= λ (e, l2). done (node taken e, l2))
    behind l rule node small w = Always-bind D _ _ (pop l) (pop-Good D l w) λ (taken, l1) (p1, w1).
        let c1 = Takes-count l l1 p1 in
        Always-bind D _ _ (self rule l1) (self-Good rule l1 (omega arith) w1)
          λ (e, l2) (p2, w2). ending {m = 1} D l l2 w2 (omega arith) (Takes-trans l l1 l2 p1 p2)

    pub parse_unary_expr-Good :
        (l : TokenList) → token_count l ≤ n → Within D l → Good D 1 l (parse_unary_expr ctx self l)
    unfolding parse_unary_expr
    parse_unary_expr-Good l small w = Always-bind D _ _ (peek l) (peek-AlwaysIn D l w) λ t _.
        Always-if D _ (is_unary_op t.token_type) _ _ (behind l cast_rule _ small w) (
          Always-if D _ (t.token_type == sizeof_kw) _ _
            (Always-bind D _ _ (pop l) (pop-Good D l w) λ (size_of, l1) (p1, w1).
              let c1 = Takes-count l l1 p1 in
              Always-bind D _ _ (peek l1) (peek-AlwaysIn D l1 w1) λ paren _.
                Always-bind D _ _ (is_sizeof_type ctx self paren.token_type l1)
                  (is_sizeof_type-Always paren.token_type l1 w1)
                  λ is_type _.
                    Always-if D _ is_type _ _
                      (Always-bind D _ _ (pop l1) (pop-Good D l1 w1) λ (taken, l2) (p2, w2).
                        Always-bind D _ _ (parse_type_name ctx l2)
                          (parse_type_name-Good D ctx l2 w2)
                          λ (type, l3) (p3, w3).
                            Always-bind D _ _ (check_and_consume b')' l3)
                              (check_and_consume-Good D b')' l3 w3)
                              λ l4 (p4, w4). ending {m = 1} D l l4 w4 (omega arith) (
                                Takes-trans l l3 l4
                                  (Takes-trans l l2 l3 (Takes-trans l l1 l2 p1 p2) p3) p4))
                      (Always-bind D _ _ (self unary_rule l1)
                        (self-Good unary_rule l1 (omega arith) w1)
                        λ (e, l2) (p2, w2).
                          ending {m = 1} D l l2 w2 (omega arith) (Takes-trans l l1 l2 p1 p2)))
            (Always-if D _ (t.token_type == k_self_increment || t.token_type == k_self_decrement) _
              _ (behind l unary_rule _ small w)
              (parse_postfix_expr-Good D (self comma_rule) (self assign_rule) n
                (self-Good comma_rule) (self-Good assign_rule) l small w)))

    pub parse_cast_expr-Good :
        (l : TokenList) → token_count l ≤ n → Within D l → Good D 1 l (parse_cast_expr ctx self l)
    unfolding parse_cast_expr
    parse_cast_expr-Good l small w = Always-bind D _ _ (peek l) (peek-AlwaysIn D l w) λ t _.
        Always-bind D _ _ (is_cast ctx self t.token_type l) (is_cast-Always t.token_type l w)
          λ cast _.
            Always-if D _ cast _ _
              (Always-bind D _ _ (pop l) (pop-Good D l w) λ (taken, l1) (p1, w1).
                let c1 = Takes-count l l1 p1 in
                Always-bind D _ _ (parse_type_name ctx l1) (parse_type_name-Good D ctx l1 w1)
                  λ (type, l2) (p2, w2).
                    let c2 = Takes-count l1 l2 p2 in
                    Always-bind D _ _ (check_and_consume b')' l2)
                      (check_and_consume-Good D b')' l2 w2)
                      λ l3 (p3, w3).
                        let c3 = Takes-count l2 l3 p3 in
                        Always-bind D _ _ (self cast_rule l3)
                          (self-Good cast_rule l3 (omega arith) w3)
                          λ (e, l4) (p4, w4). ending {m = 1} D l l4 w4 (omega arith) (
                            Takes-trans l l3 l4 (Takes-trans l l2 l3 (Takes-trans l l1 l2 p1 p2) p3)
                              p4))
              (parse_unary_expr-Good l small w)
