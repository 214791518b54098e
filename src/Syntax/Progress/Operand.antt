-- ===== src/Syntax/Progress/Operand.antt =====
-- hzcc/parser/syntax/parser/statement_parser.cc: the progress of operands and of their suffixes.
use hzcc.Prelude.{ℕ, zero, suc, ◌≤◌, ◌<◌, false, not, ◌||◌, List, [], ◌∷◌, ◌++◌, ◌==◌, Bytes, arith}
use hzcc.Token.Kinds.{
  char_lit, int_lit, real_lit, str_lit, k_identity, k_arrow, k_self_increment, k_self_decrement,
  else_kw,
}
use hzcc.Token.Value.{Token, to_str}
use hzcc.Syntax.Tokens.{
  ◌>>=◌, Parsed, TokenList, token_count, done, pop, peek, check_and_consume, term_expected,
  expected_identifier, else_without_if,
}
use hzcc.Syntax.Tree.{Expr, Exprs, none_left, push_back}
use hzcc.Syntax.Operand.{
  next_type, join_strings, arguments, parse_access_expr, subscripts, members, post_operators,
  parse_primary, parse_suffixes, parse_postfix_expr,
}
use hzcc.Syntax.Progress.{
  Always-bind, Always-if, Takes-none, Takes-trans, Takes-count, Good, after, Takes-one, pop-Good,
  AlwaysIn, Within, ending, peek-AlwaysIn, check_and_consume-Good, token_err-AlwaysIn,
}

module _ (D : Token → Type 0) where
  pub next_type-Always : (l : TokenList) → Within D l → AlwaysIn D (λ t. Unit) (next_type l)
  unfolding next_type
  next_type-Always l w = Always-bind D _ _ (peek l) (peek-AlwaysIn D l w) (λ t _. tt)

  pub join_strings-Good :
      (ts cached : List Token) (s : Bytes)
      → Within D (record { tokens = ts; cached_attributes = cached })
      → Good D 0 (record { tokens = ts; cached_attributes = cached }) (join_strings ts cached s)
  unfolding join_strings
  join_strings-Good [] cached s w = tt
  join_strings-Good (t ∷ ts) cached s w =
      Always-bind D _ _ (peek (record { tokens = t ∷ ts; cached_attributes = cached }))
        (peek-AlwaysIn D (record { tokens = t ∷ ts; cached_attributes = cached }) w)
        λ next _.
          Always-if D _ (next.token_type == str_lit) _ _
            (after D 1 0 0 (record { tokens = t ∷ ts; cached_attributes = cached })
              (record { tokens = ts; cached_attributes = cached }) _ (omega arith)
              (Takes-one t ts cached cached)
              (join_strings-Good ts cached (s ++ to_str t false) w.1))
            (Takes-none (record { tokens = t ∷ ts; cached_attributes = cached }), w)

  -- The calls of the parser of expressions take a token of any list with fewer than `n` of them.
  module _ (comma_expr assign_expr : TokenList → Parsed Expr) (n : ℕ)
      (comma-Good : (l : TokenList) → token_count l < n → Within D l → Good D 1 l (comma_expr l))
      (assign-Good : (l : TokenList)
        → token_count l < n
        → Within D l
        → Good D 1 l (assign_expr l)) where
    arguments-Good :
        (fuel : ℕ) (l : TokenList) (args : Exprs)
        → token_count l < fuel
        → token_count l < n
        → Within D l
        → Good D 0 l (arguments comma_expr assign_expr fuel l args)
    unfolding arguments
    arguments-Good zero l args h small w = elim h [ ]
    arguments-Good (suc fuel) l args h small w =
        Always-bind D _ _ (next_type l) (next_type-Always l w) λ first _.
          Always-if D _ (first == b')') _ _ (Takes-none l, w)
            (Always-bind D _ _ (assign_expr l) (assign-Good l small w) λ (arg, l1) (p, w1).
              let c1 = Takes-count l l1 p in
              Always-bind D _ _ (next_type l1) (next_type-Always l1 w1) λ type _.
                Always-if D _ (type == b')') _ _
                  (after D 1 0 0 l l1 _ (omega arith) p
                    (arguments-Good fuel l1 (push_back args arg) (omega arith) (omega arith) w1))
                  (Always-bind D _ _ (check_and_consume b',' l1)
                    (check_and_consume-Good D b',' l1 w1)
                    λ l2 (p2, w2).
                      let c2 = Takes-count l1 l2 p2 in
                      Always-bind D _ _ (peek l2) (peek-AlwaysIn D l2 w2) λ t _.
                        Always-if D _ (t.token_type == b')') _ _ tt (
                          after D 2 0 0 l l2 _ (omega arith) (Takes-trans l l1 l2 p p2) (
                            arguments-Good fuel l2 (push_back args arg) (omega arith) (omega arith)
                              w2))))

    -- A literal token is taken as it is.
    take_literal :
        (l : TokenList) (e : Expr) → Within D l → Good D 1 l (pop l >>= λ (value, l1). done (e, l1))
    take_literal l e w = Always-bind D _ _ (pop l) (pop-Good D l w) (λ (value, l1) (p, w1). (p, w1))

    parse_access_expr-Good :
        (l : TokenList)
        → token_count l ≤ n
        → Within D l
        → Good D 1 l (parse_access_expr comma_expr assign_expr l)
    unfolding parse_access_expr
    parse_access_expr-Good l small w = Always-bind D _ _ (peek l) (peek-AlwaysIn D l w) λ t _.
        Always-if D _ (t.token_type == k_identity) _ _
          (Always-bind D _ _ (pop l) (pop-Good D l w) λ (ident, l1) (p, w1).
            let c1 = Takes-count l l1 p in
            Always-bind D _ _ (next_type l1) (next_type-Always l1 w1) λ type _.
              Always-if D _ (type == b'(') _ _
                (Always-bind D _ _ (pop l1) (pop-Good D l1 w1) λ (paren, l2) (p2, w2).
                  let c2 = Takes-count l1 l2 p2 in
                  Always-bind D _ _
                    (arguments comma_expr assign_expr (suc (token_count l2)) l2 none_left)
                    (arguments-Good (suc (token_count l2)) l2 none_left (omega arith) (omega arith)
                      w2)
                    λ (args, l3) (p3, w3).
                      Always-bind D _ _ (check_and_consume b')' l3)
                        (check_and_consume-Good D b')' l3 w3)
                        λ l4 (p4, w4). ending D l l4 w4 (omega arith) (
                          Takes-trans l l3 l4 (Takes-trans l l2 l3 (Takes-trans l l1 l2 p p2) p3)
                            p4))
                (p, w1))
          (Always-if D _ (t.token_type == char_lit) _ _ (take_literal l _ w) (
            Always-if D _ (t.token_type == int_lit) _ _ (take_literal l _ w) (
              Always-if D _ (t.token_type == real_lit) _ _ (take_literal l _ w) (
                Always-if D _ (t.token_type == str_lit) _ _
                  (Always-bind D _ _ (pop l) (pop-Good D l w) λ (lit, l1) (p, w1).
                    Always-bind D _ _
                      (join_strings l1.tokens l1.cached_attributes (to_str lit false))
                      (join_strings-Good l1.tokens l1.cached_attributes (to_str lit false) w1)
                      λ (s, l2) (p2, w2). ending D l l2 w2 (omega arith) (Takes-trans l l1 l2 p p2))
                  (Always-if D _ (t.token_type == else_kw) _ _
                    (token_err-AlwaysIn D _ else_without_if l w)
                    (token_err-AlwaysIn D _ term_expected l w))))))

    subscripts-Good :
        (fuel : ℕ) (l : TokenList) (e : Expr)
        → token_count l < fuel
        → token_count l ≤ n
        → Within D l
        → Good D 0 l (subscripts comma_expr assign_expr fuel l e)
    unfolding subscripts
    subscripts-Good zero l e h small w = elim h [ ]
    subscripts-Good (suc fuel) l e h small w =
        Always-bind D _ _ (next_type l) (next_type-Always l w) λ type _.
          Always-if D _ (type == b'[') _ _
            (Always-bind D _ _ (pop l) (pop-Good D l w) λ (bracket, l1) (p1, w1).
              let c1 = Takes-count l l1 p1 in
              Always-bind D _ _ (comma_expr l1) (comma-Good l1 (omega arith) w1)
                λ (expr, l2) (p2, w2).
                  let c2 = Takes-count l1 l2 p2 in
                  Always-bind D _ _ (check_and_consume b']' l2)
                    (check_and_consume-Good D b']' l2 w2)
                    λ l3 (p3, w3).
                      let c3 = Takes-count l2 l3 p3 in
                      after D 3 0 0 l l3 _ (omega arith)
                        (Takes-trans l l2 l3 (Takes-trans l l1 l2 p1 p2) p3)
                        (subscripts-Good fuel l3 _ (omega arith) (omega arith) w3))
            (Takes-none l, w)

    members-Good :
        (fuel : ℕ) (l : TokenList) (e : Expr)
        → token_count l < fuel
        → Within D l
        → Good D 0 l (members comma_expr assign_expr fuel l e)
    unfolding members
    members-Good zero l e h w = elim h [ ]
    members-Good (suc fuel) l e h w =
        Always-bind D _ _ (next_type l) (next_type-Always l w) λ type _.
          Always-if D _ (type == k_arrow || type == b'.') _ _
            (Always-bind D _ _ (pop l) (pop-Good D l w) λ (access, l1) (p1, w1).
              let c1 = Takes-count l l1 p1 in
              Always-bind D _ _ (pop l1) (pop-Good D l1 w1) λ (second, l2) (p2, w2).
                let c2 = Takes-count l1 l2 p2 in
                Always-bind D _ _ (next_type l2) (next_type-Always l2 w2) λ type2 _.
                  Always-if D _ (not (type2 == k_identity)) _ _
                    (token_err-AlwaysIn D _ expected_identifier l2 w2)
                    (Always-bind D _ _ (pop l2) (pop-Good D l2 w2) λ (name, l3) (p3, w3).
                      let c3 = Takes-count l2 l3 p3 in
                      after D 3 0 0 l l3 _ (omega arith)
                        (Takes-trans l l2 l3 (Takes-trans l l1 l2 p1 p2) p3)
                        (members-Good fuel l3 _ (omega arith) w3)))
            (Takes-none l, w)

    post_operators-Good :
        (fuel : ℕ) (l : TokenList) (e : Expr)
        → token_count l < fuel
        → Within D l
        → Good D 0 l (post_operators comma_expr assign_expr fuel l e)
    unfolding post_operators
    post_operators-Good zero l e h w = elim h [ ]
    post_operators-Good (suc fuel) l e h w =
        Always-bind D _ _ (next_type l) (next_type-Always l w) λ type _.
          Always-if D _ (type == k_self_increment || type == k_self_decrement) _ _
            (Always-bind D _ _ (pop l) (pop-Good D l w) λ (op, l1) (p1, w1).
              let c1 = Takes-count l l1 p1 in
              after D 1 0 0 l l1 _ (omega arith) p1
                (post_operators-Good fuel l1 _ (omega arith) w1))
            (Takes-none l, w)

    parse_suffixes-Good :
        (l : TokenList) (e : Expr)
        → token_count l ≤ n
        → Within D l
        → Good D 0 l (parse_suffixes comma_expr assign_expr l e)
    unfolding parse_suffixes
    parse_suffixes-Good l e small w =
        Always-bind D _ _ (next_type l) (next_type-Always l w) λ type _.
          Always-if D _ (type == b'[') _ _
            (subscripts-Good (suc (token_count l)) l e (omega arith) small w)
            (Always-if D _ (type == k_arrow || type == b'.') _ _
              (members-Good (suc (token_count l)) l e (omega arith) w)
              (post_operators-Good (suc (token_count l)) l e (omega arith) w))

    parse_primary-Good :
        (l : TokenList)
        → token_count l ≤ n
        → Within D l
        → Good D 1 l (parse_primary comma_expr assign_expr l)
    unfolding parse_primary
    parse_primary-Good l small w = Always-bind D _ _ (next_type l) (next_type-Always l w) λ type _.
        Always-if D _ (type == b'(') _ _
          (Always-bind D _ _ (pop l) (pop-Good D l w) λ (paren, l1) (p1, w1).
            let c1 = Takes-count l l1 p1 in
            Always-bind D _ _ (comma_expr l1) (comma-Good l1 (omega arith) w1)
              λ (expr, l2) (p2, w2).
                Always-bind D _ _ (check_and_consume b')' l2) (check_and_consume-Good D b')' l2 w2)
                  λ l3 (p3, w3).
                    ending D l l3 w3 (omega arith)
                      (Takes-trans l l2 l3 (Takes-trans l l1 l2 p1 p2) p3))
          (parse_access_expr-Good l small w)

    pub parse_postfix_expr-Good :
        (l : TokenList)
        → token_count l ≤ n
        → Within D l
        → Good D 1 l (parse_postfix_expr comma_expr assign_expr l)
    unfolding parse_postfix_expr
    parse_postfix_expr-Good l small w =
        Always-bind D _ _ (parse_primary comma_expr assign_expr l) (parse_primary-Good l small w)
          λ (e, l1) (p, w1).
            let c1 = Takes-count l l1 p in
            after D 1 0 1 l l1 _ (omega arith) p (parse_suffixes-Good l1 e (omega arith) w1)
