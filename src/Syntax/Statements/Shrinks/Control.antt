-- ===== src/Syntax/Statements/Shrinks/Control.antt =====
-- hzcc/parser/syntax/parser/statements: how the token list gets shorter.
use hzcc.Prelude.{ℕ, zero, suc, ◌+◌, ◌*◌, ◌≤◌, ◌<◌, Bool, false, not, [], ◌==◌, arith}
use hzcc.Token.Kinds.{TokenType, do_kw, while_kw, for_kw, if_kw, else_kw}
use hzcc.Token.Value.{Token}
use hzcc.Syntax.Tokens.{pop, peek}
use hzcc.Syntax.Progress.{Always-bind, Always-if, Takes-count, peek-AlwaysIn, pop-Good}
use hzcc.Syntax.Statements.{
  Stmt, OptStmt, ElseIfs, no_else_if, absent, add_else_if, has_else, State, StmtParser, state_count,
  peek_type, peek_loc, skip, consume, enter_loop, enter_scope, leave_scope, has_body,
}
use hzcc.Syntax.Statements.Parts.{
  Request, stmt_request, expr_request, parse_condition, parse_body_statement,
}
use hzcc.Syntax.Statements.Control.{
  parse_do, parse_while, for_part, for_body, parse_for, else_block, else_if, else_single, elses,
  parse_if,
}
use hzcc.Syntax.Statements.Shrinks.{
  Shrinks, Shrinks-le, Good, weight, peek_type-Always, peek_loc-Always, skip-Always, consume-Always,
  push_semicolon-count, leave_scope-count, enter_scope-Always, parse_condition-Shrinks,
  parse_body_statement-Shrinks, WithinState, push_semicolon-Within, leave_scope-Within,
}

module _ (is_numerical : Stmt → Bool) (D : Token → Type 0) (n : ℕ) (self : Request → StmtParser)
    (self-Good : (r : Request) (s : State)
      → weight r s < n
      → WithinState D s
      → Good D s (self r s)) where
  pub parse_do-Good :
      (s : State)
      → 2 * state_count s + 1 ≤ n
      → WithinState D s
      → Good D s (parse_do is_numerical self s)
  unfolding parse_do has_body
  parse_do-Good s h w =
      Always-bind D _ _ (peek_loc (enter_loop s)) (peek_loc-Always D (enter_loop s) w) λ loc _.
        Always-bind D _ _ (consume do_kw (enter_loop s)) (consume-Always D do_kw (enter_loop s) w)
          λ s1 (h1, w1).
            Always-bind D _ _ (parse_body_statement self false s1)
              (parse_body_statement-Shrinks D n self self-Good s1 (omega arith) w1)
              λ (condition, s2) (h2, w2).
                Always-bind D _ _ (consume while_kw s2) (consume-Always D while_kw s2 w2)
                  λ s3 (h3, w3).
                    Always-bind D _ _ (parse_condition self s3)
                      (parse_condition-Shrinks D n self self-Good s3 (omega arith) w3)
                      λ (body, s4) (h4, w4). (omega arith, w4)

  pub parse_while-Good :
      (s : State)
      → 2 * state_count s + 1 ≤ n
      → WithinState D s
      → Good D s (parse_while is_numerical self s)
  unfolding parse_while has_body
  parse_while-Good s h w =
      Always-bind D _ _ (peek_loc (enter_loop s)) (peek_loc-Always D (enter_loop s) w) λ loc _.
        Always-bind D _ _ (consume while_kw (enter_loop s))
          (consume-Always D while_kw (enter_loop s) w)
          λ s1 (h1, w1).
            Always-bind D _ _ (parse_condition self s1)
              (parse_condition-Shrinks D n self self-Good s1 (omega arith) w1)
              λ (condition, s2) (h2, w2).
                Always-bind D _ _ (parse_body_statement self false s2)
                  (parse_body_statement-Shrinks D n self self-Good s2 (omega arith) w2)
                  λ (body, s3) (h3, w3).
                    (omega (arith, push_semicolon-count s3), push_semicolon-Within D s3 w3)

  for_part-Shrinks :
      (end : TokenType) (s : State)
      → 2 * state_count s + 2 < n
      → WithinState D s
      → Shrinks D 0 s (for_part is_numerical self end s)
  unfolding for_part
  for_part-Shrinks end s h w = Always-bind D _ _ (peek_type s) (peek_type-Always D s w) λ t _.
      Always-if D _ (not (t == end)) _ _
        (Always-bind D _ _ (self stmt_request s) (self-Good stmt_request s h w)
          λ (part, s1) (h1, w1).
            Always-bind D _ _ (consume end s1) (consume-Always D end s1 w1)
              λ s2 (h2, w2). (omega arith, w2))
        (omega arith, w)

  for_body-Shrinks :
      (s : State)
      → 2 * state_count s + 2 < n
      → WithinState D s
      → Shrinks D 0 s (for_body is_numerical self s)
  unfolding for_body
  for_body-Shrinks s h w = Always-bind D _ _ (peek_type s) (peek_type-Always D s w) λ t _.
      Always-if D _ (not (t == b';')) _ _
        (Always-bind D _ _ (parse_body_statement self false s)
          (parse_body_statement-Shrinks D n self self-Good s h w)
          λ (body, s1) (h1, w1). (omega arith, w1))
        (omega arith, w)

  pub parse_for-Good :
      (s : State)
      → 2 * state_count s + 1 ≤ n
      → WithinState D s
      → Good D s (parse_for is_numerical self s)
  unfolding parse_for has_body
  parse_for-Good s h w =
      Always-bind D _ _ (peek_loc (enter_loop s)) (peek_loc-Always D (enter_loop s) w) λ loc _.
        Always-bind D _ _ (consume for_kw (enter_loop s)) (consume-Always D for_kw (enter_loop s) w)
          λ s1 (h1, w1). Always-bind D _ _ (peek_loc s1) (peek_loc-Always D s1 w1) λ paren _.
            Always-bind D _ _ (consume b'(' s1) (consume-Always D b'(' s1 w1) λ s2 (h2, w2).
              Always-bind D _ _ (enter_scope s2 []) (enter_scope-Always D s2 [] w2) λ s3 (h3, w3).
                Always-bind D _ _ (for_part is_numerical self b';' s3)
                  (for_part-Shrinks b';' s3 (omega arith) w3)
                  λ (init, s4) (h4, w4).
                    Always-bind D _ _ (for_part is_numerical self b';' s4)
                      (for_part-Shrinks b';' s4 (omega arith) w4)
                      λ (cond, s5) (h5, w5).
                        Always-bind D _ _ (for_part is_numerical self b')' s5)
                          (for_part-Shrinks b')' s5 (omega arith) w5)
                          λ (incr, s6) (h6, w6).
                            Always-bind D _ _ (for_body is_numerical self s6)
                              (for_body-Shrinks s6 (omega arith) w6)
                              λ (body, s7) (h7, w7). (
                                omega (
                                  arith,
                                  push_semicolon-count (leave_scope s7),
                                  leave_scope-count s7,
                                ),
                                push_semicolon-Within D (leave_scope s7)
                                    (leave_scope-Within D s7 w7),
                              )

  else_block-Shrinks :
      (prev_else : Token) (otherwise : OptStmt) (s : State)
      → 2 * state_count s + 2 < n
      → WithinState D s
      → Shrinks D 0 s (else_block is_numerical self prev_else otherwise s)
  unfolding else_block
  else_block-Shrinks prev_else otherwise s h w = Always-if D _ (has_else otherwise) _ _ tt (
      Always-bind D _ _ (enter_scope s []) (enter_scope-Always D s [] w) λ s1 (h1, w1).
        Always-bind D _ _ (parse_body_statement self false s1)
          (parse_body_statement-Shrinks D n self self-Good s1 (omega arith) w1)
          λ (body, s2) (h2, w2). (omega (arith, leave_scope-count s2), leave_scope-Within D s2 w2))

  else_if-Shrinks :
      (s : State)
      → 2 * state_count s + 2 < n
      → WithinState D s
      → Shrinks D 0 s (else_if is_numerical self s)
  unfolding else_if
  else_if-Shrinks s h w = Always-bind D _ _ (skip s) (skip-Always D s w) λ s1 (h1, w1).
      Always-bind D _ _ (consume b'(' s1) (consume-Always D b'(' s1 w1) λ s2 (h2, w2).
        Always-bind D _ _ (peek s2.tokens) (peek-AlwaysIn D s2.tokens w2) λ t _.
          Always-bind D _ _ (consume b'(' s2) (consume-Always D b'(' s2 w2) λ s3 (h3, w3).
            Always-bind D _ _ (self expr_request s3) (self-Good expr_request s3 (omega arith) w3)
              λ (condition, s4) (h4, w4).
                Always-bind D _ _ (consume b')' s4) (consume-Always D b')' s4 w4) λ s5 (h5, w5).
                  Always-if D _ (is_numerical condition) _ _ tt (
                    Always-bind D _ _ (parse_body_statement self false s5)
                      (parse_body_statement-Shrinks D n self self-Good s5 (omega arith) w5)
                      λ (body, s6) (h6, w6). (omega arith, w6))

  else_single-Shrinks :
      (s : State)
      → 2 * state_count s + 2 < n
      → WithinState D s
      → Shrinks D 0 s (else_single is_numerical self s)
  unfolding else_single
  else_single-Shrinks s h w =
      Always-bind D _ _ (parse_body_statement self false s)
        (parse_body_statement-Shrinks D n self self-Good s h w)
        λ (body, s1) (h1, w1). (omega arith, w1)

  elses-Shrinks :
      (fuel : ℕ) (ifs : ElseIfs) (otherwise : OptStmt) (s : State)
      → state_count s < fuel
      → 2 * state_count s + 1 ≤ n
      → WithinState D s
      → Shrinks D 0 s (elses is_numerical self fuel ifs otherwise s)
  unfolding elses
  elses-Shrinks zero ifs otherwise s h small w = elim h [ ]
  elses-Shrinks (suc fuel) ifs otherwise s h small w =
      Always-bind D _ _ (peek_type s) (peek_type-Always D s w) λ t _.
        Always-if D _ (t == else_kw) _ _
          (Always-bind D _ _ (pop s.tokens) (pop-Good D s.tokens w) λ (prev_else, l) (p, w0).
            let taken = Takes-count s.tokens l p in
            let s0 : State = record s { tokens = l } in
            Always-bind D _ _ (peek_type s0) (peek_type-Always D s0 w0) λ t _.
              Always-if D _ (t == b'{') _ _
                (Always-bind D _ _ (else_block is_numerical self prev_else otherwise s0)
                  (else_block-Shrinks prev_else otherwise s0 (omega arith) w0)
                  λ (body, s1) (h1, w1).
                    again s1 ifs body
                      (elses-Shrinks fuel ifs body s1 (omega arith) (omega arith) w1) (omega arith))
                (Always-if D _ (t == if_kw) _ _
                  (Always-bind D _ _ (else_if is_numerical self s0)
                    (else_if-Shrinks s0 (omega arith) w0)
                    λ ((cond, body), s1) (h1, w1).
                      again s1 (add_else_if ifs cond body) otherwise
                        (elses-Shrinks fuel (add_else_if ifs cond body) otherwise s1 (omega arith)
                          (omega arith) w1)
                        (omega arith))
                  (Always-bind D _ _ (else_single is_numerical self s0)
                    (else_single-Shrinks s0 (omega arith) w0)
                    λ (body, s1) (h1, w1).
                      again s1 ifs body
                        (elses-Shrinks fuel ifs body s1 (omega arith) (omega arith) w1)
                        (omega arith))))
          (omega arith, w)
    where
      again :
          (s1 : State) (ifs : ElseIfs) (otherwise : OptStmt)
          → Shrinks D 0 s1 (elses is_numerical self fuel ifs otherwise s1)
          → state_count s1 ≤ state_count s
          → Shrinks D 0 s (elses is_numerical self fuel ifs otherwise s1)
      again s1 ifs otherwise p le =
          Shrinks-le D 0 0 s s1 (elses is_numerical self fuel ifs otherwise s1) (omega arith) p

  pub parse_if-Good :
      (s : State)
      → 2 * state_count s + 1 ≤ n
      → WithinState D s
      → Good D s (parse_if is_numerical self s)
  unfolding parse_if has_body
  parse_if-Good s h w = Always-bind D _ _ (peek_loc s) (peek_loc-Always D s w) λ loc _.
      Always-bind D _ _ (consume if_kw s) (consume-Always D if_kw s w) λ s1 (h1, w1).
        Always-bind D _ _ (peek s1.tokens) (peek-AlwaysIn D s1.tokens w1) λ t _.
          Always-bind D _ _ (parse_condition self s1)
            (parse_condition-Shrinks D n self self-Good s1 (omega arith) w1)
            λ (condition, s2) (h2, w2). Always-if D _ (not (is_numerical condition)) _ _ tt (
              Always-bind D _ _ (parse_body_statement self false s2)
                (parse_body_statement-Shrinks D n self self-Good s2 (omega arith) w2)
                λ (body, s3) (h3, w3).
                  Always-bind D _ _
                    (elses is_numerical self (suc (state_count s3)) no_else_if absent s3)
                    (elses-Shrinks (suc (state_count s3)) no_else_if absent s3 (omega arith)
                      (omega arith) w3)
                    λ (others, s4) (h4, w4). (omega arith, w4))
