-- ===== src/Syntax/Statements/Control.antt =====
-- hzcc/parser/syntax/parser/statements: do_parser.cc, while_parser.cc, for_parser.cc, if_parser.cc.
-- `is_numerical` is `type()->is<TypeCategory::Numerical>()` of a condition, a question to the nodes of
-- hzcc/ast/expr/Expr.h.
use hzcc.Prelude.{ℕ, zero, suc, ◌==◌, if◌then◌else◌, [], false, Bool, not}
use hzcc.Token.Kinds.{TokenType, do_kw, while_kw, for_kw, if_kw, else_kw}
use hzcc.Token.Value.{Token}
use hzcc.Syntax.Tokens.{
  ◌>>=◌, Parse, done, error_at, no_fuel, pop, peek, multiple_else, not_numeric,
}
use hzcc.Syntax.Statements.{
  Stmt, OptStmt, ElseIfs, if_stmt, do_stmt, while_stmt, for_stmt, absent, present, no_else_if,
  add_else_if, has_else, State, StmtParser, state_count, peek_type, peek_loc, skip, consume,
  push_semicolon, enter_loop, exit_loop, enter_scope, leave_scope,
}
use hzcc.Syntax.Statements.Parts.{
  Request, stmt_request, expr_request, parse_condition, parse_body_statement,
}

module _ (is_numerical : Stmt → Bool) (self : Request → StmtParser) where
  -- DoStatement::parse_impl; the node is made with the body where it has its condition.
  unfoldable pub parse_do : StmtParser
  unfolding peek_loc consume parse_body_statement parse_condition
  parse_do s = do
    loc ← peek_loc (enter_loop s)
    s1 ← consume do_kw (enter_loop s)
    (condition, s2) ← parse_body_statement self false s1
    s3 ← consume while_kw s2
    (body, s4) ← parse_condition self s3
    done (do_stmt loc condition body, exit_loop s4)

  -- WhileStatement::parse_impl
  unfoldable pub parse_while : StmtParser
  unfolding peek_loc consume parse_body_statement parse_condition push_semicolon
  parse_while s = do
    loc ← peek_loc (enter_loop s)
    s1 ← consume while_kw (enter_loop s)
    (condition, s2) ← parse_condition self s1
    (body, s3) ← parse_body_statement self false s2
    done (while_stmt loc condition body, exit_loop (push_semicolon s3))

  -- A part of the head of a `for`, up to the token that ends it: nothing, if this is the next one,
  -- which is then left.
  unfoldable pub for_part : TokenType → State → Parse (OptStmt × State)
  unfolding peek_type consume
  for_part end s = peek_type s >>= λ t.
      if not (t == end)
      then (self stmt_request s >>= λ (part, s1). consume end s1 >>= λ s2. done (present part, s2))
      else done (absent, s)

  unfoldable pub for_body : State → Parse (OptStmt × State)
  unfolding peek_type parse_body_statement
  for_body s = peek_type s >>= λ t.
      if not (t == b';')
      then (parse_body_statement self false s >>= λ (body, s1). done (present body, s1))
      else done (absent, s)

  -- ForStatement::parse_impl
  unfoldable pub parse_for : StmtParser
  unfolding peek_loc consume enter_scope for_part for_body leave_scope push_semicolon
  parse_for s = do
    loc ← peek_loc (enter_loop s)
    s1 ← consume for_kw (enter_loop s)
    left_paren_loc ← peek_loc s1
    s2 ← consume b'(' s1
    s3 ← enter_scope s2 []
    (init, s4) ← for_part b';' s3
    (cond, s5) ← for_part b';' s4
    (incr, s6) ← for_part b')' s5
    (body, s7) ← for_body s6
    done (for_stmt loc init cond incr body, exit_loop (push_semicolon (leave_scope s7)))

  -- `else {`
  unfoldable pub else_block : Token → OptStmt → State → Parse (OptStmt × State)
  unfolding enter_scope parse_body_statement leave_scope
  else_block prev_else otherwise s =
      if has_else otherwise then error_at multiple_else prev_else.location else do
        s1 ← enter_scope s []
        (body, s2) ← parse_body_statement self false s1
        done (present body, leave_scope s2)

  -- `else if`, behind the `else`: the condition and the body.
  unfoldable pub else_if : State → Parse ((Stmt × Stmt) × State)
  unfolding skip consume parse_body_statement
  else_if s = do
    s1 ← skip s
    s2 ← consume b'(' s1
    else_if_token ← peek s2.tokens
    s3 ← consume b'(' s2
    (condition, s4) ← self expr_request s3
    consume b')' s4 >>= λ s5.
        if is_numerical condition
        then error_at not_numeric else_if_token.location
        else (parse_body_statement self false s5 >>= λ (body, s6). done ((condition, body), s6))

  -- `else` with a statement.
  unfoldable pub else_single : State → Parse (OptStmt × State)
  unfolding parse_body_statement
  else_single s = parse_body_statement self false s >>= λ (body, s1). done (present body, s1)

  -- The loop over the `else`s.
  unfoldable pub elses : ℕ → ElseIfs → OptStmt → State → Parse ((ElseIfs × OptStmt) × State)
  unfolding peek_type else_block else_if else_single add_else_if
  elses zero ifs otherwise s = no_fuel
  elses (suc fuel) ifs otherwise s =
      let more = do
        (prev_else, l) ← pop s.tokens
        peek_type (record s { tokens = l }) >>= λ t.
            if t == b'{'
            then (else_block prev_else otherwise (record s { tokens = l }) >>= λ (body, s1).
                elses fuel ifs body s1)
            else if t == if_kw
            then (else_if (record s { tokens = l }) >>= λ ((cond, body), s1).
                elses fuel (add_else_if ifs cond body) otherwise s1)
            else (else_single (record s { tokens = l }) >>= λ (body, s1). elses fuel ifs body s1)
      in peek_type s >>= λ t. if t == else_kw then more else done ((ifs, otherwise), s)

  -- IfStatement::parse_impl
  unfoldable pub parse_if : StmtParser
  unfolding peek_loc consume parse_condition parse_body_statement elses
  parse_if s = do
    loc ← peek_loc s
    s1 ← consume if_kw s
    cond_token ← peek s1.tokens
    parse_condition self s1 >>= λ (condition, s2).
        if not (is_numerical condition) then error_at not_numeric cond_token.location else do
          (body, s3) ← parse_body_statement self false s2
          ((ifs, otherwise), s4) ← elses (suc (state_count s3)) no_else_if absent s3
          done (if_stmt loc condition body ifs otherwise, s4)
