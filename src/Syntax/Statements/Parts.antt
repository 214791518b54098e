-- ===== src/Syntax/Statements/Parts.antt =====
-- hzcc/parser/syntax/common_utils.h: ParseCondition and ParseBodyStatement; and
-- hzcc/parser/syntax/parser/statements/compound_parser.cc. `self` answers Parser::Parse for a class.
use hzcc.Prelude.{ℕ, zero, suc, ◌==◌, if◌then◌else◌, [], Bool}
use hzcc.Syntax.Tokens.{◌>>=◌, Parse, done, error_at, no_fuel, unmatched_brace}
use hzcc.Syntax.Statements.{
  Stmt, Stmts, no_stmt, next_stmt, compound_stmt, add_stmt, has_body, stmt_loc, State, StmtParser,
  state_count, peek_type, peek_loc, consume, push_semicolon, enter_scope, leave_scope, no_tokens,
}

-- The classes that Parser::Parse is called for.
pub data Request : Type 0 where
  stmt_request compound_request do_request for_request if_request while_request : Request
  expr_request var_decl_request decl_stmt_request i_decl_stmt_request : Request

module _ (self : Request → StmtParser) where
  unfoldable pub parse_condition : StmtParser
  unfolding consume
  parse_condition s = do
    s1 ← consume b'(' s
    (condition, s2) ← self expr_request s1
    s3 ← consume b')' s2
    done (condition, s3)

  -- The end of a statement: `;`, if it has no body.
  unfoldable pub end_stmt : Stmt → State → Parse State
  unfolding has_body consume
  end_stmt stmt s = if has_body stmt then done s else consume b';' s

  -- A body in braces, in a scope of its own.
  unfoldable pub parse_block : Bool → StmtParser
  unfolding enter_scope leave_scope push_semicolon
  parse_block add_semicolon s = do
    s1 ← enter_scope s []
    (body, s2) ← self compound_request s1
    done (body, if add_semicolon then push_semicolon (leave_scope s2) else leave_scope s2)

  -- A body of one statement, in a compound statement at its position.
  unfoldable pub parse_single : StmtParser
  unfolding end_stmt stmt_loc
  parse_single s = do
    (body, s1) ← self stmt_request s
    s2 ← end_stmt body s1
    done (compound_stmt (stmt_loc body) (next_stmt body no_stmt), s2)

  -- ParseBodyStatement
  unfoldable pub parse_body_statement : Bool → StmtParser
  unfolding peek_type parse_block parse_single
  parse_body_statement add_semicolon s =
      peek_type s >>= λ t. if t == b'{' then parse_block add_semicolon s else parse_single s

  -- The loop over the statements of a block.
  unfoldable pub statements : ℕ → Stmts → State → Parse (Stmts × State)
  unfolding peek_type end_stmt add_stmt
  statements zero block s = no_fuel
  statements (suc fuel) block s =
      let more = do
        (stmt, s1) ← self stmt_request s
        s2 ← end_stmt stmt s1
        statements fuel (add_stmt block stmt) s2
      in if no_tokens s
        then done (block, s)
        else (peek_type s >>= λ t. if t == b'}' then done (block, s) else more)

  -- CompoundStatement::parse_impl
  unfoldable pub parse_compound : StmtParser
  unfolding peek_loc consume statements
  parse_compound s = do
    loc ← peek_loc s
    s1 ← consume b'{' s
    statements (suc (state_count s1)) no_stmt s1 >>= λ (block, s2).
        if no_tokens s2
        then error_at unmatched_brace loc
        else (consume b'}' s2 >>= λ s3. done (compound_stmt loc block, s3))
