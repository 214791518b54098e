-- ===== src/Syntax/Statements/Factory.antt =====
-- hzcc/parser/syntax/parser/statement_parser.cc: Statement::parse_impl;
-- hzcc/parser/syntax/parser/parser_factory.h: the map of the parsers; and
-- hzcc/parser/syntax/syntax_impl.cc: GenerateAST.
use hzcc.Prelude.{ℕ, zero, suc, ◌+◌, ◌*◌, ◌==◌, if◌then◌else◌, Bool, not, ◌||◌, none, some}
use hzcc.Token.Kinds.{
  struct_kw, return_kw, if_kw, do_kw, for_kw, while_kw, break_kw, continue_kw, k_identity,
  is_type_specifier,
}
use hzcc.Token.Value.{Position}
use hzcc.Syntax.Tokens.{
  ◌>>=◌, Parse, done, undefined, no_fuel, pop, peek3, token_err, not_within_loop,
}
use hzcc.Syntax.Operators.{comma_rule}
use hzcc.Syntax.Parser.{parse}
use hzcc.Syntax.Statements.{
  Stmt, empty_stmt, expr_stmt, return_stmt, break_stmt, continue_stmt, State, StmtParser,
  state_count, no_tokens, peek_type, peek_loc, skip,
}
use hzcc.Syntax.Statements.Parts.{
  Request, stmt_request, compound_request, do_request, for_request, if_request, while_request,
  expr_request, var_decl_request, decl_stmt_request, i_decl_stmt_request, parse_compound,
}
use hzcc.Syntax.Statements.Control.{parse_do, parse_while, parse_for, parse_if}

-- ParseCommaExpr as a statement.
unfoldable pub expression : StmtParser
unfolding parse
expression s =
    parse s.unit comma_rule s.tokens >>= λ (e, l). done (expr_stmt e, record s { tokens = l })

-- `break` and `continue`: the position is that of the token behind.
unfoldable pub jump : (Position → Stmt) → StmtParser
unfolding skip peek_loc token_err
jump node s =
    if s.inside_loop
    then (skip s >>= λ s1. peek_loc s1 >>= λ loc. done (node loc, s1))
    else token_err not_within_loop s.tokens

unfoldable pub parse_return : StmtParser
unfolding pop peek_type expression parse
parse_return s = pop s.tokens >>= λ (token, l). peek_type (record s { tokens = l }) >>= λ t.
    if not (t == b';')
    then (parse s.unit comma_rule l >>= λ (e, l1).
        done (return_stmt token.location (some e), record s { tokens = l1 }))
    else done (return_stmt token.location none, record s { tokens = l })

module _ (is_numerical : Stmt → Bool) where
  -- Statement::parse_impl
  unfoldable pub parse_stmt : (Request → StmtParser) → StmtParser
  unfolding peek_type peek3 expression jump parse_return
  parse_stmt self s = peek_type s >>= λ t.
      if t == b';'
      then done (empty_stmt, s)
      else if t == struct_kw
      then (peek3 s.tokens >>= λ third.
          if third.token_type == b'{' then self decl_stmt_request s else expression s)
      else if t == return_kw
      then parse_return s
      else if t == if_kw
      then self if_request s
      else if t == do_kw
      then self do_request s
      else if t == for_kw
      then self for_request s
      else if t == while_kw
      then self while_request s
      else if t == break_kw
      then jump break_stmt s
      else if t == continue_kw
      then jump continue_stmt s
      else if is_type_specifier t || t == k_identity
      then self var_decl_request s
      else expression s

  -- The parsers in `_parserMap`; for the other classes the map gives `unregistered`.
  unfoldable pub registered : (Request → StmtParser) → (Request → StmtParser) → Request → StmtParser
  unfolding parse_stmt parse_compound parse_do parse_for parse_if parse_while
  registered unregistered self stmt_request = parse_stmt self
  registered unregistered self compound_request = parse_compound self
  registered unregistered self do_request = parse_do is_numerical self
  registered unregistered self for_request = parse_for is_numerical self
  registered unregistered self if_request = parse_if is_numerical self
  registered unregistered self while_request = parse_while is_numerical self
  registered unregistered self expr_request = unregistered expr_request
  registered unregistered self var_decl_request = unregistered var_decl_request
  registered unregistered self decl_stmt_request = unregistered decl_stmt_request
  registered unregistered self i_decl_stmt_request = unregistered i_decl_stmt_request

  unfoldable pub request_with : (Request → StmtParser) → ℕ → Request → StmtParser
  unfolding registered
  request_with unregistered zero request s = no_fuel
  request_with unregistered (suc fuel) request s =
      registered unregistered (request_with unregistered fuel) request s

  -- Parser::Parse. A class that is not in the map gives a null pointer, whose `parse` is undefined.
  unfoldable pub parse_request : Request → StmtParser
  unfolding request_with
  parse_request request s = request_with (λ _ _. undefined) (2 * state_count s + 3) request s

  -- GenerateAST: `add_decl` is CompilationUnit::addDecl.
  unfoldable pub generate_ast : (Stmt → State → State) → ℕ → State → Parse State
  unfolding peek_type skip parse_request
  generate_ast add_decl zero s = no_fuel
  generate_ast add_decl (suc fuel) s =
      let next = skip s >>= λ s1. generate_ast add_decl fuel s1 in
      let decl = parse_request i_decl_stmt_request s >>= λ (stmt, s1).
      generate_ast add_decl fuel (add_decl stmt s1) in
      if no_tokens s then done s else (peek_type s >>= λ t. if t == b';' then next else decl)
