-- ===== src/Syntax/Statements.antt =====
-- hzcc/ast/Stmt.h: the nodes that the parser of statements builds, and what its functions share: the
-- token list, the scopes of hzcc/ast/CompilationUnit.cc, and the flag of
-- hzcc/parser/syntax/parser/syntax_parser.h.
pub mod Parts
pub mod Control
pub mod Factory
pub mod Shrinks
pub mod Total
pub mod Loops
pub mod Straight
use hzcc.Prelude.{
  ℕ, ◌-◌, ◌^◌, Bool, true, false, Option, none, some, List, [], ◌∷◌, ◌==◌, if◌then◌else◌, Bytes,
  length,
}
use hzcc.Token.Kinds.{TokenType}
use hzcc.Token.Value.{Position, symbol_token}
use hzcc.Syntax.Tokens.{
  ◌>>=◌, Parse, TokenList, token_count, done, undefined, aborts, pop, peek, push, check_and_consume,
}
use hzcc.Syntax.Tree.{
  Expr, comma, binary, ternary, explicit_cast, unary, sizeof_type, sizeof_expr, array_subscript,
  member, func_call, decl_ref, literal,
}
use hzcc.Syntax.Names.{CompilationUnit, Scopes, find}

-- EmptyExpr, the value of a `return` without one, is `none`.
mutual
  pub data Stmt : Type 0 where
    empty_stmt : Stmt
    expr_stmt : Expr → Stmt
    return_stmt : Position → Option Expr → Stmt
    break_stmt continue_stmt : Position → Stmt
    compound_stmt : Position → Stmts → Stmt
    if_stmt : Position → Stmt → Stmt → ElseIfs → OptStmt → Stmt
    do_stmt while_stmt : Position → Stmt → Stmt → Stmt
    for_stmt : Position → OptStmt → OptStmt → OptStmt → OptStmt → Stmt

  pub data Stmts : Type 0 where
    no_stmt : Stmts
    next_stmt : Stmt → Stmts → Stmts

  -- A null pointer, or a statement.
  pub data OptStmt : Type 0 where
    absent : OptStmt
    present : Stmt → OptStmt

  pub data ElseIfs : Type 0 where
    no_else_if : ElseIfs
    next_else_if : Stmt → Stmt → ElseIfs → ElseIfs

-- `add_stmt` and `add_else_if`, at the end
unfoldable pub add_stmt : Stmts → Stmt → Stmts
add_stmt no_stmt s = next_stmt s no_stmt
add_stmt (next_stmt t rest) s = next_stmt t (add_stmt rest s)

unfoldable pub add_else_if : ElseIfs → Stmt → Stmt → ElseIfs
add_else_if no_else_if cond body = next_else_if cond body no_else_if
add_else_if (next_else_if c b rest) cond body = next_else_if c b (add_else_if rest cond body)

abbrev pub has_else : OptStmt → Bool
has_else absent = false
has_else (present s) = true

-- The classes that override has_body; CompoundStmt does not.
unfoldable pub has_body : Stmt → Bool
has_body (if_stmt _ _ _ _ _) = true
has_body (do_stmt _ _ _) = true
has_body (while_stmt _ _ _) = true
has_body (for_stmt _ _ _ _ _) = true
has_body _ = false

-- `loc`, the position that a node is made with.
unfoldable pub expr_loc : Expr → Position
expr_loc (comma loc _ _) = loc
expr_loc (binary _ loc _ _ _) = loc
expr_loc (ternary loc _ _ _) = loc
expr_loc (explicit_cast loc _ _) = loc
expr_loc (unary loc _ _) = loc
expr_loc (sizeof_type loc _) = loc
expr_loc (sizeof_expr loc _) = loc
expr_loc (array_subscript loc _ _) = loc
expr_loc (member _ loc _ _) = loc
expr_loc (func_call loc _ _) = loc
expr_loc (decl_ref loc _) = loc
expr_loc (literal _ loc _) = loc

unfoldable pub stmt_loc : Stmt → Position
unfolding expr_loc
stmt_loc empty_stmt = record { row = 0; col = 0 }
stmt_loc (expr_stmt e) = expr_loc e
stmt_loc (return_stmt loc _) = loc
stmt_loc (break_stmt loc) = loc
stmt_loc (continue_stmt loc) = loc
stmt_loc (compound_stmt loc _) = loc
stmt_loc (if_stmt loc _ _ _ _) = loc
stmt_loc (do_stmt loc _ _) = loc
stmt_loc (while_stmt loc _ _) = loc
stmt_loc (for_stmt loc _ _ _ _) = loc

-- What the functions of the parser change. The scopes that have a name are those of functions; nothing
-- is added to a scope while statements are parsed, so a scope is held by value.
pub record State : Type 0 where
  pub tokens : TokenList
  pub unit : CompilationUnit
  pub scoped_symbol_table : List (Bytes × Scopes)
  pub inside_loop : Bool

abbrev pub state_count : State → ℕ
state_count s = token_count s.tokens

-- `empty`
abbrev pub no_tokens : State → Bool
no_tokens s = state_count s == 0

abbrev pub StmtParser : Type 0
StmtParser = State → Parse (Stmt × State)

-- The type of the next token.
unfoldable pub peek_type : State → Parse TokenType
unfolding peek
peek_type s = peek s.tokens >>= λ t. done t.token_type

-- The position of the next token.
unfoldable pub peek_loc : State → Parse Position
unfolding peek
peek_loc s = peek s.tokens >>= λ t. done t.location

-- A token that is taken.
unfoldable pub skip : State → Parse State
unfolding pop
skip s = pop s.tokens >>= λ r. done (record s { tokens = r.1 })

unfoldable pub consume : TokenType → State → Parse State
unfolding check_and_consume
consume type s = check_and_consume type s.tokens >>= λ l. done (record s { tokens = l })

-- `push(TokenType::SemiColon, -1, -1)`
unfoldable pub push_semicolon : State → State
unfolding push
push_semicolon s = record s { tokens = push s.tokens (symbol_token b';' (2 ^ 64 - 1) (2 ^ 64 - 1)) }

-- EnterLoop and ExitLoop
abbrev pub enter_loop : State → State
enter_loop s = record s { inside_loop = true }

abbrev pub exit_loop : State → State
exit_loop s = record s { inside_loop = false }

-- CompilationUnit::at_root, on a context that has not expired.
unfoldable pub at_root : Scopes → Parse Bool
at_root [] = undefined
at_root (t ∷ upper) = elim t.return_type [ none ↦ done true | some _ ↦ done false ]

-- The scope that is entered: of a name, in the table of the functions, or a new one in the current one.
unfoldable pub inner_scope : Scopes → Parse Scopes
unfolding at_root
inner_scope [] = undefined
inner_scope (t ∷ upper) = at_root (t ∷ upper) >>= λ root.
    if root
    then aborts
    else done (
        record { return_type = t.return_type; variable_lookup_table = []; named_types = [] }
        ∷ t
        ∷ upper)

unfoldable pub entered_scope : List (Bytes × Scopes) → Scopes → Bytes → Parse Scopes
unfolding find inner_scope
entered_scope table current name =
    if length name == 0
    then elim (find table name) [ none ↦ aborts | some scopes ↦ done scopes ]
    else inner_scope current

-- CompilationUnit::enter_scope
unfoldable pub enter_scope : State → Bytes → Parse State
unfolding entered_scope
enter_scope s name = entered_scope s.scoped_symbol_table s.unit.current_context name >>= λ scopes.
    done (record s { unit = record s.unit { current_context = scopes } })

-- CompilationUnit::leave_scope, which leaves a context that has expired as it is.
abbrev pub upper_scope : Scopes → Scopes
upper_scope [] = []
upper_scope (t ∷ upper) = upper

unfoldable pub leave_scope : State → State
leave_scope s = record s {
  unit = record s.unit { current_context = upper_scope s.unit.current_context };
}
