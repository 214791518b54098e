-- ===== src/Examples/Statements.antt =====
-- hzcc/parser/syntax/parser: statements of a few tokens.
use hzcc.Syntax.Progress.{IsStuck, Within-IsStuck}
use hzcc.Syntax.Operand.{parse_postfix_expr}
use hzcc.Syntax.Tree.{decl_ref}
use hzcc.Prelude.{
  ◌-◌, ◌^◌, ◌≡◌, ◌↔◌, refl, Bool, true, false, none, List, [], ◌∷◌, arith, ℕ, some, codes, ◌≢◌,
}
use hzcc.Token.Kinds.{while_kw, return_kw, k_identity}
use hzcc.Token.Value.{Token, symbol_token, Position, to_str}
use hzcc.Syntax.Tokens.{done, error_at, not_within_loop, no_fuel, diverges}
use hzcc.Syntax.Names.{CompilationUnit, find}
use hzcc.Syntax.Statements.{
  Stmt, return_stmt, empty_stmt, while_stmt, compound_stmt, no_stmt, next_stmt, State, StmtParser,
  has_body, expr_stmt,
}
use hzcc.Syntax.Statements.Parts.{
  Request, stmt_request, compound_request, while_request, expr_request,
}
use hzcc.Syntax.Statements.Factory.{
  parse_stmt, registered, request_with, parse_request, generate_ast, expression,
}
use hzcc.Syntax.Statements.Shrinks.{Good, WithinState}
use hzcc.Syntax.Statements.Total.{request_with-total, request_with_ends}
use hzcc.Syntax.Statements.Loops.{WhenDone, break_token, break-behind_loop}
use hzcc.Syntax.Statements.Straight.{IsStraight, IsStraightBlock}
use hzcc.Syntax.Statements.Straight.Program.{
  parse_request-IsStraight, AllSemicolons, generate_ast_iff,
}

abbrev no_scopes : CompilationUnit
no_scopes = record { named_types = []; current_context = [] }

abbrev on : List Token → State
on ts = record {
  tokens = record { tokens = ts; cached_attributes = [] };
  unit = no_scopes;
  scoped_symbol_table = [];
  inside_loop = false;
}

abbrev always : Stmt → Bool
always s = true

abbrev place : ℕ → Position
place col = record { row = 1; col = col }

-- A parser that takes nothing, in place of those that the map lacks.
abbrev nothing : Request → StmtParser
nothing r s = done (empty_stmt, s)

nothing-Good :
    (D : Token → Type 0) (r : Request) (s : State) → WithinState D s → Good D s (nothing r s)
unfolding has_body
nothing-Good D r s w = (omega arith, w)

-- `while ( ) ;`
abbrev empty_loop : List Token
empty_loop =
    symbol_token while_kw 1 0
    ∷ symbol_token b'(' 1 5
    ∷ symbol_token b')' 1 6
    ∷ symbol_token b';' 1 7
    ∷ []

request_with-total_example :
    Good IsStuck (on empty_loop) (request_with always nothing 11 while_request (on empty_loop))
request_with-total_example =
    request_with-total IsStuck always nothing (nothing-Good IsStuck) while_request (on empty_loop)
      (Within-IsStuck (on empty_loop).tokens)

request_with_ends_example :
    (request_with always nothing 11 while_request (on empty_loop) ≢ no_fuel)
    × ((t : Token) → request_with always nothing 11 while_request (on empty_loop) ≢ diverges t)
request_with_ends_example =
    request_with_ends always nothing (nothing-Good (λ t. ⊥)) while_request (on empty_loop)
      (refl, (refl, (refl, (refl, tt))))

-- The parser of expressions in place of the one that the map lacks, for conditions.
abbrev conditions : Request → StmtParser
conditions expr_request s = expression s
conditions _ s = nothing stmt_request s

-- `while ( a ) ;`
abbrev name_loop : List Token
name_loop =
    symbol_token while_kw 1 0
    ∷ symbol_token b'(' 1 5
    ∷ record { token_type = k_identity; value = some (codes "a"); location = place 6 }
    ∷ symbol_token b')' 1 7
    ∷ symbol_token b';' 1 8
    ∷ []

abbrev loop_stmt : Stmt
loop_stmt =
    while_stmt (place 0) (expr_stmt (decl_ref (place 6) (codes "a")))
      (compound_stmt (record { row = 0; col = 0 }) (next_stmt empty_stmt no_stmt))

abbrev behind : State
behind = on (symbol_token b';' (2 ^ 64 - 1) (2 ^ 64 - 1) ∷ [])

abbrev calls : Request → StmtParser
calls = request_with always conditions 9

reads_loop :
    registered always conditions calls while_request (on name_loop) ≡ done (loop_stmt, behind)
unfolding registered request_with expression parse_postfix_expr to_str
reads_loop = refl

break-behind_loop_example :
    parse_stmt always calls (record behind {
      tokens = record {
        tokens = break_token none (record { row = 2; col = 0 }) ∷ [];
        cached_attributes = [];
      };
    })
    ≡ error_at not_within_loop (record { row = 2; col = 0 })
break-behind_loop_example =
    break-behind_loop always conditions calls while_request (on name_loop) behind loop_stmt none
      (record { row = 2; col = 0 }) [] [] tt reads_loop

-- `{ return ; }`
abbrev return_block : List Token
return_block =
    symbol_token b'{' 1 0
    ∷ symbol_token return_kw 1 2
    ∷ symbol_token b';' 1 9
    ∷ symbol_token b'}' 1 11
    ∷ []

no_names : find (on return_block).scoped_symbol_table [] ≡ none
unfolding find
no_names = refl

parse_request-IsStraight_example :
    WhenDone (λ r. IsStraight r.0) (parse_request always stmt_request (on return_block))
    × WhenDone (λ r. IsStraightBlock r.0) (parse_request always compound_request (on return_block))
parse_request-IsStraight_example = parse_request-IsStraight always (on return_block) no_names

reads_block :
    parse_request always compound_request (on return_block)
    ≡ done (
      compound_stmt
          (record { row = 1; col = 0 })
          (next_stmt (return_stmt (record { row = 1; col = 2 }) none) no_stmt),
      on [],
    )
unfolding parse_request
reads_block = refl

abbrev two_semicolons : List Token
two_semicolons = symbol_token b';' 1 0 ∷ symbol_token b';' 1 1 ∷ []

generate_ast_iff_example :
    ((s' : State) × (generate_ast always (λ d s. s) 3 (on two_semicolons) ≡ done s'))
    ↔ AllSemicolons two_semicolons
generate_ast_iff_example = generate_ast_iff always (λ d s. s) (on two_semicolons)
