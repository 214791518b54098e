-- ===== src/Syntax/Statements/Straight.antt =====
-- hzcc/parser/syntax/parser/parser_factory.h: what the parsers in the map can read.
pub mod Program
use hzcc.Prelude.{ℕ, zero, suc, ◌≡◌, Bool, true, false, none, [], ◌==◌, if◌then◌else◌}
use hzcc.Token.Kinds.{TokenType, if_kw, do_kw, for_kw, while_kw}
use hzcc.Syntax.Tokens.{
  ◌>>=◌, Parse, done, error_at, undefined, diverges, aborts, no_fuel, pop, peek, check_and_consume,
}
use hzcc.Syntax.Names.{find}
use hzcc.Syntax.Statements.{
  Stmt, Stmts, no_stmt, next_stmt, add_stmt, compound_stmt, if_stmt, do_stmt, while_stmt, for_stmt,
  State, StmtParser, no_tokens, state_count, peek_type, peek_loc, skip, consume, enter_loop,
  enter_scope, entered_scope, has_body,
}
use hzcc.Syntax.Statements.Parts.{
  Request, stmt_request, compound_request, expr_request, parse_condition, end_stmt,
  parse_body_statement, statements, parse_compound,
}
use hzcc.Syntax.Statements.Control.{parse_do, parse_while, parse_for, parse_if}
use hzcc.Syntax.Statements.Loops.{WhenDone, WhenDone-bind}

-- A statement that is no loop, no branch and no block.
abbrev pub IsStraight : Stmt → Type 0
IsStraight (compound_stmt _ _) = ⊥
IsStraight (if_stmt _ _ _ _ _) = ⊥
IsStraight (do_stmt _ _ _) = ⊥
IsStraight (while_stmt _ _ _) = ⊥
IsStraight (for_stmt _ _ _ _ _) = ⊥
IsStraight _ = Unit

abbrev pub AllStraight : Stmts → Type 0
AllStraight no_stmt = Unit
AllStraight (next_stmt s rest) = IsStraight s × AllStraight rest

-- A block of such statements.
abbrev pub IsStraightBlock : Stmt → Type 0
IsStraightBlock (compound_stmt _ block) = AllStraight block
IsStraightBlock _ = ⊥

AllStraight-add_stmt :
    (block : Stmts) (s : Stmt) → AllStraight block → IsStraight s → AllStraight (add_stmt block s)
unfolding add_stmt
AllStraight-add_stmt no_stmt s h p = (p, tt)
AllStraight-add_stmt (next_stmt t rest) s h p = (h.0, AllStraight-add_stmt rest s h.1 p)

-- No function has the empty name.
abbrev pub NoEmptyName : State → Type 0
NoEmptyName s = find s.scoped_symbol_table [] ≡ none

-- What a parser of the map gives, on a state whose functions have names.
abbrev pub Reads : Request → Stmt × State → Type 0
Reads stmt_request r = IsStraight r.0 × NoEmptyName r.1
Reads compound_request r = IsStraightBlock r.0
Reads _ r = ⊥

pub WhenDone-stop {ℓ κ} :
    {A : Type ℓ} {B : Type κ} (Q : B → Type 0) (r : Parse A) (f : A → Parse B)
    → WhenDone (λ a. ⊥) r
    → WhenDone Q (r >>= f)
WhenDone-stop Q (done a) f h = elim h [ ]
WhenDone-stop Q (error_at _ _) f h = tt
WhenDone-stop Q undefined f h = tt
WhenDone-stop Q (diverges t) f h = tt
WhenDone-stop Q aborts f h = tt
WhenDone-stop Q no_fuel f h = tt

pub WhenDone-then {ℓ κ} :
    {A : Type ℓ} {B : Type κ} {P : A → Type 0} (Q : B → Type 0) (r : Parse A) (f : A → Parse B)
    → WhenDone P r
    → ((a : A) → P a → WhenDone Q (f a))
    → WhenDone Q (r >>= f)
WhenDone-then Q (done a) f p h = h a p
WhenDone-then Q (error_at _ _) f p h = tt
WhenDone-then Q undefined f p h = tt
WhenDone-then Q (diverges t) f p h = tt
WhenDone-then Q aborts f p h = tt
WhenDone-then Q no_fuel f p h = tt

pub WhenDone-if {ℓ} :
    {A : Type ℓ} (Q : A → Type 0) (b : Bool) (x y : Parse A)
    → WhenDone Q x
    → WhenDone Q y
    → WhenDone Q (if b then x else y)
WhenDone-if Q true x y hx hy = hx
WhenDone-if Q false x y hx hy = hy

pub skip-NoEmptyName : (s : State) → NoEmptyName s → WhenDone NoEmptyName (skip s)
unfolding skip
skip-NoEmptyName s h = WhenDone-bind _ (pop s.tokens) _ (λ r. h)

consume-NoEmptyName :
    (type : TokenType) (s : State) → NoEmptyName s → WhenDone NoEmptyName (consume type s)
unfolding consume
consume-NoEmptyName type s h = WhenDone-bind _ (check_and_consume type s.tokens) _ (λ l. h)

enter_scope-never : (s : State) → NoEmptyName s → WhenDone (λ s'. ⊥) (enter_scope s [])
unfolding enter_scope entered_scope
enter_scope-never s h = rw h tt

module _ (is_numerical : Stmt → Bool) (self : Request → StmtParser)
    (self-Reads : (r : Request) (s : State) → NoEmptyName s → WhenDone (Reads r) (self r s))
    (self-expr : (s : State) → WhenDone (λ r. ⊥) (self expr_request s)) where
  parse_condition-never : (s : State) → WhenDone (λ r. ⊥) (parse_condition self s)
  unfolding parse_condition
  parse_condition-never s =
      WhenDone-bind _ (consume b'(' s) _
        λ s1. WhenDone-stop _ (self expr_request s1) _ (self-expr s1)

  pub parse_do-never : (s : State) → WhenDone (λ r. ⊥) (parse_do is_numerical self s)
  unfolding parse_do
  parse_do-never s = WhenDone-bind _ (peek_loc (enter_loop s)) _ λ loc.
      WhenDone-bind _ (consume do_kw (enter_loop s)) _ λ s1.
        WhenDone-bind _ (parse_body_statement self false s1) _ λ r.
          WhenDone-bind _ (consume while_kw r.1) _
            λ s3. WhenDone-stop _ (parse_condition self s3) _ (parse_condition-never s3)

  pub parse_while-never : (s : State) → WhenDone (λ r. ⊥) (parse_while is_numerical self s)
  unfolding parse_while
  parse_while-never s = WhenDone-bind _ (peek_loc (enter_loop s)) _ λ loc.
      WhenDone-bind _ (consume while_kw (enter_loop s)) _
        λ s1. WhenDone-stop _ (parse_condition self s1) _ (parse_condition-never s1)

  pub parse_for-never :
      (s : State) → NoEmptyName s → WhenDone (λ r. ⊥) (parse_for is_numerical self s)
  unfolding parse_for
  parse_for-never s h = WhenDone-bind _ (peek_loc (enter_loop s)) _ λ loc.
      WhenDone-then _ (consume for_kw (enter_loop s)) _
        (consume-NoEmptyName for_kw (enter_loop s) h)
        λ s1 h1. WhenDone-bind _ (peek_loc s1) _ λ paren.
          WhenDone-then _ (consume b'(' s1) _ (consume-NoEmptyName b'(' s1 h1)
            λ s2 h2. WhenDone-stop _ (enter_scope s2 []) _ (enter_scope-never s2 h2)

  pub parse_if-never : (s : State) → WhenDone (λ r. ⊥) (parse_if is_numerical self s)
  unfolding parse_if
  parse_if-never s = WhenDone-bind _ (peek_loc s) _ λ loc. WhenDone-bind _ (consume if_kw s) _ λ s1.
      WhenDone-bind _ (peek s1.tokens) _
        λ t. WhenDone-stop _ (parse_condition self s1) _ (parse_condition-never s1)

  statements-Reads :
      (fuel : ℕ) (block : Stmts) (s : State)
      → AllStraight block
      → NoEmptyName s
      → WhenDone (λ r. AllStraight r.0) (statements self fuel block s)
  unfolding statements end_stmt
  statements-Reads zero block s h named = tt
  statements-Reads (suc fuel) block s h named = WhenDone-if _ (no_tokens s) _ _ h (
      WhenDone-bind _ (peek_type s) _ λ t. WhenDone-if _ (t == b'}') _ _ h (
        WhenDone-then _ (self stmt_request s) _ (self-Reads stmt_request s named) λ (stmt, s1) p.
          WhenDone-then _ (end_stmt self stmt s1) _
            (WhenDone-if NoEmptyName (has_body stmt) (done s1) (consume b';' s1) p.1
              (consume-NoEmptyName b';' s1 p.1))
            λ s2 h2.
              statements-Reads fuel (add_stmt block stmt) s2 (AllStraight-add_stmt block stmt h p.0)
                h2))

  pub parse_compound-Reads :
      (s : State) → NoEmptyName s → WhenDone (λ r. IsStraightBlock r.0) (parse_compound self s)
  unfolding parse_compound
  parse_compound-Reads s named = WhenDone-bind _ (peek_loc s) _ λ loc.
      WhenDone-then _ (consume b'{' s) _ (consume-NoEmptyName b'{' s named) λ s1 h1.
        WhenDone-then _ (statements self (suc (state_count s1)) no_stmt s1) _
          (statements-Reads (suc (state_count s1)) no_stmt s1 tt h1)
          λ (block, s2) p.
            WhenDone-if _ (no_tokens s2) _ _ tt (WhenDone-bind _ (consume b'}' s2) _ (λ s3. p))
