-- ===== src/Syntax/Statements/Total.antt =====
-- hzcc/parser/syntax/parser/parser_factory.h: the end of the parser of statements.
use hzcc.Prelude.{
  ℕ, zero, suc, ◌+◌, ◌*◌, ◌≤◌, ◌<◌, ◌≡◌, refl, Bool, false, not, ◌||◌, ◌==◌, arith, Option, none,
  some, get_elem?, All, ◌≢◌,
}
use hzcc.Token.Kinds.{
  struct_kw, return_kw, if_kw, do_kw, for_kw, while_kw, break_kw, continue_kw, k_identity,
  is_type_specifier, is_qualifier,
}
use hzcc.Token.Value.{Token, Position}
use hzcc.Syntax.Tokens.{TokenList, done, undefined, pop, peek3, not_within_loop, no_fuel, diverges}
use hzcc.Syntax.Operators.{comma_rule}
use hzcc.Syntax.Parser.{parse}
use hzcc.Syntax.Progress.{
  Always-bind, Always-if, Takes-count, AlwaysIn, Within-plain, token_err-AlwaysIn, pop-Good,
}
use hzcc.Syntax.Statements.{
  Stmt, break_stmt, continue_stmt, State, StmtParser, state_count, peek_type, peek_loc, skip,
  has_body,
}
use hzcc.Syntax.Statements.Parts.{
  Request, stmt_request, compound_request, do_request, for_request, if_request, while_request,
  expr_request, var_decl_request, decl_stmt_request, i_decl_stmt_request,
}
use hzcc.Syntax.Statements.Factory.{
  expression, jump, parse_return, parse_stmt, registered, request_with,
}
use hzcc.Syntax.Statements.Shrinks.{
  Good, weight, weight-le, peek_type-Always, peek_loc-Always, skip-Always, parse_compound-Good,
  WithinState,
}
use hzcc.Syntax.Statements.Shrinks.Control.{
  parse_do-Good, parse_while-Good, parse_for-Good, parse_if-Good,
}
use hzcc.Syntax.Progress.Operators.{parse-Good}

peek3-AlwaysIn : (D : Token → Type 0) (l : TokenList) → AlwaysIn D (λ t. Unit) (peek3 l)
unfolding peek3
peek3-AlwaysIn D l = go (get_elem? l.tokens 2)
  where
    go : (o : Option Token) → AlwaysIn D (λ t. Unit) (elim o [ none ↦ undefined | some t ↦ done t ])
    go none = tt
    go (some t) = tt

expression-Good : (D : Token → Type 0) (s : State) → WithinState D s → Good D s (expression s)
unfolding expression has_body
expression-Good D s w =
    Always-bind D _ _ (parse s.unit comma_rule s.tokens) (parse-Good D s.unit comma_rule s.tokens w)
      λ (e, l) (p, w0). let taken = Takes-count s.tokens l p in (omega arith, w0)

jump-Good :
    (D : Token → Type 0) (node : Position → Stmt) (s : State)
    → ((p : Position) → has_body (node p) ≡ false)
    → WithinState D s
    → Good D s (jump node s)
unfolding jump
jump-Good D node s bare w =
    Always-if D _ s.inside_loop _ _
      (Always-bind D _ _ (skip s) (skip-Always D s w) λ s1 (h1, w1).
        Always-bind D _ _ (peek_loc s1) (peek_loc-Always D s1 w1)
          λ loc _. (rw (bare loc) (omega arith), w1))
      (token_err-AlwaysIn D _ not_within_loop s.tokens w)

parse_return-Good : (D : Token → Type 0) (s : State) → WithinState D s → Good D s (parse_return s)
unfolding parse_return has_body
parse_return-Good D s w =
    Always-bind D _ _ (pop s.tokens) (pop-Good D s.tokens w) λ (token, l) (p, w0).
      let taken = Takes-count s.tokens l p in
      let s0 : State = record s { tokens = l } in
      Always-bind D _ _ (peek_type s0) (peek_type-Always D s0 w0) λ t _.
        Always-if D _ (not (t == b';')) _ _
          (Always-bind D _ _ (parse s.unit comma_rule l) (parse-Good D s.unit comma_rule l w0)
            λ (e, l1) (q, w1). let more = Takes-count l l1 q in (omega arith, w1))
          (omega arith, w0)

module _ (D : Token → Type 0) (is_numerical : Stmt → Bool) where
  parse_stmt-Good :
      (n : ℕ) (self : Request → StmtParser)
      → ((r : Request) (s : State) → weight r s < n → WithinState D s → Good D s (self r s))
      → (s : State) → 2 * state_count s + 2 ≤ n
      → WithinState D s
      → Good D s (parse_stmt is_numerical self s)
  unfolding parse_stmt has_body
  parse_stmt-Good n self self-Good s h w =
      Always-bind D _ _ (peek_type s) (peek_type-Always D s w) λ t _.
        Always-if D _ (t == b';') _ _ (omega arith, w)
          (Always-if D _ (t == struct_kw) _ _
            (Always-bind D _ _ (peek3 s.tokens) (peek3-AlwaysIn D s.tokens) λ third _.
              Always-if D _ (third.token_type == b'{') _ _
                (self-Good decl_stmt_request s (omega arith) w) (expression-Good D s w))
            (Always-if D _ (t == return_kw) _ _ (parse_return-Good D s w) (
              Always-if D _ (t == if_kw) _ _ (self-Good if_request s (omega arith) w) (
                Always-if D _ (t == do_kw) _ _ (self-Good do_request s (omega arith) w) (
                  Always-if D _ (t == for_kw) _ _ (self-Good for_request s (omega arith) w) (
                    Always-if D _ (t == while_kw) _ _ (self-Good while_request s (omega arith) w) (
                      Always-if D _ (t == break_kw) _ _ (jump-Good D break_stmt s (λ p. refl) w) (
                        Always-if D _ (t == continue_kw) _ _
                          (jump-Good D continue_stmt s (λ p. refl) w)
                          (Always-if D _ (is_type_specifier t || t == k_identity) _ _
                            (self-Good var_decl_request s (omega arith) w)
                            (expression-Good D s w))))))))))

  module _ (unregistered : Request → StmtParser)
      (unregistered-Good : (r : Request) (s : State)
        → WithinState D s
        → Good D s (unregistered r s)) where
    registered-Good :
        (n : ℕ) (self : Request → StmtParser)
        → ((r : Request) (s : State) → weight r s < n → WithinState D s → Good D s (self r s))
        → (r : Request) (s : State) → weight r s ≤ n
        → WithinState D s
        → Good D s (registered is_numerical unregistered self r s)
    unfolding registered
    registered-Good n self h stmt_request s le w = parse_stmt-Good n self h s le w
    registered-Good n self h compound_request s le w = parse_compound-Good D n self h s le w
    registered-Good n self h do_request s le w = parse_do-Good is_numerical D n self h s le w
    registered-Good n self h for_request s le w = parse_for-Good is_numerical D n self h s le w
    registered-Good n self h if_request s le w = parse_if-Good is_numerical D n self h s le w
    registered-Good n self h while_request s le w = parse_while-Good is_numerical D n self h s le w
    registered-Good n self h expr_request s le w = unregistered-Good expr_request s w
    registered-Good n self h var_decl_request s le w = unregistered-Good var_decl_request s w
    registered-Good n self h decl_stmt_request s le w = unregistered-Good decl_stmt_request s w
    registered-Good n self h i_decl_stmt_request s le w = unregistered-Good i_decl_stmt_request s w

    request_with-Good :
        (n : ℕ) (r : Request) (s : State)
        → weight r s < n
        → WithinState D s
        → Good D s (request_with is_numerical unregistered n r s)
    unfolding request_with
    request_with-Good zero r s h w = elim h [ ]
    request_with-Good (suc n) r s h w =
        registered-Good n (request_with is_numerical unregistered n) (request_with-Good n) r s
          (omega arith) w

-- A property of the qualifiers of the tokens is kept by every parser, whatever parsers stand in the map
-- for the classes that have none, if each of them keeps what follows on tokens whose qualifiers have the
-- property. With twice the number of tokens and three as its fuel, the parser of any class never runs
-- out of fuel, nor do its loops; where it does not end all the same, it stands in `peek` at a token with
-- the property; and behind a statement it leaves no more tokens than it finds, fewer if the statement
-- has a body, and their qualifiers have the property.
pub request_with-total :
    (D : Token → Type 0) (is_numerical : Stmt → Bool) (unregistered : Request → StmtParser)
    → ((r : Request) (s : State) → WithinState D s → Good D s (unregistered r s))
    → (r : Request) (s : State) → WithinState D s
    → Good D s (request_with is_numerical unregistered (2 * state_count s + 3) r s)
request_with-total D is_numerical unregistered h r s w =
    request_with-Good D is_numerical unregistered h (2 * state_count s + 3) r s
      (omega (arith, weight-le r s)) w

-- On tokens without a qualifier the parser of any class ends, with twice their number and three as its
-- fuel: it neither runs out of fuel nor stands in the loop of `peek`. The parsers that stand in the map
-- for the classes that have none may be any that end on such tokens, leave such tokens, no more than they
-- find, and fewer behind a statement with a body.
pub request_with_ends :
    (is_numerical : Stmt → Bool) (unregistered : Request → StmtParser)
    → ((r : Request) (s : State) → WithinState (λ t. ⊥) s → Good (λ t. ⊥) s (unregistered r s))
    → (r : Request) (s : State) → All (λ t. is_qualifier t.token_type ≡ false) s.tokens.tokens
    → (request_with is_numerical unregistered (2 * state_count s + 3) r s ≢ no_fuel)
      × ((t : Token)
          → request_with is_numerical unregistered (2 * state_count s + 3) r s ≢ diverges t)
request_with_ends is_numerical unregistered h r s plain =
    (λ e. rw e at always, λ t e. rw e at always)
  where
    always : Good (λ t. ⊥) s (request_with is_numerical unregistered (2 * state_count s + 3) r s)
    always = request_with-total _ is_numerical unregistered h r s (Within-plain _ s.tokens plain)
