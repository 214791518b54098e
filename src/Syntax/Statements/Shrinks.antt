-- ===== src/Syntax/Statements/Shrinks.antt =====
-- hzcc/parser/syntax/common_utils.h and compound_parser.cc: how the token list gets shorter.
pub mod Control
use hzcc.Token.Value.{Token}
use hzcc.Prelude.{
  ℕ, zero, suc, ◌+◌, ◌*◌, ◌≤◌, ◌<◌, ◌≡◌, refl, false, Option, none, some, List, [], ◌∷◌, ◌==◌,
  if◌then◌else◌, Bytes, length, arith, Bool-cases, inl, inr,
}
use hzcc.Token.Kinds.{TokenType}
use hzcc.Syntax.Tokens.{Parse, done, aborts, pop, peek, check_and_consume}
use hzcc.Syntax.Names.{Scopes, find}
use hzcc.Syntax.Progress.{
  Always-bind, Always-if, Takes-count, AlwaysIn, AlwaysIn-weaken, Within, peek-AlwaysIn, pop-Good,
  check_and_consume-Good,
}
use hzcc.Syntax.Statements.{
  Stmt, Stmts, no_stmt, add_stmt, has_body, State, StmtParser, entered_scope, inner_scope,
  state_count, no_tokens, peek_type, peek_loc, skip, consume, push_semicolon, at_root, enter_scope,
  leave_scope,
}
use hzcc.Syntax.Statements.Parts.{
  Request, stmt_request, compound_request, expr_request, parse_condition, end_stmt, parse_block,
  parse_single, parse_body_statement, statements, parse_compound,
}

-- The qualifiers of a state's tokens have the property.
abbrev pub WithinState : (Token → Type 0) → State → Type 0
WithinState D s = Within D s.tokens

-- At least `n` tokens less.
abbrev pub Shrinks {ℓ} : {A : Type ℓ} → (Token → Type 0) → ℕ → State → Parse (A × State) → Type 0
Shrinks D n s r = AlwaysIn D (λ a. (state_count a.1 + n ≤ state_count s) × WithinState D a.1) r

-- A statement with a body takes a token, net of the `;` that is put back; another one may take none.
abbrev pub bodied : Stmt → ℕ
bodied stmt = if has_body stmt then 1 else 0

abbrev pub Good : (Token → Type 0) → State → Parse (Stmt × State) → Type 0
Good D s r = AlwaysIn D (λ a. (state_count a.1 + bodied a.0 ≤ state_count s) × WithinState D a.1) r

-- The fuel of a call: a statement asks for the parser of its class with the same tokens.
abbrev pub weight : Request → State → ℕ
weight stmt_request s = 2 * state_count s + 2
weight _ s = 2 * state_count s + 1

pub weight-le : (r : Request) (s : State) → weight r s ≤ 2 * state_count s + 2
weight-le stmt_request s = omega arith
weight-le _ s = omega arith

pub push_semicolon-count : (s : State) → state_count (push_semicolon s) ≡ suc (state_count s)
unfolding push_semicolon
push_semicolon-count s = refl

pub leave_scope-count : (s : State) → state_count (leave_scope s) ≡ state_count s
unfolding leave_scope
leave_scope-count s = refl

pub push_semicolon-Within :
    (D : Token → Type 0) (s : State) → WithinState D s → WithinState D (push_semicolon s)
unfolding push_semicolon
push_semicolon-Within D s w = (λ q. absurd (ground arith), w)

pub leave_scope-Within :
    (D : Token → Type 0) (s : State) → WithinState D s → WithinState D (leave_scope s)
unfolding leave_scope
leave_scope-Within D s w = w

pub Shrinks-le {ℓ} :
    {A : Type ℓ} (D : Token → Type 0) (n m : ℕ) (s s' : State) (r : Parse (A × State))
    → state_count s' + m ≤ state_count s + n
    → Shrinks D n s' r
    → Shrinks D m s r
Shrinks-le D n m s s' r le h = AlwaysIn-weaken D _ r (λ a p. (omega (arith, le, p.0), p.1)) h

module _ (D : Token → Type 0) where
  pub peek_type-Always : (s : State) → WithinState D s → AlwaysIn D (λ t. Unit) (peek_type s)
  unfolding peek_type
  peek_type-Always s w = Always-bind D _ _ (peek s.tokens) (peek-AlwaysIn D s.tokens w) (λ t _. tt)

  pub peek_loc-Always : (s : State) → WithinState D s → AlwaysIn D (λ t. Unit) (peek_loc s)
  unfolding peek_loc
  peek_loc-Always s w = Always-bind D _ _ (peek s.tokens) (peek-AlwaysIn D s.tokens w) (λ t _. tt)

  pub skip-Always :
      (s : State)
      → WithinState D s
      → AlwaysIn D (λ s'. (state_count s' + 1 ≤ state_count s) × WithinState D s') (skip s)
  unfolding skip
  skip-Always s w =
      Always-bind D _ _ (pop s.tokens) (pop-Good D s.tokens w)
        λ r p. (Takes-count s.tokens r.1 p.0, p.1)

  pub consume-Always :
      (type : TokenType) (s : State)
      → WithinState D s
      → AlwaysIn D (λ s'. (state_count s' + 1 ≤ state_count s) × WithinState D s') (consume type s)
  unfolding consume
  consume-Always type s w =
      Always-bind D _ _ (check_and_consume type s.tokens) (check_and_consume-Good D type s.tokens w)
        λ l p. (Takes-count s.tokens l p.0, p.1)

  entered_scope-Always :
      (table : List (Bytes × Scopes)) (current : Scopes) (name : Bytes)
      → AlwaysIn D (λ scopes. Unit) (entered_scope table current name)
  unfolding entered_scope inner_scope at_root
  entered_scope-Always table current name =
      Always-if D _ (length name == 0) _ _ (go (find table name)) (inner current)
    where
      go :
          (o : Option Scopes)
          → AlwaysIn D (λ scopes. Unit) (elim o [ none ↦ aborts | some scopes ↦ done scopes ])
      go none = tt
      go (some scopes) = tt

      inner : (current : Scopes) → AlwaysIn D (λ scopes. Unit) (inner_scope current)
      inner [] = tt
      inner (t ∷ upper) = ground arith

  pub enter_scope-Always :
      (s : State) (name : Bytes)
      → WithinState D s
      → AlwaysIn D (λ s'. (state_count s' ≡ state_count s) × WithinState D s') (enter_scope s name)
  unfolding enter_scope
  enter_scope-Always s name w =
      Always-bind D _ _ (entered_scope s.scoped_symbol_table s.unit.current_context name)
        (entered_scope-Always s.scoped_symbol_table s.unit.current_context name)
        (λ scopes _. (refl, w))

module _ (D : Token → Type 0) (n : ℕ) (self : Request → StmtParser)
    (self-Good : (r : Request) (s : State)
      → weight r s < n
      → WithinState D s
      → Good D s (self r s)) where
  pub parse_condition-Shrinks :
      (s : State)
      → 2 * state_count s + 1 ≤ n
      → WithinState D s
      → Shrinks D 2 s (parse_condition self s)
  unfolding parse_condition
  parse_condition-Shrinks s h w =
      Always-bind D _ _ (consume b'(' s) (consume-Always D b'(' s w) λ s1 (h1, w1).
        Always-bind D _ _ (self expr_request s1) (self-Good expr_request s1 (omega arith) w1)
          λ (condition, s2) (h2, w2).
            Always-bind D _ _ (consume b')' s2) (consume-Always D b')' s2 w2)
              λ s3 (h3, w3). (omega arith, w3)

  end_stmt-Always :
      (stmt : Stmt) (s : State)
      → WithinState D s
      → AlwaysIn D
          (λ s'. (state_count s' + 1 ≤ state_count s + bodied stmt) × WithinState D s')
          (end_stmt self stmt s)
  unfolding end_stmt
  end_stmt-Always stmt s w = elim (Bool-cases (has_body stmt)) [
    | inl y ↦ rw y (omega arith, w)
    | inr n ↦ rw n (
        AlwaysIn-weaken D _ (consume b';' s) (λ s' h. (omega (arith, h.0), h.1))
          (consume-Always D b';' s w))
  ]

  parse_block-Shrinks :
      (s : State)
      → 2 * state_count s + 1 < n
      → WithinState D s
      → Shrinks D 0 s (parse_block self false s)
  unfolding parse_block
  parse_block-Shrinks s h w =
      Always-bind D _ _ (enter_scope s []) (enter_scope-Always D s [] w) λ s1 (h1, w1).
        Always-bind D _ _ (self compound_request s1)
          (self-Good compound_request s1 (omega arith) w1)
          λ (body, s2) (h2, w2). (omega (arith, leave_scope-count s2), leave_scope-Within D s2 w2)

  parse_single-Shrinks :
      (s : State)
      → 2 * state_count s + 2 < n
      → WithinState D s
      → Shrinks D 1 s (parse_single self s)
  unfolding parse_single
  parse_single-Shrinks s h w =
      Always-bind D _ _ (self stmt_request s) (self-Good stmt_request s h w) λ (body, s1) (h1, w1).
        Always-bind D _ _ (end_stmt self body s1) (end_stmt-Always body s1 w1)
          λ s2 (h2, w2). (omega arith, w2)

  pub parse_body_statement-Shrinks :
      (s : State)
      → 2 * state_count s + 2 < n
      → WithinState D s
      → Shrinks D 0 s (parse_body_statement self false s)
  unfolding parse_body_statement
  parse_body_statement-Shrinks s h w =
      Always-bind D _ _ (peek_type s) (peek_type-Always D s w) λ t _.
        Always-if D _ (t == b'{') _ _ (parse_block-Shrinks s (omega arith) w)
          (Shrinks-le D 1 0 s s (parse_single self s) (omega arith) (parse_single-Shrinks s h w))

  statements-Shrinks :
      (fuel : ℕ) (block : Stmts) (s : State)
      → state_count s < fuel
      → 2 * state_count s + 2 < n
      → WithinState D s
      → Shrinks D 0 s (statements self fuel block s)
  unfolding statements
  statements-Shrinks zero block s h small w = elim h [ ]
  statements-Shrinks (suc fuel) block s h small w =
      Always-if D _ (no_tokens s) _ _ (omega arith, w)
        (Always-bind D _ _ (peek_type s) (peek_type-Always D s w) λ t _.
          Always-if D _ (t == b'}') _ _ (omega arith, w)
            (Always-bind D _ _ (self stmt_request s) (self-Good stmt_request s small w)
              λ (stmt, s1) (h1, w1).
                Always-bind D _ _ (end_stmt self stmt s1) (end_stmt-Always stmt s1 w1)
                  λ s2 (h2, w2).
                    Shrinks-le D 0 0 s s2 (statements self fuel (add_stmt block stmt) s2)
                      (omega arith)
                      (statements-Shrinks fuel (add_stmt block stmt) s2 (omega arith) (omega arith)
                        w2)))

  pub parse_compound-Good :
      (s : State) → 2 * state_count s + 1 ≤ n → WithinState D s → Good D s (parse_compound self s)
  unfolding parse_compound
  parse_compound-Good s h w = Always-bind D _ _ (peek_loc s) (peek_loc-Always D s w) λ loc _.
      Always-bind D _ _ (consume b'{' s) (consume-Always D b'{' s w) λ s1 (h1, w1).
        Always-bind D _ _ (statements self (suc (state_count s1)) no_stmt s1)
          (statements-Shrinks (suc (state_count s1)) no_stmt s1 (omega arith) (omega arith) w1)
          λ (block, s2) (h2, w2). Always-if D _ (no_tokens s2) _ _ tt (
            Always-bind D _ _ (consume b'}' s2) (consume-Always D b'}' s2 w2)
              λ s3 (h3, w3). (omega arith, w3))
