-- ===== src/Syntax/Statements/Loops.antt =====
-- hzcc/parser/syntax/parser/statements: the flag of the loops.
use hzcc.Prelude.{◌≡◌, refl, Option, Bytes, Bool, false, List, [], ◌∷◌}
use hzcc.Token.Kinds.{do_kw, while_kw, for_kw, break_kw}
use hzcc.Syntax.Tokens.{
  ◌>>=◌, Parse, done, error_at, undefined, diverges, aborts, no_fuel, not_within_loop,
}
use hzcc.Syntax.Statements.{
  Stmt, State, StmtParser, peek_type, peek_loc, consume, push_semicolon, enter_loop, enter_scope,
}
use hzcc.Syntax.Statements.Parts.{
  Request, do_request, while_request, for_request, parse_condition, parse_body_statement,
}
use hzcc.Syntax.Statements.Factory.{parse_stmt, registered, jump}
use hzcc.Token.Value.{Token, Position}
use hzcc.Syntax.Tokens.{peek, token_err}
use hzcc.Syntax.Statements.Control.{parse_do, parse_while, parse_for, for_part, for_body}

-- A property of the results, whatever else may happen.
abbrev pub WhenDone {ℓ} : {A : Type ℓ} → (A → Type 0) → Parse A → Type 0
WhenDone P (done a) = P a
WhenDone P (error_at _ _) = Unit
WhenDone P undefined = Unit
WhenDone P (diverges t) = Unit
WhenDone P aborts = Unit
WhenDone P no_fuel = Unit

pub WhenDone-bind {ℓ κ} :
    {A : Type ℓ} {B : Type κ} (Q : B → Type 0) (r : Parse A) (f : A → Parse B)
    → ((a : A) → WhenDone Q (f a))
    → WhenDone Q (r >>= f)
WhenDone-bind Q (done a) f h = h a
WhenDone-bind Q (error_at _ _) f h = tt
WhenDone-bind Q undefined f h = tt
WhenDone-bind Q (diverges t) f h = tt
WhenDone-bind Q aborts f h = tt
WhenDone-bind Q no_fuel f h = tt

abbrev pub IsOutside : Stmt × State → Type 0
IsOutside r = r.1.inside_loop ≡ false

module _ (is_numerical : Stmt → Bool) (self : Request → StmtParser) where
  parse_do-IsOutside : (s : State) → WhenDone IsOutside (parse_do is_numerical self s)
  unfolding parse_do
  parse_do-IsOutside s = WhenDone-bind _ (peek_loc (enter_loop s)) _ λ loc.
      WhenDone-bind _ (consume do_kw (enter_loop s)) _ λ s1.
        WhenDone-bind _ (parse_body_statement self false s1) _ λ r.
          WhenDone-bind _ (consume while_kw r.1) _
            λ s3. WhenDone-bind _ (parse_condition self s3) _ λ r. refl

  parse_while-IsOutside : (s : State) → WhenDone IsOutside (parse_while is_numerical self s)
  unfolding parse_while push_semicolon
  parse_while-IsOutside s = WhenDone-bind _ (peek_loc (enter_loop s)) _ λ loc.
      WhenDone-bind _ (consume while_kw (enter_loop s)) _ λ s1.
        WhenDone-bind _ (parse_condition self s1) _
          λ r. WhenDone-bind _ (parse_body_statement self false r.1) _ λ r. refl

  parse_for-IsOutside : (s : State) → WhenDone IsOutside (parse_for is_numerical self s)
  unfolding parse_for push_semicolon
  parse_for-IsOutside s = WhenDone-bind _ (peek_loc (enter_loop s)) _ λ loc.
      WhenDone-bind _ (consume for_kw (enter_loop s)) _ λ s1.
        WhenDone-bind _ (peek_loc s1) _ λ paren. WhenDone-bind _ (consume b'(' s1) _ λ s2.
          WhenDone-bind _ (enter_scope s2 []) _ λ s3.
            WhenDone-bind _ (for_part is_numerical self b';' s3) _ λ r4.
              WhenDone-bind _ (for_part is_numerical self b';' r4.1) _ λ r5.
                WhenDone-bind _ (for_part is_numerical self b')' r5.1) _
                  λ r6. WhenDone-bind _ (for_body is_numerical self r6.1) _ λ r7. refl

-- The parsers of loops.
abbrev pub IsLoop : Request → Type 0
IsLoop do_request = Unit
IsLoop while_request = Unit
IsLoop for_request = Unit
IsLoop _ = ⊥

module _ (is_numerical : Stmt → Bool) (unregistered self : Request → StmtParser) where
  loop-IsOutside :
      (r : Request) (s : State)
      → IsLoop r
      → WhenDone IsOutside (registered is_numerical unregistered self r s)
  unfolding registered
  loop-IsOutside do_request s l = parse_do-IsOutside is_numerical self s
  loop-IsOutside while_request s l = parse_while-IsOutside is_numerical self s
  loop-IsOutside for_request s l = parse_for-IsOutside is_numerical self s
  loop-IsOutside _ s l = elim l [ ]

abbrev pub break_token : Option Bytes → Position → Token
break_token value loc = record { token_type = break_kw; value = value; location = loc }

break-IsOutside :
    (is_numerical : Stmt → Bool) (self : Request → StmtParser) (s : State) (value : Option Bytes)
    (loc : Position) (ts cached : List Token)
    → s.inside_loop ≡ false
    → parse_stmt is_numerical self (record s {
      tokens = record { tokens = break_token value loc ∷ ts; cached_attributes = cached };
    })
      ≡ error_at not_within_loop loc
unfolding parse_stmt jump peek_type peek token_err
break-IsOutside is_numerical self s value loc ts cached out = rw out refl

-- Whatever parsers stand in the map for the classes that have none and answer the calls, when the
-- parser of a loop has returned, wherever the loop stands, a `break` is rejected in what follows: the
-- flag is reset though the loop may stand in another one. With the parsers that are in the map now no
-- loop is read to its end, so this is about the map with the missing ones added.
pub break-behind_loop :
    (is_numerical : Stmt → Bool) (unregistered self : Request → StmtParser) (r : Request)
    (s s' : State) (stmt : Stmt) (value : Option Bytes) (loc : Position) (ts cached : List Token)
    → IsLoop r
    → registered is_numerical unregistered self r s ≡ done (stmt, s')
    → parse_stmt is_numerical self (record s' {
      tokens = record { tokens = break_token value loc ∷ ts; cached_attributes = cached };
    })
      ≡ error_at not_within_loop loc
break-behind_loop is_numerical unregistered self r s s' stmt value loc ts cached l done_eq =
    break-IsOutside is_numerical self s' value loc ts cached
      (rw done_eq at (loop-IsOutside is_numerical unregistered self r s l))
