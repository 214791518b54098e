-- ===== src/Syntax/Statements/Straight/Program.antt =====
-- hzcc/parser/syntax/parser/parser_factory.h and hzcc/parser/syntax/syntax_impl.cc: what the parser of
-- statements, and that of whole programs, can read.
use hzcc.Prelude.{
  ℕ, zero, suc, ◌+◌, ◌*◌, ◌≡◌, ◌↔◌, refl, Bool, false, not, ◌||◌, List, [], ◌∷◌, ◌==◌,
  if◌then◌else◌, length, arith, Bool-cases, inl, inr, ==_iff,
}
use hzcc.Token.Kinds.{
  TokenType, struct_kw, return_kw, if_kw, do_kw, for_kw, while_kw, break_kw, continue_kw,
  k_identity, is_type_specifier, is_qualifier,
}
use hzcc.Token.Value.{Token, Position}
use hzcc.Syntax.Tokens.{
  ◌>>=◌, TokenList, Parse, done, error_at, undefined, diverges, aborts, no_fuel, pop, peek, peek3,
  token_err, not_within_loop,
}
use hzcc.Syntax.Operators.{comma_rule}
use hzcc.Syntax.Parser.{parse}
use hzcc.Syntax.Statements.{
  Stmt, break_stmt, continue_stmt, State, StmtParser, state_count, peek_type, peek_loc, skip,
}
use hzcc.Syntax.Statements.Parts.{
  Request, stmt_request, compound_request, do_request, for_request, if_request, while_request,
  expr_request, var_decl_request, decl_stmt_request, i_decl_stmt_request,
}
use hzcc.Syntax.Statements.Factory.{
  expression, jump, parse_return, parse_stmt, registered, request_with, parse_request, generate_ast,
}
use hzcc.Syntax.Statements.Loops.{WhenDone, WhenDone-bind}
use hzcc.Syntax.Statements.Straight.{
  WhenDone-stop, IsStraight, IsStraightBlock, NoEmptyName, Reads, WhenDone-then, WhenDone-if,
  skip-NoEmptyName, parse_do-never, parse_while-never, parse_for-never, parse_if-never,
  parse_compound-Reads,
}

expression-Reads : (s : State) → NoEmptyName s → WhenDone (Reads stmt_request) (expression s)
unfolding expression
expression-Reads s h = WhenDone-bind _ (parse s.unit comma_rule s.tokens) _ (λ r. (tt, h))

token_err-WhenDone {ℓ} :
    {A : Type ℓ} (Q : A → Type 0) (l : TokenList) → WhenDone Q (token_err not_within_loop l)
unfolding token_err
token_err-WhenDone Q l = go l.tokens
  where
    go :
        (ts : List Token)
        → WhenDone Q (elim ts [
          | [] ↦ error_at not_within_loop (record { row = 0; col = 0 })
          | _ ∷ _ ↦ peek l >>= λ t. error_at not_within_loop t.location
        ])
    go [] = tt
    go (t ∷ ts) = WhenDone-bind Q (peek l) _ (λ t. tt)

jump-Reads :
    (node : Position → Stmt) (s : State)
    → ((p : Position) → IsStraight (node p))
    → NoEmptyName s
    → WhenDone (Reads stmt_request) (jump node s)
unfolding jump
jump-Reads node s bare h =
    WhenDone-if _ s.inside_loop _ _
      (WhenDone-then _ (skip s) _ (skip-NoEmptyName s h)
        λ s1 h1. WhenDone-bind _ (peek_loc s1) _ λ loc. (bare loc, h1))
      (token_err-WhenDone _ s.tokens)

parse_return-Reads : (s : State) → NoEmptyName s → WhenDone (Reads stmt_request) (parse_return s)
unfolding parse_return
parse_return-Reads s h = WhenDone-bind _ (pop s.tokens) _ λ r.
    WhenDone-bind _ (peek_type (record s { tokens = r.1 })) _ λ t.
      WhenDone-if _ (not (t == b';')) _ _
        (WhenDone-bind _ (parse s.unit comma_rule r.1) _ λ e. (tt, h)) (tt, h)

WhenDone-weaken {ℓ} :
    {A : Type ℓ} {P : A → Type 0} (Q : A → Type 0) (r : Parse A)
    → ((a : A) → P a → Q a)
    → WhenDone P r
    → WhenDone Q r
WhenDone-weaken Q (done a) h p = h a p
WhenDone-weaken Q (error_at _ _) h p = tt
WhenDone-weaken Q undefined h p = tt
WhenDone-weaken Q (diverges t) h p = tt
WhenDone-weaken Q aborts h p = tt
WhenDone-weaken Q no_fuel h p = tt

-- No parser of the map gives a loop or a branch.
from_never : (r : Parse (Stmt × State)) → WhenDone (λ a. ⊥) r → WhenDone (Reads stmt_request) r
from_never (done a) h = elim h [ ]
from_never (error_at _ _) h = tt
from_never undefined h = tt
from_never (diverges t) h = tt
from_never aborts h = tt
from_never no_fuel h = tt

module _ (is_numerical : Stmt → Bool) where
  parse_stmt-Reads :
      (self : Request → StmtParser)
      → ((r : Request) (s : State) → NoEmptyName s → WhenDone (Reads r) (self r s))
      → (s : State) → NoEmptyName s
      → WhenDone (Reads stmt_request) (parse_stmt is_numerical self s)
  unfolding parse_stmt
  parse_stmt-Reads self h s named = WhenDone-bind _ (peek_type s) _ λ t.
      WhenDone-if _ (t == b';') _ _ (tt, named)
        (WhenDone-if _ (t == struct_kw) _ _
          (WhenDone-bind _ (peek3 s.tokens) _ λ third.
            WhenDone-if _ (third.token_type == b'{') _ _
              (from_never (self decl_stmt_request s) (h decl_stmt_request s named))
              (expression-Reads s named))
          (WhenDone-if _ (t == return_kw) _ _ (parse_return-Reads s named) (
            WhenDone-if _ (t == if_kw) _ _ (from_never (self if_request s) (h if_request s named)) (
              WhenDone-if _ (t == do_kw) _ _ (from_never (self do_request s) (h do_request s named))
                (WhenDone-if _ (t == for_kw) _ _
                  (from_never (self for_request s) (h for_request s named))
                  (WhenDone-if _ (t == while_kw) _ _
                    (from_never (self while_request s) (h while_request s named))
                    (WhenDone-if _ (t == break_kw) _ _ (jump-Reads break_stmt s (λ p. tt) named) (
                      WhenDone-if _ (t == continue_kw) _ _
                        (jump-Reads continue_stmt s (λ p. tt) named)
                        (WhenDone-if _ (is_type_specifier t || t == k_identity) _ _
                          (from_never (self var_decl_request s) (h var_decl_request s named))
                          (expression-Reads s named))))))))))

  expr-never :
      (fuel : ℕ) (s : State)
      → WhenDone (λ r. ⊥) (request_with is_numerical (λ _ _. undefined) fuel expr_request s)
  unfolding request_with registered
  expr-never zero s = tt
  expr-never (suc fuel) s = tt

  request_with-Reads :
      (fuel : ℕ) (r : Request) (s : State)
      → NoEmptyName s
      → WhenDone (Reads r) (request_with is_numerical (λ _ _. undefined) fuel r s)
  unfolding request_with registered
  request_with-Reads zero r s named = tt
  request_with-Reads (suc fuel) stmt_request s named =
      parse_stmt-Reads (request_with is_numerical (λ _ _. undefined) fuel) (request_with-Reads fuel)
        s named
  request_with-Reads (suc fuel) compound_request s named =
      parse_compound-Reads is_numerical (request_with is_numerical (λ _ _. undefined) fuel)
        (request_with-Reads fuel) (expr-never fuel) s named
  request_with-Reads (suc fuel) do_request s named =
      parse_do-never is_numerical (request_with is_numerical (λ _ _. undefined) fuel)
        (request_with-Reads fuel) (expr-never fuel) s
  request_with-Reads (suc fuel) while_request s named =
      parse_while-never is_numerical (request_with is_numerical (λ _ _. undefined) fuel)
        (request_with-Reads fuel) (expr-never fuel) s
  request_with-Reads (suc fuel) for_request s named =
      parse_for-never is_numerical (request_with is_numerical (λ _ _. undefined) fuel)
        (request_with-Reads fuel) (expr-never fuel) s named
  request_with-Reads (suc fuel) if_request s named =
      parse_if-never is_numerical (request_with is_numerical (λ _ _. undefined) fuel)
        (request_with-Reads fuel) (expr-never fuel) s
  request_with-Reads (suc fuel) expr_request s named = tt
  request_with-Reads (suc fuel) var_decl_request s named = tt
  request_with-Reads (suc fuel) decl_stmt_request s named = tt
  request_with-Reads (suc fuel) i_decl_stmt_request s named = tt

-- With the parsers that stand in the map, on a state whose functions all have names: a statement that
-- is read is neither a loop nor a branch nor a block, and a block that is read holds only such
-- statements.
pub parse_request-IsStraight :
    (is_numerical : Stmt → Bool) (s : State)
    → NoEmptyName s
    → WhenDone (λ r. IsStraight r.0) (parse_request is_numerical stmt_request s)
      × WhenDone (λ r. IsStraightBlock r.0) (parse_request is_numerical compound_request s)
unfolding parse_request
parse_request-IsStraight is_numerical s named = (
  WhenDone-weaken _
      (request_with is_numerical (λ _ _. undefined) (2 * state_count s + 3) stmt_request s)
      (λ r p. p.0) (request_with-Reads is_numerical (2 * state_count s + 3) stmt_request s named),
  request_with-Reads is_numerical (2 * state_count s + 3) compound_request s named,
)

-- Every token is a `;`.
abbrev pub AllSemicolons : List Token → Type 0
AllSemicolons [] = Unit
AllSemicolons (t ∷ ts) = (t.token_type ≡ b';') × AllSemicolons ts

-- A state with these tokens.
abbrev on_tokens : State → List Token → List Token → State
on_tokens s ts cached = record s { tokens = record { tokens = ts; cached_attributes = cached } }

peek_type-front :
    (s : State) (t : Token) (ts cached : List Token)
    → peek_type (on_tokens s (t ∷ ts) cached)
      ≡ (if is_qualifier t.token_type then diverges t else done t.token_type)
unfolding peek_type peek
peek_type-front s t ts cached = ground arith

suc-ne-zero : (n : ℕ) → (suc n == 0) ≡ false
suc-ne-zero n = ground arith

semicolon-plain : (t : TokenType) → t ≡ b';' → is_qualifier t ≡ false
semicolon-plain t h = ground arith

module _ (is_numerical : Stmt → Bool) (add_decl : Stmt → State → State) where
  declaration-never :
      (s : State) → WhenDone (λ r. ⊥) (parse_request is_numerical i_decl_stmt_request s)
  unfolding parse_request
  declaration-never s = go (2 * state_count s + 3)
    where
      go :
          (fuel : ℕ)
          → WhenDone
              (λ r. ⊥)
              (request_with is_numerical (λ _ _. undefined) fuel i_decl_stmt_request s)
      go zero = tt
      go (suc fuel) = tt

  generate_ast-only :
      (fuel : ℕ) (s : State) (ts cached : List Token)
      → WhenDone
          (λ s'. AllSemicolons ts)
          (generate_ast is_numerical add_decl fuel (on_tokens s ts cached))
  unfolding generate_ast
  generate_ast-only zero s ts cached = tt
  generate_ast-only (suc fuel) s [] cached = tt
  generate_ast-only (suc fuel) s (t ∷ ts) cached = elim (Bool-cases (is_qualifier t.token_type)) [
    | inl q ↦ rw (suc-ne-zero (length ts), peek_type-front s t ts cached, q) tt
    | inr plain ↦ elim (Bool-cases (t.token_type == b';')) [
      | inl semi ↦
          rw (suc-ne-zero (length ts), peek_type-front s t ts cached, plain, semi)
            (WhenDone-weaken _ (generate_ast is_numerical add_decl fuel (on_tokens s ts cached))
              (λ s' rest. ((==_iff t.token_type b';').0 semi, rest))
              (generate_ast-only fuel s ts cached))
      | inr other ↦
          rw (suc-ne-zero (length ts), peek_type-front s t ts cached, plain, other)
            (WhenDone-stop _
              (parse_request is_numerical i_decl_stmt_request (on_tokens s (t ∷ ts) cached)) _
              (declaration-never (on_tokens s (t ∷ ts) cached)))
    ]
  ]

  generate_ast-all :
      (s : State) (ts cached : List Token)
      → AllSemicolons ts
      → generate_ast is_numerical add_decl (suc (length ts)) (on_tokens s ts cached)
        ≡ done (on_tokens s [] cached)
  unfolding generate_ast
  generate_ast-all s [] cached h = refl
  generate_ast-all s (t ∷ ts) cached h =
      let plain = semicolon-plain t.token_type h.0 in
      let semi = (==_iff t.token_type b';').1 h.0 in
      rw (suc-ne-zero (length ts), peek_type-front s t ts cached, plain, semi)
        (generate_ast-all s ts cached h.1)

-- GenerateAST succeeds on exactly the token lists that hold only `;`: the parser that it asks for every
-- declaration is not in the map.
pub generate_ast_iff :
    (is_numerical : Stmt → Bool) (add_decl : Stmt → State → State) (s : State)
    → ((s' : State) × (generate_ast is_numerical add_decl (suc (state_count s)) s ≡ done s'))
      ↔ AllSemicolons s.tokens.tokens
generate_ast_iff is_numerical add_decl s = (
  λ (s', e). rw e at (
      generate_ast-only is_numerical add_decl (suc (state_count s)) s s.tokens.tokens
        s.tokens.cached_attributes),
  λ h. (
    on_tokens s [] s.tokens.cached_attributes,
    generate_ast-all is_numerical add_decl s s.tokens.tokens s.tokens.cached_attributes h,
  ),
)
