-- ===== src/Syntax/Grammar/Levels.antt =====
-- hzcc/parser/syntax/parser/statement_parser.cc: how tightly a token binds, and what each function for
-- operators does with a token that is none of its own.
use hzcc.Prelude.{
  ℕ, suc, ◌≤◌, ◌<◌, ◌≡◌, refl, Bool, true, false, ◌||◌, List, ◌∷◌, ◌==◌, if◌then◌else◌, arith,
  Bool-cases, inl, inr,
}
use hzcc.Token.Kinds.{
  TokenType, is_qualifier, k_arrow, k_self_increment, k_self_decrement, k_logical_or, k_logical_and,
}
use hzcc.Token.Value.{Token}
use hzcc.Syntax.Tokens.{Parsed, TokenList, done, pop, pop_from, peek, peek_rounds}
use hzcc.Syntax.Tree.{Expr}
use hzcc.Syntax.Names.{CompilationUnit}
use hzcc.Syntax.Operators.{
  Rule, comma_rule, assign_rule, conditional_rule, logical_or_rule, logical_and_rule,
  bitwise_or_rule, bitwise_xor_rule, bitwise_and_rule, equality_rule, relational_rule, shift_rule,
  additive_rule, multiplicative_rule, cast_rule, unary_rule, is_assign_op, is_equality_op,
  is_relational_op, is_shift_op, is_additive_op, is_multiplicative_op, parse_binary,
  parse_comma_expr, parse_assign_expr, parse_logical_or_expr, parse_logical_and_expr,
  parse_bitwise_or_expr, parse_bitwise_xor_expr, parse_bitwise_and_expr, parse_equality_expr,
  parse_relational_expr, parse_shift_expr, parse_additive_expr, parse_multiplicative_expr,
}
use hzcc.Syntax.Parser.{step}
use hzcc.Syntax.Grammar.{next_rule, op_of, node_of, is_level}

abbrev pub rank : Rule → ℕ
rank comma_rule = 1
rank assign_rule = 2
rank conditional_rule = 3
rank logical_or_rule = 4
rank logical_and_rule = 5
rank bitwise_or_rule = 6
rank bitwise_xor_rule = 7
rank bitwise_and_rule = 8
rank equality_rule = 9
rank relational_rule = 10
rank shift_rule = 11
rank additive_rule = 12
rank multiplicative_rule = 13
rank cast_rule = 14
rank unary_rule = 14

-- The tokens that go on with an operand.
abbrev pub is_suffix : TokenType → Bool
is_suffix t =
    t == b'('
    || (t == b'[' || t == b'.')
    || t == k_arrow
    || (t == k_self_increment || t == k_self_decrement)

-- The rank of the rule that a token is an operator of; 20 is for suffixes and qualifiers, and 0 for
-- what ends an expression.
unfoldable pub op_rank : TokenType → ℕ
op_rank t =
    if is_suffix t || is_qualifier t
    then 20
    else if b',' == t
    then 1
    else if is_assign_op t
    then 2
    else if t == b'?'
    then 3
    else if k_logical_or == t
    then 4
    else if k_logical_and == t
    then 5
    else if b'|' == t
    then 6
    else if b'^' == t
    then 7
    else if b'&' == t
    then 8
    else if is_equality_op t
    then 9
    else if is_relational_op t
    then 10
    else if is_shift_op t
    then 11
    else if is_additive_op t
    then 12
    else if is_multiplicative_op t
    then 13
    else 0

pub op_of-rank : (rule : Rule) (t : TokenType) → op_of rule t ≡ true → op_rank t ≡ rank rule
unfolding op_rank
op_of-rank comma_rule t h = ground arith
op_of-rank assign_rule t h = ground arith
op_of-rank conditional_rule t h = ground arith
op_of-rank logical_or_rule t h = ground arith
op_of-rank logical_and_rule t h = ground arith
op_of-rank bitwise_or_rule t h = ground arith
op_of-rank bitwise_xor_rule t h = ground arith
op_of-rank bitwise_and_rule t h = ground arith
op_of-rank equality_rule t h = ground arith
op_of-rank relational_rule t h = ground arith
op_of-rank shift_rule t h = ground arith
op_of-rank additive_rule t h = ground arith
op_of-rank multiplicative_rule t h = ground arith
op_of-rank cast_rule t h = ground arith
op_of-rank unary_rule t h = ground arith

pub below-op_of : (rule : Rule) (t : TokenType) → op_rank t < rank rule → op_of rule t ≡ false
below-op_of rule t lt = elim (Bool-cases (op_of rule t)) [
  | inl own ↦ absurd (omega (arith, op_of-rank rule t own))
  | inr other ↦ other
]

-- What ends an operand is no suffix of it and no qualifier.
pub below-suffix :
    (t : TokenType) → op_rank t < 20 → (is_suffix t ≡ false) × (is_qualifier t ≡ false)
unfolding op_rank
below-suffix t lt = elim (Bool-cases (is_suffix t || is_qualifier t)) [
  | inl own ↦ absurd (omega (arith, twenty own))
  | inr other ↦ (ground arith, ground arith)
]
  where
    twenty : (is_suffix t || is_qualifier t) ≡ true → op_rank t ≡ 20
    twenty own = rw (own, op_rank) refl

pub rank-next_rule : (rule : Rule) → is_level rule ≡ true → rank (next_rule rule) ≡ suc (rank rule)
rank-next_rule comma_rule h = refl
rank-next_rule assign_rule h = refl
rank-next_rule conditional_rule h = refl
rank-next_rule logical_or_rule h = refl
rank-next_rule logical_and_rule h = refl
rank-next_rule bitwise_or_rule h = refl
rank-next_rule bitwise_xor_rule h = refl
rank-next_rule bitwise_and_rule h = refl
rank-next_rule equality_rule h = refl
rank-next_rule relational_rule h = refl
rank-next_rule shift_rule h = refl
rank-next_rule additive_rule h = refl
rank-next_rule multiplicative_rule h = refl
rank-next_rule cast_rule h = absurd (cc)
rank-next_rule unary_rule h = absurd (cc)

pub rank-below : (rule : Rule) → rank rule ≤ 14
rank-below comma_rule = omega arith
rank-below assign_rule = omega arith
rank-below conditional_rule = omega arith
rank-below logical_or_rule = omega arith
rank-below logical_and_rule = omega arith
rank-below bitwise_or_rule = omega arith
rank-below bitwise_xor_rule = omega arith
rank-below bitwise_and_rule = omega arith
rank-below equality_rule = omega arith
rank-below relational_rule = omega arith
rank-below shift_rule = omega arith
rank-below additive_rule = omega arith
rank-below multiplicative_rule = omega arith
rank-below cast_rule = omega arith
rank-below unary_rule = omega arith

module _ (ctx : CompilationUnit) (self : Rule → TokenList → Parsed Expr) where
  pub step-parse_binary :
      (rule : Rule) (l : TokenList)
      → is_level rule ≡ true
      → step ctx self rule l
        ≡ parse_binary (op_of rule) (node_of rule) (step ctx self (next_rule rule)) (self rule) l
  unfolding step parse_comma_expr parse_assign_expr parse_logical_or_expr parse_logical_and_expr
      parse_bitwise_or_expr parse_bitwise_xor_expr parse_bitwise_and_expr parse_equality_expr
      parse_relational_expr parse_shift_expr parse_additive_expr parse_multiplicative_expr
  step-parse_binary comma_rule l h = refl
  step-parse_binary assign_rule l h = refl
  step-parse_binary conditional_rule l h = absurd (cc)
  step-parse_binary logical_or_rule l h = refl
  step-parse_binary logical_and_rule l h = refl
  step-parse_binary bitwise_or_rule l h = refl
  step-parse_binary bitwise_xor_rule l h = refl
  step-parse_binary bitwise_and_rule l h = refl
  step-parse_binary equality_rule l h = refl
  step-parse_binary relational_rule l h = refl
  step-parse_binary shift_rule l h = refl
  step-parse_binary additive_rule l h = refl
  step-parse_binary multiplicative_rule l h = refl
  step-parse_binary cast_rule l h = absurd (cc)
  step-parse_binary unary_rule l h = absurd (cc)

-- A token that is no operator of the rule ends what the rule reads.
pub parse_binary-end :
    (is_op : TokenType → Bool) (node : Token → Expr → Expr → Expr)
    (next again : TokenList → Parsed Expr) (l : TokenList) (e : Expr) (t : Token)
    (rest cached : List Token)
    → next l ≡ done (e, record { tokens = t ∷ rest; cached_attributes = cached })
    → is_qualifier t.token_type ≡ false
    → is_op t.token_type ≡ false
    → parse_binary is_op node next again l
      ≡ done (e, record { tokens = t ∷ rest; cached_attributes = cached })
unfolding parse_binary peek peek_rounds
parse_binary-end is_op node next again l e t rest cached h plain other = rw (h, plain, other) refl

-- An operator of the rule, and what is read behind it.
pub parse_binary-operator :
    (is_op : TokenType → Bool) (node : Token → Expr → Expr → Expr)
    (next again : TokenList → Parsed Expr) (l l' : TokenList) (lhs rhs : Expr) (op : Token)
    (rest cached : List Token)
    → next l ≡ done (lhs, record { tokens = op ∷ rest; cached_attributes = cached })
    → is_qualifier op.token_type ≡ false
    → is_op op.token_type ≡ true
    → again (record { tokens = rest; cached_attributes = cached }) ≡ done (rhs, l')
    → parse_binary is_op node next again l ≡ done (node op lhs rhs, l')
unfolding parse_binary peek peek_rounds pop pop_from
parse_binary-operator is_op node next again l l' lhs rhs op rest cached h plain own behind =
    rw (h, plain, own, behind) refl

pub rank-positive : (rule : Rule) → 0 < rank rule
rank-positive comma_rule = omega arith
rank-positive assign_rule = omega arith
rank-positive conditional_rule = omega arith
rank-positive logical_or_rule = omega arith
rank-positive logical_and_rule = omega arith
rank-positive bitwise_or_rule = omega arith
rank-positive bitwise_xor_rule = omega arith
rank-positive bitwise_and_rule = omega arith
rank-positive equality_rule = omega arith
rank-positive relational_rule = omega arith
rank-positive shift_rule = omega arith
rank-positive additive_rule = omega arith
rank-positive multiplicative_rule = omega arith
rank-positive cast_rule = omega arith
rank-positive unary_rule = omega arith
