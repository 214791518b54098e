-- ===== src/Syntax/Grammar/Complete.antt =====
-- hzcc/parser/syntax/parser/statement_parser.cc: the parser on the texts of the grammar.
use hzcc.Prelude.{
  ℕ, zero, suc, ◌≤◌, ◌<◌, ◌≡◌, refl, ap, ◌∙◌, sym, List, [], ◌∷◌, ◌++◌, append_assoc, length,
  length-append, arith,
}
use hzcc.Token.Value.{Token, symbol_token}
use hzcc.Syntax.Tokens.{Parsed, TokenList, done}
use hzcc.Syntax.Tree.{Expr}
use hzcc.Syntax.Names.{CompilationUnit}
use hzcc.Syntax.Operators.{Rule, comma_rule, conditional_rule, logical_or_rule}
use hzcc.Syntax.Parser.{step, parse_rule, parse}
use hzcc.Syntax.Grammar.{
  next_rule, Derives, variable, integer_literal, parentheses, climb, no_choice, operator, choice,
}
use hzcc.Syntax.Grammar.Levels.{
  rank, op_rank, op_of-rank, below-op_of, below-suffix, rank-next_rule, rank-below, rank-positive,
  step-parse_binary, parse_binary-end, parse_binary-operator,
}
use hzcc.Syntax.Grammar.Operands.{
  list_of, parse_postfix_expr-variable, parse_postfix_expr-integer, parse_postfix_expr-parentheses,
  step-unary, step-conditional-end, step-conditional-choice,
}

rank-close : op_rank b')' ≡ 0
unfolding op_rank
rank-close = refl

rank-colon : op_rank b':' ≡ 0
unfolding op_rank
rank-colon = refl

rank-question : op_rank b'?' ≡ 3
unfolding op_rank
rank-question = refl

module _ (ctx : CompilationUnit) where
  parse_rule-step :
      (fuel : ℕ) (rule : Rule) (l : TokenList)
      → parse_rule ctx (suc fuel) rule l ≡ step ctx (parse_rule ctx fuel) rule l
  unfolding parse_rule
  parse_rule-step fuel rule l = refl

  -- What the function of a rule answers in front of a token that binds less tightly.
  abbrev Answers : ℕ → Rule → List Token → Expr → Token → List Token → List Token → Type 0
  Answers fuel rule ts e t rest cached =
      step ctx (parse_rule ctx fuel) rule (list_of (ts ++ t ∷ rest) cached)
      ≡ done (e, list_of (t ∷ rest) cached)

  step-Derives :
      (rule : Rule) (ts : List Token) (e : Expr)
      → Derives rule ts e
      → (fuel : ℕ) (t : Token) (rest cached : List Token) → length ts ≤ fuel
      → op_rank t.token_type < rank rule
      → Answers fuel rule ts e t rest cached
  step-Derives _ _ _ (variable a h) fuel t rest cached le low =
      let (ends, plain) = below-suffix t.token_type (omega arith) in
      step-unary ctx (parse_rule ctx fuel) a (t ∷ rest) cached _ h refl
      ∙ parse_postfix_expr-variable _ _ t rest cached plain ends a h
  step-Derives _ _ _ (integer_literal a h) fuel t rest cached le low =
      let (ends, plain) = below-suffix t.token_type (omega arith) in
      step-unary ctx (parse_rule ctx fuel) a (t ∷ rest) cached _ h refl
      ∙ parse_postfix_expr-integer _ _ t rest cached plain ends a h
  step-Derives _ _ _ (parentheses open_ close ts e ho hc d) zero t rest cached le low =
      absurd (omega arith)
  step-Derives _ _ _ (parentheses open_ close ts e ho hc d) (suc fuel) t rest cached le low =
      let (ends, plain) = below-suffix t.token_type (omega arith) in
      let small : length ts ≤ fuel = omega (arith, length-append ts (close ∷ [])) in
      let closes : op_rank close.token_type < 1 = rw hc (omega (arith, rank-close)) in
      rw (append_assoc ts (close ∷ []) (t ∷ rest)) (
        step-unary ctx (parse_rule ctx (suc fuel)) open_ (ts ++ close ∷ t ∷ rest) cached _ ho refl
        ∙ parse_postfix_expr-parentheses _ _ t rest cached plain ends open_ close
            (ts ++ close ∷ t ∷ rest) e ho hc
            (parse_rule-step fuel comma_rule _
              ∙ step-Derives comma_rule ts e d fuel close (t ∷ rest) cached small closes))
  step-Derives _ _ _ (climb rule ts e level d) fuel t rest cached le low =
      let up = rank-next_rule rule level in
      let (ends, plain) = below-suffix t.token_type (omega (arith, rank-below rule)) in
      step-parse_binary ctx (parse_rule ctx fuel) rule (list_of (ts ++ t ∷ rest) cached) level
      ∙ parse_binary-end _ _ _ _ _ e t rest cached
          (step-Derives (next_rule rule) ts e d fuel t rest cached le (omega arith)) plain
          (below-op_of rule t.token_type low)
  step-Derives _ _ _ (no_choice ts e d) fuel t rest cached le low =
      let (ends, plain) = below-suffix t.token_type (omega arith) in
      step-conditional-end ctx (parse_rule ctx fuel) _ e t rest cached
        (step-Derives logical_or_rule ts e d fuel t rest cached le (omega arith)) plain
        (below-op_of conditional_rule t.token_type low)
  step-Derives _ _ _ (operator rule op ls rs lhs rhs level own dl dr) zero t rest cached le low =
      absurd (omega (arith, length-append ls (op ∷ rs)))
  step-Derives _ _ _ (operator rule op ls rs lhs rhs level own dl dr) (suc fuel) t rest cached le
        low =
      let up = rank-next_rule rule level in
      let r = op_of-rank rule op.token_type own in
      let (ends, plain) = below-suffix op.token_type (omega (arith, rank-below rule)) in
      rw (append_assoc ls (op ∷ rs) (t ∷ rest)) (
        step-parse_binary ctx (parse_rule ctx (suc fuel)) rule
          (list_of (ls ++ op ∷ (rs ++ t ∷ rest)) cached) level
        ∙ parse_binary-operator _ _ _ _ _ _ lhs rhs op (rs ++ t ∷ rest) cached
            (step-Derives (next_rule rule) ls lhs dl (suc fuel) op (rs ++ t ∷ rest) cached
              (omega (arith, length-append ls (op ∷ rs))) (omega arith))
            plain own
            (parse_rule-step fuel rule _
              ∙ step-Derives rule rs rhs dr fuel t rest cached
                  (omega (arith, length-append ls (op ∷ rs))) low))
  step-Derives _ _ _ (choice question colon cs ts fs c te fe hq hc dc dt df) zero t rest cached le
        low =
      absurd (omega (arith, length-append cs (question ∷ (ts ++ colon ∷ fs))))
  step-Derives _ _ _ (choice question colon cs ts fs c te fe hq hc dc dt df) (suc fuel) t rest
        cached le low =
      let size = length-append cs (question ∷ (ts ++ colon ∷ fs)) in
      let size2 = length-append ts (colon ∷ fs) in
      let asks : op_rank question.token_type < 4 = rw hq (omega (arith, rank-question)) in
      let splits : op_rank colon.token_type < 3 = rw hc (omega (arith, rank-colon)) in
      rw
        (
          append_assoc cs (question ∷ (ts ++ colon ∷ fs)) (t ∷ rest),
          append_assoc ts (colon ∷ fs) (t ∷ rest),
        )
        (step-conditional-choice ctx (parse_rule ctx (suc fuel)) _ c te fe question colon
          (ts ++ colon ∷ (fs ++ t ∷ rest)) (fs ++ t ∷ rest) (t ∷ rest) cached
          (step-Derives logical_or_rule cs c dc (suc fuel) question (ts ++ colon ∷ (fs ++ t ∷ rest))
            cached (omega arith) asks)
          hq
          (parse_rule-step fuel conditional_rule _
            ∙ step-Derives conditional_rule ts te dt fuel colon (fs ++ t ∷ rest) cached
                (omega arith) splits)
          hc
          (parse_rule-step fuel conditional_rule _
            ∙ step-Derives conditional_rule fs fe df fuel t rest cached (omega arith) low))

  -- The parser reads every text of the grammar: in front of a token that binds less tightly than the
  -- rule, it returns the tree of the derivation and leaves that token and what follows.
  pub parse-Derives :
      (rule : Rule) (ts : List Token) (e : Expr) (t : Token) (rest cached : List Token)
      → Derives rule ts e
      → op_rank t.token_type < rank rule
      → parse ctx rule (list_of (ts ++ t ∷ rest) cached) ≡ done (e, list_of (t ∷ rest) cached)
  unfolding parse
  parse-Derives rule ts e t rest cached d low =
      parse_rule-step (length (ts ++ t ∷ rest)) rule (list_of (ts ++ t ∷ rest) cached)
      ∙ step-Derives rule ts e d (length (ts ++ t ∷ rest)) t rest cached
          (omega (arith, length-append ts (t ∷ rest))) low

done-tree : Expr → Parsed Expr → Expr
done-tree e (done (e', l)) = e'
done-tree e _ = e

semicolon-rank : (rule : Rule) → op_rank b';' < rank rule
unfolding op_rank
semicolon-rank rule = rank-positive rule

-- The grammar gives a text at most one tree by each rule: operators of one rule nest to the right, and
-- those of different rules by their rank.
pub Derives-unique :
    (rule : Rule) (ts : List Token) (e e' : Expr) → Derives rule ts e → Derives rule ts e' → e ≡ e'
unfolding done-tree
Derives-unique rule ts e e' d d' =
    let unit : CompilationUnit = record { named_types = []; current_context = [] } in
    let stop = symbol_token b';' 1 0 in
    ap (done-tree e) (
      sym (parse-Derives unit rule ts e stop [] [] d (semicolon-rank rule))
      ∙ parse-Derives unit rule ts e' stop [] [] d' (semicolon-rank rule))
