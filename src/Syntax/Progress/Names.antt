-- ===== src/Syntax/Progress/Names.antt =====
-- hzcc/parser/syntax/parser/statement_parser.cc: the progress of ParseTypeName.
use hzcc.Prelude.{ℕ, false, ◌||◌, Option, none, some, List, [], ◌∷◌, ◌==◌, Bytes, arith}
use hzcc.Token.Kinds.{struct_kw, enum_kw}
use hzcc.Token.Value.{Position, Token, to_str}
use hzcc.Syntax.Tokens.{Parse, Parsed, TokenList, done, undefined, aborts, pop, peek}
use hzcc.Syntax.Tree.{TypeName, pointer, numerical}
use hzcc.Syntax.Names.{
  CompilationUnit, has_type, get_type, named_type, pointers, parse_type_name, is_primitive_type,
  token_text_address, to_primitive_type,
}
use hzcc.Syntax.Progress.{
  Always-bind, Always-if, Takes, Takes-none, Takes-trans, Good, after, Takes-one, pop-Good,
  AlwaysIn, Within, ending, peek-AlwaysIn,
}

module _ (D : Token → Type 0) where
  named_type-Always :
      (ctx : CompilationUnit) (name : Bytes) (loc : Position)
      → AlwaysIn D (λ t. Unit) (named_type ctx name loc)
  unfolding named_type
  named_type-Always ctx name loc =
      Always-if D _ (has_type ctx name) _ _ (found (get_type ctx name)) tt
    where
      found :
          (o : Option TypeName)
          → AlwaysIn D
              (λ t. Unit)
              (elim o as (λ o. Parse TypeName) [ none ↦ undefined | some t ↦ done t ])
      found none = tt
      found (some t) = tt

  pointers-Good :
      (ts cached : List Token) (t : TypeName)
      → Within D (record { tokens = ts; cached_attributes = cached })
      → Good D 0 (record { tokens = ts; cached_attributes = cached }) (pointers ts cached t)
  unfolding pointers
  pointers-Good [] cached t w = tt
  pointers-Good (a ∷ ts) cached t w =
      Always-bind D _ _ (peek (record { tokens = a ∷ ts; cached_attributes = cached }))
        (peek-AlwaysIn D (record { tokens = a ∷ ts; cached_attributes = cached }) w)
        λ next _.
          Always-if D _ (next.token_type == b'*') _ _
            (after D 1 0 0 (record { tokens = a ∷ ts; cached_attributes = cached })
              (record { tokens = ts; cached_attributes = cached }) _ (omega arith)
              (Takes-one a ts cached cached) (pointers-Good ts cached (pointer t) w.1))
            (Takes-none (record { tokens = a ∷ ts; cached_attributes = cached }), w)

  pub parse_type_name-Good :
      (ctx : CompilationUnit) (l : TokenList) → Within D l → Good D 1 l (parse_type_name ctx l)
  unfolding parse_type_name
  parse_type_name-Good ctx l w = Always-bind D _ _ (pop l) (pop-Good D l w) λ (type, l1) (p1, w1).
      Always-bind {P = λ a. Takes 0 l1 a.1 × Within D a.1} D _ _ _
        (Always-if D _ (is_primitive_type token_text_address) _ _
          (primitive l1 (to_primitive_type (to_str type false)) w1)
          (Always-if D _ (type.token_type == enum_kw || type.token_type == struct_kw) _ _
            (Always-bind D _ _ (pop l1) (pop-Good D l1 w1) λ (name, l2) (p2, w2).
              Always-bind D _ _ (named_type ctx _ _) (named_type-Always ctx _ _)
                (λ t _. ending D l1 l2 w2 (omega arith) p2))
            (Always-bind D _ _ (named_type ctx _ _) (named_type-Always ctx _ _)
              (λ t _. (Takes-none l1, w1)))))
        λ (t, l2) (p2, w2).
          Always-bind D _ _ (pointers l2.tokens l2.cached_attributes t)
            (pointers-Good l2.tokens l2.cached_attributes t w2)
            λ (q, l3) (p3, w3).
              ending D l l3 w3 (omega arith) (Takes-trans l l2 l3 (Takes-trans l l1 l2 p1 p2) p3)
    where
      primitive :
          (l1 : TokenList) (o : Option ℕ)
          → Within D l1
          → Good D 0 l1
              (elim o as (λ o. Parsed TypeName) [ none ↦ aborts | some i ↦ done (numerical i, l1) ])
      primitive l1 none w = tt
      primitive l1 (some i) w = (Takes-none l1, w)
