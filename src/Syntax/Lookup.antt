-- ===== src/Syntax/Lookup.antt =====
-- hzcc/ast/SymbTbl.cc and hzcc/ast/CompilationUnit.cc: has_type and get_type; and
-- hzcc/utils/cached_list.h: what pop sets aside.
use hzcc.Prelude.{
  nat_eq, ◌≡◌, ◌≢◌, refl, ◌∙◌, true, false, Option, none, some, List, [], ◌∷◌, ◌++◌, append_assoc,
  append-nil, ◌==◌, Bytes, length, All, Bool-cases, Option-cases, inl, inr, ℕ, zero, suc,
}
use hzcc.Token.Kinds.{is_qualifier}
use hzcc.Token.Symbols.{iserch_table, iserch_from}
use hzcc.Token.Value.{Token, Position}
use hzcc.Syntax.Tokens.{done, undefined, pop, pop_from, peek_rounds}
use hzcc.Syntax.Tree.{TypeName}
use hzcc.Syntax.Names.{
  find, contains, Scopes, scopes_has_type, scopes_get_type, is_primitive_type, token_text_address,
  CompilationUnit, has_type, get_type, named_type,
}

-- The text of a token is at none of the addresses of the table.
token_text-primitive : is_primitive_type token_text_address ≡ false
unfolding is_primitive_type iserch_table iserch_from
token_text-primitive = refl

abbrev IsSome {ℓ} : {A : Type ℓ} → Option A → Type ℓ
IsSome {A = A} o = (a : A) × (o ≡ some a)

contains-none :
    (table : List (Bytes × TypeName)) (name : Bytes)
    → find table name ≡ none
    → contains table name ≡ false
unfolding contains
contains-none table name n = rw (n, contains) refl

contains-some :
    (table : List (Bytes × TypeName)) (name : Bytes) (t : TypeName)
    → find table name ≡ some t
    → contains table name ≡ true
unfolding contains
contains-some table name t e = rw (e, contains) refl

scopes_has_type-get_type :
    (scopes : Scopes) (name : Bytes)
    → scopes_has_type scopes name ≡ true
    → IsSome (scopes_get_type scopes name)
unfolding scopes_has_type scopes_get_type
scopes_has_type-get_type [] name h = absurd (cc)
scopes_has_type-get_type (s ∷ upper) name h = elim (Option-cases (find s.named_types name)) [
  | inl n ↦
      rw (n, scopes_get_type)
        (scopes_has_type-get_type upper name (rw (contains-none s.named_types name n) at h))
  | inr (t, e) ↦ rw (e, scopes_get_type) (t, refl)
]

-- What has_type asks of the tables, for a text that is not empty.
has_type-split :
    (unit : CompilationUnit) (name : Bytes)
    → has_type unit name ≡ true
    → (find unit.named_types name ≡ none) × (scopes_has_type unit.current_context name ≡ true)
unfolding has_type
has_type-split unit name h = elim (Bool-cases (length name == 0)) [
  | inl empty ↦ absurd (cc (rw empty at h))
  | inr full ↦ elim (Option-cases (find unit.named_types name)) [
    | inl n ↦ (n, rw (full, token_text-primitive, contains-none unit.named_types name n) at h)
    | inr (t, e) ↦
        absurd (cc (rw (full, token_text-primitive, contains-some unit.named_types name t e) at h))
  ]
]

-- A name that has_type accepts stands in a scope and not in the global table, and get_type finds a type
-- for it.
pub has_type-get_type :
    (unit : CompilationUnit) (name : Bytes)
    → has_type unit name ≡ true
    → (find unit.named_types name ≡ none) × ((t : TypeName) × (get_type unit name ≡ some t))
unfolding get_type
has_type-get_type unit name h =
    let (global, local) = has_type-split unit name h in
    let (t, e) = scopes_has_type-get_type unit.current_context name local in
    (global, (t, rw (token_text-primitive, global, local) e))

-- ParseTypeName never has a name of a type without its type.
pub named_type-defined :
    (ctx : CompilationUnit) (name : Bytes) (loc : Position) → named_type ctx name loc ≢ undefined
unfolding named_type
named_type-defined ctx name loc e = elim (Bool-cases (has_type ctx name)) [
  | inl h ↦ let (global, (t, found)) = has_type-get_type ctx name h in cc (rw (h, found) at e)
  | inr n ↦ cc (rw n at e)
]

pop_from-qualifiers :
    (before : List Token) (t : Token) (rest cached : List Token)
    → All (λ q. is_qualifier q.token_type ≡ true) before
    → is_qualifier t.token_type ≡ false
    → pop_from (before ++ t ∷ rest) cached
      ≡ done (t, record { tokens = rest; cached_attributes = cached ++ before })
unfolding pop_from
pop_from-qualifiers [] t rest cached h plain = rw (plain, append-nil cached) refl
pop_from-qualifiers (q ∷ before) t rest cached h plain =
    rw (h.0, pop_from)
      (pop_from-qualifiers before t rest (cached ++ q ∷ []) h.1 plain
        ∙ rw (append_assoc cached (q ∷ []) before) refl)

-- pop takes the qualifiers in front of the next other token, returns that token, and adds the
-- qualifiers to the cache in their order.
pub pop-qualifiers :
    (before : List Token) (t : Token) (rest cached : List Token)
    → All (λ q. is_qualifier q.token_type ≡ true) before
    → is_qualifier t.token_type ≡ false
    → pop (record { tokens = before ++ t ∷ rest; cached_attributes = cached })
      ≡ done (t, record { tokens = rest; cached_attributes = cached ++ before })
unfolding pop
pop-qualifiers before t rest cached h plain = pop_from-qualifiers before t rest cached h plain

-- On a qualifier no number of rounds ends the loop of peek.
pub peek_rounds-qualifier :
    (t : Token) → is_qualifier t.token_type ≡ true → (n : ℕ) → peek_rounds n t t ≡ none
unfolding peek_rounds
peek_rounds-qualifier t q zero = refl
peek_rounds-qualifier t q (suc n) = rw q (peek_rounds-qualifier t q n)

-- On any other token one round ends it, whatever the number of rounds it is given.
peek_rounds-plain :
    (t : Token) → is_qualifier t.token_type ≡ false → (n : ℕ) → peek_rounds (suc n) t t ≡ some t
unfolding peek_rounds
peek_rounds-plain t plain n = rw plain refl
