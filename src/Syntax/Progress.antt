-- ===== src/Syntax/Progress.antt =====
-- hzcc/parser/syntax/parser/statement_parser.cc: what the parser takes of the token list, and the
-- fuel of its loops.
pub mod Names
pub mod Operand
pub mod Unary
pub mod Operators
use hzcc.Prelude.{
  ℕ, ◌+◌, ◌≤◌, ◌≡◌, refl, ap, ◌∙◌, sym, Bool, true, false, List, [], ◌∷◌, ◌++◌, append_assoc, ◌==◌,
  if◌then◌else◌, length, length-append, arith, Bool-cases, inl, inr, All,
}
use hzcc.Token.Kinds.{TokenType, is_qualifier}
use hzcc.Token.Value.{Token}
use hzcc.Syntax.Tokens.{
  ◌>>=◌, Parse, Parsed, TokenList, SyntaxError, token_count, done, error_at, undefined, diverges,
  aborts, no_fuel, pop, pop_from, peek, check_and_consume, token_err, peek_rounds, outcome,
}

-- A result that has the property, or is no result: it is never out of fuel, and where the loop of
-- `peek` does not end, the token has the property `D`.
abbrev pub AlwaysIn {ℓ} : {A : Type ℓ} → (Token → Type 0) → (A → Type 0) → Parse A → Type 0
AlwaysIn D P (done a) = P a
AlwaysIn D P (error_at _ _) = Unit
AlwaysIn D P undefined = Unit
AlwaysIn D P (diverges t) = D t
AlwaysIn D P aborts = Unit
AlwaysIn D P no_fuel = ⊥

abbrev pub IsStuck : Token → Type 0
IsStuck t = is_qualifier t.token_type ≡ true

-- The same, where only a qualifier keeps `peek` from an end.
abbrev pub Always {ℓ} : {A : Type ℓ} → (A → Type 0) → Parse A → Type 0
Always P r = AlwaysIn IsStuck P r

pub Always-bind {ℓ κ} :
    {A : Type ℓ} {B : Type κ} {P : A → Type 0} (D : Token → Type 0) (Q : B → Type 0)
    (f : A → Parse B) (r : Parse A)
    → AlwaysIn D P r
    → ((a : A) → P a → AlwaysIn D Q (f a))
    → AlwaysIn D Q (r >>= f)
Always-bind D Q f (done a) p h = h a p
Always-bind D Q f (error_at _ _) p h = tt
Always-bind D Q f undefined p h = tt
Always-bind D Q f (diverges t) p h = p
Always-bind D Q f aborts p h = tt
Always-bind D Q f no_fuel p h = p

pub Always-if {ℓ} :
    {A : Type ℓ} (D : Token → Type 0) (Q : A → Type 0) (b : Bool) (x y : Parse A)
    → AlwaysIn D Q x
    → AlwaysIn D Q y
    → AlwaysIn D Q (if b then x else y)
Always-if D Q true x y hx hy = hx
Always-if D Q false x y hx hy = hy

pub AlwaysIn-weaken {ℓ} :
    {A : Type ℓ} {P : A → Type 0} (D : Token → Type 0) (Q : A → Type 0) (r : Parse A)
    → ((a : A) → P a → Q a)
    → AlwaysIn D P r
    → AlwaysIn D Q r
AlwaysIn-weaken D Q (done a) h p = h a p
AlwaysIn-weaken D Q (error_at _ _) h p = tt
AlwaysIn-weaken D Q undefined h p = tt
AlwaysIn-weaken D Q (diverges t) h p = p
AlwaysIn-weaken D Q aborts h p = tt
AlwaysIn-weaken D Q no_fuel h p = p

-- The qualifiers of a list have the property.
abbrev pub Within : (Token → Type 0) → TokenList → Type 0
Within D l = All (λ t. is_qualifier t.token_type ≡ true → D t) l.tokens

-- Each qualifier of a list is one.
pub Within-IsStuck : (l : TokenList) → Within IsStuck l
Within-IsStuck l = go l.tokens
  where
    go : (ts : List Token) → All (λ t. is_qualifier t.token_type ≡ true → IsStuck t) ts
    go [] = tt
    go (t ∷ ts) = (λ q. q, go ts)

-- A list without a qualifier.
pub Within-plain :
    (D : Token → Type 0) (l : TokenList)
    → All (λ t. is_qualifier t.token_type ≡ false) l.tokens
    → Within D l
Within-plain D l h = go l.tokens h
  where
    go :
        (ts : List Token)
        → All (λ t. is_qualifier t.token_type ≡ false) ts
        → All (λ t. is_qualifier t.token_type ≡ true → D t) ts
    go [] h = tt
    go (t ∷ ts) h = (λ q. absurd (grind (arith, q, h.0)), go ts h.1)

-- At least `n` tokens are taken from the front, and the others are left as they are.
abbrev pub Takes : ℕ → TokenList → TokenList → Type 0
Takes n l l' = (used : List Token) × (l.tokens ≡ used ++ l'.tokens) × (n ≤ length used)

pub Takes-none : (l : TokenList) → Takes 0 l l
Takes-none l = ([], refl, omega arith)

pub Takes-trans :
    {n m : ℕ} (l l' l'' : TokenList) → Takes n l l' → Takes m l' l'' → Takes (n + m) l l''
Takes-trans l l' l'' (used, e, le) (more, e', le') = (
  used ++ more,
  e ∙ ap (λ ts. used ++ ts) e' ∙ sym (append_assoc used more l''.tokens),
  omega (arith, length-append used more),
)

pub Takes-le : {n m : ℕ} (l l' : TokenList) → m ≤ n → Takes n l l' → Takes m l l'
Takes-le l l' le (used, e, h) = (used, e, omega arith)

pub Takes-count : {n : ℕ} (l l' : TokenList) → Takes n l l' → token_count l' + n ≤ token_count l
Takes-count l l' (used, e, h) = omega (arith, ap length e, length-append used l'.tokens)

abbrev pub Good {ℓ} : {A : Type ℓ} → (Token → Type 0) → ℕ → TokenList → Parsed A → Type 0
Good D n l r = AlwaysIn D (λ a. Takes n l a.1 × Within D a.1) r

-- The end of a list, with less said of what was taken.
pub ending :
    {n m : ℕ} (D : Token → Type 0) (l l' : TokenList)
    → Within D l'
    → m ≤ n
    → Takes n l l'
    → Takes m l l' × Within D l'
ending D l l' w le p = (Takes-le l l' le p, w)

-- What comes behind tokens that are taken.
pub after {ℓ} :
    {A : Type ℓ} (D : Token → Type 0) (n m k : ℕ) (l l' : TokenList) (r : Parsed A)
    → k ≤ n + m
    → Takes n l l'
    → Good D m l' r
    → Good D k l r
after D n m k l l' r le p q =
    AlwaysIn-weaken D _ r (λ a h. (Takes-le l a.1 le (Takes-trans l l' a.1 p h.0), h.1)) q

-- The first token of a list, taken.
pub Takes-one :
    (t : Token) (ts cached cached' : List Token)
    → Takes 1
        (record { tokens = t ∷ ts; cached_attributes = cached })
        (record { tokens = ts; cached_attributes = cached' })
Takes-one t ts cached cached' = (t ∷ [], refl, omega arith)

module _ (D : Token → Type 0) where
  pop_from-Good :
      (ts cached : List Token)
      → Within D (record { tokens = ts; cached_attributes = cached })
      → Good D 1 (record { tokens = ts; cached_attributes = cached }) (pop_from ts cached)
  unfolding pop_from
  pop_from-Good [] cached w = tt
  pop_from-Good (t ∷ ts) cached w = elim (Bool-cases (is_qualifier t.token_type)) [
    | inl q ↦ rw q (
        after D 1 1 1 (record { tokens = t ∷ ts; cached_attributes = cached })
          (record { tokens = ts; cached_attributes = cached ++ t ∷ [] })
          (pop_from ts (cached ++ t ∷ [])) (omega arith) (Takes-one t ts cached (cached ++ t ∷ []))
          (pop_from-Good ts (cached ++ t ∷ []) w.1))
    | inr n ↦ rw n ((t ∷ [], refl, omega arith), w.1)
  ]

  pub pop-Good : (l : TokenList) → Within D l → Good D 1 l (pop l)
  unfolding pop
  pop-Good l w = pop_from-Good l.tokens l.cached_attributes w

  pub peek-AlwaysIn : (l : TokenList) → Within D l → AlwaysIn D (λ t. Unit) (peek l)
  unfolding peek peek_rounds
  peek-AlwaysIn l w = go l.tokens w
    where
      go :
          (ts : List Token)
          → All (λ t. is_qualifier t.token_type ≡ true → D t) ts
          → AlwaysIn D
              (λ t. Unit)
              (elim ts [ [] ↦ undefined | t ∷ _ ↦ outcome t (peek_rounds 1 t t) ])
      go [] w = tt
      go (t ∷ _) w = elim (Bool-cases (is_qualifier t.token_type)) [
        | inl q ↦ rw q (w.0 q)
        | inr n ↦ rw n tt
      ]

  pub check_and_consume-Good :
      (type : TokenType) (l : TokenList)
      → Within D l
      → AlwaysIn D (λ l'. Takes 1 l l' × Within D l') (check_and_consume type l)
  unfolding check_and_consume
  check_and_consume-Good type l w = Always-bind D _ _ (peek l) (peek-AlwaysIn l w) λ t _.
      Always-if D _ (t.token_type == type) _ _ (Always-bind D _ _ (pop l) (pop-Good l w) (λ a p. p))
        tt

  pub token_err-AlwaysIn {ℓ} :
      {A : Type ℓ} (Q : A → Type 0) (e : SyntaxError) (l : TokenList)
      → Within D l
      → AlwaysIn D Q (token_err e l)
  unfolding token_err
  token_err-AlwaysIn Q e l w = go l.tokens
    where
      go :
          (ts : List Token)
          → AlwaysIn D Q (elim ts [
            | [] ↦ error_at e (record { row = 0; col = 0 })
            | _ ∷ _ ↦ peek l >>= λ t. error_at e t.location
          ])
      go [] = tt
      go (t ∷ _) = Always-bind D Q _ (peek l) (peek-AlwaysIn l w) (λ t _. tt)
