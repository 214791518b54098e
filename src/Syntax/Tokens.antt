-- ===== src/Syntax/Tokens.antt =====
-- hzcc/utils/cached_list.h, with the filter that ParseToToken gives it: is_qualifier; and the helpers
-- of hzcc/parser/syntax/common_utils.h that consume and report tokens.
--
-- `undefined` is a use of an empty list, or of an iterator past its end, which C++ leaves undefined.
-- `diverges` is the endless loop of `peek`, with the token that it takes over and over. `aborts` is
-- LOG(FATAL). `no_fuel` is no behaviour of the source: it marks a loop whose fuel ran out.
use hzcc.Prelude.{
  ℕ, List, [], ◌∷◌, ◌++◌, ◌==◌, if◌then◌else◌, length, get_elem?, Option, none, some, zero, suc,
}
use hzcc.Token.Kinds.{TokenType, is_qualifier}
use hzcc.Token.Value.{Position, Token}

pub data SyntaxError : Type 0 where
  expected : TokenType → SyntaxError
  unknown_type expected_identifier term_expected else_without_if : SyntaxError
  not_within_loop not_numeric multiple_else unmatched_brace : SyntaxError

pub data Parse {ℓ} (A : Type ℓ) : Type ℓ where
  done : A → Parse A
  error_at : SyntaxError → Position → Parse A
  undefined aborts no_fuel : Parse A
  diverges : Token → Parse A

infixl 5 ◌>>=◌
abbrev pub ◌>>=◌ {ℓ κ} : {A : Type ℓ} {B : Type κ} → Parse A → (A → Parse B) → Parse B
done a >>= f = f a
error_at e p >>= f = error_at e p
undefined >>= f = undefined
diverges t >>= f = diverges t
aborts >>= f = aborts
no_fuel >>= f = no_fuel

-- The list and the tokens that `pop` has set aside.
pub record TokenList : Type 0 where
  pub tokens : List Token
  pub cached_attributes : List Token

abbrev pub token_count : TokenList → ℕ
token_count l = length l.tokens

-- What a function of the parser returns, and the token list that it leaves.
abbrev pub Parsed {ℓ} : Type ℓ → Type ℓ
Parsed A = Parse (A × TokenList)

-- `pop`: the loop over the tokens of the filter, which go to the cache.
unfoldable pub pop_from : List Token → List Token → Parsed Token
pop_from [] cached = undefined
pop_from (t ∷ ts) cached =
    let next = pop_from ts (cached ++ t ∷ []) in
    if is_qualifier t.token_type
    then next
    else done (t, record { tokens = ts; cached_attributes = cached })

unfoldable pub pop : TokenList → Parsed Token
unfolding pop_from
pop l = pop_from l.tokens l.cached_attributes

-- The loop of `peek` for a number of rounds: each of them takes the first token again. `none` stands
-- for a loop that goes on behind them.
unfoldable pub peek_rounds : ℕ → Token → Token → Option Token
peek_rounds zero front token = none
peek_rounds (suc n) front token =
    let again = peek_rounds n front front in
    if is_qualifier token.token_type then again else some token

-- What the loop of `peek` on a token comes to: without an end it takes that token over and over.
abbrev pub outcome : Token → Option Token → Parse Token
outcome t none = diverges t
outcome t (some token) = done token

-- `peek`: one round tells whether its loop ends, as Syntax.Lookup shows.
unfoldable pub peek : TokenList → Parse Token
unfolding peek_rounds
peek l = elim l.tokens [ [] ↦ undefined | t ∷ _ ↦ outcome t (peek_rounds 1 t t) ]

-- `peek2`, which looks past the filter.
unfoldable pub peek2 : TokenList → Parse Token
peek2 l = elim l.tokens [ [] ↦ undefined | _ ∷ ts ↦ elim ts [ [] ↦ undefined | t ∷ _ ↦ done t ] ]

-- `peek3`, which looks past the filter.
unfoldable pub peek3 : TokenList → Parse Token
peek3 l = elim (get_elem? l.tokens 2) [ none ↦ undefined | some t ↦ done t ]

unfoldable pub push : TokenList → Token → TokenList
push l t = record l { tokens = t ∷ l.tokens }

unfoldable pub cache_attr_list : TokenList → List Token × TokenList
cache_attr_list l = (l.cached_attributes, record l { cached_attributes = [] })

-- HZCC_CheckAndConsume_ReturnErr: the message looks at the next token, also of an empty list.
unfoldable pub check_and_consume : TokenType → TokenList → Parse TokenList
unfolding peek pop
check_and_consume type l = peek l >>= λ t.
    if t.token_type == type then (pop l >>= λ r. done r.1) else error_at (expected type) t.location

-- TokenErr on a token list.
unfoldable pub token_err {ℓ} : {A : Type ℓ} → SyntaxError → TokenList → Parse A
unfolding peek
token_err e l = elim l.tokens [
  | [] ↦ error_at e (record { row = 0; col = 0 })
  | _ ∷ _ ↦ peek l >>= λ t. error_at e t.location
]
