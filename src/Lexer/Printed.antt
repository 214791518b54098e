-- ===== src/Lexer/Printed.antt =====
-- hzcc/parser/common/Token.cc and hzcc/parser/lexical/LexicalParser.cc: Token::to_str on the tokens
-- that the analysis of words and of symbols adds.
use native.Mathlib.Nat.{add-zero}
use hzcc.Prelude.{
  ℕ, suc, ◌≡◌, refl, true, false, Bytes, arith, inl, inr, ◌≢◌, take, drop, at, [], ◌∷◌, ◌≤◌, ◌-◌,
  ge→ltb, ltb, leb, at-drop, ◌∙◌, sym, ◌+◌, some, get_elem?, lt→ltb, at-take, ap,
}
use hzcc.Token.Kinds.{k_unknown, keyword_start, type_spec_start, qual_start, op_start}
use hzcc.Token.Tables.{k_keyword_table, k_type_specifier, k_qualifier_table, k_operator_table}
use hzcc.Token.Symbols.{
  is_keyword, is_qualifier, is_type_specifier, get_symbol_type, get_symbol_type_str, iserch_table,
  iserch_from,
}
use hzcc.Token.Symbols.Spelling.{
  type_to_str-word_type, Prints-keyword, Prints-type_specifier, Prints-qualifier,
  get_symbol_type-le, get_symbol_type_str-cases, type_to_str-Prints, Prints-operator,
}
use hzcc.Token.Value.{Token, symbol_token, type_to_str, to_str}
use hzcc.Lexer.State.{LexState, Result, ok, emplace_back, substr}
use hzcc.Lexer.Words.{word_token, symbol_handler}

-- The token of a word prints the word: as a keyword, a type specifier, a qualifier or an identifier.
pub to_str-word_token : (w : Bytes) (row start : ℕ) → to_str (word_token w row start) false ≡ w
unfolding to_str word_token is_keyword is_type_specifier is_qualifier
to_str-word_token w row start = ground (
  arith,
  type_to_str-word_type keyword_start k_keyword_table w Prints-keyword,
  type_to_str-word_type type_spec_start k_type_specifier w Prints-type_specifier,
  type_to_str-word_type qual_start k_qualifier_table w Prints-qualifier,
)

take-one : (l : Bytes) → at l 0 ≢ 0 → take 1 l ≡ at l 0 ∷ []
take-one [] h = absurd (h refl)
take-one (c ∷ cs) h = refl

zero-unknown : get_symbol_type 0 ≡ k_unknown
unfolding get_symbol_type iserch_table iserch_from
zero-unknown = refl

-- The token of a symbol, printed, is the text of the line from the column where the symbol starts to
-- the column of the token.
abbrev pub Printed : Bytes → LexState → Result LexState → Type 0
Printed line s r =
    (t : Token) × (r ≡ ok (emplace_back s t t.location.col))
    × (to_str t false ≡ substr line s.col (suc (t.location.col - s.col)))

symbol_handler-one :
    (line : Bytes) (s : LexState)
    → get_symbol_type_str (substr line s.col 2) ≡ at line s.col
    → at line s.col ≤ 126
    → at line s.col ≢ 0
    → Printed line s (symbol_handler line s)
unfolding symbol_handler to_str type_to_str
symbol_handler-one line s e small full =
    let short : ltb 300 (at line s.col) ≡ false = ge→ltb _ _ (omega arith) in
    let ascii : leb (at line s.col) 128 ≡ true = ground arith in
    let size : s.col - s.col ≡ 0 = omega arith in
    let first : at (drop s.col line) 0 ≡ at line s.col = at-drop s.col line 0 ∙ rw add-zero in
    (
      symbol_token (at line s.col) s.row s.col,
      rw (e, short) refl,
      rw (ascii, size)
          (sym (take-one (drop s.col line) (λ z. full (sym first ∙ z)) ∙ ap (λ c. c ∷ []) first)),
    )

symbol_handler-two :
    (line : Bytes) (s : LexState) (j : ℕ)
    → get_symbol_type_str (substr line s.col 2) ≡ j + op_start
    → get_elem? k_operator_table j ≡ some (substr line s.col 2)
    → Printed line s (symbol_handler line s)
unfolding symbol_handler to_str
symbol_handler-two line s j e found =
    let long : ltb 300 (j + op_start) ≡ true = lt→ltb _ _ (omega arith) in
    let size : suc s.col - s.col ≡ 1 = omega arith in
    (
      symbol_token (j + op_start) s.row (suc s.col),
      rw (e, long) refl,
      rw size (
          type_to_str-Prints op_start k_operator_table (substr line s.col 2) j Prints-operator
            found),
    )

-- Where a symbol starts, SymbolHandler adds a token that prints as the text that it consumes: one
-- character or an operator of two, from the column of the symbol to the column that it leaves.
pub symbol_handler-Printed :
    (line : Bytes) (s : LexState)
    → get_symbol_type (at line s.col) ≢ k_unknown
    → Printed line s (symbol_handler line s)
symbol_handler-Printed line s known = elim (get_symbol_type_str-cases (substr line s.col 2)) [
  | inl e ↦ elim (get_symbol_type-le (at line s.col)) [
    | inl unknown ↦ absurd (known unknown)
    | inr (c, small) ↦
        symbol_handler-one line s (e ∙ ap get_symbol_type (head line s.col) ∙ c) small
          (λ z. known (ap get_symbol_type z ∙ zero-unknown))
  ]
  | inr (j, e, found, second) ↦ symbol_handler-two line s j e found
]
  where
    head : (line : Bytes) (p : ℕ) → at (substr line p 2) 0 ≡ at line p
    head line p = at-take 2 (drop p line) 0 (omega arith) ∙ at-drop p line 0 ∙ rw add-zero
