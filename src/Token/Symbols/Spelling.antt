-- ===== src/Token/Symbols/Spelling.antt =====
-- hzcc/parser/lexical/utils/symbol_utils.h and hzcc/parser/common/Token.cc: the token types of
-- symbols and words, and the texts that they are printed as.
use hzcc.Prelude.{
  ℕ, ◌+◌, ◌≤◌, ◌≡◌, ◌≢◌, ◌⊎◌, inl, inr, refl, ◌∙◌, true, some, List, [], arith, Bool-cases,
  Option-cases, ◌==◌, Bytes, equal, equal_iff, all_below, all_below_sound, nat_eq, bytes_eq, at,
  length, get_elem?, get_elem?-lt, get_or, get_or-get_elem?, All, All-get_elem?,
}
use hzcc.Token.Kinds.{TokenType, k_unknown, op_start, keyword_start, qual_start, type_spec_start}
use hzcc.Token.Tables.{
  k_single_char_symbol, k_operator_table, k_keyword_table, k_qualifier_table, k_type_specifier,
}
use hzcc.Token.Symbols.{iserch_table, get_symbol_type, get_symbol_type_str, word_type}
use hzcc.Token.Symbols.Search.{get_elem?-iserch_table}
use hzcc.Token.Value.{type_to_str}

pub get_symbol_type-cases :
    (c : ℕ)
    → (get_symbol_type c ≡ k_unknown)
      ⊎ ((get_symbol_type c ≡ c) × (j : ℕ) × (get_elem? k_single_char_symbol j ≡ some c))
unfolding get_symbol_type
get_symbol_type-cases c = elim (Option-cases (iserch_table k_single_char_symbol c)) [
  | inl h ↦ inl (rw (h, get_symbol_type))
  | inr (j, h) ↦
      let found = get_elem?-iserch_table k_single_char_symbol c h in
      inr (rw (h, get_symbol_type) (get_or-get_elem? k_single_char_symbol j 0 found), j, found)
]

-- A one-character symbol is its ASCII code.
symbols_ascii : All (λ c. c ≤ 126) k_single_char_symbol
symbols_ascii = omega arith

pub get_symbol_type-le :
    (c : ℕ) → (get_symbol_type c ≡ k_unknown) ⊎ ((get_symbol_type c ≡ c) × (c ≤ 126))
get_symbol_type-le c = elim (get_symbol_type-cases c) [
  | inl h ↦ inl h
  | inr (h, j, found) ↦
      inr (h, All-get_elem? (λ c. c ≤ 126) k_single_char_symbol j symbols_ascii found)
]

pub get_symbol_type_str-cases :
    (str : Bytes)
    → (get_symbol_type_str str ≡ get_symbol_type (at str 0))
      ⊎ ((j : ℕ) × (get_symbol_type_str str ≡ j + op_start)
          × (get_elem? k_operator_table j ≡ some str)
          × (get_symbol_type (at str 1) ≢ k_unknown))
unfolding get_symbol_type_str
get_symbol_type_str-cases str = elim (Bool-cases (get_symbol_type (at str 1) == k_unknown)) [
  | inl h ↦ inl (rw h)
  | inr h ↦ elim (Option-cases (iserch_table k_operator_table str)) [
    | inl n ↦ inl (rw (h, n))
    | inr (j, f) ↦
        inr (j, rw (h, f), get_elem?-iserch_table k_operator_table str f, λ e. ground arith)
  ]
]

pub word_type-cases :
    (table : List Bytes) (start : TokenType) (w : Bytes)
    → (word_type table start w ≡ k_unknown)
      ⊎ ((j : ℕ) × (word_type table start w ≡ j + start) × (get_elem? table j ≡ some w))
unfolding word_type
word_type-cases table start w = elim (Option-cases (iserch_table table w)) [
  | inl h ↦ inl (rw (h, word_type))
  | inr (j, h) ↦ inr (j, rw (h, word_type), get_elem?-iserch_table table w h)
]

-- The table that belongs to a range of token types is the one that prints them.
abbrev pub Prints : TokenType → List Bytes → Type 0
Prints start table =
    all_below (length table) (λ j. equal (type_to_str (j + start)) (get_or table j [])) ≡ true

pub type_to_str-Prints :
    (start : TokenType) (table : List Bytes) (w : Bytes) (j : ℕ)
    → Prints start table
    → get_elem? table j ≡ some w
    → type_to_str (j + start) ≡ w
type_to_str-Prints start table w j p h =
    (equal_iff _ _).0 (all_below_sound (length table) _ j p (get_elem?-lt table j h))
    ∙ get_or-get_elem? table j [] h

pub Prints-keyword : Prints keyword_start k_keyword_table
unfolding all_below equal type_to_str
Prints-keyword = refl

pub Prints-qualifier : Prints qual_start k_qualifier_table
unfolding all_below equal type_to_str
Prints-qualifier = refl

pub Prints-type_specifier : Prints type_spec_start k_type_specifier
unfolding all_below equal type_to_str
Prints-type_specifier = refl

pub Prints-operator : Prints op_start k_operator_table
unfolding all_below equal type_to_str
Prints-operator = refl

-- A word that a table knows is printed back from its token type alone.
pub type_to_str-word_type :
    (start : TokenType) (table : List Bytes) (w : Bytes)
    → Prints start table
    → word_type table start w ≢ k_unknown
    → type_to_str (word_type table start w) ≡ w
type_to_str-word_type start table w p ne = elim (word_type-cases table start w) [
  | inl h ↦ absurd (ne h)
  | inr (j, h, found) ↦ rw h (type_to_str-Prints start table w j p found)
]
