-- ===== src/Token/Symbols.antt =====
-- hzcc/parser/lexical/utils/symbol_utils.h: the table search and the classification of characters
-- and words. The index -1 of the source is `none`.
pub mod Search
pub mod Spelling
use hzcc.Prelude.{
  nat_eq, bytes_eq, ℕ, suc, ◌+◌, Bool, ◌||◌, not, Option, none, some, List, [], ◌∷◌, ◌==◌,
  if◌then◌else◌, Eq, Bytes, at, codes, get_or,
}
use hzcc.Token.Kinds.{TokenType, k_unknown, keyword_start, qual_start, type_spec_start}
use hzcc.Token.Tables.{
  k_single_char_symbol, k_operator_table, k_keyword_table, k_qualifier_table, k_type_specifier,
}

module _ {ℓ} {A : Type ℓ} ⦃e : Eq A⦄ where
  -- The loop of `Iserch_table`, from index `i` on.
  unfoldable pub iserch_from : List A → A → ℕ → Option ℕ
  iserch_from [] str i = none
  iserch_from (x ∷ xs) str i =
      let rest = iserch_from xs str (suc i) in if e.beq x str then some i else rest

  unfoldable pub iserch_table : List A → A → Option ℕ
  unfolding iserch_from
  iserch_table table str = iserch_from table str 0

-- `GetSymbolType(char)`
unfoldable pub get_symbol_type : ℕ → TokenType
get_symbol_type str = elim (iserch_table k_single_char_symbol str) [
  | none ↦ k_unknown
  | some ret ↦ get_or k_single_char_symbol ret 0
]

unfoldable pub is_operator : ℕ → Bool
is_operator str = str == b' ' || not (k_unknown == get_symbol_type str)

-- What the word tables share: the index of the word, shifted to where its token types start.
unfoldable pub word_type : List Bytes → TokenType → Bytes → TokenType
word_type table start str = elim (iserch_table table str) [
  | none ↦ k_unknown
  | some ret ↦ ret + start
]

unfoldable pub is_keyword : Bytes → TokenType
unfolding word_type
is_keyword = word_type k_keyword_table keyword_start

unfoldable pub is_qualifier : Bytes → TokenType
unfolding word_type
is_qualifier = word_type k_qualifier_table qual_start

unfoldable pub is_type_specifier : Bytes → TokenType
unfolding word_type
is_type_specifier = word_type k_type_specifier type_spec_start

-- `GetSymbolType(std::string_view)`; `str[1]` of a view that ends its line is the terminator.
unfoldable pub get_symbol_type_str : Bytes → TokenType
get_symbol_type_str str =
    if get_symbol_type (at str 1) == k_unknown
    then get_symbol_type (at str 0)
    else elim (iserch_table k_operator_table str) [
      | none ↦ get_symbol_type (at str 0)
      | some ret ↦ ret + 351
    ]

-- `ToASCIIControlCode`; 0xFF stands for no code.
unfoldable pub to_ascii_control_code : ℕ → ℕ
to_ascii_control_code str =
    if str == b'0'
    then 0
    else if str == b'a'
    then 7
    else if str == b'b'
    then 8
    else if str == b'f'
    then 12
    else if str == b't'
    then 9
    else if str == b'n'
    then 10
    else if str == b'r'
    then 13
    else if str == b'v'
    then 11
    else 0xFF

-- `ASCIIControlCodeToString`
unfoldable pub ascii_control_code_to_string : ℕ → Bytes
ascii_control_code_to_string str =
    if str == 0
    then codes "\\0"
    else if str == 7
    then codes "\\a"
    else if str == 8
    then codes "\\b"
    else if str == 12
    then codes "\\f"
    else if str == 10
    then codes "\\n"
    else if str == 13
    then codes "\\r"
    else if str == 9
    then codes "\\t"
    else if str == 11
    then codes "\\v"
    else []
