-- ===== src/Token/Value.antt =====
-- hzcc/parser/common/Token.h and Token.cc: a token and its printed form. The source shares equal
-- strings through a pool that is only added to, so a token holds its string by value here.
use hzcc.Prelude.{
  ℕ, ◌-◌, Bool, ◌&&◌, Option, none, some, [], ◌∷◌, ◌++◌, leb, ◌==◌, if◌then◌else◌, Bytes, codes,
  iscntrl, get_or,
}
use hzcc.Token.Kinds.{
  TokenType, lit_type_start, lit_type_end, type_spec_start, type_spec_end, op_start, op_end,
  qual_start, qual_end, keyword_start, keyword_end, char_lit, str_lit,
}
use hzcc.Token.Tables.{
  k_literals_symbol, k_type_specifier, k_operator_table, k_qualifier_table, k_keyword_table,
}
use hzcc.Token.Symbols.{ascii_control_code_to_string}

pub record Position : Type 0 where
  pub row : ℕ
  pub col : ℕ

pub record Token : Type 0 where
  pub token_type : TokenType
  pub value : Option Bytes
  pub location : Position

-- The two constructors.
abbrev pub symbol_token : TokenType → ℕ → ℕ → Token
symbol_token t row col = record {
  token_type = t;
  value = none;
  location = record { row = row; col = col };
}

abbrev pub value_token : TokenType → Bytes → ℕ → ℕ → Token
value_token t s row col = record {
  token_type = t;
  value = some s;
  location = record { row = row; col = col };
}

abbrev pub between : TokenType → TokenType → TokenType → Bool
between lo hi t = leb lo t && leb t hi

-- `to_str` of a token without a string.
unfoldable pub type_to_str : TokenType → Bytes
type_to_str idx =
    if leb idx 128
    then idx ∷ []
    else if between lit_type_start lit_type_end idx
    then get_or k_literals_symbol (idx - lit_type_start) []
    else if between type_spec_start type_spec_end idx
    then get_or k_type_specifier (idx - type_spec_start) []
    else if between op_start op_end idx
    then get_or k_operator_table (idx - op_start) []
    else if between qual_start qual_end idx
    then get_or k_qualifier_table (idx - qual_start) []
    else if between keyword_start keyword_end idx
    then get_or k_keyword_table (idx - keyword_start) []
    else codes "unknown token"

-- The loop that escapes the characters of the string.
unfoldable pub escape : Bytes → Bytes
unfolding iscntrl ascii_control_code_to_string
escape [] = []
escape (c ∷ cs) = (if iscntrl c then ascii_control_code_to_string c else c ∷ []) ++ escape cs

abbrev pub quote : TokenType → Bytes
quote t = if t == char_lit then b'\'' ∷ [] else if t == str_lit then b'"' ∷ [] else []

unfoldable pub to_str : Token → Bool → Bytes
unfolding type_to_str escape
to_str t esc = elim t.value [
  | none ↦ type_to_str t.token_type
  | some s ↦ if esc then quote t.token_type ++ escape s ++ quote t.token_type else s
]
