-- ===== src/Lexer/Advance.antt =====
-- hzcc/parser/lexical/LexicalParser.cc: what one handler may do to the token list and the context.
pub mod Symbols
pub mod Literals
pub mod Number
pub mod Line
pub mod Source
use hzcc.Prelude.{
  ◌≤◌, ◌<◌, ◌≡◌, ◌⊎◌, Bool, true, not, ◌&&◌, ◌||◌, [], ◌∷◌, ◌++◌, ◌==◌, Bytes, length,
}
use hzcc.Token.Kinds.{
  TokenType, k_unknown, op_start, op_end, keyword_start, type_spec_start, k_identity, char_lit,
  type_spec_end, qual_start, qual_end, keyword_end, k_lshift_assign, k_rshift_assign,
}
use hzcc.Token.Symbols.{get_symbol_type}
use hzcc.Token.Value.{Token, between}
use hzcc.Lexer.State.{LexState, Result, ok, err, fault, out_of_fuel}

-- The token types that the analysis can produce: the one-character symbols, the literals and
-- identifiers, the words of the three tables, and the operators of two characters, of which `^=`
-- (370) and the two of three characters are missing, as `^` is among the symbols.
unfoldable pub is_emitted : TokenType → Bool
is_emitted t =
    not (get_symbol_type t == k_unknown)
    || between char_lit k_identity t
    || between type_spec_start type_spec_end t
    || (between op_start op_end t && not (t == k_lshift_assign || t == k_rshift_assign || t == 370))
    || between qual_start qual_end t
    || between keyword_start keyword_end t

-- A token that a handler adds between the columns of `s` and of `s'`, inside the line.
pub record Placed (line : Bytes) (s s' : LexState) (t : Token) : Type 0 where
  pub row : t.location.row ≡ s.row
  pub after : s.col ≤ t.location.col
  pub before : t.location.col ≤ s'.col
  pub inside : t.location.col < length line
  pub emitted : is_emitted t.token_type ≡ true

pub record Advance (line : Bytes) (s s' : LexState) : Type 0 where
  pub row : s'.row ≡ s.row
  pub forward : s.col ≤ s'.col
  pub emits :
      (s'.tokens ≡ s.tokens) ⊎ ((t : Token) × (s'.tokens ≡ s.tokens ++ t ∷ []) × Placed line s s' t)

-- The results that a handler may have: progress, a diagnostic, or a fault, and always an end.
abbrev pub Advances : Bytes → LexState → Result LexState → Type 0
Advances line s (ok s') = Advance line s s'
Advances line s (err _ _) = Unit
Advances line s fault = Unit
Advances line s out_of_fuel = ⊥
