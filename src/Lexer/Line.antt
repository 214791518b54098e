-- ===== src/Lexer/Line.antt =====
-- hzcc/parser/lexical/LexicalParser.cc: AnalyzeLine.
use hzcc.Prelude.{
  true, false, ℕ, zero, suc, Bool, ◌||◌, ltb, ◌==◌, if◌then◌else◌, Bytes, at, length, isdigit,
}
use hzcc.Token.Kinds.{k_unknown}
use hzcc.Token.Symbols.{get_symbol_type}
use hzcc.Lexer.State.{LexState, Result, ok, out_of_fuel, ◌>>=◌, set_col}
use hzcc.Lexer.Words.{symbol_handler, comment_handler, word_handler}
use hzcc.Lexer.Literals.{str_lit_handler, char_lit_handler}
use hzcc.Lexer.Number.{num_lit_handler}

module _ (stold_in_range : Bytes → Bool) where
  -- The switch on the character at the column. The warning about `@` and "`" is not modelled.
  unfoldable pub analyze_char : Bytes → LexState → Result LexState
  analyze_char line s =
      let c = at line s.col in
      if c == b' ' || c == b'\t' || c == b'\r' || c == b'@' || c == b'`'
      then ok s
      else if c == b'/'
      then comment_handler line s
      else if c == b'"'
      then str_lit_handler line s
      else if c == b'\''
      then char_lit_handler line s
      else if isdigit c
      then num_lit_handler stold_in_range line s
      else if get_symbol_type c == k_unknown
      then word_handler line s
      else symbol_handler line s

  -- The loop over the columns.
  unfoldable pub analyze_from : ℕ → Bytes → LexState → Result LexState
  analyze_from zero line s = out_of_fuel
  analyze_from (suc fuel) line s = elim (ltb s.col (length line)) [
    | true ↦ analyze_char line s >>= λ s'. analyze_from fuel line (set_col s' (suc s'.col))
    | false ↦ ok s
  ]

  -- Every round moves the column on, so the length of the line is fuel enough.
  unfoldable pub analyze_line : Bytes → LexState → Result LexState
  unfolding analyze_from
  analyze_line line s = analyze_from (suc (length line)) line s
