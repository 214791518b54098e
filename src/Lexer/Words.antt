-- ===== src/Lexer/Words.antt =====
-- hzcc/parser/lexical/LexicalParser.cc: symbols, comments, and words (the inner loop of AnalyzeLine).
use hzcc.Prelude.{
  ℕ, suc, ◌+◌, ◌-◌, true, none, some, [], ◌∷◌, ltb, ◌==◌, if◌then◌else◌, Bytes, at, length, drop,
  find_pair,
}
use hzcc.Token.Kinds.{k_identity, k_unknown}
use hzcc.Token.Symbols.{
  get_symbol_type_str, is_operator, is_keyword, is_qualifier, is_type_specifier,
}
use hzcc.Token.Value.{Token, symbol_token, value_token}
use hzcc.Lexer.State.{LexState, Result, ok, set_col, emplace_back, substr}

-- SymbolHandler: the second character of a symbol of two is left to the loop of AnalyzeLine.
unfoldable pub symbol_handler : Bytes → LexState → Result LexState
symbol_handler line s =
    let type = get_symbol_type_str (substr line s.col 2) in
    let col = if ltb 300 type then suc s.col else s.col in
    ok (emplace_back s (symbol_token type s.row col) col)

abbrev pub open_comment : LexState → ℕ → LexState
open_comment s end = record s {
  ctx = record s.ctx {
    col = end;
    multi_line_comment = true;
    multiple_line_comment_start = record { row = s.row; col = s.col };
  };
}

-- CommentHandler
unfoldable pub comment_handler : Bytes → LexState → Result LexState
unfolding symbol_handler
comment_handler line s =
    if at line (suc s.col) == b'/'
    then ok (set_col s (length line))
    else if at line (suc s.col) == b'*'
    then elim (find_pair b'*' b'/' line (s.col + 2)) [
      | none ↦ ok (open_comment s (length line))
      | some close ↦ ok (set_col s (suc close))
    ]
    else symbol_handler line s

-- The loop that looks for the next operator or space, from column `col` on.
unfoldable pub scan_word : Bytes → ℕ → ℕ
scan_word [] col = col
scan_word (c ∷ cs) col = if is_operator c then col else scan_word cs (suc col)

-- The token of a word: a keyword, a type specifier, a qualifier or an identifier, in this order.
unfoldable pub word_token : Bytes → ℕ → ℕ → Token
word_token word row start =
    if is_keyword word == k_unknown
    then if is_type_specifier word == k_unknown
      then if is_qualifier word == k_unknown
        then value_token k_identity word row start
        else symbol_token (is_qualifier word) row start
      else symbol_token (is_type_specifier word) row start
    else symbol_token (is_keyword word) row start

unfoldable pub word_handler : Bytes → LexState → Result LexState
unfolding scan_word word_token
word_handler line s =
    let col = scan_word (drop s.col line) s.col in
    ok (emplace_back s (word_token (substr line s.col (col - s.col)) s.row s.col) (col - 1))
