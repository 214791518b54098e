-- ===== src/Lexer/Source.antt =====
-- hzcc/parser/lexical/LexicalParser.cc: ParseToToken, on the bytes of a stream.
use hzcc.Prelude.{
  ℕ, suc, ◌+◌, Bool, false, none, some, List, [], ◌∷◌, ◌==◌, if◌then◌else◌, Bytes, find_pair,
  length,
}
use hzcc.Token.Value.{Token}
use hzcc.Lexer.State.{LexState, Result, ok, err, ◌>>=◌, unclosed_comment, not_readable, set_col}
use hzcc.Lexer.Line.{analyze_line}

-- A byte in front of the lines behind it.
unfoldable pub cons_line : ℕ → List Bytes → List Bytes
cons_line c [] = (c ∷ []) ∷ []
cons_line c (l ∷ ls) = (c ∷ l) ∷ ls

-- The lines that std::getline reads: no line stands behind a newline that ends the stream.
unfoldable pub getlines : Bytes → List Bytes
unfolding cons_line
getlines [] = []
getlines (c ∷ cs) = if c == b'\n' then [] ∷ getlines cs else cons_line c (getlines cs)

abbrev pub initial : LexState
initial = record {
  tokens = [];
  ctx = record {
    row = 1;
    col = 0;
    multi_line_comment = false;
    multiple_line_comment_start = record { row = 0; col = 0 };
  };
}

abbrev pub next_row : LexState → LexState
next_row s = record s { ctx = record s.ctx { row = suc s.row } }

abbrev pub close_comment : LexState → ℕ → LexState
close_comment s c = record s { ctx = record s.ctx { col = c; multi_line_comment = false } }

-- What follows the loop.
unfoldable pub finish : LexState → Result (List Token)
finish s =
    if s.multi_line_comment then err unclosed_comment s.multiple_line_comment_start else ok s.tokens

module _ (stold_in_range : Bytes → Bool) where
  -- The body of the loop over the lines, up to its `ctx->row++`.
  unfoldable pub read_line : Bytes → LexState → Result LexState
  read_line line s =
      if length line == 0
      then ok (set_col s 0)
      else if s.multi_line_comment
      then elim (find_pair b'*' b'/' line 0) [
        | none ↦ ok (set_col s 0)
        | some p ↦ analyze_line stold_in_range line (close_comment s (p + 2))
      ]
      else analyze_line stold_in_range line (set_col s 0)

  unfoldable pub read_lines : List Bytes → LexState → Result LexState
  unfolding read_line
  read_lines [] s = ok s
  read_lines (line ∷ lines) s = read_line line s >>= λ s'. read_lines lines (next_row s')

  -- ParseToToken; `good` is what `source.good()` answers.
  unfoldable pub parse_to_token : Bool → Bytes → Result (List Token)
  unfolding read_lines finish
  parse_to_token good source =
      if good
      then read_lines (getlines source) initial >>= finish
      else err not_readable (record { row = 0; col = 0 })
