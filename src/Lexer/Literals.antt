-- ===== src/Lexer/Literals.antt =====
-- hzcc/parser/lexical/LexicalParser.cc: StrLitHandler and CharLitHandler.
use hzcc.Prelude.{
  ℕ, zero, suc, ◌+◌, ◌-◌, not, ◌&&◌, none, some, [], ◌∷◌, ◌++◌, ltb, ◌==◌, if◌then◌else◌, Bytes, at,
  length, find_first,
}
use hzcc.Token.Kinds.{char_lit, str_lit}
use hzcc.Token.Symbols.{to_ascii_control_code}
use hzcc.Token.Value.{value_token}
use hzcc.Lexer.State.{
  ◌>>=◌, LexState, Result, ok, err, fault, out_of_fuel, unterminated_string, unclosed_char,
  multi_character, emplace_back, substr,
}

-- The loop of StrLitHandler: the string so far, and the column of the closing quote.
unfoldable pub str_lit_loop : ℕ → Bytes → ℕ → ℕ → Bytes → Result (Bytes × ℕ)
str_lit_loop zero line row col tmp = out_of_fuel
str_lit_loop (suc fuel) line row col tmp =
    let new_char = to_ascii_control_code (at line (suc col)) in
    let control = str_lit_loop fuel line row (col + 2) (tmp ++ new_char ∷ []) in
    let kept = str_lit_loop fuel line row (col + 2) (tmp ++ at line col ∷ at line (suc col) ∷ []) in
    let plain = str_lit_loop fuel line row (suc col) (tmp ++ at line col ∷ []) in
    if ltb (length line) col
    then err unterminated_string (record { row = row; col = col - 2 })
    else if at line col == b'\\'
    then if not (new_char == 0xFF) then control else kept
    else if at line col == b'"'
    then ok (tmp, col)
    else plain

-- The columns left of a line, and one round more, are enough fuel.
unfoldable pub str_lit_handler : Bytes → LexState → Result LexState
str_lit_handler line s = do
  (tmp, col) ← str_lit_loop (length line + 2) line s.row (suc s.col) []
  ok (emplace_back s (value_token str_lit tmp s.row s.col) col)

-- The loop of CharLitHandler that replaces an escape of two characters in place.
unfoldable pub replace_escapes : Bytes → Bytes
replace_escapes [] = []
replace_escapes (c ∷ []) = c ∷ []
replace_escapes (c ∷ d ∷ cs) =
    let code = to_ascii_control_code d in
    let replaced = replace_escapes cs in
    let kept = replace_escapes (d ∷ cs) in
    if c == b'\\' && not (code == 0xFF) then code ∷ replaced else c ∷ kept

-- CharLitHandler: it reads the line at column `col`, which may lie past the terminator.
unfoldable pub char_lit_handler : Bytes → LexState → Result LexState
char_lit_handler line s =
    let col = s.col + (if at line (suc s.col) == b'\\' then 3 else 2) in
    if ltb (length line) col
    then fault
    else if not (at line col == b'\'')
    then elim (find_first (◌==◌ b'\'') line col) [
      | none ↦ err unclosed_char (record { row = s.row; col = s.col })
      | some p ↦ err multi_character (record { row = s.row; col = s.col })
    ]
    else let tmp = replace_escapes (substr line (suc s.col) (col - suc s.col)) in
      ok (emplace_back s (value_token char_lit tmp s.row s.col) col)
