-- ===== src/Lexer/State.antt =====
-- hzcc/parser/lexical/LexicalParser.cc: the context of the analysis and the results of its handlers.
-- A diagnostic is an error with the position that `print_message` is given. `fault` is a read past
-- the terminator of the line, which C++ leaves undefined; `out_of_fuel` is no behaviour of the
-- source: it marks a loop whose fuel ran out.
use hzcc.Prelude.{ℕ, Bool, List, [], ◌∷◌, ◌++◌, Bytes, take, drop}
use hzcc.Token.Value.{Position, Token}

pub data LexError : Type 0 where
  unterminated_string unclosed_char multi_character : LexError
  invalid_integer invalid_hex invalid_binary invalid_octal invalid_real : LexError
  number_out_of_range conversion_failed : LexError
  unclosed_comment not_readable : LexError

pub data Result {ℓ} (A : Type ℓ) : Type ℓ where
  ok : A → Result A
  err : LexError → Position → Result A
  fault : Result A
  out_of_fuel : Result A

infixl 5 ◌>>=◌
abbrev pub ◌>>=◌ {ℓ κ} : {A : Type ℓ} {B : Type κ} → Result A → (A → Result B) → Result B
ok a >>= f = f a
err e p >>= f = err e p
fault >>= f = fault
out_of_fuel >>= f = out_of_fuel

-- AnalyzeCtx_t
pub record AnalyzeCtx : Type 0 where
  pub row : ℕ
  pub col : ℕ
  pub multi_line_comment : Bool
  pub multiple_line_comment_start : Position

-- What a handler works on: the token list and the context, both by reference in the source.
pub record LexState : Type 0 where
  pub tokens : List Token
  pub ctx : AnalyzeCtx
  pub open ctx use *

abbrev pub set_col : LexState → ℕ → LexState
set_col s c = record s { ctx = record s.ctx { col = c } }

-- `tokens.emplace_back(...)`, with the column that the handler leaves.
abbrev pub emplace_back : LexState → Token → ℕ → LexState
emplace_back s t c = record { tokens = s.tokens ++ t ∷ []; ctx = record s.ctx { col = c } }

-- `line.substr(pos, n)`
abbrev pub substr : Bytes → ℕ → ℕ → Bytes
substr line pos n = take n (drop pos line)
