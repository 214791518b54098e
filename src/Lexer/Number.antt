-- ===== src/Lexer/Number.antt =====
-- hzcc/parser/lexical/LexicalParser.cc: NumLitHandler and its macro LIMIT_REGEX_CHECK. Whether
-- std::stold finds a real number in range is a parameter, since there are no floats here.
use hzcc.Prelude.{
  ℕ, zero, suc, ◌+◌, ◌-◌, ◌%◌, ◌^◌, Bool, true, false, not, ◌&&◌, ◌||◌, Option, none, some, leb,
  ◌==◌, if◌then◌else◌, Bytes, at, length, take, drop, within, isdigit, isspace, tolower, find_first,
}
use hzcc.Token.Kinds.{TokenType, int_lit, real_lit}
use hzcc.Token.Symbols.{is_operator}
use hzcc.Token.Value.{Position, value_token}
use hzcc.Lexer.State.{
  LexState, LexError, Result, ok, err, out_of_fuel, ◌>>=◌, invalid_integer, invalid_hex,
  invalid_binary, invalid_octal, invalid_real, number_out_of_range, conversion_failed, emplace_back,
  substr,
}
use hzcc.Lexer.Stoll.{
  Stoll, value, invalid_argument, out_of_range, stoll, is_hex_digit, match_decimal, match_hex,
  match_binary, match_octal, match_real,
}

-- The prefix of a number: its digits, the letter of a base, and a dot.
unfoldable pub number_prefix : Bytes → ℕ → ℕ × TokenType
number_prefix line start = elim (find_first (λ c. not (isdigit c)) line start) [
  | none ↦ (length line, int_lit)
  | some p ↦
      let q = if tolower (at line p) == b'b' || tolower (at line p) == b'x' then suc p else p in
      if at line q == b'.' then (suc q, real_lit) else (q, int_lit)
]

-- The loop that looks for the end of the number; it may end one column past the line.
unfoldable pub number_loop : ℕ → Bytes → ℕ → TokenType → Result (ℕ × TokenType)
number_loop zero line col type = out_of_fuel
number_loop (suc fuel) line col type =
    let c = at line col in
    let exponent = number_loop fuel line (col + 2) real_lit in
    let plain = number_loop fuel line (suc col) type in
    if leb col (length line) && (c == b'.' || (not (isspace c) && not (is_operator c)))
    then if tolower c == b'e' && (at line (suc col) == b'-' || at line (suc col) == b'+')
      then exponent
      else plain
    else ok (col, type)

-- LIMIT_REGEX_CHECK for the integers: the pattern, then the conversion.
unfoldable pub limit_regex_check : Bool → LexError → Position → Stoll → Position → Result (Unit {0})
limit_regex_check false e pos conversion start = err e pos
limit_regex_check true e pos (value n) start = ok tt
limit_regex_check true e pos invalid_argument start = err conversion_failed start
limit_regex_check true e pos out_of_range start = err number_out_of_range start

-- Where the message about a wrong character points: at it, shifted by `base`, or at the start.
unfoldable pub error_position : ℕ → ℕ → ℕ → Option ℕ → Position
error_position row start base none = record { row = row; col = start }
error_position row start base (some p) = record { row = row; col = base + p }

unfoldable pub check_integer : ℕ → ℕ → Bytes → Result (Unit {0})
unfolding limit_regex_check error_position
check_integer row start tmp =
    let pos : Position = record { row = row; col = start } in
    if not (at tmp 0 == b'0') || length tmp == 1
    then limit_regex_check (match_decimal tmp) invalid_integer pos (stoll tmp 10) pos
    else if tolower (at tmp 1) == b'x'
    then limit_regex_check (match_hex tmp) invalid_hex
        (error_position row start 0 (find_first (λ c. not (is_hex_digit c)) tmp 2)) (stoll tmp 16)
        pos
    else if tolower (at tmp 1) == b'b'
    then limit_regex_check (match_binary tmp) invalid_binary pos (stoll (drop 1 tmp) 2) pos
    else limit_regex_check (match_octal tmp) invalid_octal
        (error_position row start start (find_first (λ c. not (within b'0' b'7' c)) tmp 1))
        (stoll tmp 8) pos

abbrev pub npos : ℕ
npos = 2 ^ 64 - 1

abbrev pub k_max_significant_digits : ℕ
k_max_significant_digits = 19

-- The truncation of a real number; the positions are unsigned words of 64 bits.
unfoldable pub truncate_real : Bytes → Bytes
truncate_real tmp =
    let dot_pos : ℕ = elim (find_first (◌==◌ b'.') tmp 0) [ none ↦ npos | some p ↦ p ] in
    if leb k_max_significant_digits ((length tmp + 2 ^ 64 - dot_pos) % 2 ^ 64)
    then take ((dot_pos + k_max_significant_digits + 1) % 2 ^ 64) tmp
    else tmp

abbrev is_real_char : ℕ → Bool
is_real_char c = isdigit c || c == b'.' || c == b'e' || c == b'E' || c == b'+' || c == b'-'

module _ (stold_in_range : Bytes → Bool) where
  unfoldable pub check_real : ℕ → ℕ → Bytes → Result Bytes
  unfolding error_position truncate_real
  check_real row start tmp =
      if not (match_real tmp)
      then err invalid_real
          (error_position row start 0 (find_first (λ c. not (is_real_char c)) tmp 0))
      else if not (stold_in_range tmp)
      then err number_out_of_range (record { row = row; col = start })
      else ok (truncate_real tmp)

  unfoldable pub check_number : TokenType → ℕ → ℕ → Bytes → Result Bytes
  unfolding check_integer check_real
  check_number type row start tmp =
      if type == int_lit
      then (do check_integer row start tmp >>= λ _. ok tmp)
      else check_real row start tmp

  -- NumLitHandler
  unfoldable pub num_lit_handler : Bytes → LexState → Result LexState
  unfolding number_prefix
  num_lit_handler line s =
      let prefix = number_prefix line s.col in
      do
        (col, type) ← number_loop (length line + 2) line prefix.0 prefix.1
        tmp ← check_number type s.row s.col (substr line s.col (col - s.col))
        ok (emplace_back s (value_token type tmp s.row s.col) (col - 1))
