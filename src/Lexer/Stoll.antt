-- ===== src/Lexer/Stoll.antt =====
-- What hzcc/parser/lexical/LexicalParser.cc uses of the C++ library to check a number: std::stoll on
-- texts without sign or space, and the five regular expressions, written as the matchers they are.
use hzcc.Prelude.{
  ℕ, ◌+◌, ◌-◌, ◌*◌, ◌^◌, Bool, true, false, ◌&&◌, ◌||◌, [], ◌∷◌, ltb, leb, ◌==◌, if◌then◌else◌,
  Bytes, at, drop, length, within, isdigit, tolower,
}

pub data Stoll : Type 0 where
  value : ℕ → Stoll
  invalid_argument : Stoll
  out_of_range : Stoll

-- The value of a digit in the bases up to 36; 36 stands for no digit.
unfoldable pub digit_value : ℕ → ℕ
digit_value c =
    if within b'0' b'9' c
    then c - b'0'
    else if within b'a' b'z' (tolower c)
    then tolower c - b'a' + 10
    else 36

-- The digits of `base` at the front, read from the left.
unfoldable pub read_digits : ℕ → Bytes → ℕ → ℕ
read_digits base [] acc = acc
read_digits base (c ∷ cs) acc =
    if ltb (digit_value c) base then read_digits base cs (acc * base + digit_value c) else acc

-- std::stoll(s, nullptr, base)
unfoldable pub stoll : Bytes → ℕ → Stoll
stoll s base =
    let prefixed =
      base == 16 && at s 0 == b'0' && tolower (at s 1) == b'x' && ltb (digit_value (at s 2)) 16 in
    let digits = if prefixed then drop 2 s else s in
    let n = read_digits base digits 0 in
    if length digits == 0 || leb base (digit_value (at digits 0))
    then invalid_argument
    else if ltb n (2 ^ 63)
    then value n
    else out_of_range

unfoldable pub all_of : (ℕ → Bool) → Bytes → Bool
all_of test [] = true
all_of test (c ∷ cs) = test c && all_of test cs

-- One or more characters of a class, to the end: `[...]+$`.
unfoldable pub plus_of : (ℕ → Bool) → Bytes → Bool
unfolding all_of
plus_of test [] = false
plus_of test (c ∷ cs) = test c && all_of test cs

unfoldable pub is_hex_digit : ℕ → Bool
is_hex_digit c = isdigit c || within b'a' b'f' c || within b'A' b'F' c

-- ^[0-9]+$
unfoldable pub match_decimal : Bytes → Bool
unfolding plus_of
match_decimal s = plus_of isdigit s

-- ^0[xX][0-9a-fA-F]+$
unfoldable pub match_hex : Bytes → Bool
unfolding plus_of is_hex_digit
match_hex s =
    at s 0 == b'0' && (at s 1 == b'x' || at s 1 == b'X') && plus_of is_hex_digit (drop 2 s)

-- ^0[bB][01]+$
unfoldable pub match_binary : Bytes → Bool
unfolding plus_of
match_binary s =
    at s 0 == b'0'
    && (at s 1 == b'b' || at s 1 == b'B')
    && plus_of (λ c. within b'0' b'1' c) (drop 2 s)

-- ^0[0-7]+$
unfoldable pub match_octal : Bytes → Bool
unfolding plus_of
match_octal s = at s 0 == b'0' && plus_of (λ c. within b'0' b'7' c) (drop 1 s)

-- ([eE][-+]?[0-9]+)?$
unfoldable pub match_exponent : Bytes → Bool
unfolding plus_of
match_exponent [] = true
match_exponent (c ∷ cs) =
    (c == b'e' || c == b'E')
    && (if at cs 0 == b'-' || at cs 0 == b'+'
        then plus_of isdigit (drop 1 cs)
        else plus_of isdigit cs)

unfoldable pub drop_digits : Bytes → Bytes
drop_digits [] = []
drop_digits (c ∷ cs) = if isdigit c then drop_digits cs else c ∷ cs

-- [0-9]*\.?[0-9]+([eE][-+]?[0-9]+)?$
unfoldable pub match_real : Bytes → Bool
unfolding match_exponent drop_digits
match_real s =
    let rest = drop_digits s in
    if at rest 0 == b'.'
    then isdigit (at rest 1) && match_exponent (drop_digits (drop 1 rest))
    else isdigit (at s 0) && match_exponent rest
