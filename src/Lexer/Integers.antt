-- ===== src/Lexer/Integers.antt =====
-- hzcc/parser/lexical/LexicalParser.cc: which integer literals NumLitHandler accepts.
use hzcc.Prelude.{
  ℕ, suc, ◌+◌, ◌*◌, ◌^◌, ◌≡◌, ◌≢◌, refl, Bool, true, false, [], ◌∷◌, ltb, leb, ◌==◌, if◌then◌else◌,
  Bytes, at, length, isdigit, tolower, Bool-cases, arith, inl, inr, ◌∙◌,
}
use native.Mathlib.Numerals.{unary_clauses}
use native.Mathlib.Nat.{pow-suc}
use hzcc.Token.Value.{Position}
use hzcc.Lexer.State.{ok, err, conversion_failed, number_out_of_range, invalid_integer}
use hzcc.Lexer.Stoll.{
  value, invalid_argument, out_of_range, digit_value, read_digits, stoll, all_of, plus_of,
  match_decimal, match_binary,
}
use hzcc.Lexer.Number.{limit_regex_check, check_integer}

-- The number that digits of a base stand for, by their places.
unfoldable pub place_value : ℕ → Bytes → ℕ
place_value base [] = 0
place_value base (c ∷ cs) = digit_value c * base ^ length cs + place_value base cs

no_digits : (base acc : ℕ) → acc ≡ acc * base ^ 0 + 0
no_digits base acc = simp unary_clauses (omega arith)

pow-succ : (base n : ℕ) → base ^ suc n ≡ base ^ n * base
pow-succ base n = pow-suc base n

one_digit : (acc base d p q : ℕ) → (acc * base + d) * p + q ≡ acc * (p * base) + (d * p + q)
one_digit acc base d p q = grind arith

read_digits-place_value :
    (base : ℕ) (ds : Bytes) (acc : ℕ)
    → all_of (λ c. ltb (digit_value c) base) ds ≡ true
    → read_digits base ds acc ≡ acc * base ^ length ds + place_value base ds
unfolding read_digits all_of place_value
read_digits-place_value base [] acc h = no_digits base acc
read_digits-place_value base (c ∷ cs) acc h = elim (Bool-cases (ltb (digit_value c) base)) [
  | inl digit ↦ rw digit (
      read_digits-place_value base cs (acc * base + digit_value c) (rw digit at h)
      ∙ rw (pow-succ base (length cs)) (one_digit acc base (digit_value c) (base ^ length cs) _))
  | inr other ↦ absurd (ground arith)
]

digit_value-decimal : (c : ℕ) → isdigit c ≡ true → ltb (digit_value c) 10 ≡ true
unfolding digit_value isdigit
digit_value-decimal c h = ground arith

all_of-weaken :
    (p q : ℕ → Bool)
    → ((c : ℕ) → p c ≡ true → q c ≡ true)
    → (s : Bytes) → all_of p s ≡ true
    → all_of q s ≡ true
unfolding all_of
all_of-weaken p q le [] h = h
all_of-weaken p q le (c ∷ cs) h = ground (arith, le c, all_of-weaken p q le cs)

read_digits-zero :
    (base : ℕ) (ds : Bytes)
    → all_of (λ c. ltb (digit_value c) base) ds ≡ true
    → read_digits base ds 0 ≡ place_value base ds
read_digits-zero base ds h = read_digits-place_value base ds 0 h ∙ grind arith

-- std::stoll on digits of the base: their number by places, if it is below 2 ^ 63.
stoll-place_value :
    (base : ℕ) (c : ℕ) (cs : Bytes)
    → (base == 16) ≡ false
    → all_of (λ d. ltb (digit_value d) base) (c ∷ cs) ≡ true
    → stoll (c ∷ cs) base ≡ (
        if ltb (place_value base (c ∷ cs)) (2 ^ 63)
        then value (place_value base (c ∷ cs))
        else out_of_range)
unfolding stoll all_of
stoll-place_value base c cs other h =
    let full : (length (c ∷ cs) == 0) ≡ false = ground arith in
    let digit : leb base (digit_value c) ≡ false = ground arith in
    rw (other, full, digit, read_digits-zero base (c ∷ cs) h) refl

digits-below : (s : Bytes) → match_decimal s ≡ true → all_of (λ d. ltb (digit_value d) 10) s ≡ true
unfolding match_decimal plus_of all_of
digits-below [] h = refl
digits-below (c ∷ cs) h = all_of-weaken isdigit _ digit_value-decimal (c ∷ cs) h

-- std::stoll on the letter of a binary literal.
stoll-letter : (c : ℕ) (cs : Bytes) → tolower c ≡ b'b' → stoll (c ∷ cs) 2 ≡ invalid_argument
unfolding stoll digit_value
stoll-letter c cs h =
    let full : (length (c ∷ cs) == 0) ≡ false = ground arith in
    let digit : leb 2 (digit_value c) ≡ true = unfold tolower in ground arith in
    rw (full, digit) refl

limit_regex_check-if :
    (b : Bool) (n : ℕ) (pos : Position)
    → limit_regex_check true invalid_integer pos (if b then value n else out_of_range) pos
      ≡ (if b then ok tt else err number_out_of_range pos)
unfolding limit_regex_check
limit_regex_check-if true n pos = refl
limit_regex_check-if false n pos = refl

-- A decimal literal, digits without a leading zero, is accepted exactly when the number that it
-- stands for is below 2 ^ 63; otherwise the diagnostic is that it is out of range.
pub check_integer-decimal :
    (row start : ℕ) (tmp : Bytes)
    → match_decimal tmp ≡ true
    → at tmp 0 ≢ b'0'
    → check_integer row start tmp ≡ (
        if ltb (place_value 10 tmp) (2 ^ 63)
        then ok tt
        else err number_out_of_range (record { row = row; col = start }))
unfolding check_integer
check_integer-decimal row start [] digits head = absurd (unfold match_decimal plus_of in cc)
check_integer-decimal row start (c ∷ cs) digits head =
    let zero_ : (c == b'0') ≡ false = ground arith in
    rw (zero_, digits, stoll-place_value 10 c cs refl (digits-below (c ∷ cs) digits))
      (limit_regex_check-if _ _ _)

-- A binary literal is always rejected: std::stoll is handed the letter of the base with the digits,
-- and finds no number.
pub check_integer-binary :
    (row start : ℕ) (tmp : Bytes)
    → match_binary tmp ≡ true
    → check_integer row start tmp ≡ err conversion_failed (record { row = row; col = start })
unfolding check_integer limit_regex_check
check_integer-binary row start [] h = absurd (unfold match_binary in cc)
check_integer-binary row start (c ∷ []) h = absurd (unfold match_binary in ground arith)
check_integer-binary row start (c ∷ d ∷ ds) h =
    let zero_ : (c == b'0') ≡ true = unfold match_binary in ground arith in
    let long : (length (c ∷ d ∷ ds) == 1) ≡ false = ground arith in
    let letter : tolower d ≡ b'b' = unfold match_binary tolower in ground arith in
    rw (zero_, long, letter, stoll-letter d ds letter, h) refl
