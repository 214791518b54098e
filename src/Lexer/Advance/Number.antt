-- ===== src/Lexer/Advance/Number.antt =====
-- hzcc/parser/lexical/LexicalParser.cc: the progress and the end of NumLitHandler.
use native.Mathlib.Nat.{le_refl}
use hzcc.Prelude.{
  ℕ, zero, suc, ◌+◌, ◌-◌, ◌≤◌, ◌<◌, ◌≡◌, ◌≢◌, ◌⊎◌, inl, inr, refl, Bool, true, false, not, ◌&&◌,
  ◌||◌, Option, none, some, leb, ◌==◌, if◌then◌else◌, Bytes, at, length, drop, find_first,
  find_from, isdigit, isspace, tolower, Bool-cases, arith, at-drop, find_from-bounds, ap, ◌∙◌,
}
use hzcc.Token.Kinds.{TokenType, int_lit, real_lit}
use hzcc.Token.Symbols.{is_operator, get_symbol_type, iserch_table, iserch_from}
use hzcc.Token.Value.{Position, value_token}
use hzcc.Lexer.State.{
  LexState, LexError, Result, ok, err, fault, out_of_fuel, ◌>>=◌, emplace_back, substr,
}
use hzcc.Lexer.Stoll.{Stoll, value, invalid_argument, out_of_range}
use hzcc.Lexer.Number.{
  number_prefix, number_loop, limit_regex_check, check_integer, check_real, check_number,
  num_lit_handler,
}
use hzcc.Lexer.Advance.{is_emitted, Advances}
use hzcc.Lexer.Advance.Symbols.{emplace_back-Advance}

abbrev IsNumberType : TokenType → Type 0
IsNumberType t = (t ≡ int_lit) ⊎ (t ≡ real_lit)

number-emitted : (t : TokenType) → IsNumberType t → is_emitted t ≡ true
unfolding is_emitted get_symbol_type iserch_table iserch_from
number-emitted t (inl e) = rw e
number-emitted t (inr e) = rw e

-- A column behind `col` and the type of a number.
abbrev Scanned : ℕ → ℕ × TokenType → Type 0
Scanned col r = (col ≤ r.0) × IsNumberType r.1

past_digit :
    (line : Bytes) (start p : ℕ)
    → isdigit (at line start) ≡ true
    → start ≤ p
    → not (isdigit (at line p)) ≡ true
    → suc start ≤ p
past_digit line start p digit le nd =
    let ne : p ≢ start = λ e. cc (ap (λ q. isdigit (at line q)) e, ap not digit, nd) in
    omega (arith, ne)

-- The digits, the letter and the dot move the column past the first digit.
number_prefix-Scanned :
    (line : Bytes) (start : ℕ)
    → start < length line
    → isdigit (at line start) ≡ true
    → Scanned (suc start) (number_prefix line start)
unfolding number_prefix find_first
number_prefix-Scanned line start lt digit =
    go (find_from (λ c. not (isdigit c)) (drop start line) start) refl
  where
    past :
        (b d : Bool) (p : ℕ)
        → suc start ≤ p
        → Scanned
            (suc start)
            (let q = if b then suc p else p in if d then (suc q, real_lit) else (q, int_lit))
    past b d p h = ground arith

    go :
        (o : Option ℕ)
        → find_from (λ c. not (isdigit c)) (drop start line) start ≡ o
        → Scanned (suc start) (elim o [
          | none ↦ (length line, int_lit)
          | some p ↦
              let q =
                if tolower (at line p) == b'b' || tolower (at line p) == b'x' then suc p else p in
              if at line q == b'.' then (suc q, real_lit) else (q, int_lit)
        ])
    go none e = (lt, inl refl)
    go (some p) e =
        let (le, bound, test) =
          find_from-bounds (λ c. not (isdigit c)) (drop start line) start p e in
        let here : at (drop start line) (p - start) ≡ at line p =
          at-drop start line (p - start) ∙ ap (at line) (omega arith) in
        past _ _ p (past_digit line start p digit le (rw here at test))

abbrev LoopEnds : ℕ → Result (ℕ × TokenType) → Type 0
LoopEnds col (ok r) = Scanned col r
LoopEnds col (err _ _) = ⊥
LoopEnds col fault = ⊥
LoopEnds col out_of_fuel = ⊥

LoopEnds-le : (a b : ℕ) (r : Result (ℕ × TokenType)) → a ≤ b → LoopEnds b r → LoopEnds a r
LoopEnds-le a b (ok r) h (le, t) = (omega arith, t)
LoopEnds-le a b (err _ _) h k = k
LoopEnds-le a b fault h k = k
LoopEnds-le a b out_of_fuel h k = k

number_loop-LoopEnds :
    (fuel : ℕ) (line : Bytes) (col : ℕ) (t : TokenType)
    → length line + 2 ≤ fuel + col
    → 0 < fuel
    → IsNumberType t
    → LoopEnds col (number_loop fuel line col t)
unfolding number_loop
number_loop-LoopEnds zero line col t h pos nt = elim pos [ ]
number_loop-LoopEnds (suc fuel) line col t h pos nt =
    elim (Bool-cases (
      leb col (length line)
      && (at line col == b'.'
          || (not (isspace (at line col)) && not (is_operator (at line col)))))) [
            | inl more ↦
                let le : col ≤ length line = ground arith in
                elim (Bool-cases (
                  tolower (at line col) == b'e'
                  && (at line (suc col) == b'-' || at line (suc col) == b'+'))) [
                    | inl exp ↦
                        rw (more, exp)
                          (LoopEnds-le col (col + 2) _ (omega arith) (
                            number_loop-LoopEnds fuel line (col + 2) real_lit (omega arith)
                              (omega arith) (inr refl)))
                    | inr plain ↦
                        rw (more, plain)
                          (LoopEnds-le col (suc col) _ (omega arith) (
                            number_loop-LoopEnds fuel line (suc col) t (omega arith) (omega arith)
                              nt))
                  ]
            | inr stop ↦ rw stop (le_refl col, nt)
          ]

-- A check of a number ends, and reads no line.
Checked {ℓ} : {A : Type ℓ} → Result A → Type 0
Checked (ok _) = Unit
Checked (err _ _) = Unit
Checked fault = ⊥
Checked out_of_fuel = ⊥

limit_regex_check-Checked :
    (b : Bool) (e : LexError) (p q : Position) (r : Stoll) → Checked (limit_regex_check b e p r q)
unfolding limit_regex_check Checked
limit_regex_check-Checked false e p q r = tt
limit_regex_check-Checked true e p q (value n) = tt
limit_regex_check-Checked true e p q invalid_argument = tt
limit_regex_check-Checked true e p q out_of_range = tt

Checked-map {ℓ} : {A B : Type ℓ} (r : Result A) (b : B) → Checked r → Checked (r >>= λ _. ok b)
unfolding Checked
Checked-map (ok a) b h = tt
Checked-map (err e p) b h = tt
Checked-map fault b h = h
Checked-map out_of_fuel b h = h

check_integer-Checked : (row start : ℕ) (tmp : Bytes) → Checked (check_integer row start tmp)
unfolding check_integer
check_integer-Checked row start tmp =
    elim (Bool-cases (not (at tmp 0 == b'0') || length tmp == 1)) [
      | inl d ↦ rw d (limit_regex_check-Checked _ _ _ _ _)
      | inr d ↦ elim (Bool-cases (tolower (at tmp 1) == b'x')) [
        | inl x ↦ rw (d, x) (limit_regex_check-Checked _ _ _ _ _)
        | inr x ↦ elim (Bool-cases (tolower (at tmp 1) == b'b')) [
          | inl b ↦ rw (d, x, b) (limit_regex_check-Checked _ _ _ _ _)
          | inr b ↦ rw (d, x, b) (limit_regex_check-Checked _ _ _ _ _)
        ]
      ]
    ]

module _ (stold_in_range : Bytes → Bool) where
  check_real-Checked :
      (row start : ℕ) (tmp : Bytes) → Checked (check_real stold_in_range row start tmp)
  unfolding check_real Checked
  check_real-Checked row start tmp = ground arith

  check_number-Checked :
      (t : TokenType) (row start : ℕ) (tmp : Bytes)
      → Checked (check_number stold_in_range t row start tmp)
  unfolding check_number
  check_number-Checked t row start tmp = elim (Bool-cases (t == int_lit)) [
    | inl int ↦ rw int (Checked-map _ tmp (check_integer-Checked row start tmp))
    | inr real ↦ rw real (check_real-Checked row start tmp)
  ]

  pub num_lit_handler-Advance :
      (line : Bytes) (s : LexState)
      → s.col < length line
      → isdigit (at line s.col) ≡ true
      → Advances line s (num_lit_handler stold_in_range line s)
  unfolding num_lit_handler Checked
  num_lit_handler-Advance line s lt digit =
      let prefix = number_prefix line s.col in
      let (le, nt) = number_prefix-Scanned line s.col lt digit in
      scanned (number_loop (length line + 2) line prefix.0 prefix.1) (
        LoopEnds-le (suc s.col) prefix.0 _ le (
          number_loop-LoopEnds (length line + 2) line prefix.0 prefix.1 (omega arith) (omega arith)
            nt))
    where
      checked :
          (col : ℕ) (t : TokenType) (r : Result Bytes)
          → suc s.col ≤ col
          → IsNumberType t
          → Checked r
          → Advances line s
              (r >>= λ tmp. ok (emplace_back s (value_token t tmp s.row s.col) (col - 1)))
      checked col t (ok tmp) le nt k =
          emplace_back-Advance line s _ (col - 1) refl (le_refl _) (omega arith) lt
            (number-emitted t nt)
      checked col t (err e p) le nt k = tt
      checked col t fault le nt k = tt
      checked col t out_of_fuel le nt k = k

      scanned :
          (r : Result (ℕ × TokenType))
          → LoopEnds (suc s.col) r
          → Advances line s (
              r >>= λ (col, t).
              check_number stold_in_range t s.row s.col (substr line s.col (col - s.col)) >>= λ tmp.
              ok (emplace_back s (value_token t tmp s.row s.col) (col - 1)))
      scanned (ok (col, t)) (le, nt) = checked col t _ le nt (check_number-Checked t s.row s.col _)
      scanned (err e p) k = absurd k
      scanned fault k = absurd k
      scanned out_of_fuel k = k
