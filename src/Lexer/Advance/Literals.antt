-- ===== src/Lexer/Advance/Literals.antt =====
-- hzcc/parser/lexical/LexicalParser.cc: the progress and the end of the handlers of strings,
-- characters and numbers.
use native.Mathlib.Nat.{le_refl}
use hzcc.Prelude.{
  ℕ, zero, suc, ◌+◌, ◌-◌, ◌≤◌, ◌<◌, ◌≡◌, ◌⊎◌, inl, inr, refl, Bool, true, not, Option, none, some,
  [], ltb, ◌==◌, if◌then◌else◌, Bytes, at, length, find_first, ltb→ge, Bool-cases, arith, at-lt,
}
use hzcc.Token.Kinds.{TokenType, char_lit, str_lit, int_lit, real_lit}
use hzcc.Token.Symbols.{to_ascii_control_code, get_symbol_type, iserch_table, iserch_from}
use hzcc.Token.Value.{value_token}
use hzcc.Lexer.State.{
  LexState, Result, ok, err, fault, out_of_fuel, ◌>>=◌, emplace_back, substr, unclosed_char,
  multi_character,
}
use hzcc.Lexer.Literals.{str_lit_loop, str_lit_handler, char_lit_handler, replace_escapes}
use hzcc.Lexer.Advance.{is_emitted, Advances}
use hzcc.Lexer.Advance.Symbols.{emplace_back-Advance}

str_lit-emitted : is_emitted str_lit ≡ true
unfolding is_emitted get_symbol_type iserch_table iserch_from
str_lit-emitted = refl

char_lit-emitted : is_emitted char_lit ≡ true
unfolding is_emitted get_symbol_type iserch_table iserch_from
char_lit-emitted = refl

abbrev IsNumberType : TokenType → Type 0
IsNumberType t = (t ≡ int_lit) ⊎ (t ≡ real_lit)

number-emitted : (t : TokenType) → IsNumberType t → is_emitted t ≡ true
unfolding is_emitted get_symbol_type iserch_table iserch_from
number-emitted t (inl e) = rw e
number-emitted t (inr e) = rw e

-- How the loop of a string ends: at a quote of the line, or with a diagnostic.
abbrev pub ClosesAt : Bytes → ℕ → Result (Bytes × ℕ) → Type 0
ClosesAt line col (ok (tmp, c)) = (col ≤ c) × (c < length line)
ClosesAt line col (err _ _) = Unit
ClosesAt line col fault = ⊥
ClosesAt line col out_of_fuel = ⊥

ClosesAt-le :
    (line : Bytes) (a b : ℕ) (r : Result (Bytes × ℕ))
    → a ≤ b
    → ClosesAt line b r
    → ClosesAt line a r
ClosesAt-le line a b (ok (tmp, c)) h (le, lt) = (omega arith, lt)
ClosesAt-le line a b (err _ _) h k = tt
ClosesAt-le line a b fault h k = k
ClosesAt-le line a b out_of_fuel h k = k

quote-lt : (line : Bytes) (col : ℕ) → (at line col == b'"') ≡ true → col < length line
quote-lt line col h = at-lt line col (λ z. ground arith)

pub str_lit_loop-ClosesAt :
    (fuel : ℕ) (line : Bytes) (row col : ℕ) (tmp : Bytes)
    → length line + 2 ≤ fuel + col
    → 0 < fuel
    → ClosesAt line col (str_lit_loop fuel line row col tmp)
unfolding str_lit_loop
str_lit_loop-ClosesAt zero line row col tmp h pos = elim pos [ ]
str_lit_loop-ClosesAt (suc fuel) line row col tmp h pos =
    elim (Bool-cases (ltb (length line) col)) [
      | inl past ↦ rw past tt
      | inr within_line ↦
          let room = ltb→ge _ _ within_line in
          elim (Bool-cases (at line col == b'\\')) [
            | inl slash ↦
                elim (Bool-cases (not (to_ascii_control_code (at line (suc col)) == 0xFF))) [
                  | inl code ↦
                      rw (within_line, slash, code)
                        (ClosesAt-le line col (col + 2) _ (omega arith) (
                          str_lit_loop-ClosesAt fuel line row (col + 2) _ (omega (arith, room))
                            (omega (arith, room))))
                  | inr kept ↦
                      rw (within_line, slash, kept)
                        (ClosesAt-le line col (col + 2) _ (omega arith) (
                          str_lit_loop-ClosesAt fuel line row (col + 2) _ (omega (arith, room))
                            (omega (arith, room))))
                ]
            | inr plain ↦ elim (Bool-cases (at line col == b'"')) [
              | inl quote ↦ rw (within_line, plain, quote) (le_refl col, quote-lt line col quote)
              | inr other ↦
                  rw (within_line, plain, other)
                    (ClosesAt-le line col (suc col) _ (omega arith) (
                      str_lit_loop-ClosesAt fuel line row (suc col) _ (omega (arith, room))
                        (omega (arith, room))))
            ]
          ]
    ]

pub str_lit_handler-Advance :
    (line : Bytes) (s : LexState) → s.col < length line → Advances line s (str_lit_handler line s)
unfolding str_lit_handler
str_lit_handler-Advance line s lt =
    go (str_lit_loop (length line + 2) line s.row (suc s.col) []) (
      str_lit_loop-ClosesAt (length line + 2) line s.row (suc s.col) [] (omega arith) (omega arith))
  where
    go :
        (r : Result (Bytes × ℕ))
        → ClosesAt line (suc s.col) r
        → Advances line s
            (r >>= λ (tmp, col). ok (emplace_back s (value_token str_lit tmp s.row s.col) col))
    go (ok (tmp, c)) (le, inside) =
        emplace_back-Advance line s (value_token str_lit tmp s.row s.col) c refl (le_refl _)
          (omega arith) lt str_lit-emitted
    go (err e p) k = tt
    go fault k = tt
    go out_of_fuel k = k

pub char_lit_handler-Advance :
    (line : Bytes) (s : LexState) → s.col < length line → Advances line s (char_lit_handler line s)
unfolding char_lit_handler
char_lit_handler-Advance line s lt = go _ (closing-ge (at line (suc s.col) == b'\\') s.col)
  where
    closing-ge : (b : Bool) (n : ℕ) → n ≤ n + (if b then 3 else 2)
    closing-ge b n = ground arith

    failed :
        (o : Option ℕ)
        → Advances line s (elim o [
          | none ↦ err unclosed_char (record { row = s.row; col = s.col })
          | some p ↦ err multi_character (record { row = s.row; col = s.col })
        ])
    failed none = tt
    failed (some p) = tt

    go :
        (col : ℕ)
        → s.col ≤ col
        → Advances line s (
            if ltb (length line) col
            then fault
            else if not (at line col == b'\'')
            then elim (find_first (◌==◌ b'\'') line col) [
              | none ↦ err unclosed_char (record { row = s.row; col = s.col })
              | some p ↦ err multi_character (record { row = s.row; col = s.col })
            ]
            else let tmp = replace_escapes (substr line (suc s.col) (col - suc s.col)) in
              ok (emplace_back s (value_token char_lit tmp s.row s.col) col))
    go col le = elim (Bool-cases (ltb (length line) col)) [
      | inl past ↦ rw past tt
      | inr i ↦ elim (Bool-cases (not (at line col == b'\''))) [
        | inl e ↦ rw (i, e) (failed (find_first (◌==◌ b'\'') line col))
        | inr q ↦
            rw (i, q) (emplace_back-Advance line s _ col refl (le_refl _) le lt char_lit-emitted)
      ]
    ]
