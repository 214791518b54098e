-- ===== src/Lexer/Strings.antt =====
-- hzcc/parser/lexical/LexicalParser.cc and hzcc/parser/common/Token.cc: string literals, printed by
-- Token::to_str(true) and read by StrLitHandler.
use mathlib.Core.List.{append_assoc}
use hzcc.Prelude.{
  ℕ, zero, suc, ◌+◌, ◌<◌, ◌≡◌, refl, ap, ◌∙◌, sym, Bool, true, false, not, ◌&&◌, ◌||◌, [], ◌∷◌,
  ◌++◌, ltb, ◌==◌, Bytes, at, length, length-append, iscntrl, within, Bool-cases, All, arith, inl,
  inr, get_or-append, append-nil, all_below, all_below_sound, equal, equal_iff,
}
use hzcc.Token.Kinds.{str_lit}
use hzcc.Token.Symbols.{to_ascii_control_code, ascii_control_code_to_string}
use hzcc.Token.Value.{value_token, escape, to_str}
use hzcc.Lexer.State.{LexState, Result, ok, emplace_back}
use hzcc.Lexer.Literals.{str_lit_loop, str_lit_handler}

-- A character of a string that printing and reading keep: no quote and no backslash, and of the
-- control characters only those with an escape.
abbrev pub is_text : ℕ → Bool
is_text c = not (c == b'"') && not (c == b'\\') && (not (iscntrl c) || c == 0 || within 7 13 c)

at-append : (pre : Bytes) (c : ℕ) (cs : Bytes) → at (pre ++ c ∷ cs) (length pre) ≡ c
at-append pre c cs = get_or-append pre (c ∷ cs) 0

at-append_suc : (pre : Bytes) (c d : ℕ) (cs : Bytes) → at (pre ++ c ∷ d ∷ cs) (suc (length pre)) ≡ d
at-append_suc [] c d cs = refl
at-append_suc (x ∷ pre) c d cs = at-append_suc pre c d cs

length-in : (pre : Bytes) (c : ℕ) (cs : Bytes) → ltb (length (pre ++ c ∷ cs)) (length pre) ≡ false
length-in pre c cs = ground (arith, length-append pre (c ∷ cs))

-- The letter behind the backslash in the escape of a control character.
abbrev letter : ℕ → ℕ
letter c = at (ascii_control_code_to_string c) 1

abbrev escapes : ℕ → Bool
escapes c =
    not (is_text c && iscntrl c)
    || (equal (ascii_control_code_to_string c) (b'\\' ∷ letter c ∷ [])
        && to_ascii_control_code (letter c) == c)

escapes-below : all_below 128 escapes ≡ true
unfolding all_below equal ascii_control_code_to_string to_ascii_control_code iscntrl
escapes-below = refl

-- The escape of a control character: a backslash and the letter that is read back as it.
control-escape :
    (c : ℕ)
    → is_text c ≡ true
    → iscntrl c ≡ true
    → (ascii_control_code_to_string c ≡ b'\\' ∷ letter c ∷ [])
      × (to_ascii_control_code (letter c) ≡ c)
      × (c < 128)
control-escape c text cntrl =
    let lt : c < 128 = unfold iscntrl in ground arith in
    let found = all_below_sound 128 escapes c escapes-below lt in
    ground (arith, equal_iff (ascii_control_code_to_string c) (b'\\' ∷ letter c ∷ []))

escape-control :
    (c : ℕ) (s : Bytes)
    → iscntrl c ≡ true
    → ascii_control_code_to_string c ≡ b'\\' ∷ letter c ∷ []
    → escape (c ∷ s) ≡ b'\\' ∷ letter c ∷ escape s
unfolding escape
escape-control c s cntrl e = rw (cntrl, e)

escape-plain : (c : ℕ) (s : Bytes) → iscntrl c ≡ false → escape (c ∷ s) ≡ c ∷ escape s
unfolding escape
escape-plain c s plain = rw plain

module _ (row : ℕ) (rest : Bytes) where
  -- One character of the printed string, from a column at which `pre` ends.
  loop-plain :
      (fuel : ℕ) (pre cs tmp : Bytes) (c : ℕ)
      → is_text c ≡ true
      → str_lit_loop (suc fuel) (pre ++ c ∷ cs) row (length pre) tmp
        ≡ str_lit_loop fuel (pre ++ c ∷ cs) row (suc (length pre)) (tmp ++ c ∷ [])
  unfolding str_lit_loop
  loop-plain fuel pre cs tmp c text =
      let ne : (c == b'\\') ≡ false = ground arith in
      let nq : (c == b'"') ≡ false = ground arith in
      rw (length-in pre c cs, at-append pre c cs, ne, nq)

  loop-control :
      (fuel : ℕ) (pre cs tmp : Bytes) (c d : ℕ)
      → to_ascii_control_code d ≡ c
      → c < 128
      → str_lit_loop (suc fuel) (pre ++ b'\\' ∷ d ∷ cs) row (length pre) tmp
        ≡ str_lit_loop fuel (pre ++ b'\\' ∷ d ∷ cs) row (length pre + 2) (tmp ++ c ∷ [])
  unfolding str_lit_loop
  loop-control fuel pre cs tmp c d code lt =
      let ne : not (c == 0xFF) ≡ true = ground arith in
      rw (
        length-in pre b'\\' (d ∷ cs),
        at-append pre b'\\' (d ∷ cs),
        at-append_suc pre b'\\' d cs,
        code,
        ne,
      )

  loop-quote :
      (fuel : ℕ) (pre tmp : Bytes)
      → str_lit_loop (suc fuel) (pre ++ b'"' ∷ rest) row (length pre) tmp ≡ ok (tmp, length pre)
  unfolding str_lit_loop
  loop-quote fuel pre tmp = rw (length-in pre b'"' rest, at-append pre b'"' rest)

  -- The loop on the same line, split behind the characters `w` that it has read.
  resume :
      (fuel : ℕ) (pre w tail tmp : Bytes) (n : ℕ) {r : Result (Bytes × ℕ)}
      → n ≡ length pre + length w
      → str_lit_loop fuel ((pre ++ w) ++ tail) row (length (pre ++ w)) tmp ≡ r
      → str_lit_loop fuel (pre ++ (w ++ tail)) row n tmp ≡ r
  resume fuel pre w tail tmp n e ih =
      let p : n ≡ length (pre ++ w) = omega (arith, length-append pre w) in
      rw (p, ← append_assoc pre w tail) ih

  read-eq :
      {a b : Bytes} {m n : ℕ} → a ≡ b → m ≡ n → ◌≡◌ {A = Result (Bytes × ℕ)} (ok (a, m)) (ok (b, n))
  read-eq p q = cc

  -- The printed characters and the quote behind them are read back.
  str_lit_loop-escape :
      (fuel : ℕ) (pre s tmp : Bytes)
      → All (λ c. is_text c ≡ true) s
      → length (escape s) < fuel
      → str_lit_loop fuel (pre ++ (escape s ++ b'"' ∷ rest)) row (length pre) tmp
        ≡ ok (tmp ++ s, length pre + length (escape s))
  unfolding escape
  str_lit_loop-escape zero pre s tmp h lt = elim lt [ ]
  str_lit_loop-escape (suc fuel) pre [] tmp h lt =
      loop-quote fuel pre tmp ∙ read-eq (sym (append-nil tmp)) (omega arith)
  str_lit_loop-escape (suc fuel) pre (c ∷ s) tmp (text, h) lt = elim (Bool-cases (iscntrl c)) [
    | inl cntrl ↦
        let (esc, code, small) = control-escape c text cntrl in
        let w : Bytes = b'\\' ∷ letter c ∷ [] in
        let short : length (escape s) < fuel =
          omega (arith, ap length (escape-control c s cntrl esc)) in
        rw (cntrl, esc)
          (loop-control fuel pre (escape s ++ b'"' ∷ rest) tmp c (letter c) code small
            ∙ resume fuel pre w (escape s ++ b'"' ∷ rest) (tmp ++ c ∷ []) (length pre + 2)
                (omega arith) (str_lit_loop-escape fuel (pre ++ w) s (tmp ++ c ∷ []) h short)
            ∙ read-eq (append_assoc tmp (c ∷ []) s) (omega (arith, length-append pre w)))
    | inr plain ↦
        let w : Bytes = c ∷ [] in
        let short : length (escape s) < fuel = omega (arith, ap length (escape-plain c s plain)) in
        rw plain (
          loop-plain fuel pre (escape s ++ b'"' ∷ rest) tmp c text
          ∙ resume fuel pre w (escape s ++ b'"' ∷ rest) (tmp ++ c ∷ []) (suc (length pre))
              (omega arith) (str_lit_loop-escape fuel (pre ++ w) s (tmp ++ c ∷ []) h short)
          ∙ read-eq (append_assoc tmp (c ∷ []) s) (omega (arith, length-append pre w)))
  ]

handler-loop :
    (line value : Bytes) (s : LexState) (c : ℕ)
    → str_lit_loop (length line + 2) line s.row (suc s.col) [] ≡ ok (value, c)
    → str_lit_handler line s ≡ ok (emplace_back s (value_token str_lit value s.row s.col) c)
unfolding str_lit_handler
handler-loop line value s c e = rw (e, str_lit_handler)

-- A string literal is read back from its printed form: on a line that holds what Token::to_str
-- prints for a string token, StrLitHandler at the opening quote adds the same token and stops at the
-- closing quote, if each character of the string is `is_text`.
pub str_lit_handler-to_str :
    (pre rest value : Bytes) (s : LexState)
    → s.col ≡ length pre
    → All (λ c. is_text c ≡ true) value
    → str_lit_handler (pre ++ (to_str (value_token str_lit value s.row s.col) true ++ rest)) s
      ≡ ok (
          emplace_back s
            (value_token str_lit value s.row s.col)
            (suc (s.col + length (escape value))))
unfolding to_str
str_lit_handler-to_str pre rest value s at_quote h =
    rw (append_assoc (escape value) (b'"' ∷ []) rest) (
      handler-loop line value s _ (
        resume s.row rest (length line + 2) pre open_quote tail [] (suc s.col) (omega arith)
          (str_lit_loop-escape s.row rest (length line + 2) (pre ++ open_quote) value [] h fits)
        ∙ read-eq s.row rest refl (omega (arith, length-append pre open_quote))))
  where
    open_quote : Bytes
    open_quote = b'"' ∷ []

    tail : Bytes
    tail = escape value ++ b'"' ∷ rest

    line : Bytes
    line = pre ++ (open_quote ++ tail)

    fits : length (escape value) < length line + 2
    fits =
        omega (
          arith,
          length-append pre (open_quote ++ tail),
          length-append (escape value) (b'"' ∷ rest),
        )
