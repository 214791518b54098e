-- ===== src/Lexer/Advance/Line.antt =====
-- hzcc/parser/lexical/LexicalParser.cc: the progress and the end of AnalyzeLine.
use native.Mathlib.Nat.{le_refl}
use hzcc.Prelude.{
  ℕ, zero, suc, ◌+◌, ◌≤◌, ◌<◌, ◌≡◌, inl, inr, refl, ap, ◌∙◌, sym, Bool, true, false, ◌||◌, List, [],
  ◌∷◌, ◌++◌, append_assoc, append-nil, ltb, ◌==◌, Bytes, at, length, isdigit, Bool-cases, arith,
  ltb→lt, ==_iff,
}
use hzcc.Token.Kinds.{k_unknown}
use hzcc.Token.Symbols.{get_symbol_type, is_operator}
use hzcc.Token.Value.{Token}
use hzcc.Lexer.State.{LexState, Result, ok, err, fault, out_of_fuel, ◌>>=◌, set_col}
use hzcc.Lexer.Line.{analyze_char, analyze_from, analyze_line}
use hzcc.Lexer.Advance.{is_emitted, Advance, Advances}
use hzcc.Lexer.Advance.Symbols.{
  symbol_handler-Advance, comment_handler-Advance, word_handler-Advance,
}
use hzcc.Lexer.Advance.Literals.{str_lit_handler-Advance, char_lit_handler-Advance}
use hzcc.Lexer.Advance.Number.{num_lit_handler-Advance}

-- The tokens of one line: at columns that grow, from `from` on and inside the line.
abbrev pub IsLine : Bytes → ℕ → ℕ → List Token → Type 0
IsLine line row from [] = Unit
IsLine line row from (t ∷ ts) =
    (t.location.row ≡ row)
    × (from ≤ t.location.col)
    × (t.location.col < length line)
    × (is_emitted t.token_type ≡ true)
    × IsLine line row (suc t.location.col) ts

pub IsLine-le :
    (line : Bytes) (row a b : ℕ) (ts : List Token)
    → a ≤ b
    → IsLine line row b ts
    → IsLine line row a ts
IsLine-le line row a b [] h k = tt
IsLine-le line row a b (t ∷ ts) h (r, le, lt, em, rest) = (r, omega arith, lt, em, rest)

-- The tokens that the analysis of a line adds, with the row unchanged; it always ends.
abbrev pub Lexes : Bytes → LexState → Result LexState → Type 0
Lexes line s (ok s') =
    (new : List Token) × (s'.tokens ≡ s.tokens ++ new)
    × (s'.row ≡ s.row)
    × IsLine line s.row s.col new
Lexes line s (err _ _) = Unit
Lexes line s fault = Unit
Lexes line s out_of_fuel = ⊥

module _ (stold_in_range : Bytes → Bool) where
  word_start : (c : ℕ) → (c == b' ') ≡ false → get_symbol_type c ≡ k_unknown → is_operator c ≡ false
  unfolding is_operator
  word_start c space h = ground arith

  pub analyze_char-Advance :
      (line : Bytes) (s : LexState)
      → s.col < length line
      → Advances line s (analyze_char stold_in_range line s)
  unfolding analyze_char
  analyze_char-Advance line s lt =
      elim (Bool-cases (c == b' ' || c == b'\t' || c == b'\r' || c == b'@' || c == b'`')) [
        | inl blank ↦ rw blank (record { row = refl; forward = le_refl _; emits = inl refl })
        | inr n0 ↦ elim (Bool-cases (c == b'/')) [
          | inl e ↦ rw (n0, e) (comment_handler-Advance line s lt ((==_iff c b'/').0 e))
          | inr n1 ↦ elim (Bool-cases (c == b'"')) [
            | inl e ↦ rw (n0, n1, e) (str_lit_handler-Advance line s lt)
            | inr n2 ↦ elim (Bool-cases (c == b'\'')) [
              | inl e ↦ rw (n0, n1, n2, e) (char_lit_handler-Advance line s lt)
              | inr n3 ↦ elim (Bool-cases (isdigit c)) [
                | inl e ↦
                    rw (n0, n1, n2, n3, e) (num_lit_handler-Advance stold_in_range line s lt e)
                | inr n4 ↦ elim (Bool-cases (get_symbol_type c == k_unknown)) [
                  | inl e ↦
                      rw (n0, n1, n2, n3, n4, e)
                        (word_handler-Advance line s lt
                          (word_start c (ground arith) ((==_iff _ _).0 e)))
                  | inr n5 ↦
                      rw (n0, n1, n2, n3, n4, n5)
                        (symbol_handler-Advance line s lt (λ e. ground arith))
                ]
              ]
            ]
          ]
        ]
      ]
    where
      c : ℕ
      c = at line s.col

  -- One round, and what the rest of the line adds.
  Lexes-cons :
      (line : Bytes) (s s' : LexState) (r : Result LexState)
      → Advance line s s'
      → Lexes line (set_col s' (suc s'.col)) r
      → Lexes line s r
  Lexes-cons line s s' (ok s'') a (new, e, row, k) = elim a.emits [
    | inl same ↦ (
      new,
      e ∙ ap (λ ts. ts ++ new) same,
      row ∙ a.row,
      IsLine-le line s.row s.col (suc s'.col) new (omega (arith, a.forward)) (rw a.row at k),
    )
    | inr (t, added, p) ↦ (
      t ∷ new,
      e ∙ ap (λ ts. ts ++ new) added ∙ append_assoc s.tokens (t ∷ []) new,
      row ∙ a.row,
      (
        p.row,
        p.after,
        p.inside,
        p.emitted,
        IsLine-le line s.row (suc t.location.col) (suc s'.col) new (omega (arith, p.before))
            (rw a.row at k),
      ),
    )
  ]
  Lexes-cons line s s' (err e p) a k = tt
  Lexes-cons line s s' fault a k = tt
  Lexes-cons line s s' out_of_fuel a k = k

  pub analyze_from-Lexes :
      (fuel : ℕ) (line : Bytes) (s : LexState)
      → length line < fuel + s.col
      → 0 < fuel
      → Lexes line s (analyze_from stold_in_range fuel line s)
  unfolding analyze_from
  analyze_from-Lexes zero line s h pos = elim pos [ ]
  analyze_from-Lexes (suc fuel) line s h pos = elim (Bool-cases (ltb s.col (length line))) [
    | inl more ↦
        let lt = ltb→lt _ _ more in
        rw (more, analyze_from)
          (round (analyze_char stold_in_range line s) (analyze_char-Advance line s lt) λ s' le.
            analyze_from-Lexes fuel line (set_col s' (suc s'.col)) (omega (arith, le))
              (omega (arith, lt)))
    | inr stop ↦ rw (stop, analyze_from) ([], sym (append-nil s.tokens), refl, tt)
  ]
    where
      round :
          (r : Result LexState)
          → Advances line s r
          → ((s' : LexState)
              → s.col ≤ s'.col
              → Lexes line
                  (set_col s' (suc s'.col))
                  (analyze_from stold_in_range fuel line (set_col s' (suc s'.col))))
          → Lexes line s
              (r >>= λ s'. analyze_from stold_in_range fuel line (set_col s' (suc s'.col)))
      round (ok s') a ih = Lexes-cons line s s' _ a (ih s' a.forward)
      round (err e p) a ih = tt
      round fault a ih = tt
      round out_of_fuel a ih = a

  -- The analysis of a line, from any column on, ends, and adds tokens of this row at columns that
  -- grow, inside the line, and of types that the language of the analysis has.
  pub analyze_line-Lexes :
      (line : Bytes) (s : LexState) → Lexes line s (analyze_line stold_in_range line s)
  unfolding analyze_line
  analyze_line-Lexes line s =
      analyze_from-Lexes (suc (length line)) line s (omega arith) (omega arith)
