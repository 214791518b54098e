-- ===== src/Lexer/Comments.antt =====
-- hzcc/parser/lexical/LexicalParser.cc: what comments leave of the text, on one line and over many.
use hzcc.Prelude.{
  ℕ, suc, ◌+◌, ◌<◌, ◌≡◌, refl, Bool, true, false, none, some, List, [], ◌∷◌, ◌++◌, ◌==◌, Bytes, at,
  length, find_pair, All, Bool-cases, if_true, ◌∙◌, arith, inl, inr, lt→ltb, ge→ltb,
}
use hzcc.Lexer.State.{LexState, ok, ◌>>=◌, set_col}
use hzcc.Lexer.Words.{comment_handler}
use hzcc.Lexer.Line.{analyze_char, analyze_from, analyze_line}
use hzcc.Lexer.Source.{next_row, close_comment, read_line, read_lines}

-- The state in which the reading goes on behind `n` lines inside a comment.
abbrev pub skip_rows : ℕ → LexState → LexState
skip_rows n s = record s { ctx = record s.ctx { row = n + s.row; col = 0 } }

module _ (stold_in_range : Bytes → Bool) where
  analyze_char-comment :
      (line : Bytes) (s : LexState)
      → at line s.col ≡ b'/'
      → at line (suc s.col) ≡ b'/'
      → analyze_char stold_in_range line s ≡ ok (set_col s (length line))
  unfolding analyze_char comment_handler
  analyze_char-comment line s first second = rw (first, second) refl

  analyze_from-end :
      (fuel : ℕ) (line : Bytes) (s : LexState)
      → analyze_from stold_in_range (suc fuel) line (set_col s (suc (length line)))
        ≡ ok (set_col s (suc (length line)))
  unfolding analyze_from
  analyze_from-end fuel line s =
      rw (ge→ltb (suc (length line)) (length line) (omega arith), analyze_from) refl

  analyze_from-comment :
      (fuel : ℕ) (line : Bytes) (s : LexState)
      → s.col < length line
      → at line s.col ≡ b'/'
      → at line (suc s.col) ≡ b'/'
      → analyze_from stold_in_range (suc (suc fuel)) line s ≡ ok (set_col s (suc (length line)))
  unfolding analyze_from
  analyze_from-comment fuel line s lt first second =
      rw (lt→ltb _ _ lt, analyze_from, analyze_char-comment line s first second)
        (analyze_from-end fuel line s)

  -- Two slashes end the analysis of a line: when the column stands at the first of them, the rest of
  -- the line adds no token, whatever it is.
  pub analyze_line-comment :
      (line : Bytes) (s : LexState)
      → s.col < length line
      → at line s.col ≡ b'/'
      → at line (suc s.col) ≡ b'/'
      → analyze_line stold_in_range line s ≡ ok (set_col s (suc (length line)))
  unfolding analyze_line
  analyze_line-comment [] s lt first second = elim lt [ ]
  analyze_line-comment (c ∷ line) s lt first second =
      analyze_from-comment (length line) (c ∷ line) s lt first second

  read_line-open :
      (line : Bytes) (s : LexState)
      → s.multi_line_comment ≡ true
      → find_pair b'*' b'/' line 0 ≡ none
      → read_line stold_in_range line s ≡ ok (set_col s 0)
  unfolding read_line
  read_line-open line s open_ none_ = elim (Bool-cases (length line == 0)) [
    | inl empty ↦ rw empty refl
    | inr full ↦ rw full (if_true open_ _ _ ∙ rw none_ refl)
  ]

  read_line-close :
      (line : Bytes) (s : LexState) (p : ℕ)
      → s.multi_line_comment ≡ true
      → find_pair b'*' b'/' line 0 ≡ some p
      → read_line stold_in_range line s ≡ analyze_line stold_in_range line (close_comment s (p + 2))
  unfolding read_line find_pair
  read_line-close [] s p open_ found = absurd (cc)
  read_line-close (c ∷ line) s p open_ found =
      let full : (length (c ∷ line) == 0) ≡ false = ground arith in
      rw full (if_true open_ _ _ ∙ rw found refl)

  -- A comment that is open closes at the first `*/`: lines without one add nothing, and on the line
  -- that has one the analysis goes on behind it, in the row that the lines count to.
  pub read_lines-comment :
      (inside : List Bytes) (line : Bytes) (rest : List Bytes) (p : ℕ) (s : LexState)
      → s.multi_line_comment ≡ true
      → All (λ l. find_pair b'*' b'/' l 0 ≡ none) inside
      → find_pair b'*' b'/' line 0 ≡ some p
      → read_lines stold_in_range (inside ++ line ∷ rest) s ≡ (
          analyze_line stold_in_range line (close_comment (skip_rows (length inside) s) (p + 2))
          >>= λ s'. read_lines stold_in_range rest (next_row s'))
  unfolding read_lines
  read_lines-comment [] line rest p s open_ h found =
      rw zero_plus (rw (read_line-close line s p open_ found) refl)
    where
      zero_plus : 0 + s.row ≡ s.row
      zero_plus = omega arith
  read_lines-comment (l ∷ inside) line rest p s open_ h found = rw (read_line-open l s open_ h.0) (
      rw (plus_suc) at
        (read_lines-comment inside line rest p (next_row (set_col s 0)) open_ h.1 found))
    where
      plus_suc : length inside + suc s.row ≡ suc (length inside) + s.row
      plus_suc = omega arith
