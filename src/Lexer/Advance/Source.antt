-- ===== src/Lexer/Advance/Source.antt =====
-- hzcc/parser/lexical/LexicalParser.cc: the end of ParseToToken, and the
-- order of its tokens.
use hzcc.Prelude.{
  ℕ, suc, ◌+◌, ◌-◌, ◌≤◌, ◌<◌, ◌≡◌, ◌≢◌, ◌⊎◌, inl, inr, refl, ap, ◌∙◌, sym, Bool, true, false,
  Option, none, some, List, [], ◌∷◌, ◌++◌, append_assoc, append-nil, ◌==◌, Bytes, length, get_elem?,
  find_pair, Bool-cases, arith, get_elem?-append, length-append, if◌then◌else◌,
}
use hzcc.Token.Value.{Token}
use hzcc.Lexer.State.{LexState, Result, ok, err, fault, out_of_fuel, ◌>>=◌, set_col}
use hzcc.Lexer.Line.{analyze_line}
use hzcc.Lexer.Source.{
  getlines, initial, next_row, close_comment, read_line, read_lines, finish, parse_to_token,
}
use hzcc.Lexer.Advance.{is_emitted}
use hzcc.Lexer.Advance.Line.{IsLine, Lexes, analyze_line-Lexes, IsLine-le}

-- The token stands inside the line of its row; the rows are counted from 1.
abbrev pub InSource : List Bytes → Token → Type 0
InSource lines t =
    (line : Bytes) × (get_elem? lines (t.location.row - 1) ≡ some line)
    × (t.location.col < length line)

-- The tokens stand in the order of the source, from a position on, none twice at one position.
abbrev pub InOrder : List Bytes → ℕ → ℕ → List Token → Type 0
InOrder lines row col [] = Unit
InOrder lines row col (t ∷ ts) =
    ((row < t.location.row) ⊎ ((row ≡ t.location.row) × (col ≤ t.location.col)))
    × InSource lines t
    × (is_emitted t.token_type ≡ true)
    × InOrder lines t.location.row (suc t.location.col) ts

-- The empty list, or tokens of later rows, go behind the tokens of a row.
InOrder-le :
    (lines : List Bytes) (row col row' : ℕ) (ts : List Token)
    → row < row'
    → InOrder lines row' 0 ts
    → InOrder lines row col ts
InOrder-le lines row col row' [] h k = tt
InOrder-le lines row col row' (t ∷ ts) h (p, rest, em, more) = (inl (later p), rest, em, more)
  where
    later :
        (row' < t.location.row) ⊎ ((row' ≡ t.location.row) × (0 ≤ t.location.col))
        → row < t.location.row
    later p = ground arith

InOrder-append :
    (lines : List Bytes) (line : Bytes) (row : ℕ)
    → get_elem? lines (row - 1) ≡ some line
    → (new : List Token) (col : ℕ) (ts : List Token) → IsLine line row col new
    → InOrder lines (suc row) 0 ts
    → InOrder lines row col (new ++ ts)
InOrder-append lines line row here [] col ts h k =
    InOrder-le lines row col (suc row) ts (omega arith) k
InOrder-append lines line row here (t ∷ new) col ts (r, le, lt, em, rest) k = (
  inr (sym r, le),
  (line, rw r here, lt),
  em,
  rw r (InOrder-append lines line row here new (suc t.location.col) ts rest k),
)

-- What the lines from row `row` on add to the tokens.
abbrev Reads : List Bytes → LexState → Result LexState → Type 0
Reads lines s (ok s') =
    (new : List Token) × (s'.tokens ≡ s.tokens ++ new) × InOrder lines s.row 0 new
Reads lines s (err _ _) = Unit
Reads lines s fault = Unit
Reads lines s out_of_fuel = ⊥

module _ (stold_in_range : Bytes → Bool) where
  Lexes-close_comment :
      (line : Bytes) (s : LexState) (c : ℕ) (r : Result LexState)
      → Lexes line (close_comment s c) r
      → Lexes line (set_col s 0) r
  Lexes-close_comment line s c (ok s') (new, e, row, k) =
      (new, e, row, IsLine-le line s.row 0 c new (omega arith) k)
  Lexes-close_comment line s c (err e p) k = tt
  Lexes-close_comment line s c fault k = tt
  Lexes-close_comment line s c out_of_fuel k = k

  read_line-Lexes :
      (line : Bytes) (s : LexState) → Lexes line (set_col s 0) (read_line stold_in_range line s)
  unfolding read_line
  read_line-Lexes line s = elim (Bool-cases (length line == 0)) [
    | inl empty ↦ rw empty ([], sym (append-nil s.tokens), refl, tt)
    | inr some_text ↦ rw some_text (branch s.multi_line_comment)
  ]
    where
      search_end :
          (o : Option ℕ)
          → Lexes line (set_col s 0) (elim o [
            | none ↦ ok (set_col s 0)
            | some p ↦ analyze_line stold_in_range line (close_comment s (p + 2))
          ])
      search_end none = ([], sym (append-nil s.tokens), refl, tt)
      search_end (some p) =
          Lexes-close_comment line s (p + 2) _
            (analyze_line-Lexes stold_in_range line (close_comment s (p + 2)))

      branch :
          (b : Bool)
          → Lexes line (set_col s 0) (
              if b
              then elim (find_pair b'*' b'/' line 0) [
                | none ↦ ok (set_col s 0)
                | some p ↦ analyze_line stold_in_range line (close_comment s (p + 2))
              ]
              else analyze_line stold_in_range line (set_col s 0))
      branch true = search_end (find_pair b'*' b'/' line 0)
      branch false = analyze_line-Lexes stold_in_range line (set_col s 0)

  Reads-cons :
      (all : List Bytes) (line : Bytes) (s s' : LexState) (r : Result LexState)
      → get_elem? all (s.row - 1) ≡ some line
      → Lexes line (set_col s 0) (ok s')
      → Reads all (next_row s') r
      → Reads all s r
  Reads-cons all line s s' (ok s'') here (new, e, row, k) (later, e', k') = (
    new ++ later,
    e' ∙ ap (λ ts. ts ++ later) e ∙ append_assoc s.tokens new later,
    InOrder-append all line s.row here new 0 later k (rw row at k'),
  )
  Reads-cons all line s s' (err e p) here l k = tt
  Reads-cons all line s s' fault here l k = tt
  Reads-cons all line s s' out_of_fuel here l k = k

  read_lines-Reads :
      (lines pre : List Bytes) (s : LexState)
      → s.row ≡ suc (length pre)
      → Reads (pre ++ lines) s (read_lines stold_in_range lines s)
  unfolding read_lines
  read_lines-Reads [] pre s h = ([], sym (append-nil s.tokens), tt)
  read_lines-Reads (line ∷ lines) pre s h =
      round (read_line stold_in_range line s) (read_line-Lexes line s) λ s' row.
        rw (append_assoc pre (line ∷ []) lines) at (
          read_lines-Reads lines (pre ++ line ∷ []) (next_row s')
            (omega (arith, row, length-append pre (line ∷ []))))
    where
      here : get_elem? (pre ++ line ∷ lines) (s.row - 1) ≡ some line
      here = let e : s.row - 1 ≡ length pre = omega arith in rw e (get_elem?-append pre line lines)

      round :
          (r : Result LexState)
          → Lexes line (set_col s 0) r
          → ((s' : LexState)
              → s'.row ≡ s.row
              → Reads
                  (pre ++ line ∷ lines)
                  (next_row s')
                  (read_lines stold_in_range lines (next_row s')))
          → Reads
              (pre ++ line ∷ lines)
              s
              (r >>= λ s'. read_lines stold_in_range lines (next_row s'))
      round (ok s') l ih = Reads-cons (pre ++ line ∷ lines) line s s' _ here l (ih s' l.2)
      round (err e p) l ih = tt
      round fault l ih = tt
      round out_of_fuel l ih = l

  -- What the analysis of a source text returns: tokens in order, a diagnostic or a fault.
  abbrev pub Analysis : Bytes → Result (List Token) → Type 0
  Analysis source (ok ts) = InOrder (getlines source) 1 0 ts
  Analysis source (err _ _) = Unit
  Analysis source fault = Unit
  Analysis source out_of_fuel = ⊥

  Analysis-finish :
      (source : Bytes) (r : Result LexState)
      → Reads (getlines source) initial r
      → Analysis source (r >>= finish)
  unfolding finish
  Analysis-finish source (ok s) (new, e, k) = elim (Bool-cases s.multi_line_comment) [
    | inl open_ ↦ rw open_ tt
    | inr closed ↦ rw closed (rw e k)
  ]
  Analysis-finish source (err e p) k = tt
  Analysis-finish source fault k = tt
  Analysis-finish source out_of_fuel k = k

  pub parse_to_token-Analysis :
      (good : Bool) (source : Bytes) → Analysis source (parse_to_token stold_in_range good source)
  unfolding parse_to_token
  parse_to_token-Analysis false source = tt
  parse_to_token-Analysis true source =
      Analysis-finish source _ (read_lines-Reads (getlines source) [] initial refl)

  -- The tokens of a source text stand in its order, at positions inside its lines, and each has a
  -- type that the analysis can produce.
  pub parse_to_token-InOrder :
      (good : Bool) (source : Bytes) (ts : List Token)
      → parse_to_token stold_in_range good source ≡ ok ts
      → InOrder (getlines source) 1 0 ts
  parse_to_token-InOrder good source ts e = rw e at (parse_to_token-Analysis good source)

  -- The analysis of any source text ends: no loop runs out of its fuel.
  pub parse_to_token-total :
      (good : Bool) (source : Bytes) → parse_to_token stold_in_range good source ≢ out_of_fuel
  parse_to_token-total good source e = rw e at (parse_to_token-Analysis good source)
