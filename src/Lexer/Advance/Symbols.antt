-- ===== src/Lexer/Advance/Symbols.antt =====
-- hzcc/parser/lexical/LexicalParser.cc: the progress of the handlers of symbols, comments and words.
use native.Mathlib.Nat.{add-zero, le_refl}
use hzcc.Prelude.{
  ℕ, suc, ◌+◌, ◌-◌, ◌≤◌, ◌<◌, ◌≡◌, ◌≢◌, ◌⊎◌, inl, inr, refl, sym, Bool, true, false, ◌||◌, Option,
  List, none, some, [], ◌∷◌, ltb, ◌==◌, if◌then◌else◌, Bytes, at, length, drop, find_pair,
  get_elem?, get_elem?-lt, all_below, all_below_sound, Bool-cases, arith, at-lt, at-drop, at-take,
  length-take-le, length-drop, find_pair_from-bounds, ap, ◌∙◌,
}
use hzcc.Token.Kinds.{
  TokenType, k_unknown, op_start, keyword_start, k_identity, qual_start, type_spec_start,
}
use hzcc.Token.Tables.{k_operator_table, k_keyword_table, k_qualifier_table, k_type_specifier}
use hzcc.Token.Symbols.{
  iserch_table, iserch_from, get_symbol_type, get_symbol_type_str, is_operator, is_keyword,
  is_qualifier, is_type_specifier, word_type,
}
use hzcc.Token.Symbols.Spelling.{get_symbol_type-le, get_symbol_type_str-cases, word_type-cases}
use hzcc.Token.Value.{Token}
use hzcc.Lexer.State.{LexState, ok, set_col, emplace_back, substr}
use hzcc.Lexer.Words.{
  symbol_handler, comment_handler, scan_word, word_token, word_handler, open_comment,
}
use hzcc.Lexer.Advance.{is_emitted, Advance, Advances}

-- The two characters at a column.
at-substr : (line : Bytes) (p k : ℕ) → k < 2 → at (substr line p 2) k ≡ at line (p + k)
at-substr line p k h = at-take 2 (drop p line) k h ∙ at-drop p line k

abbrev is_gap : ℕ → Bool
is_gap j = j == 16 || j == 17 || j == 19

operators-emitted :
    all_below (length k_operator_table) (λ j. is_emitted (j + op_start) || is_gap j) ≡ true
unfolding all_below is_emitted get_symbol_type iserch_table iserch_from
operators-emitted = refl

-- What an operator's index says of it when it has at most two characters and starts with a symbol.
abbrev entry_length : Option Bytes → ℕ
entry_length none = 0
entry_length (some s) = length s

abbrev entry_head : Option Bytes → ℕ
entry_head none = 0
entry_head (some s) = at s 0

gap-cases : (j : ℕ) → is_gap j ≡ true → ((j ≡ 16) ⊎ (j ≡ 17)) ⊎ (j ≡ 19)
gap-cases j g = ground arith

gap-absurd :
    (j : ℕ) (str : Bytes)
    → get_elem? k_operator_table j ≡ some str
    → length str ≤ 2
    → get_symbol_type (at str 0) ≢ k_unknown
    → is_gap j ≡ true
    → ⊥
unfolding get_symbol_type iserch_table iserch_from
gap-absurd j str h short known g = elim (gap-cases j g) [
  | inl (inl e) ↦ omega (arith, ap entry_length (rw e at h))
  | inl (inr e) ↦ omega (arith, ap entry_length (rw e at h))
  | inr e ↦ known (ap get_symbol_type (sym (ap entry_head (rw e at h))))
]

operator-emitted :
    (j : ℕ) (str : Bytes)
    → get_elem? k_operator_table j ≡ some str
    → length str ≤ 2
    → get_symbol_type (at str 0) ≢ k_unknown
    → is_emitted (j + op_start) ≡ true
operator-emitted j str h short known = elim (Bool-cases (is_emitted (j + op_start))) [
  | inl e ↦ e
  | inr e ↦
      let lt = get_elem?-lt k_operator_table j h in
      let g = all_below_sound _ _ j operators-emitted lt in
      absurd (gap-absurd j str h short known (rw e at g))
]

zero-unknown : get_symbol_type 0 ≡ k_unknown
unfolding get_symbol_type iserch_table iserch_from
zero-unknown = refl

known-emitted :
    (c : ℕ)
    → get_symbol_type c ≢ k_unknown
    → (is_emitted (get_symbol_type c) ≡ true) × (get_symbol_type c ≤ 126)
unfolding is_emitted
known-emitted c known = elim (get_symbol_type-le c) [
  | inl e ↦ absurd (known e)
  | inr (e, le) ↦ (rw e (ground arith), omega arith)
]

-- The first character of a symbol's text stands at the column of the symbol.
module _ (line : Bytes) (col : ℕ) (known : get_symbol_type (at line col) ≢ k_unknown) where
  abbrev text : Bytes
  text = substr line col 2

  head-text : at text 0 ≡ at line col
  head-text = at-substr line col 0 (omega arith) ∙ rw add-zero

  second_text : at text 1 ≡ at line (suc col)
  second_text = at-substr line col 1 (omega arith) ∙ ap (at line) (omega arith)

  known_head : get_symbol_type (at text 0) ≢ k_unknown
  known_head e = known (rw head-text at e)

  -- A symbol token is a character of the table, or an operator whose second character is in the line.
  symbol-emitted :
      (is_emitted (get_symbol_type_str text) ≡ true)
      × ((get_symbol_type_str text ≤ 126) ⊎ (suc col < length line))
  symbol-emitted = elim (get_symbol_type_str-cases text) [
    | inl e ↦ let (em, le) = known-emitted (at text 0) known_head in (rw e em, inl (rw e le))
    | inr (j, e, found, second) ↦ (
      rw e (operator-emitted j text found (length-take-le 2 (drop col line)) known_head),
      inr (
          at-lt line (suc col) (λ z. second (ap get_symbol_type (second_text ∙ z) ∙ zero-unknown))),
    )
  ]

symbol_col-bounds :
    (type col n : ℕ)
    → col < n
    → (type ≤ 126) ⊎ (suc col < n)
    → (col ≤ (if ltb 300 type then suc col else col))
      × ((if ltb 300 type then suc col else col) < n)
symbol_col-bounds type col n lt h = ground arith

-- A handler that adds one token and moves the column to it or behind it.
pub emplace_back-Advance :
    (line : Bytes) (s : LexState) (t : Token) (c : ℕ)
    → t.location.row ≡ s.row
    → s.col ≤ t.location.col
    → t.location.col ≤ c
    → t.location.col < length line
    → is_emitted t.token_type ≡ true
    → Advance line s (emplace_back s t c)
emplace_back-Advance line s t c r a b i e = record {
  row = refl;
  forward = omega arith;
  emits = inr (t, refl, record { row = r; after = a; before = b; inside = i; emitted = e });
}

pub set_col-Advance :
    (line : Bytes) (s : LexState) (c : ℕ) → s.col ≤ c → Advance line s (set_col s c)
set_col-Advance line s c h = record { row = refl; forward = h; emits = inl refl }

pub symbol_handler-Advance :
    (line : Bytes) (s : LexState)
    → s.col < length line
    → get_symbol_type (at line s.col) ≢ k_unknown
    → Advances line s (symbol_handler line s)
unfolding symbol_handler
symbol_handler-Advance line s lt known =
    let (em, side) = symbol-emitted line s.col known in
    let (le, inside) = symbol_col-bounds _ s.col (length line) lt side in
    emplace_back-Advance line s _ _ refl le (le_refl _) inside em

slash-known : get_symbol_type b'/' ≢ k_unknown
unfolding get_symbol_type iserch_table iserch_from
slash-known = λ e. omega arith

pub comment_handler-Advance :
    (line : Bytes) (s : LexState)
    → s.col < length line
    → at line s.col ≡ b'/'
    → Advances line s (comment_handler line s)
unfolding comment_handler find_pair
comment_handler-Advance line s lt slash = elim (Bool-cases (at line (suc s.col) == b'/')) [
  | inl one ↦ rw one (set_col-Advance line s (length line) (omega arith))
  | inr n1 ↦ elim (Bool-cases (at line (suc s.col) == b'*')) [
    | inl star ↦ rw (n1, star) (close (find_pair b'*' b'/' line (s.col + 2)) refl)
    | inr n2 ↦ rw (n1, n2) (symbol_handler-Advance line s lt (λ e. slash-known (rw slash at e)))
  ]
]
  where
    close :
        (o : Option ℕ)
        → find_pair b'*' b'/' line (s.col + 2) ≡ o
        → Advances line s
            (elim o [ none ↦ ok (open_comment s (length line)) | some p ↦ ok (set_col s (suc p)) ])
    close none e = record { row = refl; forward = omega arith; emits = inl refl }
    close (some p) e =
        set_col-Advance line s (suc p)
          (omega (arith, find_pair_from-bounds b'*' b'/' (drop (s.col + 2) line) (s.col + 2) p e))

scan_word-le : (l : Bytes) (col : ℕ) → col ≤ scan_word l col
unfolding scan_word
scan_word-le [] col = omega arith
scan_word-le (c ∷ cs) col = ground (arith, scan_word-le cs (suc col))

-- A word has one character at least, since it starts with none of the operators.
scan_word-lt :
    (l : Bytes) (col : ℕ) → is_operator (at l 0) ≡ false → 0 < length l → col < scan_word l col
unfolding scan_word
scan_word-lt [] col h lt = elim lt [ ]
scan_word-lt (c ∷ cs) col h lt = rw h (scan_word-le cs (suc col))

-- The token type of a word is in the range of its table.
word_type-emitted :
    (table : List Bytes) (start : TokenType) (w : Bytes)
    → all_below (length table) (λ j. is_emitted (j + start)) ≡ true
    → word_type table start w ≢ k_unknown
    → is_emitted (word_type table start w) ≡ true
word_type-emitted table start w all ne = elim (word_type-cases table start w) [
  | inl e ↦ absurd (ne e)
  | inr (j, e, found) ↦ rw e (all_below_sound _ _ j all (get_elem?-lt table j found))
]

keywords-emitted : all_below (length k_keyword_table) (λ j. is_emitted (j + keyword_start)) ≡ true
unfolding all_below is_emitted get_symbol_type iserch_table iserch_from
keywords-emitted = refl

specifiers-emitted :
    all_below (length k_type_specifier) (λ j. is_emitted (j + type_spec_start)) ≡ true
unfolding all_below is_emitted get_symbol_type iserch_table iserch_from
specifiers-emitted = refl

qualifiers-emitted : all_below (length k_qualifier_table) (λ j. is_emitted (j + qual_start)) ≡ true
unfolding all_below is_emitted get_symbol_type iserch_table iserch_from
qualifiers-emitted = refl

identity-emitted : is_emitted k_identity ≡ true
unfolding is_emitted get_symbol_type iserch_table iserch_from
identity-emitted = refl

word_token-emitted : (w : Bytes) (row col : ℕ) → is_emitted (word_token w row col).token_type ≡ true
unfolding word_token is_keyword is_type_specifier is_qualifier
word_token-emitted w row col = ground (
  arith,
  word_type-emitted k_keyword_table keyword_start w keywords-emitted,
  word_type-emitted k_type_specifier type_spec_start w specifiers-emitted,
  word_type-emitted k_qualifier_table qual_start w qualifiers-emitted,
  identity-emitted,
)

location-word_token :
    (w : Bytes) (row col : ℕ)
    → ((word_token w row col).location.row ≡ row) × ((word_token w row col).location.col ≡ col)
unfolding word_token
location-word_token w row col = ground arith

pub word_handler-Advance :
    (line : Bytes) (s : LexState)
    → s.col < length line
    → is_operator (at line s.col) ≡ false
    → Advances line s (word_handler line s)
unfolding word_handler
word_handler-Advance line s lt h =
    let head : at (drop s.col line) 0 ≡ at line s.col =
      at-drop s.col line 0 ∙ ap (at line) (omega arith) in
    let more =
      scan_word-lt (drop s.col line) s.col (rw head h) (omega (arith, length-drop s.col line)) in
    let w = substr line s.col (scan_word (drop s.col line) s.col - s.col) in
    let (r, c) = location-word_token w s.row s.col in
    emplace_back-Advance line s (word_token w s.row s.col) _ r (omega arith) (omega arith)
      (omega arith) (word_token-emitted w s.row s.col)
