-- ===== src/Examples/Lexing.antt =====
-- hzcc/parser/lexical: the analysis of small source texts.
use hzcc.Prelude.{
  bytes_eq, nat_eq, suc, ◌+◌, ◌^◌, ◌≡◌, ◌≢◌, refl, Bool, true, false, List, [], ◌∷◌, ◌++◌, ltb,
  if◌then◌else◌, Bytes, at, codes, arith, find_pair, find_pair_from, iscntrl, equal, isdigit,
}
use hzcc.Token.Kinds.{str_lit, k_identity, k_unknown, k_logical_and, type_spec_start}
use hzcc.Token.Tables.{k_keyword_table}
use hzcc.Token.Symbols.{
  iserch_table, iserch_from, get_symbol_type, get_symbol_type_str, is_operator, word_type,
  is_keyword, is_qualifier, is_type_specifier, ascii_control_code_to_string,
}
use hzcc.Token.Symbols.Search.{FirstIndex, iserch_table-FirstIndex}
use hzcc.Token.Value.{Token, symbol_token, value_token, to_str, escape}
use hzcc.Lexer.State.{
  LexState, ok, err, out_of_fuel, ◌>>=◌, set_col, emplace_back, number_out_of_range,
  conversion_failed,
}
use hzcc.Lexer.Words.{symbol_handler, comment_handler, scan_word, word_token, word_handler}
use hzcc.Lexer.Literals.{str_lit_handler}
use hzcc.Lexer.Stoll.{match_decimal, match_binary, plus_of, all_of}
use hzcc.Lexer.Number.{check_integer}
use hzcc.Lexer.Line.{analyze_char, analyze_from, analyze_line}
use hzcc.Lexer.Source.{
  getlines, cons_line, initial, next_row, close_comment, read_line, read_lines, finish,
  parse_to_token,
}
use hzcc.Lexer.Advance.Line.{Lexes, analyze_line-Lexes}
use hzcc.Lexer.Advance.Source.{InOrder, parse_to_token-InOrder, parse_to_token-total}
use hzcc.Lexer.Strings.{str_lit_handler-to_str}
use hzcc.Lexer.Comments.{skip_rows, analyze_line-comment, read_lines-comment}
use hzcc.Lexer.Integers.{place_value, check_integer-decimal, check_integer-binary}
use hzcc.Lexer.Printed.{Printed, to_str-word_token, symbol_handler-Printed}

-- std::stold that finds every number in range.
abbrev any_real : Bytes → Bool
any_real tmp = true

abbrev two_lines : Bytes
two_lines = codes "int a;\n a &&b"

abbrev two_lines_tokens : List Token
two_lines_tokens =
    symbol_token type_spec_start 1 0
    ∷ value_token k_identity (codes "a") 1 4
    ∷ symbol_token b';' 1 5
    ∷ value_token k_identity (codes "a") 2 1
    ∷ symbol_token k_logical_and 2 4
    ∷ value_token k_identity (codes "b") 2 5
    ∷ []

two_lines-tokens : parse_to_token any_real true two_lines ≡ ok two_lines_tokens
unfolding parse_to_token getlines cons_line read_lines read_line finish analyze_line analyze_from
    analyze_char symbol_handler comment_handler word_handler scan_word word_token is_operator
    is_keyword is_qualifier is_type_specifier word_type iserch_table iserch_from get_symbol_type
    get_symbol_type_str equal isdigit
two_lines-tokens = refl

parse_to_token-InOrder_example : InOrder (getlines two_lines) 1 0 two_lines_tokens
parse_to_token-InOrder_example =
    parse_to_token-InOrder any_real true two_lines two_lines_tokens two_lines-tokens

parse_to_token-total_example : parse_to_token any_real true two_lines ≢ out_of_fuel
parse_to_token-total_example = parse_to_token-total any_real true two_lines

analyze_line-Lexes_example :
    Lexes (codes "int a = 0b1;") initial (analyze_line any_real (codes "int a = 0b1;") initial)
analyze_line-Lexes_example = analyze_line-Lexes any_real (codes "int a = 0b1;") initial

iserch_table-FirstIndex_example :
    FirstIndex k_keyword_table (codes "while") 0 (iserch_table k_keyword_table (codes "while"))
iserch_table-FirstIndex_example = iserch_table-FirstIndex k_keyword_table (codes "while")

str_lit_handler-to_str_example :
    str_lit_handler
      ([] ++ (to_str (value_token str_lit (b'a' ∷ b'\n' ∷ []) 1 0) true ++ codes ";"))
      initial
    ≡ ok (emplace_back initial (value_token str_lit (b'a' ∷ b'\n' ∷ []) 1 0) (suc (0 + 3)))
unfolding escape iscntrl ascii_control_code_to_string
str_lit_handler-to_str_example =
    str_lit_handler-to_str [] (codes ";") (b'a' ∷ b'\n' ∷ []) initial refl (refl, (refl, tt))

analyze_line-comment_example :
    analyze_line any_real (codes "// a 'b") initial ≡ ok (set_col initial 8)
analyze_line-comment_example =
    analyze_line-comment any_real (codes "// a 'b") initial (omega arith) refl refl

abbrev in_comment : LexState
in_comment = record initial { ctx = record initial.ctx { multi_line_comment = true } }

read_lines-comment_example :
    read_lines any_real ((codes "it's" ∷ []) ++ codes "x */ y" ∷ []) in_comment ≡ (
      analyze_line any_real (codes "x */ y") (close_comment (skip_rows 1 in_comment) (2 + 2))
      >>= λ s'. read_lines any_real [] (next_row s'))
unfolding find_pair find_pair_from
read_lines-comment_example =
    read_lines-comment any_real (codes "it's" ∷ []) (codes "x */ y") [] 2 in_comment refl (refl, tt)
      refl

check_integer-decimal_example : check_integer 3 7 (codes "42") ≡ (
    if ltb (place_value 10 (codes "42")) (2 ^ 63)
    then ok tt
    else err number_out_of_range (record { row = 3; col = 7 }))
unfolding match_decimal plus_of all_of isdigit
check_integer-decimal_example = check_integer-decimal 3 7 (codes "42") refl (λ e. omega arith)

check_integer-binary_example :
    check_integer 3 7 (codes "0b101") ≡ err conversion_failed (record { row = 3; col = 7 })
unfolding match_binary plus_of all_of
check_integer-binary_example = check_integer-binary 3 7 (codes "0b101") refl

to_str-word_token_example : to_str (word_token (codes "while") 1 0) false ≡ codes "while"
to_str-word_token_example = to_str-word_token (codes "while") 1 0

plus_known : get_symbol_type (at (codes "+=") 0) ≢ k_unknown
unfolding get_symbol_type iserch_table iserch_from
plus_known e = omega arith

symbol_handler-Printed_example : Printed (codes "+=") initial (symbol_handler (codes "+=") initial)
symbol_handler-Printed_example = symbol_handler-Printed (codes "+=") initial plus_known
