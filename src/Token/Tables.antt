-- ===== src/Token/Tables.antt =====
-- The symbol and word tables of hzcc/enums.h and hzcc/parser/common/keywords.h, in their order.
use hzcc.Prelude.{List, [], ◌∷◌, Bytes, codes}

-- kSingleCharSymbol
abbrev pub k_single_char_symbol : Bytes
k_single_char_symbol =
    b'+' ∷ b'-' ∷ b'*' ∷ b'/' ∷ b'%' ∷ b'&' ∷ b'|' ∷ b'!' ∷ b'=' ∷ b'.' ∷ b',' ∷ b'~' ∷ b'<' ∷ b'>'
    ∷ b'?' ∷ b':' ∷ b';' ∷ b'{' ∷ b'}' ∷ b'(' ∷ b')' ∷ b'[' ∷ b']' ∷ []

-- kLiteralsSymbol
abbrev pub k_literals_symbol : List Bytes
k_literals_symbol =
    codes "type"
    ∷ codes "Char"
    ∷ codes "Integer"
    ∷ codes "RealNumber"
    ∷ codes "String"
    ∷ codes "Identity"
    ∷ []

-- kQualifierTable
abbrev pub k_qualifier_table : List Bytes
k_qualifier_table = codes "const" ∷ codes "volatile" ∷ codes "restrict" ∷ codes "_Atomic" ∷ []

-- kOperatorTable; the seventeenth and the eighteenth entry are spelled alike in the source.
abbrev pub k_operator_table : List Bytes
k_operator_table =
    codes "=="
    ∷ codes "!="
    ∷ codes ">="
    ∷ codes "<="
    ∷ codes "++"
    ∷ codes "--"
    ∷ codes "||"
    ∷ codes "&&"
    ∷ codes "<<"
    ∷ codes ">>"
    ∷ codes "+="
    ∷ codes "-="
    ∷ codes "*="
    ∷ codes "/="
    ∷ codes "->"
    ∷ codes "%="
    ∷ codes ">>="
    ∷ codes ">>="
    ∷ codes "&="
    ∷ codes "^="
    ∷ codes "|="
    ∷ []

-- kTypeSpecifier
abbrev pub k_type_specifier : List Bytes
k_type_specifier =
    codes "int"
    ∷ codes "char"
    ∷ codes "float"
    ∷ codes "double"
    ∷ codes "void"
    ∷ codes "long"
    ∷ codes "short"
    ∷ codes "_Bool"
    ∷ codes "_Complex"
    ∷ codes "_Imaginary"
    ∷ codes "signed"
    ∷ codes "unsigned"
    ∷ codes "auto"
    ∷ []

-- kKeywordTable
abbrev pub k_keyword_table : List Bytes
k_keyword_table =
    codes "break"
    ∷ codes "case"
    ∷ codes "continue"
    ∷ codes "default"
    ∷ codes "do"
    ∷ codes "else"
    ∷ codes "enum"
    ∷ codes "extern"
    ∷ codes "for"
    ∷ codes "goto"
    ∷ codes "if"
    ∷ codes "return"
    ∷ codes "sizeof"
    ∷ codes "struct"
    ∷ codes "switch"
    ∷ codes "typedef"
    ∷ codes "union"
    ∷ codes "while"
    ∷ codes "_Alignas"
    ∷ codes "_Alignof"
    ∷ []
