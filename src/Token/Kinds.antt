-- ===== src/Token/Kinds.antt =====
-- hzcc/parser/common/token_type.h: the enumeration TokenType, by its values, since the source goes
-- back and forth between the enumeration and its integers. Symbols of one character are their code.
use hzcc.Prelude.{ℕ, Bool, ◌&&◌, leb}

abbrev pub TokenType : Type 0
TokenType = ℕ

abbrev pub lit_type_start : TokenType
lit_type_start = 300

abbrev pub char_lit : TokenType
char_lit = 302

abbrev pub int_lit : TokenType
int_lit = 303

abbrev pub real_lit : TokenType
real_lit = 304

abbrev pub str_lit : TokenType
str_lit = 305

abbrev pub k_identity : TokenType
k_identity = 306

abbrev pub lit_type_end : TokenType
lit_type_end = 306

abbrev pub type_spec_start : TokenType
type_spec_start = 310

abbrev pub type_spec_end : TokenType
type_spec_end = 322

abbrev pub op_start : TokenType
op_start = 351

abbrev pub op_end : TokenType
op_end = 371

abbrev pub qual_start : TokenType
qual_start = 400

abbrev pub qual_end : TokenType
qual_end = 403

abbrev pub keyword_start : TokenType
keyword_start = 500

abbrev pub keyword_end : TokenType
keyword_end = 519

abbrev pub k_unknown : TokenType
k_unknown = 999

-- The predicates on token types at the end of the header.
abbrev pub is_keyword : TokenType → Bool
is_keyword t = leb keyword_start t && leb t keyword_end

abbrev pub is_qualifier : TokenType → Bool
is_qualifier t = leb qual_start t && leb t qual_end

abbrev pub is_type_specifier : TokenType → Bool
is_type_specifier t = leb type_spec_start t && leb t type_spec_end

-- The operators of more than one character that the parser names.
abbrev pub eq_op : TokenType
eq_op = 351

abbrev pub ne_op : TokenType
ne_op = 352

abbrev pub ge_op : TokenType
ge_op = 353

abbrev pub le_op : TokenType
le_op = 354

abbrev pub k_self_increment : TokenType
k_self_increment = 355

abbrev pub k_self_decrement : TokenType
k_self_decrement = 356

abbrev pub k_logical_or : TokenType
k_logical_or = 357

abbrev pub k_logical_and : TokenType
k_logical_and = 358

abbrev pub k_left_shift : TokenType
k_left_shift = 359

abbrev pub k_right_shift : TokenType
k_right_shift = 360

abbrev pub k_arrow : TokenType
k_arrow = 365

abbrev pub k_lshift_assign : TokenType
k_lshift_assign = 367

abbrev pub k_rshift_assign : TokenType
k_rshift_assign = 368

abbrev pub struct_kw : TokenType
struct_kw = 513

abbrev pub enum_kw : TokenType
enum_kw = 506

abbrev pub else_kw : TokenType
else_kw = 505

abbrev pub sizeof_kw : TokenType
sizeof_kw = 512

abbrev pub break_kw : TokenType
break_kw = 500

abbrev pub continue_kw : TokenType
continue_kw = 502

abbrev pub do_kw : TokenType
do_kw = 504

abbrev pub for_kw : TokenType
for_kw = 508

abbrev pub if_kw : TokenType
if_kw = 510

abbrev pub return_kw : TokenType
return_kw = 511

abbrev pub while_kw : TokenType
while_kw = 517
