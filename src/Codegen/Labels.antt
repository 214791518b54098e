-- ===== src/Codegen/Labels.antt =====
-- hzcc/codegen/LabelManager.cc: the scopes of the function that is generated, and its labels. The
-- assertions of debug builds are left out: an empty stack answers as it does in release builds.
pub mod Loops
pub mod Numbers
pub mod Distinct
use hzcc.Prelude.{
  ℕ, zero, suc, ◌+◌, ◌-◌, ◌/◌, ◌%◌, ◌^◌, Bool, false, not, ◌||◌, Option, none, some, List, [], ◌∷◌,
  ◌++◌, ltb, ◌==◌, if◌then◌else◌, Bytes, equal, codes, length, get_or,
}
use hzcc.Token.Value.{Position}

-- ScopedType, by its values
abbrev pub ScopedType : Type 0
ScopedType = ℕ

abbrev pub do_scope : ScopedType
do_scope = 1

abbrev pub while_scope : ScopedType
while_scope = 2

abbrev pub for_scope : ScopedType
for_scope = 3

abbrev pub k_label_names : List Bytes
k_label_names =
    codes "if"
    ∷ codes "do"
    ∷ codes "while"
    ∷ codes "for"
    ∷ codes "switch"
    ∷ codes "equal"
    ∷ codes "notequal"
    ∷ codes "else_if"
    ∷ codes "logical"
    ∷ codes "ternary"
    ∷ []

-- The condition of the source for a loop.
abbrev pub is_loop : ScopedType → Bool
is_loop type = type == while_scope || type == for_scope || type == do_scope

abbrev pub word : ℕ
word = 2 ^ 64

-- std::to_string on a number: its decimal digits, for which the number itself is fuel enough.
unfoldable pub to_string_from : ℕ → ℕ → Bytes → Bytes
to_string_from zero n acc = acc
to_string_from (suc fuel) n acc =
    let more = to_string_from fuel (n / 10) ((b'0' + n % 10) ∷ acc) in
    if ltb n 10 then (b'0' + n) ∷ acc else more

unfoldable pub to_string : ℕ → Bytes
unfolding to_string_from
to_string n = to_string_from (suc n) n []

-- The back of the source's stack is the head here. The source's `_label_count` is one static number that
-- all managers share; here it is that of the only manager at work, as JVMGenerator is the only class
-- that has one. Labels of two managers that take turns are not considered.
pub record LabelManager : Type 0 where
  pub loop_count : ℕ
  pub label_count : ℕ
  pub generated_labels : List Bytes
  pub scope_stack : List (Bytes × ScopedType)
  pub line_number_table : List (Bytes × ℕ)

unfoldable pub is_generated : List Bytes → Bytes → Bool
is_generated [] label = false
is_generated (l ∷ ls) label = equal l label || is_generated ls label

-- `insert` and `emplace` of the set of labels
unfoldable pub insert_label : List Bytes → Bytes → List Bytes
unfolding is_generated
insert_label labels label = if is_generated labels label then labels else label ∷ labels

unfoldable pub scope_id : Position → ScopedType → Bytes
unfolding to_string
scope_id loc type =
    to_string loc.row ++ b'_' ∷ (to_string loc.col ++ b'_' ∷ get_or k_label_names type [])

unfoldable pub enter_scope : LabelManager → Position → ScopedType → LabelManager
unfolding scope_id
enter_scope m loop_loc type = record m {
  loop_count = if is_loop type then suc m.loop_count % word else m.loop_count;
  scope_stack = (scope_id loop_loc type, type) ∷ m.scope_stack;
}

-- An empty stack has no back to look at: `none` is its undefined behaviour.
unfoldable pub leave_scope : LabelManager → Option LabelManager
leave_scope m = elim m.scope_stack [
  | [] ↦ none
  | (id, type) ∷ rest ↦ some (record m {
    loop_count = if is_loop type then (m.loop_count + (word - 1)) % word else m.loop_count;
    scope_stack = rest;
  })
]

unfoldable pub get_current_scope_type : LabelManager → Option ScopedType
get_current_scope_type m = elim m.scope_stack [ [] ↦ none | (id, type) ∷ rest ↦ some type ]

unfoldable pub within_loop : LabelManager → Bool
within_loop m = not (m.loop_count == 0)

-- The search that GetLoopExitLabel and GetLoopEntryLabel share, from the back of the stack.
unfoldable pub loop_label : List (Bytes × ScopedType) → Bytes → Bytes
loop_label [] suffix = []
loop_label ((id, type) ∷ rest) suffix =
    let outer = loop_label rest suffix in if is_loop type then b'L' ∷ (id ++ suffix) else outer

unfoldable pub get_loop_exit_label : LabelManager → Bytes
unfolding loop_label
get_loop_exit_label m = loop_label m.scope_stack (codes "_exit")

unfoldable pub get_loop_entry_label : LabelManager → Bytes
unfolding loop_label
get_loop_entry_label m = loop_label m.scope_stack (codes "_entry")

-- GetScopeExitLabel and GetScopeEntryLabel, by their suffix.
unfoldable pub scope_label : LabelManager → Bytes → Bytes × LabelManager
unfolding insert_label
scope_label m suffix = elim m.scope_stack [
  | [] ↦ ([], m)
  | (id, type) ∷ rest ↦ (
    b'L' ∷ (id ++ suffix),
    record m { generated_labels = insert_label m.generated_labels (b'L' ∷ (id ++ suffix)) },
  )
]

abbrev pub get_scope_exit_label : LabelManager → Bytes × LabelManager
get_scope_exit_label m = scope_label m (codes "_exit")

abbrev pub get_scope_entry_label : LabelManager → Bytes × LabelManager
get_scope_entry_label m = scope_label m (codes "_entry")

-- The scope's part of a label.
abbrev pub scope_prefix : List (Bytes × ScopedType) → Bytes
scope_prefix [] = []
scope_prefix ((id, type) ∷ rest) = id ++ b'_' ∷ []

unfoldable pub generate_label : LabelManager → Bytes → Bytes × LabelManager
unfolding insert_label to_string
generate_label m name =
    let numbered = length name == 0 in
    let label =
      b'L' ∷ (scope_prefix m.scope_stack ++ (if numbered then to_string m.label_count else name)) in
    (
      label,
      record m {
        label_count = if numbered then suc m.label_count % word else m.label_count;
        generated_labels = insert_label m.generated_labels label;
      },
    )

unfoldable pub generate_line_label : LabelManager → Bytes × LabelManager
unfolding insert_label to_string
generate_line_label m =
    let label = codes "L_LINE_" ++ to_string m.label_count in
    (
      label,
      record m {
        label_count = suc m.label_count % word;
        generated_labels = insert_label m.generated_labels label;
      },
    )

-- The count of loops is not reset.
unfoldable pub reset_labels : LabelManager → LabelManager
reset_labels m = record m {
  label_count = 0;
  generated_labels = [];
  scope_stack = [];
  line_number_table = [];
}

-- A line number, which the source takes as an `int`, is not negative here.
unfoldable pub set_line_number_tag : LabelManager → Bytes → ℕ → LabelManager
set_line_number_tag m tag line_number = record m {
  line_number_table = m.line_number_table ++ (tag, line_number) ∷ [];
}
