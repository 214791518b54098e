-- ===== src/Codegen/Stack.antt =====
-- hzcc/codegen/jvm/StackManager.cc: the tables of variables of a class, and the instructions that
-- load and store a variable. `none` is LOG(FATAL). The assertions of debug builds are left out: a
-- name that is added again is overwritten, as in release builds.
pub mod Variables
use hzcc.Prelude.{
  ℕ, ◌-◌, ◌%◌, ◌^◌, Bool, true, false, Option, none, some, List, [], ◌∷◌, ◌++◌, ltb, ◌==◌,
  if◌then◌else◌, Bytes, equal, codes, within,
}
use hzcc.Codegen.Labels.{to_string}
use hzcc.Codegen.Analyzer.{is_array}

-- The tables of the source are unordered maps: lists of names and values here, each name once.
abbrev pub Table : Type 0 → Type 0
Table A = List (Bytes × A)

-- `find`
unfoldable pub find : {A : Type 0} → Table A → Bytes → Option A
find [] name = none
find ((n, x) ∷ rest) name = let later = find rest name in if equal n name then some x else later

-- `table[name] = x`
unfoldable pub assign : {A : Type 0} → Table A → Bytes → A → Table A
assign [] name x = (name, x) ∷ []
assign ((n, y) ∷ rest) name x =
    let later = assign rest name x in if equal n name then (n, x) ∷ rest else (n, y) ∷ later

-- `find(name) != end()`
unfoldable pub found : {A : Type 0} → Option A → Bool
found none = false
found (some x) = true

-- The stack id is an `int` in the tables, and a `uint32_t` outside: the number of the same bits here.
abbrev pub LocalVar : Type 0
LocalVar = ℕ × Bytes

pub record StackManager : Type 0 where
  pub class_name : Bytes
  pub global_vars : Table Bytes
  pub tmp_vars : Table LocalVar
  pub local_vars : Table LocalVar

unfoldable pub stack_manager : Bytes → StackManager
stack_manager name = record { class_name = name; global_vars = []; tmp_vars = []; local_vars = [] }

unfoldable pub is_local_var : StackManager → Bytes → Bool
unfolding found
is_local_var m name = found (find m.local_vars name)

unfoldable pub is_global_var : StackManager → Bytes → Bool
unfolding found
is_global_var m name = found (find m.global_vars name)

unfoldable pub get_global_vars : StackManager → Table Bytes
get_global_vars m = m.global_vars

unfoldable pub get_var_type : StackManager → Bytes → Option Bytes
get_var_type m name = elim (find m.local_vars name) [
  | some (stack_id, var_type) ↦ some var_type
  | none ↦ find m.global_vars name
]

unfoldable pub get_stack_id : StackManager → Bytes → Option ℕ
get_stack_id m name = elim (find m.local_vars name) [
  | some (stack_id, var_type) ↦ some stack_id
  | none ↦ none
]

-- std::to_string of an `int`
unfoldable pub int_to_string : ℕ → Bytes
int_to_string id = if ltb id (2 ^ 31) then to_string id else b'-' ∷ to_string (2 ^ 32 - id)

-- `var_type.erase(var_type.find('['), 1)`
unfoldable pub erase_bracket : Bytes → Bytes
erase_bracket [] = []
erase_bracket (c ∷ type) = let rest = erase_bracket type in if c == b'[' then type else c ∷ rest

-- `std::transform(.., ::toupper)`
unfoldable pub to_upper : Bytes → Bytes
to_upper [] = []
to_upper (c ∷ type) = (if within b'a' b'z' c then c - 32 else c) ∷ to_upper type

-- A char is stored and loaded as an int.
unfoldable pub char_to_int : Bytes → Bytes
char_to_int type = if equal type (codes "c") then codes "i" else type

unfoldable pub field : StackManager → Bytes → Bytes → Bytes
field m name var_type = m.class_name ++ codes " " ++ name ++ codes " " ++ to_upper var_type

unfoldable pub save_to_variable : StackManager → Bytes → Option Bytes
save_to_variable m name = elim (find m.local_vars name) [
  | some (stack_id, var_type) ↦ some (
      if is_array var_type
      then erase_bracket var_type ++ codes "astore"
      else char_to_int var_type ++ codes "store " ++ int_to_string stack_id)
  | none ↦ elim (find m.global_vars name) [
    | some var_type ↦ some (
        if is_array var_type
        then erase_bracket var_type ++ codes "astore"
        else codes "putstatic Field " ++ field m name var_type)
    | none ↦ none
  ]
]

unfoldable pub load_from_variable : StackManager → Bytes → Option Bytes
load_from_variable m name = elim (find m.local_vars name) [
  | some (stack_id, var_type) ↦ some (
      if is_array var_type
      then erase_bracket var_type ++ codes "aload " ++ int_to_string stack_id
      else char_to_int var_type ++ codes "load " ++ int_to_string stack_id)
  | none ↦ elim (find m.global_vars name) [
    | some var_type ↦ some (codes "getstatic Field " ++ field m name var_type)
    | none ↦ none
  ]
]

unfoldable pub reset_local_vars : StackManager → StackManager
reset_local_vars m = record m { tmp_vars = []; local_vars = [] }

unfoldable pub add_local_var : StackManager → ℕ → Bytes → Bytes → StackManager
add_local_var m id name type = record m {
  local_vars = assign m.local_vars name (id % 2 ^ 32, type);
}

unfoldable pub add_local_tmp_var : StackManager → ℕ → Bytes → Bytes → StackManager
add_local_tmp_var m id name type = record m {
  tmp_vars = assign m.tmp_vars name (id % 2 ^ 32, type);
}

unfoldable pub add_global_var : StackManager → Bytes → Bytes → StackManager
add_global_var m name type = record m { global_vars = assign m.global_vars name type }
