-- ===== src/Examples/Variables.antt =====
-- hzcc/codegen/jvm/StackManager.cc: the variables of a class with two functions.
use hzcc.Prelude.{◌≡◌, refl, some, none, List, [], ◌∷◌, ◌||◌, codes, equal}
use hzcc.Codegen.Labels.{to_string, to_string_from}
use hzcc.Codegen.Analyzer.{is_array}
use hzcc.Codegen.Stack.{
  StackManager, find, assign, found, stack_manager, is_local_var, is_global_var, get_var_type,
  get_stack_id, int_to_string, to_upper, char_to_int, field, save_to_variable, load_from_variable,
  reset_local_vars, add_local_var, add_local_tmp_var, add_global_var,
}
use hzcc.Codegen.Stack.Variables.{
  Call, local, tmp, global, reset, call, after, latest_local, latest_global, after-latest,
  found-is_local_var, after-agrees,
}

-- Two functions of a class: the variable of the first one hides the global one.
abbrev first_function : List Call
first_function = local 1 (codes "n") (codes "i") ∷ global (codes "n") (codes "f") ∷ []

abbrev second_function : List Call
second_function =
    tmp 3 (codes "k") (codes "i") ∷ local 2 (codes "c") (codes "c") ∷ reset ∷ first_function

load_n :
    load_from_variable (after (codes "Main") first_function) (codes "n") ≡ some (codes "iload 1")
unfolding load_from_variable after call stack_manager add_local_var add_global_var find assign equal
    is_array char_to_int int_to_string to_string to_string_from
load_n = refl

load_global_n :
    load_from_variable (after (codes "Main") second_function) (codes "n")
    ≡ some (codes "getstatic Field Main n F")
unfolding load_from_variable after call stack_manager add_local_var add_local_tmp_var add_global_var
    reset_local_vars find assign equal field to_upper
load_global_n = refl

after-latest_example :
    (get_var_type (after (codes "Main") second_function) (codes "c")
      ≡ elim (latest_local second_function (codes "c")) [
        | some (stack_id, var_type) ↦ some var_type
        | none ↦ latest_global second_function (codes "c")
      ])
    × (get_stack_id (after (codes "Main") second_function) (codes "c")
        ≡ elim (latest_local second_function (codes "c")) [
          | some (stack_id, var_type) ↦ some stack_id
          | none ↦ none
        ])
after-latest_example = after-latest (codes "Main") second_function (codes "c")

abbrev in_second : StackManager
in_second = after (codes "Main") second_function

found-is_local_var_example :
    (found (load_from_variable in_second (codes "c"))
      ≡ (is_local_var in_second (codes "c") || is_global_var in_second (codes "c")))
    × (found (save_to_variable in_second (codes "c"))
        ≡ (is_local_var in_second (codes "c") || is_global_var in_second (codes "c")))
    × (found (get_var_type in_second (codes "c"))
        ≡ (is_local_var in_second (codes "c") || is_global_var in_second (codes "c")))
    × (found (get_stack_id in_second (codes "c")) ≡ is_local_var in_second (codes "c"))
found-is_local_var_example = found-is_local_var in_second (codes "c")

abbrev global_function : List Call
global_function = global (codes "n") (codes "f") ∷ []

same_local : latest_local second_function (codes "n") ≡ latest_local global_function (codes "n")
unfolding latest_local equal
same_local = refl

same_global : latest_global second_function (codes "n") ≡ latest_global global_function (codes "n")
unfolding latest_global equal
same_global = refl

after-agrees_example :
    (load_from_variable (after (codes "Main") second_function) (codes "n")
      ≡ load_from_variable (after (codes "Main") global_function) (codes "n"))
    × (save_to_variable (after (codes "Main") second_function) (codes "n")
        ≡ save_to_variable (after (codes "Main") global_function) (codes "n"))
after-agrees_example =
    after-agrees (codes "Main") second_function global_function (codes "n") same_local same_global
