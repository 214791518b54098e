-- ===== src/Codegen/Stack/Variables.antt =====
-- hzcc/codegen/jvm/StackManager.cc: the variables that a history of calls leaves.
use hzcc.Prelude.{
  ℕ, ◌%◌, ◌^◌, ◌≡◌, refl, sym, ap, ◌∙◌, ◌||◌, Option, none, some, List, [], ◌∷◌, if◌then◌else◌,
  Bytes, equal, equal_iff, arith,
}
use hzcc.Codegen.Stack.{
  Table, find, assign, found, LocalVar, StackManager, stack_manager, is_local_var, is_global_var,
  get_var_type, get_stack_id, save_to_variable, load_from_variable, reset_local_vars, add_local_var,
  field, add_local_tmp_var, add_global_var,
}

find-assign :
    {A : Type 0} (table : Table A) (n : Bytes) (x : A) (name : Bytes)
    → find (assign table n x) name ≡ (if equal n name then some x else find table name)
unfolding find assign
find-assign [] n x name = refl
find-assign ((m, y) ∷ rest) n x name =
    grind (arith, find-assign rest n x name, equal_iff m n, equal_iff m name, equal_iff n name)

-- The calls that change the tables.
pub data Call : Type 0 where
  local : ℕ → Bytes → Bytes → Call
  tmp : ℕ → Bytes → Bytes → Call
  global : Bytes → Bytes → Call
  reset : Call

unfoldable pub call : Call → StackManager → StackManager
call (local id name type) m = add_local_var m id name type
call (tmp id name type) m = add_local_tmp_var m id name type
call (global name type) m = add_global_var m name type
call reset m = reset_local_vars m

-- The state behind a history of calls, the latest one first.
unfoldable pub after : Bytes → List Call → StackManager
after class_name [] = stack_manager class_name
after class_name (c ∷ earlier) = call c (after class_name earlier)

-- The latest local variable of a name behind the latest reset, and the latest global one.
unfoldable pub latest_local : List Call → Bytes → Option LocalVar
latest_local [] name = none
latest_local (local id n type ∷ earlier) name =
    let before = latest_local earlier name in
    if equal n name then some (id % 2 ^ 32, type) else before
latest_local (tmp id n type ∷ earlier) name = latest_local earlier name
latest_local (global n type ∷ earlier) name = latest_local earlier name
latest_local (reset ∷ earlier) name = none

unfoldable pub latest_global : List Call → Bytes → Option Bytes
latest_global [] name = none
latest_global (local id n type ∷ earlier) name = latest_global earlier name
latest_global (tmp id n type ∷ earlier) name = latest_global earlier name
latest_global (global n type ∷ earlier) name =
    let before = latest_global earlier name in if equal n name then some type else before
latest_global (reset ∷ earlier) name = latest_global earlier name

after-local :
    (class_name : Bytes) (calls : List Call) (name : Bytes)
    → find (after class_name calls).local_vars name ≡ latest_local calls name
unfolding find after call stack_manager latest_local add_local_var add_local_tmp_var add_global_var
    reset_local_vars
after-local c [] name = refl
after-local c (local id n type ∷ earlier) name =
    find-assign (after c earlier).local_vars n (id % 2 ^ 32, type) name
    ∙ ap (λ v. if equal n name then some (id % 2 ^ 32, type) else v) (after-local c earlier name)
after-local c (tmp id n type ∷ earlier) name = after-local c earlier name
after-local c (global n type ∷ earlier) name = after-local c earlier name
after-local c (reset ∷ earlier) name = refl

after-global :
    (class_name : Bytes) (calls : List Call) (name : Bytes)
    → find (after class_name calls).global_vars name ≡ latest_global calls name
unfolding find after call stack_manager latest_global add_local_var add_local_tmp_var add_global_var
    reset_local_vars
after-global c [] name = refl
after-global c (local id n type ∷ earlier) name = after-global c earlier name
after-global c (tmp id n type ∷ earlier) name = after-global c earlier name
after-global c (global n type ∷ earlier) name =
    find-assign (after c earlier).global_vars n type name
    ∙ ap (λ v. if equal n name then some type else v) (after-global c earlier name)
after-global c (reset ∷ earlier) name = after-global c earlier name

-- Behind any history of calls, the type of a name is that of its latest local variable behind the
-- latest reset, or else of its latest global one, and its stack id is that of this local variable.
pub after-latest :
    (class_name : Bytes) (calls : List Call) (name : Bytes)
    → (get_var_type (after class_name calls) name ≡ elim (latest_local calls name) [
      | some (stack_id, var_type) ↦ some var_type
      | none ↦ latest_global calls name
    ])
      × (get_stack_id (after class_name calls) name ≡ elim (latest_local calls name) [
        | some (stack_id, var_type) ↦ some stack_id
        | none ↦ none
      ])
unfolding get_var_type get_stack_id
after-latest c calls name = grind (arith, after-local c calls name, after-global c calls name)

-- A variable is loaded, and stored, and its type is found, exactly when the name is local or global;
-- its stack id is found exactly when it is local.
pub found-is_local_var :
    (m : StackManager) (name : Bytes)
    → (found (load_from_variable m name) ≡ (is_local_var m name || is_global_var m name))
      × (found (save_to_variable m name) ≡ (is_local_var m name || is_global_var m name))
      × (found (get_var_type m name) ≡ (is_local_var m name || is_global_var m name))
      × (found (get_stack_id m name) ≡ is_local_var m name)
unfolding load_from_variable save_to_variable is_local_var is_global_var get_var_type get_stack_id
    found
found-is_local_var m name = grind arith

after-class_name :
    (class_name : Bytes) (calls : List Call) → (after class_name calls).class_name ≡ class_name
unfolding after call stack_manager add_local_var add_local_tmp_var add_global_var reset_local_vars
after-class_name c [] = refl
after-class_name c (local id n type ∷ earlier) = after-class_name c earlier
after-class_name c (tmp id n type ∷ earlier) = after-class_name c earlier
after-class_name c (global n type ∷ earlier) = after-class_name c earlier
after-class_name c (reset ∷ earlier) = after-class_name c earlier

-- Behind two histories of calls in one class that have the same latest local variable of a name, and
-- the same latest global one, the name is loaded, and stored, by the same instruction.
pub after-agrees :
    (class_name : Bytes) (calls others : List Call) (name : Bytes)
    → latest_local calls name ≡ latest_local others name
    → latest_global calls name ≡ latest_global others name
    → (load_from_variable (after class_name calls) name
        ≡ load_from_variable (after class_name others) name)
      × (save_to_variable (after class_name calls) name
          ≡ save_to_variable (after class_name others) name)
unfolding load_from_variable save_to_variable field
after-agrees c calls others name same_local same_global =
    let local_eq = after-local c calls name ∙ same_local ∙ sym (after-local c others name) in
    let global_eq = after-global c calls name ∙ same_global ∙ sym (after-global c others name) in
    let class_eq = after-class_name c calls ∙ sym (after-class_name c others) in grind arith
