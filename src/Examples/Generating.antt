-- ===== src/Examples/Generating.antt =====
-- hzcc/codegen: labels and variables of a few scopes.
use hzcc.Codegen.Labels.Distinct.{
  Generates, numbers, done, enters, lines, leaves, AllDistinct, Generates-AllDistinct,
}
use hzcc.Prelude.{
  ◌<◌, ◌≡◌, ◌≢◌, ◌↔◌, refl, true, [], ◌∷◌, ◌++◌, codes, arith, some, none, Bytes, if◌then◌else◌,
  equal, ◌+◌,
}
use hzcc.Token.Value.{Position}
use hzcc.Codegen.Analyzer
use hzcc.Codegen.Labels
use hzcc.Codegen.Analyzer.{
  LocalSymbol, FuncAnalyzer, func_analyzer, has_symbol, get_symbol_type, is_local,
  get_local_var_type, get_local_variable, own_ids, front,
}
use hzcc.Codegen.Analyzer.Scopes.{
  IsScoped, scope_of, add_all, all_empty, scope_of-restores, enter_scope-hides,
  get_local_variable-inner,
}
use hzcc.Codegen.Labels.{
  LabelManager, while_scope, word, scope_id, enter_scope, within_loop, get_loop_exit_label,
  generate_label, generate_line_label,
}
use hzcc.Codegen.Labels.Loops.{
  loops, fresh, starts, goes_on, enters, enter_all, within_loop-exit_label,
  get_loop_exit_label-innermost,
}

abbrev line_three : Position
line_three = record { row = 3; col = 4 }

abbrev in_while : LabelManager
in_while = enter_scope fresh line_three while_scope

few_loops : loops in_while.scope_stack < word
unfolding enter_scope
few_loops = omega arith

within_loop-exit_label_example : (within_loop in_while ≡ true) ↔ (get_loop_exit_label in_while ≢ [])
within_loop-exit_label_example =
    within_loop-exit_label in_while
      (goes_on fresh in_while starts (enters fresh line_three while_scope)) few_loops

get_loop_exit_label-innermost_example :
    get_loop_exit_label (enter_all in_while ((line_three, 0) ∷ []))
    ≡ b'L' ∷ (scope_id line_three while_scope ++ codes "_exit")
get_loop_exit_label-innermost_example =
    get_loop_exit_label-innermost fresh line_three while_scope ((line_three, 0) ∷ []) refl
      (refl, tt)

abbrev i_symbol : LocalSymbol
i_symbol = record { name = codes "i"; type = codes "I"; line_no = 5 }

scoped : IsScoped func_analyzer
unfolding func_analyzer Analyzer.enter_scope
scoped = (omega arith, tt)

scope_of-restores_example :
    (a' : FuncAnalyzer) × (scope_of func_analyzer (i_symbol ∷ []) ≡ some a')
    × IsScoped a'
    × ((name : Bytes)
        → (get_local_var_type a' name ≡ get_local_var_type func_analyzer name)
          × (is_local a' name ≡ is_local func_analyzer name))
scope_of-restores_example = scope_of-restores func_analyzer (i_symbol ∷ []) scoped

has_i : has_symbol (i_symbol ∷ []) (codes "i") ≡ true
unfolding has_symbol equal
has_i = refl

enter_scope-hides_example :
    (a' : FuncAnalyzer) × (add_all (Analyzer.enter_scope func_analyzer) (i_symbol ∷ []) ≡ some a')
    × (is_local a' (codes "i") ≡ true)
    × (get_local_var_type a' (codes "i") ≡ get_symbol_type (i_symbol ∷ []) (codes "i"))
enter_scope-hides_example = enter_scope-hides func_analyzer (i_symbol ∷ []) (codes "i") has_i

-- A function with a variable, and one in a loop.
abbrev with_inner : FuncAnalyzer
with_inner = record {
  symbol_table_stack = 0 ∷ [];
  saved_symbol_table = (i_symbol ∷ []) ∷ (i_symbol ∷ []) ∷ [];
}

only_function : front with_inner.symbol_table_stack ≡ some 0
unfolding front
only_function = refl

get_local_variable-inner_example :
    get_local_variable with_inner
    ≡ (if all_empty ((i_symbol ∷ []) ∷ []) then some (own_ids (i_symbol ∷ [])) else none)
get_local_variable-inner_example =
    get_local_variable-inner with_inner (i_symbol ∷ []) ((i_symbol ∷ []) ∷ []) refl only_function

-- A numbered label, one of a line inside a loop, and another one behind the loop.
abbrev first_label : Bytes × LabelManager
first_label = generate_label fresh []

abbrev in_loop : LabelManager
in_loop = enter_scope first_label.1 line_three while_scope

abbrev second_label : Bytes × LabelManager
second_label = generate_line_label in_loop

abbrev behind_loop : LabelManager
behind_loop = record second_label.1 { loop_count = 0; scope_stack = [] }

left_loop : Labels.leave_scope second_label.1 ≡ some behind_loop
unfolding Labels.leave_scope generate_label generate_line_label enter_scope
left_loop = refl

abbrev third_label : Bytes × LabelManager
third_label = generate_label behind_loop []

few_labels : fresh.label_count + 3 < word
few_labels = omega arith

three_labels : Generates fresh (first_label.0 ∷ second_label.0 ∷ third_label.0 ∷ []) third_label.1
three_labels = numbers fresh third_label.1 (second_label.0 ∷ third_label.0 ∷ []) (
    enters first_label.1 third_label.1 line_three while_scope (second_label.0 ∷ third_label.0 ∷ [])
      (lines in_loop third_label.1 (third_label.0 ∷ []) (
        leaves second_label.1 behind_loop third_label.1 (third_label.0 ∷ []) left_loop
          (numbers behind_loop third_label.1 [] (done third_label.1)))))

Generates-AllDistinct_example : AllDistinct (first_label.0 ∷ second_label.0 ∷ third_label.0 ∷ [])
Generates-AllDistinct_example =
    Generates-AllDistinct fresh third_label.1 (first_label.0 ∷ second_label.0 ∷ third_label.0 ∷ [])
      three_labels few_labels
