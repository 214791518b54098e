-- ===== src/Examples/Visiting.antt =====
-- hzcc/codegen/jvm/FuncAnalyzer.cc: the visits of the nodes at concrete inputs.
use hzcc.Prelude.{◌≡◌, refl, inr, true, false, Option, some, List, [], ◌∷◌, Bytes, codes, equal}
use hzcc.Prelude.Int.{ℤ, ◌+ℤ◌, pos, negsuc, max_ℤ}
use hzcc.Codegen.Analyzer.{FuncAnalyzer, load_from_variable, save_to_variable}
use hzcc.Codegen.Visits.{
  ◌>>=◌, Visitor, new_visitor, visit, get_max_stack_size, add_assign, Target, Node, arithmetic,
  assignment, array_subscript, decl_ref, literal, other_unary, compound, func_call, return_stmt,
  var_decl, Nodes, no_node, next_node, no_array, init_expr,
}
use hzcc.Codegen.Visits.Heights.{raise}
use hzcc.Codegen.Visits.Values.{needs, names, IsValue}
use hzcc.Codegen.Visits.Raises.{visit-raise}
use hzcc.Codegen.Visits.Balance.{visit-balance, get_max_stack_size-body}
use hzcc.Codegen.Visits.Statements.{stmt_needs, stmt_names, IsStatement}
use hzcc.Codegen.Visits.Keeping.{Restores, visit-Restores}

-- The locals `i` and `a`, an int and an array, a double `d`, and the global `n`.
abbrev locals : FuncAnalyzer
locals = record {
  symbol_table_stack = 0 ∷ [];
  saved_symbol_table =
      (record { name = codes "i"; type = codes "i"; line_no = 1 }
        ∷ record { name = codes "a"; type = codes "[i"; line_no = 1 }
        ∷ record { name = codes "b"; type = codes "[i"; line_no = 1 }
        ∷ record { name = codes "d"; type = codes "d"; line_no = 1 }
        ∷ [])
      ∷ [];
}

abbrev globals : List (Bytes × Bytes)
globals = (codes "n", codes "i") ∷ []

abbrev start : Visitor
start = record {
  scopes = locals;
  global_vars = globals;
  generate_load = false;
  request_leave = false;
  max_stack_size = pos 0;
  current_stack_size = pos 0;
  has_return = false;
  return_stack = [];
}

abbrev i_ref : Node
i_ref = decl_ref (codes "i") false

abbrev a_ref : Node
a_ref = decl_ref (codes "a") true

abbrev d_ref : Node
d_ref = decl_ref (codes "d") false

abbrev n_ref : Node
n_ref = decl_ref (codes "n") false

-- `i + (n + a[i])`
abbrev sum : Node
sum = arithmetic i_ref (arithmetic n_ref (array_subscript a_ref i_ref))

abbrev plain : Target
plain = record {
  is_array = false;
  is_func_ptr = false;
  type_name = codes "i";
  has_deduced_value = false;
  is_dereference = false;
}

abbrev element_of : Target
element_of = record {
  is_array = false;
  is_func_ptr = false;
  type_name = codes "i";
  has_deduced_value = false;
  is_dereference = true;
}

-- `a[i] += f(i, sum)`
abbrev call : Node
call = func_call false (next_node i_ref (next_node sum no_node))

abbrev store : Node
store = assignment add_assign element_of (array_subscript a_ref i_ref) call

visit-raise_example :
    visit sum (record start { generate_load = true })
    ≡ some (raise 1 4 (codes "a" ∷ []) (record start { generate_load = true }))
unfolding needs names IsValue load_from_variable max_ℤ equal
visit-raise_example =
    visit-raise sum (record start { generate_load = true }) refl refl (refl, (refl, (tt, refl)))

abbrev body : Nodes
body = next_node store (next_node call no_node)

visit-balance_example :
    visit (compound body) start ≡ some (raise 0 8 (codes "a" ∷ codes "a" ∷ []) start)
unfolding stmt_needs stmt_names IsStatement load_from_variable save_to_variable max_ℤ equal
visit-balance_example = visit-balance (compound body) start refl refl refl (
  inr (refl, (refl, refl, refl, refl, refl), (refl, (refl, ((refl, (refl, (tt, refl))), tt)))),
  ((refl, ((refl, (refl, (tt, refl))), tt)), tt),
)

get_max_stack_size-body_example :
    (visit (compound body) (record (new_visitor globals) { scopes = locals }) >>= λ v.
    visit (return_stmt sum) v >>= λ w. some (get_max_stack_size w))
    ≡ some (pos 28)
unfolding stmt_needs stmt_names IsStatement load_from_variable save_to_variable max_ℤ equal
get_max_stack_size-body_example =
    get_max_stack_size-body body sum locals globals
      (
        inr (
          refl,
          (refl, refl, refl, refl, refl),
          (refl, (refl, ((refl, (refl, (tt, refl))), tt))),
        ),
        ((refl, ((refl, (refl, (tt, refl))), tt)), tt),
      )
      (refl, (refl, (tt, refl)))

visit-Restores_example : Restores start (visit (compound body) start)
unfolding max_ℤ
visit-Restores_example = visit-Restores (compound body) start refl

-- Runs of the visits, by the height that they leave.
height : Node → Option ℤ
unfolding visit
height e = visit e start >>= λ v. some v.current_stack_size

-- An other_unary as a statement leaves a slot; that of a variable of another type leaves three.
increment_int : height (other_unary (codes "i") i_ref) ≡ some (pos 1)
unfolding height visit load_from_variable max_ℤ equal ◌+ℤ◌
increment_int = refl

increment_double : height (other_unary (codes "d") d_ref) ≡ some (pos 3)
unfolding height visit load_from_variable max_ℤ equal ◌+ℤ◌
increment_double = refl

-- A variable that another one initializes takes a slot that nothing has filled.
initialized :
    height (var_decl (codes "j") (codes "i") 2 no_array (init_expr i_ref)) ≡ some (negsuc 0)
unfolding height visit load_from_variable max_ℤ equal ◌+ℤ◌
initialized = refl

-- `a[b[0]] = 1` is stored by the name `b`.
stored_by :
    (visit (array_subscript a_ref (array_subscript (decl_ref (codes "b") true) literal)) start
      >>= λ v. some v.return_stack)
    ≡ some (codes "b" ∷ codes "a" ∷ [])
unfolding visit load_from_variable max_ℤ equal ◌+ℤ◌
stored_by = refl
