-- ===== src/Codegen/Visits/Raises.antt =====
-- hzcc/codegen/jvm/FuncAnalyzer.cc: what the visits of values and assignments leave.
use mathlib.Core.Bool.{true≢false}
use hzcc.Prelude.{◌≡◌, refl, ap, subst, sym, ◌∙◌, Bool, true, false, some, [], ◌∷◌, ◌++◌, arith}
use hzcc.Codegen.Visits.{
  ◌>>=◌, Visitor, visit, visit_args, call_function, node_count, decrease_current_stack,
  push_return_stack, Node, cast_expr, arithmetic, bitwise, logical, relational, comma, assignment,
  array_subscript, decl_ref, sizeof_expr, literal, not_visited, unary_minus, other_unary, compound,
  func_call, param_var_decl, return_stmt, var_decl, Nodes, no_node, next_node,
}
use hzcc.Codegen.Visits.Heights.{
  raise, raise-raise, decrease-raise, with_load-raise, without_load-raise, IsBounded,
  raise-IsBounded, raise-none, raise_eq,
}
use hzcc.Codegen.Visits.Operands.{
  if_true, loading, loaded, loaded-raise, both-pos, visit-both, visit-operands, visit-element,
  Raises, call_function-raise,
}
use hzcc.Codegen.Visits.Assigns.{leave_slots}
use hzcc.Codegen.Visits.Places.{
  load_raised, array_raised, visit-name, visit-increment, IsPlaced, visit-assignment,
}
use hzcc.Codegen.Visits.Values.{
  both, slots, assign_needs, needs, needs_args, target_needs, names, names_args, target_name,
  IsValue, AreValues, IsTarget, needs-pos,
}

mutual
  unfolding visit needs names IsValue push_return_stack raise

  pub value-raise :
      (e : Node) (v : Visitor)
      → v.generate_load ≡ true
      → IsBounded v
      → IsValue v.scopes v.global_vars v.request_leave e
      → visit e v ≡ some (raise 1 (needs e) (names e) v)
  value-raise (cast_expr e) v g b h = value-raise e v g b h
  value-raise (arithmetic l r) v g b h =
      ap (λ m. m >>= λ v1. some (decrease_current_stack 1 v1))
        (with_load-raise (λ v. visit l v >>= λ v1. visit r v1) 2 (both (needs l) (needs r))
          (names r ++ names l) v
          (visit-both l r (value-raise l) (value-raise r) (loading v) refl b h.0 h.1))
      ∙ ap some (decrease-raise 1 1 (both (needs l) (needs r)) (names r ++ names l) v)
  value-raise (bitwise l r) v g b h =
      visit-operands l r (value-raise l) (value-raise r) v g b h.0 h.1
  value-raise (logical l r) v g b h =
      visit-operands l r (value-raise l) (value-raise r) v g b h.0 h.1
  value-raise (relational l r) v g b h =
      visit-operands l r (value-raise l) (value-raise r) v g b h.0 h.1
  value-raise (comma l r) v g b h = elim h [ ]
  value-raise (assignment type lhs l r) v g b h =
      visit-assignment type lhs l r v (visit_target l lhs.is_dereference v b h.2) (value-raise r)
        h.1 h.3
      ∙ ap
          (λ leave. some (
            raise (leave_slots leave) (assign_needs leave type (slots l) (target_needs l) (needs r))
              (names r) v))
          h.0
  value-raise (array_subscript base subscript) v g b h =
      visit-element base subscript loaded (value-raise base) (value-raise subscript) v b h.0 h.1
      ∙ loaded-raise (both (needs base) (needs subscript)) (names subscript ++ names base) v
          (both-pos (needs base) (needs subscript)) g
  value-raise (decl_ref name true) v g b h =
      if_true v.generate_load _ _ g ∙ ap some (array_raised name v)
  value-raise (decl_ref name false) v g b h = if_true v.generate_load _ _ g ∙ load_raised name v b h
  value-raise sizeof_expr v g b h = refl
  value-raise literal v g b h = refl
  value-raise not_visited v g b h = elim h [ ]
  value-raise (unary_minus e) v g b h =
      with_load-raise (visit e) 1 (needs e) (names e) v
        (value-raise e (record v { generate_load = true }) refl b h)
  value-raise (other_unary type_name e) v g b h = visit-increment type_name e v b h
  value-raise (compound stmts) v g b h = elim h [ ]
  value-raise (func_call is_void args) v g b h =
      ap (λ m. m >>= λ v1. some (call_function is_void (node_count args) v1))
        (visit_args-raise args v b h.1)
      ∙ ap
          (λ x. some (
            call_function x (node_count args)
              (raise (node_count args) (needs_args args) (names_args args) v)))
          h.0
      ∙ ap some (call_function-raise (node_count args) (needs_args args) (names_args args) v g)
  value-raise (param_var_decl name type line) v g b h = elim h [ ]
  value-raise (return_stmt e) v g b h = elim h [ ]
  value-raise (var_decl name type line size init) v g b h = elim h [ ]

  pub visit_args-raise :
      (args : Nodes) (v : Visitor)
      → IsBounded v
      → AreValues v.scopes v.global_vars v.request_leave args
      → Raises (visit_args args) (node_count args) (needs_args args) (names_args args) v
  visit_args-raise no_node v b h = ap some (sym (raise-none v b))
  visit_args-raise (next_node n rest) v b h =
      ap (λ m. m >>= λ v1. visit_args rest v1)
        (with_load-raise (visit n) 1 (needs n) (names n) v (value-raise n (loading v) refl b h.0))
      ∙ visit_args-raise rest (raise 1 (needs n) (names n) v)
          (raise-IsBounded 1 (needs n) (names n) v (needs-pos n)) h.1
      ∙ ap some (
          raise-raise 1 (needs n) (node_count rest) (needs_args rest) (names n) (names_args rest) v
          ∙ raise_eq (names_args rest ++ names n) v (omega arith) refl)

  pub visit_target :
      (l : Node) (dereference : Bool) (v : Visitor)
      → IsBounded v
      → IsTarget v.scopes v.global_vars v.request_leave dereference l
      → IsPlaced dereference l v
  visit_target (decl_ref name is_array) d v b h =
      (visit-name name is_array v b, omega arith, λ _. h.1.0, h.1.1)
  visit_target (array_subscript base subscript) d v b h = (
    without_load-raise (visit (array_subscript base subscript)) 2
        (both (needs base) (needs subscript)) (target_name base ∷ []) v
        (visit-element base subscript loaded (value-raise base) (value-raise subscript)
            (record v { generate_load = false }) b
            (subst (IsValue v.scopes v.global_vars v.request_leave) (sym h.1) tt) h.2
          ∙ ap
              (λ ns. some (
                raise 2 (both (needs base) (needs subscript)) ns
                  (record v { generate_load = false })))
              (ap (λ ns. ns ++ names base) h.3 ∙ ap names h.1)),
    ground (arith, needs-pos subscript),
    λ e. elim (true≢false (sym h.0 ∙ e)) [ ],
    h.4,
  )
  visit_target (cast_expr _) d v b h = elim h [ ]
  visit_target (arithmetic _ _) d v b h = elim h [ ]
  visit_target (bitwise _ _) d v b h = elim h [ ]
  visit_target (logical _ _) d v b h = elim h [ ]
  visit_target (relational _ _) d v b h = elim h [ ]
  visit_target (comma _ _) d v b h = elim h [ ]
  visit_target (assignment _ _ _ _) d v b h = elim h [ ]
  visit_target sizeof_expr d v b h = elim h [ ]
  visit_target literal d v b h = elim h [ ]
  visit_target not_visited d v b h = elim h [ ]
  visit_target (unary_minus _) d v b h = elim h [ ]
  visit_target (other_unary _ _) d v b h = elim h [ ]
  visit_target (compound _) d v b h = elim h [ ]
  visit_target (func_call _ _) d v b h = elim h [ ]
  visit_target (param_var_decl _ _ _) d v b h = elim h [ ]
  visit_target (return_stmt _) d v b h = elim h [ ]
  visit_target (var_decl _ _ _ _ _) d v b h = elim h [ ]

-- Where a load is asked for and the maximum is at least the height, the visit of a value ends: the
-- stack is one slot higher, the maximum counts the slots that the value needs on the way by a count
-- over its operands, and the names of its arrays are on the return stack. In the scopes and the global
-- variables of the visitor, a value is a literal, a `sizeof`, an array, a name that is loaded as one
-- slot, an increment of such a name of type int that is not global, a cast, a minus or an arithmetic,
-- bitwise, logical or relational operator on values, an element by values of an array and a subscript,
-- and a call of a function that is not void on values. An assignment is a value only if its value is
-- asked for, it does not become an `iinc`, its right side is a value, and its target, by the flag for
-- elements, is either a name that is loaded as one slot and saved from one, or an element of a named
-- array that is saved from three slots, with a value for a subscript that leaves no name of an array.
-- A comma is no value.
pub visit-raise :
    (e : Node) (v : Visitor)
    → v.generate_load ≡ true
    → IsBounded v
    → IsValue v.scopes v.global_vars v.request_leave e
    → visit e v ≡ some (raise 1 (needs e) (names e) v)
visit-raise e v g b h = value-raise e v g b h
