-- ===== src/Codegen/Visits/Keeping.antt =====
-- hzcc/codegen/jvm/FuncAnalyzer.cc: every visit restores the flags and keeps the maximum.
use hzcc.Prelude.{
  ℕ, ◌≡◌, Bool, true, Option, none, some, Bytes, if◌then◌else◌, not, ◌&&◌, equal, codes,
}
use hzcc.Prelude.Int.{max_ℤ}
use hzcc.Codegen.Analyzer.{grows, shrinks, find_global, add_local_variable}
use hzcc.Codegen.Visits.{
  ◌>>=◌, Visitor, Visit, visit, visit_all, visit_args, visit_size, visit_init, assign_to,
  increment_variable, call_function, node_count, modify_stack_size, decrease_current_stack,
  with_load, leave_on_stack, load_variable, save_variable, AssignType, is_assign, uses_iinc, Target,
  Node, cast_expr, arithmetic, bitwise, logical, relational, comma, assignment, array_subscript,
  decl_ref, sizeof_expr, literal, not_visited, unary_minus, other_unary, compound, func_call,
  param_var_decl, return_stmt, var_decl, Nodes, no_node, next_node, ArraySize, no_array,
  deduced_size, size_node, Init, no_init, init_expr,
}
use hzcc.Codegen.Visits.Heights.{IsBounded}
use hzcc.Codegen.Visits.Flags.{
  Keeps, Kept, IsKeeping, Keeps-refl, Keeps-trans, Kept-behind, Kept-bind, Kept-if, Keeps-if,
  Kept-consume, Kept-scopes, modify-Keeps, decrease-Keeps, load-Kept, save-Kept, with_load-Kept,
  without_load-Kept, leave_on_stack-Kept,
}

assign_to-Kept :
    (type : AssignType) (lhs : Target) (rhs : Visit) (name : Bytes)
    → IsKeeping rhs
    → IsKeeping (assign_to type lhs rhs name)
unfolding assign_to
assign_to-Kept type lhs rhs name h v =
    Kept-bind v _ _
      (Kept-if v (is_assign type) _ _ (Keeps-refl v)
        (Kept-if v lhs.is_dereference _ _ (modify-Keeps (grows 1) v) (load-Kept name v)))
      λ v1. Kept-bind v1 _ _ (leave_on_stack-Kept (with_load rhs) (with_load-Kept rhs h) v1) λ v2.
        let v3 = if is_assign type then v2 else modify_stack_size (shrinks 1) v2 in
        let v4 = if v3.request_leave then modify_stack_size (grows 1) v3 else v3 in
        Kept-behind v2 v3 (save_variable name v4)
          (Keeps-if v2 (is_assign type) _ _ (Keeps-refl v2) (modify-Keeps (shrinks 1) v2))
          (Kept-behind v3 v4 (save_variable name v4)
            (Keeps-if v3 v3.request_leave _ _ (modify-Keeps (grows 1) v3) (Keeps-refl v3))
            (save-Kept name v4))

load_and_save-Kept :
    (name : Bytes) (v : Visitor)
    → Kept v (load_variable name v >>= λ v1. save_variable name (modify_stack_size (grows 3) v1))
load_and_save-Kept name v = Kept-bind v _ _ (load-Kept name v) λ v1.
    Kept-behind v1 (modify_stack_size (grows 3) v1) _ (modify-Keeps (grows 3) v1)
      (save-Kept name (modify_stack_size (grows 3) v1))

increment_from :
    (type_name name : Bytes) (v : Visitor) (o : Option Bytes)
    → Kept v (elim o [
      | some _ ↦
          (load_variable name v >>= λ v1. save_variable name (modify_stack_size (grows 3) v1))
      | none ↦
          if equal type_name (codes "i")
          then load_variable name v
          else (load_variable name v >>= λ v1. save_variable name (modify_stack_size (grows 3) v1))
    ])
increment_from type_name name v (some _) = load_and_save-Kept name v
increment_from type_name name v none =
    Kept-if v (equal type_name (codes "i")) _ _ (load-Kept name v) (load_and_save-Kept name v)

increment-Kept : (type_name name : Bytes) → IsKeeping (increment_variable type_name name)
unfolding increment_variable
increment-Kept type_name name v = increment_from type_name name v (find_global v.global_vars name)

call-Keeps : (is_void : Bool) (args : ℕ) (v : Visitor) → Keeps v (call_function is_void args v)
unfolding call_function
call-Keeps is_void args v =
    let v1 = modify_stack_size (shrinks args) v in
    let v2 = if is_void then v1 else modify_stack_size (grows 1) v1 in
    let v3 = if not v2.generate_load && not is_void then modify_stack_size (shrinks 1) v2 else v2 in
    Keeps-trans v v1 v3 (modify-Keeps (shrinks args) v) (
      Keeps-trans v1 v2 v3 (Keeps-if v1 is_void _ _ (Keeps-refl v1) (modify-Keeps (grows 1) v1)) (
        Keeps-if v2 (not v2.generate_load && not is_void) _ _ (modify-Keeps (shrinks 1) v2)
          (Keeps-refl v2)))

-- A visit, and a step that does not fail.
Kept-step :
    (v : Visitor) (o : Option Visitor) (f : Visitor → Visitor)
    → Kept v o
    → ((w : Visitor) → Keeps w (f w))
    → Kept v (o >>= λ w. some (f w))
Kept-step v o f h k = Kept-bind v o (λ w. some (f w)) h k

abbrev loaded : Visitor → Visitor
loaded v = if v.generate_load then modify_stack_size (shrinks 1) v else v

operands-Kept :
    (f g : Visit)
    → IsKeeping f
    → IsKeeping g
    → IsKeeping (λ v. f v >>= λ v1. g v1 >>= λ v2. some (decrease_current_stack 1 v2))
operands-Kept f g h k v =
    Kept-bind v (f v) _ (h v)
      λ v1. Kept-step v1 (g v1) (decrease_current_stack 1) (k v1) (decrease-Keeps 1)

mutual
  unfolding visit

  visit-Kept : (e : Node) → IsKeeping (visit e)
  visit-Kept (cast_expr e) v = visit-Kept e v
  visit-Kept (arithmetic l r) v =
      Kept-step v _ (decrease_current_stack 1)
        (with_load-Kept (λ v. visit l v >>= λ v1. visit r v1)
          (λ w. Kept-bind w (visit l w) (visit r) (visit-Kept l w) (visit-Kept r)) v)
        (decrease-Keeps 1)
  visit-Kept (bitwise l r) v = operands-Kept (visit l) (visit r) (visit-Kept l) (visit-Kept r) v
  visit-Kept (logical l r) v = operands-Kept (visit l) (visit r) (visit-Kept l) (visit-Kept r) v
  visit-Kept (relational l r) v = operands-Kept (visit l) (visit r) (visit-Kept l) (visit-Kept r) v
  visit-Kept (comma l r) v = Kept-bind v (visit l v) (visit r) (visit-Kept l v) (visit-Kept r)
  visit-Kept (assignment type lhs l r) v = Kept-if v (uses_iinc type lhs) _ _ (Keeps-refl v) (
      Kept-bind v _ _ (without_load-Kept (visit l) (visit-Kept l) v) λ v1.
        Kept-consume v1 (assign_to type lhs (visit r))
          λ name. assign_to-Kept type lhs (visit r) name (visit-Kept r))
  visit-Kept (array_subscript base subscript) v =
      Kept-bind v _ _ (with_load-Kept (visit base) (visit-Kept base) v) λ v1.
        Kept-step v1 _ loaded (with_load-Kept (visit subscript) (visit-Kept subscript) v1)
          λ v2. Keeps-if v2 v2.generate_load _ _ (modify-Keeps (shrinks 1) v2) (Keeps-refl v2)
  visit-Kept (decl_ref name is_array) v =
      Kept-if v v.generate_load _ _
        (Kept-if v is_array _ _ (modify-Keeps (grows 1) v) (load-Kept name v)) (Keeps-refl v)
  visit-Kept sizeof_expr v = modify-Keeps (grows 1) v
  visit-Kept literal v = modify-Keeps (grows 1) v
  visit-Kept not_visited v = Keeps-refl v
  visit-Kept (unary_minus e) v = with_load-Kept (visit e) (visit-Kept e) v
  visit-Kept (other_unary type_name e) v =
      Kept-bind v _ _ (without_load-Kept (visit e) (visit-Kept e) v)
        λ v1. Kept-consume v1 (increment_variable type_name) (increment-Kept type_name)
  visit-Kept (compound stmts) v = visit_all-Kept stmts v
  visit-Kept (func_call is_void args) v =
      Kept-step v (visit_args args v) (call_function is_void (node_count args))
        (visit_args-Kept args v) (call-Keeps is_void (node_count args))
  visit-Kept (param_var_decl name type line) v =
      Kept-scopes v (add_local_variable v.scopes name type line) some Keeps-refl
  visit-Kept (return_stmt e) v =
      with_load-Kept (leave_on_stack (visit e)) (leave_on_stack-Kept (visit e) (visit-Kept e))
        (record v { has_return = true })
  visit-Kept (var_decl name type line size init) v =
      Kept-scopes v (add_local_variable v.scopes name type line)
        (λ v. visit_size size v >>= λ v1. visit_init name init v1)
        λ w.
          Kept-bind w (visit_size size w) (visit_init name init) (visit_size-Kept size w)
            (visit_init-Kept name init)

  visit_all-Kept : (stmts : Nodes) → IsKeeping (visit_all stmts)
  visit_all-Kept no_node v = Keeps-refl v
  visit_all-Kept (next_node n rest) v =
      Kept-bind v (visit n v) (visit_all rest) (visit-Kept n v) (visit_all-Kept rest)

  visit_args-Kept : (args : Nodes) → IsKeeping (visit_args args)
  visit_args-Kept no_node v = Keeps-refl v
  visit_args-Kept (next_node n rest) v =
      Kept-bind v _ (visit_args rest) (with_load-Kept (visit n) (visit-Kept n) v)
        (visit_args-Kept rest)

  visit_size-Kept : (size : ArraySize) → IsKeeping (visit_size size)
  visit_size-Kept no_array v = Keeps-refl v
  visit_size-Kept deduced_size v =
      Keeps-trans v (modify_stack_size (grows 1) v)
        (modify_stack_size (shrinks 1) (modify_stack_size (grows 1) v)) (modify-Keeps (grows 1) v)
        (modify-Keeps (shrinks 1) (modify_stack_size (grows 1) v))
  visit_size-Kept (size_node e) v =
      Kept-step v (visit e v) (modify_stack_size (shrinks 1)) (visit-Kept e v)
        (modify-Keeps (shrinks 1))

  visit_init-Kept : (name : Bytes) (init : Init) → IsKeeping (visit_init name init)
  visit_init-Kept name no_init v = Keeps-refl v
  visit_init-Kept name (init_expr e) v =
      Kept-bind v (visit e v) (save_variable name) (visit-Kept e v) (save-Kept name)

-- What a visit that ends leaves: the flags and the global variables as they were, and a maximum that
-- is at least the one before and at least the height.
abbrev pub Restores : Visitor → Option Visitor → Type 0
Restores v none = Unit
Restores v (some w) =
    (w.generate_load ≡ v.generate_load)
    × (w.request_leave ≡ v.request_leave)
    × (w.global_vars ≡ v.global_vars)
    × (max_ℤ w.max_stack_size v.max_stack_size ≡ w.max_stack_size)
    × (max_ℤ w.max_stack_size w.current_stack_size ≡ w.max_stack_size)

Restores-of : (v : Visitor) (o : Option Visitor) → IsBounded v → Kept v o → Restores v o
Restores-of v none b p = tt
Restores-of v (some w) b p = (p.0, p.1, p.2, p.3, p.4 b)

-- Where the maximum is at least the height, a visit of any node that ends leaves the flags for loads and
-- for values and the global variables as they were, and a maximum that is at least the one before and at
-- least the height.
pub visit-Restores : (e : Node) (v : Visitor) → IsBounded v → Restores v (visit e v)
visit-Restores e v b = Restores-of v (visit e v) b (visit-Kept e v)
