-- ===== src/Codegen/Visits/Balance.antt =====
-- hzcc/codegen/jvm/FuncAnalyzer.cc: the statements, behind which the stack is as high as before.
use Prim.Native.Nat.{max}
use hzcc.Prelude.{
  not, ◌&&◌, ℕ, ◌+◌, ◌≡◌, refl, ap, subst, sym, ◌∙◌, Bool, true, false, some, List, [], ◌++◌, Bytes,
  arith, if◌then◌else◌, inl, inr, not, ◌&&◌,
}
use hzcc.Codegen.Analyzer.{FuncAnalyzer, grows, shrinks}
use hzcc.Prelude.Int.{pos, ◌+ℤ◌, max_ℤ}
use hzcc.Codegen.Visits.{
  new_visitor, get_max_stack_size, ◌>>=◌, Visitor, visit, visit_all, call_function, node_count,
  modify_stack_size, leave_on_stack, uses_iinc, Node, cast_expr, arithmetic, bitwise, logical,
  relational, comma, assignment, array_subscript, decl_ref, sizeof_expr, literal, not_visited,
  unary_minus, other_unary, compound, func_call, param_var_decl, return_stmt, var_decl, Nodes,
  no_node, next_node,
}
use hzcc.Codegen.Visits.Heights.{
  raise, raise-raise, grows-raise, with_load-raise, shrinks-raise_all, raise-load,
  leave_on_stack-raise, IsBounded, raise-IsBounded, raise-none, raise_eq,
}
use hzcc.Codegen.Visits.Operands.{if_true}
use hzcc.Codegen.Visits.Assigns.{leave_slots}
use hzcc.Codegen.Visits.Places.{visit-assignment}
use hzcc.Codegen.Visits.Raises.{value-raise, visit_args-raise, visit_target}
use hzcc.Codegen.Visits.Statements.{
  stmt_needs, stmts_need, stmt_names, stmts_names, IsStatement, AreStatements,
}
use hzcc.Codegen.Visits.Values.{
  slots, assign_needs, needs, needs_args, target_needs, names, names_args, IsValue, AreValues,
  IsTarget,
}

abbrev dropped : Bool → Bool → Visitor → Visitor
dropped load is_void v = if not load && not is_void then modify_stack_size (shrinks 1) v else v

dropped-void : (load : Bool) (v : Visitor) → dropped load true v ≡ v
dropped-void true v = refl
dropped-void false v = refl

dropped-value :
    (load : Bool) (v : Visitor)
    → load ≡ false
    → dropped load false v ≡ modify_stack_size (shrinks 1) v
dropped-value true v e = ap (λ b. dropped b false v) e
dropped-value false v e = refl

-- A call whose value is not asked for.
call_function-dropped :
    (is_void : Bool) (args n : ℕ) (ns : List Bytes) (v : Visitor)
    → v.generate_load ≡ false
    → call_function is_void args (raise args n ns v)
      ≡ raise 0 (max n (if is_void then 0 else 1)) ns v
unfolding call_function
call_function-dropped true args n ns v g =
    ap (λ w. dropped w.generate_load true w) (shrinks-raise_all args n ns v)
    ∙ dropped-void (raise 0 n ns v).generate_load (raise 0 n ns v)
    ∙ raise_eq ns v refl (omega arith)
call_function-dropped false args n ns v g =
    ap (λ w. dropped w.generate_load false w)
      (ap (modify_stack_size (grows 1)) (shrinks-raise_all args n ns v) ∙ grows-raise 1 0 n ns v)
    ∙ dropped-value (raise 1 (max n 1) ns v).generate_load (raise 1 (max n 1) ns v)
        (raise-load 1 (max n 1) ns v ∙ g)
    ∙ shrinks-raise_all 1 (max n 1) ns v

mutual
  unfolding visit stmt_needs stmts_need stmt_names stmts_names IsStatement AreStatements raise

  statement-raise :
      (e : Node) (v : Visitor)
      → v.generate_load ≡ false
      → v.request_leave ≡ false
      → IsBounded v
      → IsStatement v.scopes v.global_vars e
      → visit e v ≡ some (raise 0 (stmt_needs e) (stmt_names e) v)
  statement-raise (assignment type lhs l r) v g q b (inl h) =
      if_true (uses_iinc type lhs) _ _ h
      ∙ ap some (sym (raise-none v b))
      ∙ ap
          (λ iinc. some (
            raise 0
              (if iinc then 0 else assign_needs false type (slots l) (target_needs l) (needs r))
              (if iinc then [] else names r) v))
          (sym h)
  statement-raise (assignment type lhs l r) v g q b (inr h) =
      visit-assignment type lhs l r v
        (visit_target l lhs.is_dereference v b
          (subst (λ leave. IsTarget v.scopes v.global_vars leave lhs.is_dereference l) (sym q) h.1))
        (value-raise r) h.0 h.2
      ∙ ap
          (λ leave. some (
            raise (leave_slots leave) (assign_needs leave type (slots l) (target_needs l) (needs r))
              (names r) v))
          q
      ∙ ap
          (λ iinc. some (
            raise 0
              (if iinc then 0 else assign_needs false type (slots l) (target_needs l) (needs r))
              (if iinc then [] else names r) v))
          (sym h.0)
  statement-raise (func_call is_void args) v g q b h =
      ap (λ m. m >>= λ v1. some (call_function is_void (node_count args) v1))
        (visit_args-raise args v b
          (subst (λ leave. AreValues v.scopes v.global_vars leave args) (sym q) h))
      ∙ ap some
          (call_function-dropped is_void (node_count args) (needs_args args) (names_args args) v g)
  statement-raise (compound stmts) v g q b h = statements-raise stmts v g q b h
  statement-raise not_visited v g q b h = ap some (sym (raise-none v b))
  statement-raise (array_subscript _ _) v g q b h = elim h [ ]
  statement-raise (decl_ref _ _) v g q b h = elim h [ ]
  statement-raise (cast_expr _) v g q b h = elim h [ ]
  statement-raise (arithmetic _ _) v g q b h = elim h [ ]
  statement-raise (bitwise _ _) v g q b h = elim h [ ]
  statement-raise (logical _ _) v g q b h = elim h [ ]
  statement-raise (relational _ _) v g q b h = elim h [ ]
  statement-raise (comma _ _) v g q b h = elim h [ ]
  statement-raise sizeof_expr v g q b h = elim h [ ]
  statement-raise literal v g q b h = elim h [ ]
  statement-raise (unary_minus _) v g q b h = elim h [ ]
  statement-raise (other_unary _ _) v g q b h = elim h [ ]
  statement-raise (param_var_decl _ _ _) v g q b h = elim h [ ]
  statement-raise (return_stmt _) v g q b h = elim h [ ]
  statement-raise (var_decl _ _ _ _ _) v g q b h = elim h [ ]

  statements-raise :
      (stmts : Nodes) (v : Visitor)
      → v.generate_load ≡ false
      → v.request_leave ≡ false
      → IsBounded v
      → AreStatements v.scopes v.global_vars stmts
      → visit_all stmts v ≡ some (raise 0 (stmts_need stmts) (stmts_names stmts) v)
  statements-raise no_node v g q b h = ap some (sym (raise-none v b))
  statements-raise (next_node n rest) v g q b h =
      ap (λ m. m >>= λ v1. visit_all rest v1) (statement-raise n v g q b h.0)
      ∙ statements-raise rest (raise 0 (stmt_needs n) (stmt_names n) v) g q
          (raise-IsBounded 0 (stmt_needs n) (stmt_names n) v (omega arith)) h.1
      ∙ ap some (
          raise-raise 0 (stmt_needs n) 0 (stmts_need rest) (stmt_names n) (stmts_names rest) v
          ∙ raise_eq (stmts_names rest ++ stmt_names n) v refl (omega arith))

-- Where neither a load nor a value is asked for and the maximum is at least the height, the visit of a
-- statement of the following kinds ends: the stack is as high as before, and the maximum counts the
-- slots that the statement needs. In the scopes and the global variables of the visitor, they are an
-- assignment that becomes an `iinc`, an assignment that does not, with a value for its right side and
-- for its target, by the flag for elements, either a name that is loaded as one slot and saved from
-- one, or an element of a named array that is saved from three slots, with a value for a subscript
-- that leaves no name of an array, a call on values, a node that is not visited, and a block of these.
-- Values are the expressions that IsValue describes: with no comma, with no assignment that becomes an
-- `iinc`, and with an assignment only within the right side of another one.
pub visit-balance :
    (e : Node) (v : Visitor)
    → v.generate_load ≡ false
    → v.request_leave ≡ false
    → IsBounded v
    → IsStatement v.scopes v.global_vars e
    → visit e v ≡ some (raise 0 (stmt_needs e) (stmt_names e) v)
visit-balance e v g q b h = statement-raise e v g q b h

pub visit-return :
    (e : Node) (v : Visitor)
    → IsBounded v
    → IsValue v.scopes v.global_vars true e
    → visit (return_stmt e) v ≡ some (raise 1 (needs e) (names e) (record v { has_return = true }))
unfolding visit
visit-return e v b h =
    with_load-raise (leave_on_stack (visit e)) 1 (needs e) (names e)
      (record v { has_return = true })
      (leave_on_stack-raise (visit e) 1 (needs e) (names e)
        (record v { has_return = true; generate_load = true })
        (value-raise e (record v { has_return = true; generate_load = true; request_leave = true })
          refl b h))

body_max :
    (n m : ℕ)
    → max_ℤ (max_ℤ (pos 0) (pos 0 +ℤ pos n)) (pos 0 +ℤ pos 0 +ℤ pos m) +ℤ pos 20
      ≡ pos (max n m + 20)
unfolding max_ℤ ◌+ℤ◌
body_max n m = ground arith

-- In any scopes, behind a block of statements that keep the height and the return of a value,
-- GetMaxStackSize is twenty more than the greatest number of slots that a statement or the value needs.
pub get_max_stack_size-body :
    (stmts : Nodes) (e : Node) (a : FuncAnalyzer) (g : List (Bytes × Bytes))
    → AreStatements a g stmts
    → IsValue a g true e
    → (visit (compound stmts) (record (new_visitor g) { scopes = a }) >>= λ v.
        visit (return_stmt e) v >>= λ w. some (get_max_stack_size w))
      ≡ some (pos (max (stmts_need stmts) (needs e) + 20))
unfolding visit new_visitor raise get_max_stack_size max_ℤ
get_max_stack_size-body stmts e a g h k =
    let v = record (new_visitor g) { scopes = a } in
    let w = raise 0 (stmts_need stmts) (stmts_names stmts) v in
    ap (λ m. m >>= λ v. visit (return_stmt e) v >>= λ w. some (get_max_stack_size w))
      (statements-raise stmts v refl refl refl h)
    ∙ ap (λ m. m >>= λ w. some (get_max_stack_size w))
        (visit-return e w (raise-IsBounded 0 (stmts_need stmts) (stmts_names stmts) v (omega arith))
          k)
    ∙ ap some (body_max (stmts_need stmts) (needs e))
