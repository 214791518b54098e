-- ===== src/Codegen/Visits/Places.antt =====
-- hzcc/codegen/jvm/FuncAnalyzer.cc: the names that a visit leaves on the return stack, and the visits
-- that take them off.
use hzcc.Prelude.{
  ℕ, ◌+◌, ◌≤◌, ◌≡◌, refl, ap, sym, ◌∙◌, Bool, true, false, none, some, [], ◌∷◌, Bytes, equal, codes,
}
use hzcc.Codegen.Analyzer.{grows, shrinks, find_global, load_from_variable, save_to_variable}
use hzcc.Codegen.Visits.{
  ◌>>=◌, Visitor, visit, assign_to, increment_variable, modify_stack_size, push_return_stack,
  consume_return_stack, with_load, without_load, load_variable, AssignType, uses_iinc, Target, Node,
  assignment, decl_ref, other_unary,
}
use hzcc.Codegen.Visits.Heights.{
  raise, with_load-raise, without_load-raise, leave_on_stack-raise, load_variable-raise, IsBounded,
  raise-IsBounded, raise-none,
}
use hzcc.Codegen.Visits.Operands.{if_false, loading, Leaves}
use hzcc.Codegen.Visits.Assigns.{assign_to-raise, leave_slots}
use hzcc.Codegen.Visits.Values.{
  slots, assign_needs, needs, target_needs, names, target_name, IsValue, needs-pos,
}

-- The name of a variable, without and with a load.
push_raised :
    (name : Bytes) (v : Visitor) → IsBounded v → push_return_stack name v ≡ raise 0 0 (name ∷ []) v
unfolding raise push_return_stack
push_raised name v b = ap (push_return_stack name) (sym (raise-none v b))

pub load_raised :
    (name : Bytes) (v : Visitor)
    → IsBounded v
    → load_from_variable v.scopes v.global_vars name ≡ some (grows 1)
    → load_variable name v ≡ some (raise 1 1 [] v)
load_raised name v b h =
    ap (load_variable name) (sym (raise-none v b)) ∙ load_variable-raise name 1 0 0 [] v h

pub array_raised :
    (name : Bytes) (v : Visitor)
    → push_return_stack name (modify_stack_size (grows 1) v) ≡ raise 1 1 (name ∷ []) v
unfolding raise push_return_stack modify_stack_size
array_raised name v = refl

-- A name as the place of an assignment.
pub visit-name :
    (name : Bytes) (is_array : Bool) (v : Visitor)
    → IsBounded v
    → without_load (visit (decl_ref name is_array)) v ≡ some (raise 0 0 (name ∷ []) v)
unfolding visit
visit-name name is_array v b =
    without_load-raise (visit (decl_ref name is_array)) 0 0 (name ∷ []) v
      (ap some (push_raised name (record v { generate_load = false }) b))

consume-raise :
    (name : Bytes) (d n : ℕ) (v : Visitor)
    → consume_return_stack (raise d n (name ∷ []) v) ≡ some (name, raise d n [] v)
unfolding raise consume_return_stack
consume-raise name d n v = refl

increment_variable-raise :
    (type_name name : Bytes) (v : Visitor)
    → find_global v.global_vars name ≡ none
    → equal type_name (codes "i") ≡ true
    → load_from_variable v.scopes v.global_vars name ≡ some (grows 1)
    → increment_variable type_name name (raise 0 0 [] v) ≡ some (raise 1 1 [] v)
unfolding increment_variable raise
increment_variable-raise type_name name v f t h =
    rw (f, t, increment_variable) (load_variable-raise name 1 0 0 [] v h)

pub visit-increment :
    (type_name : Bytes) (e : Node) (v : Visitor)
    → IsBounded v
    → IsValue v.scopes v.global_vars v.request_leave (other_unary type_name e)
    → visit (other_unary type_name e) v ≡ some (raise 1 1 [] v)
unfolding visit IsValue
visit-increment type_name e v b h =
    ap (λ m. m >>= λ v1. consume_return_stack v1 >>= λ r. increment_variable type_name r.0 r.1)
      (ap (λ e'. without_load (visit e') v) h.0 ∙ visit-name (target_name e) false v b)
    ∙ ap (λ m. m >>= λ r. increment_variable type_name r.0 r.1)
        (consume-raise (target_name e) 0 0 v)
    ∙ increment_variable-raise type_name (target_name e) v h.1 h.2 h.3

-- What the visit of an assignment needs of its place.
abbrev pub IsPlaced : Bool → Node → Visitor → Type 0
IsPlaced dereference l v =
    (without_load (visit l) v ≡ some (raise (slots l) (target_needs l) (target_name l ∷ []) v))
    × (slots l ≤ target_needs l)
    × (dereference ≡ false
        → load_from_variable v.scopes v.global_vars (target_name l) ≡ some (grows 1))
    × (save_to_variable v.scopes v.global_vars (target_name l) ≡ some (shrinks (slots l + 1)))

pub visit-assignment :
    (type : AssignType) (lhs : Target) (l r : Node) (v : Visitor)
    → IsPlaced lhs.is_dereference l v
    → Leaves r
    → uses_iinc type lhs ≡ false
    → IsValue v.scopes v.global_vars true r
    → visit (assignment type lhs l r) v
      ≡ some (
          raise
            (leave_slots v.request_leave)
            (assign_needs v.request_leave type (slots l) (target_needs l) (needs r))
            (names r)
            v)
unfolding visit raise
visit-assignment type lhs l r v place p iinc h =
    if_false (uses_iinc type lhs) _ _ iinc
    ∙ ap (λ m. m >>= λ v1. consume_return_stack v1 >>= λ x. assign_to type lhs (visit r) x.0 x.1)
        place.0
    ∙ ap (λ m. m >>= λ x. assign_to type lhs (visit r) x.0 x.1)
        (consume-raise (target_name l) (slots l) (target_needs l) v)
    ∙ assign_to-raise type lhs (visit r) (target_name l) (slots l) (target_needs l) (needs r)
        (names r) v place.1 (needs-pos r) place.2 place.3
        λ d m le.
          leave_on_stack-raise (with_load (visit r)) 1 (needs r) (names r) (raise d m [] v) (
            with_load-raise (visit r) 1 (needs r) (names r)
              (record (raise d m [] v) { request_leave = true })
              (p (loading (record (raise d m [] v) { request_leave = true })) refl
                (raise-IsBounded d m [] v le) h))
