-- ===== src/Codegen/Visits/Assigns.antt =====
-- hzcc/codegen/jvm/FuncAnalyzer.cc: the visit of an assignment behind its left side.
use Prim.Native.Nat.{max}
use hzcc.Prelude.{
  ℕ, ◌+◌, ◌≤◌, ◌≡◌, refl, ap, ◌∙◌, Bool, true, false, some, List, [], Bytes, arith, if◌then◌else◌,
  Bool-cases, inl, inr, append-nil,
}
use hzcc.Codegen.Analyzer.{grows, shrinks, load_from_variable, save_to_variable}
use hzcc.Codegen.Visits.{
  ◌>>=◌, Visitor, Visit, assign_to, modify_stack_size, with_load, leave_on_stack, load_variable,
  save_variable, AssignType, is_assign, Target,
}
use hzcc.Codegen.Visits.Heights.{
  raise, raise-raise, grows-raise, shrinks-raise, load_variable-raise, save_variable-raise,
  raise_eq,
}
use hzcc.Codegen.Visits.Values.{old_slots, assign_needs}

-- The old value of the variable, for the operations.
abbrev old_step : AssignType → Target → Bytes → Visit
old_step type lhs name v =
    if is_assign type
    then some v
    else if lhs.is_dereference
    then some (modify_stack_size (grows 1) v)
    else load_variable name v

abbrev finish_from : Bytes → Visit
finish_from name v =
    save_variable name (if v.request_leave then modify_stack_size (grows 1) v else v)

abbrev finish : AssignType → Bytes → Visit
finish type name v =
    finish_from name (if is_assign type then v else modify_stack_size (shrinks 1) v)

abbrev pub leave_slots : Bool → ℕ
leave_slots leave = if leave then 1 else 0

old_step-raise :
    (type : AssignType) (lhs : Target) (name : Bytes) (t n : ℕ) (v : Visitor)
    → t ≤ n
    → (lhs.is_dereference ≡ false → load_from_variable v.scopes v.global_vars name ≡ some (grows 1))
    → old_step type lhs name (raise t n [] v)
      ≡ some (raise (t + old_slots type) (max n (t + old_slots type)) [] v)
old_step-raise type lhs name t n v le h = elim (Bool-cases (is_assign type)) [
  | inl e ↦ rw e (ap some (raise_eq [] v (omega arith) (omega arith)))
  | inr e ↦ elim (Bool-cases lhs.is_dereference) [
    | inl d ↦ rw (e, d) (ap some (grows-raise 1 t n [] v))
    | inr d ↦ rw (e, d) (load_variable-raise name 1 t n [] v (h d))
  ]
]

operation-raise :
    (assign : Bool) (t m : ℕ) (ns : List Bytes) (v : Visitor)
    → t ≤ m
    → (if assign
        then raise (t + (if assign then 0 else 1)) m ns v
        else modify_stack_size (shrinks 1) (raise (t + (if assign then 0 else 1)) m ns v))
      ≡ raise t m ns v
operation-raise true t m ns v h = raise_eq ns v (omega arith) refl
operation-raise false t m ns v h = shrinks-raise 1 t m ns v h

copy-raise :
    (leave : Bool) (t m : ℕ) (ns : List Bytes) (v : Visitor)
    → t + 1 ≤ m
    → (if leave then modify_stack_size (grows 1) (raise (t + 1) m ns v) else raise (t + 1) m ns v)
      ≡ raise (leave_slots leave + (t + 1)) (max m (t + (if leave then 2 else 1))) ns v
copy-raise true t m ns v h =
    grows-raise 1 (t + 1) m ns v ∙ raise_eq ns v (omega arith) (omega arith)
copy-raise false t m ns v h = raise_eq ns v (omega arith) (omega arith)

finish_from-raise :
    (name : Bytes) (t m : ℕ) (ns : List Bytes) (v : Visitor)
    → t + 1 ≤ m
    → save_to_variable v.scopes v.global_vars name ≡ some (shrinks (t + 1))
    → finish_from name (raise (t + 1) m ns v)
      ≡ some (
          raise (leave_slots v.request_leave) (max m (t + (if v.request_leave then 2 else 1))) ns v)
unfolding raise
finish_from-raise name t m ns v h save =
    ap (save_variable name) (copy-raise v.request_leave t m ns v h)
    ∙ save_variable-raise name (t + 1) (leave_slots v.request_leave)
        (max m (t + (if v.request_leave then 2 else 1))) ns v save (ground arith)

pub assign_to-raise :
    (type : AssignType) (lhs : Target) (rhs : Visit) (name : Bytes) (t n r : ℕ) (ns : List Bytes)
    (v : Visitor)
    → t ≤ n
    → 1 ≤ r
    → (lhs.is_dereference ≡ false → load_from_variable v.scopes v.global_vars name ≡ some (grows 1))
    → save_to_variable v.scopes v.global_vars name ≡ some (shrinks (t + 1))
    → ((d m : ℕ)
        → d ≤ m
        → leave_on_stack (with_load rhs) (raise d m [] v) ≡ some (raise 1 r ns (raise d m [] v)))
    → assign_to type lhs rhs name (raise t n [] v)
      ≡ some (raise (leave_slots v.request_leave) (assign_needs v.request_leave type t n r) ns v)
unfolding assign_to
assign_to-raise type lhs rhs name t n r ns v le pos_r load save visited =
    let k = old_slots type in
    let m = max n (t + k) in
    let m' = max n (t + k + r) in
    ap (λ o. o >>= λ v1. leave_on_stack (with_load rhs) v1 >>= λ v2. finish type name v2)
      (old_step-raise type lhs name t n v le load)
    ∙ ap (λ o. o >>= λ v2. finish type name v2) (visited (t + k) m (omega arith))
    ∙ ap (finish type name) (
        raise-raise (t + k) m 1 r [] ns v
        ∙ rw (append-nil ns) (raise_eq ns v (omega arith) (omega arith)))
    ∙ ap (finish_from name) (operation-raise (is_assign type) (t + 1) m' ns v (omega arith))
    ∙ finish_from-raise name t m' ns v (omega arith) save
