-- ===== src/Codegen/Visits.antt =====
-- hzcc/codegen/jvm/FuncAnalyzer.cc: the visits of the nodes, which count the slots of the operand
-- stack, with the macros of hzcc/codegen/jvm/utils/macro.h. The nodes are of an earlier version of the
-- tree that is not in the repository: a node holds what the visits ask it for, types as the names that
-- Utils::GetTypeName gives. `none` is LOG(FATAL), or the back of an empty list. An `int` does not
-- overflow here.
pub mod Heights
pub mod Values
pub mod Operands
pub mod Assigns
pub mod Places
pub mod Raises
pub mod Statements
pub mod Balance
pub mod Flags
pub mod Keeping
use hzcc.Prelude.{
  ℕ, ◌+◌, Bool, true, false, not, ◌&&◌, Option, none, some, List, [], ◌∷◌, if◌then◌else◌, Bytes,
  equal, codes,
}
use hzcc.Prelude.Int.{ℤ, pos, neg, ◌+ℤ◌, max_ℤ}
use hzcc.Codegen.Analyzer.{
  FuncAnalyzer, func_analyzer, Change, grows, shrinks, find_global, save_to_variable,
  load_from_variable, add_local_variable,
}

infixl 5 ◌>>=◌
abbrev pub ◌>>=◌ {ℓ κ} : {A : Type ℓ} {B : Type κ} → Option A → (A → Option B) → Option B
none >>= f = none
some a >>= f = f a

pub data AssignType : Type 0 where
  assign_op add_assign sub_assign other_assign : AssignType

-- What the visit of an assignment asks its left side for.
pub record Target : Type 0 where
  pub is_array : Bool
  pub is_func_ptr : Bool
  pub type_name : Bytes
  pub has_deduced_value : Bool
  pub is_dereference : Bool

-- The visits of a member access, a ternary expression, and of the statements other than these do
-- nothing: `not_visited`.
mutual
  pub data Node : Type 0 where
    cast_expr : Node → Node
    arithmetic bitwise logical relational comma : Node → Node → Node
    assignment : AssignType → Target → Node → Node → Node
    array_subscript : Node → Node → Node
    decl_ref : Bytes → Bool → Node
    sizeof_expr literal not_visited : Node
    unary_minus : Node → Node
    other_unary : Bytes → Node → Node
    compound : Nodes → Node
    func_call : Bool → Nodes → Node
    param_var_decl : Bytes → Bytes → ℕ → Node
    return_stmt : Node → Node
    var_decl : Bytes → Bytes → ℕ → ArraySize → Init → Node

  pub data Nodes : Type 0 where
    no_node : Nodes
    next_node : Node → Nodes → Nodes

  -- The type of a variable: no array, one of a size that is known, or one by an expression.
  pub data ArraySize : Type 0 where
    no_array deduced_size : ArraySize
    size_node : Node → ArraySize

  pub data Init : Type 0 where
    no_init : Init
    init_expr : Node → Init

-- The tables of the variables, and the rest of the state.
pub record Visitor : Type 0 where
  pub scopes : FuncAnalyzer
  pub global_vars : List (Bytes × Bytes)
  pub generate_load : Bool
  pub request_leave : Bool
  pub max_stack_size : ℤ
  pub current_stack_size : ℤ
  pub has_return : Bool
  pub return_stack : List Bytes

-- The constructor, with the values of the header.
unfoldable pub new_visitor : List (Bytes × Bytes) → Visitor
unfolding func_analyzer
new_visitor global_vars = record {
  scopes = func_analyzer;
  global_vars = global_vars;
  generate_load = false;
  request_leave = false;
  max_stack_size = pos 0;
  current_stack_size = pos 0;
  has_return = false;
  return_stack = [];
}

abbrev pub Visit : Type 0
Visit = Visitor → Option Visitor

abbrev pub to_ℤ : Change → ℤ
to_ℤ (grows n) = pos n
to_ℤ (shrinks n) = neg n

-- ModifyStackSize
unfoldable pub modify_stack_size : Change → Visitor → Visitor
modify_stack_size size v = record v {
  current_stack_size = v.current_stack_size +ℤ to_ℤ size;
  max_stack_size = max_ℤ v.max_stack_size (v.current_stack_size +ℤ to_ℤ size);
}

-- DecreaseCurrentStack
unfoldable pub decrease_current_stack : ℕ → Visitor → Visitor
decrease_current_stack size v = record v { current_stack_size = v.current_stack_size +ℤ neg size }

-- GetMaxStackSize
unfoldable pub get_max_stack_size : Visitor → ℤ
get_max_stack_size v = v.max_stack_size +ℤ pos 20

unfoldable pub has_valid_return : Visitor → Bool
has_valid_return v = v.has_return

-- PushReturnStack and ConsumeReturnStack; the back of the source's list is the head here.
unfoldable pub push_return_stack : Bytes → Visitor → Visitor
push_return_stack name v = record v { return_stack = name ∷ v.return_stack }

unfoldable pub consume_return_stack : Visitor → Option (Bytes × Visitor)
consume_return_stack v = elim v.return_stack [
  | [] ↦ none
  | name ∷ rest ↦ some (name, record v { return_stack = rest })
]

-- HZCC_JVM_GENERATE_LOAD_INSTR, HZCC_JVM_NOT_GENERATE_LOAD_INSTR and HZCC_LEAVE_RET_ON_STACK
unfoldable pub with_load : Visit → Visit
with_load visit v = visit (record v { generate_load = true }) >>= λ v'.
    some (if v.generate_load then v' else record v' { generate_load = false })

unfoldable pub without_load : Visit → Visit
without_load visit v = visit (record v { generate_load = false }) >>= λ v'.
    some (if v.generate_load then record v' { generate_load = true } else v')

unfoldable pub leave_on_stack : Visit → Visit
leave_on_stack visit v = visit (record v { request_leave = true }) >>= λ v'.
    some (if v.request_leave then v' else record v' { request_leave = false })

-- ModifyStackSize(LoadFromVariable(name)), and with SaveToVariable.
unfoldable pub load_variable : Bytes → Visit
unfolding load_from_variable modify_stack_size
load_variable name v =
    load_from_variable v.scopes v.global_vars name >>= λ size. some (modify_stack_size size v)

unfoldable pub save_variable : Bytes → Visit
unfolding save_to_variable modify_stack_size
save_variable name v =
    save_to_variable v.scopes v.global_vars name >>= λ size. some (modify_stack_size size v)

abbrev pub is_assign : AssignType → Bool
is_assign assign_op = true
is_assign _ = false

abbrev pub is_add_or_sub : AssignType → Bool
is_add_or_sub add_assign = true
is_add_or_sub sub_assign = true
is_add_or_sub _ = false

-- The condition for `iinc`.
abbrev pub uses_iinc : AssignType → Target → Bool
uses_iinc type lhs =
    is_add_or_sub type
    && (not lhs.is_array && not lhs.is_func_ptr && equal lhs.type_name (codes "i"))
    && lhs.has_deduced_value

-- The visit of an assignment behind its left side, with the visit of the right side.
unfoldable pub assign_to : AssignType → Target → Visit → Bytes → Visit
unfolding modify_stack_size load_variable save_variable with_load leave_on_stack
assign_to type lhs rhs name v = do
  v1 ←
      if is_assign type
      then some v
      else if lhs.is_dereference
      then some (modify_stack_size (grows 1) v)
      else load_variable name v
  v2 ← leave_on_stack (with_load rhs) v1
  let v3 = if is_assign type then v2 else modify_stack_size (shrinks 1) v2
  let v4 = if v3.request_leave then modify_stack_size (grows 1) v3 else v3
  save_variable name v4

-- The visit of a unary operator that is no minus, behind its operand.
unfoldable pub increment_variable : Bytes → Bytes → Visit
unfolding modify_stack_size load_variable save_variable find_global
increment_variable type_name name v = elim (find_global v.global_vars name) [
  | some _ ↦ (load_variable name v >>= λ v1. save_variable name (modify_stack_size (grows 3) v1))
  | none ↦
      if equal type_name (codes "i")
      then load_variable name v
      else (load_variable name v >>= λ v1. save_variable name (modify_stack_size (grows 3) v1))
]

abbrev pub node_count : Nodes → ℕ
node_count no_node = 0
node_count (next_node n rest) = node_count rest + 1

-- The visit of a call behind its arguments.
unfoldable pub call_function : Bool → ℕ → Visitor → Visitor
unfolding modify_stack_size
call_function is_void args v =
    let v1 = modify_stack_size (shrinks args) v in
    let v2 = if is_void then v1 else modify_stack_size (grows 1) v1 in
    if not v2.generate_load && not is_void then modify_stack_size (shrinks 1) v2 else v2

unfoldable mutual
  unfolding decrease_current_stack modify_stack_size push_return_stack consume_return_stack
      with_load without_load leave_on_stack load_variable save_variable assign_to increment_variable
      call_function add_local_variable

  pub visit : Node → Visit
  visit (cast_expr e) v = visit e v
  visit (arithmetic l r) v =
      with_load (λ v. visit l v >>= λ v1. visit r v1) v >>= λ v1. some (decrease_current_stack 1 v1)
  visit (bitwise l r) v =
      visit l v >>= λ v1. visit r v1 >>= λ v2. some (decrease_current_stack 1 v2)
  visit (logical l r) v =
      visit l v >>= λ v1. visit r v1 >>= λ v2. some (decrease_current_stack 1 v2)
  visit (relational l r) v =
      visit l v >>= λ v1. visit r v1 >>= λ v2. some (decrease_current_stack 1 v2)
  visit (comma l r) v = visit l v >>= λ v1. visit r v1
  visit (assignment type lhs l r) v =
      let visited = do
        v1 ← without_load (visit l) v
        (name, v2) ← consume_return_stack v1
        assign_to type lhs (visit r) name v2
      in if uses_iinc type lhs then some v else visited
  visit (array_subscript base subscript) v = with_load (visit base) v >>= λ v1.
      with_load (visit subscript) v1 >>= λ v2.
      some (if v2.generate_load then modify_stack_size (shrinks 1) v2 else v2)
  visit (decl_ref name is_array) v =
      if v.generate_load
      then if is_array
        then some (push_return_stack name (modify_stack_size (grows 1) v))
        else load_variable name v
      else some (push_return_stack name v)
  visit sizeof_expr v = some (modify_stack_size (grows 1) v)
  visit literal v = some (modify_stack_size (grows 1) v)
  visit not_visited v = some v
  visit (unary_minus e) v = with_load (visit e) v
  visit (other_unary type_name e) v = without_load (visit e) v >>= λ v1.
      consume_return_stack v1 >>= λ (name, v2). increment_variable type_name name v2
  visit (compound stmts) v = visit_all stmts v
  visit (func_call is_void args) v =
      visit_args args v >>= λ v1. some (call_function is_void (node_count args) v1)
  visit (param_var_decl name type line) v =
      add_local_variable v.scopes name type line >>= λ scopes. some (record v { scopes = scopes })
  visit (return_stmt e) v = with_load (leave_on_stack (visit e)) (record v { has_return = true })
  visit (var_decl name type line size init) v = do
    scopes ← add_local_variable v.scopes name type line
    v1 ← visit_size size (record v { scopes = scopes })
    visit_init name init v1

  pub visit_all : Nodes → Visit
  visit_all no_node v = some v
  visit_all (next_node n rest) v = visit n v >>= λ v1. visit_all rest v1

  pub visit_args : Nodes → Visit
  visit_args no_node v = some v
  visit_args (next_node n rest) v = with_load (visit n) v >>= λ v1. visit_args rest v1

  pub visit_size : ArraySize → Visit
  visit_size no_array v = some v
  visit_size deduced_size v = some (modify_stack_size (shrinks 1) (modify_stack_size (grows 1) v))
  visit_size (size_node e) v = visit e v >>= λ v1. some (modify_stack_size (shrinks 1) v1)

  pub visit_init : Bytes → Init → Visit
  visit_init name no_init v = some v
  visit_init name (init_expr e) v = visit e v >>= λ v1. save_variable name v1
