-- ===== src/Codegen/Visits/Values.antt =====
-- hzcc/codegen/jvm/FuncAnalyzer.cc: the expressions that leave a value on the stack, and the slots
-- they need.
use Prim.Native.Nat.{max}
use hzcc.Prelude.{
  ℕ, ◌+◌, ◌≤◌, ◌≡◌, Bool, true, false, none, some, List, [], ◌∷◌, ◌++◌, Bytes, equal, codes, arith,
  if◌then◌else◌,
}
use hzcc.Codegen.Analyzer.{
  FuncAnalyzer, grows, shrinks, find_global, load_from_variable, save_to_variable,
}
use hzcc.Codegen.Visits.{
  AssignType, is_assign, uses_iinc, Node, cast_expr, arithmetic, bitwise, logical, relational,
  assignment, array_subscript, decl_ref, sizeof_expr, literal, unary_minus, other_unary, func_call,
  Nodes, no_node, next_node,
}

-- The operand behind the value of the first one.
abbrev pub both : ℕ → ℕ → ℕ
both l r = max l (1 + r)

-- The slots that stand on the stack for the place of an assignment: none for a name, the array and the
-- subscript for an element.
abbrev pub slots : Node → ℕ
slots (array_subscript base subscript) = 2
slots _ = 0

-- An operation with the old value keeps it beside the new one.
abbrev pub old_slots : AssignType → ℕ
old_slots type = if is_assign type then 0 else 1

abbrev pub assign_needs : Bool → AssignType → ℕ → ℕ → ℕ → ℕ
assign_needs leave type place target r =
    max (max target (place + old_slots type + r)) (place + (if leave then 2 else 1))

-- The slots that a value needs on the way, and those of the place of an assignment.
unfoldable mutual
  pub needs : Node → ℕ
  needs (cast_expr e) = needs e
  needs (arithmetic l r) = both (needs l) (needs r)
  needs (bitwise l r) = both (needs l) (needs r)
  needs (logical l r) = both (needs l) (needs r)
  needs (relational l r) = both (needs l) (needs r)
  needs (array_subscript base subscript) = both (needs base) (needs subscript)
  needs (unary_minus e) = needs e
  needs (func_call is_void args) = max (needs_args args) 1
  needs (assignment type lhs l r) = assign_needs true type (slots l) (target_needs l) (needs r)
  needs _ = 1

  pub needs_args : Nodes → ℕ
  needs_args no_node = 0
  needs_args (next_node n rest) = both (needs n) (needs_args rest)

  pub target_needs : Node → ℕ
  target_needs (array_subscript base subscript) = both (needs base) (needs subscript)
  target_needs _ = 0

-- The arrays whose names a value leaves on the return stack, the last one first.
unfoldable mutual
  pub names : Node → List Bytes
  names (cast_expr e) = names e
  names (arithmetic l r) = names r ++ names l
  names (bitwise l r) = names r ++ names l
  names (logical l r) = names r ++ names l
  names (relational l r) = names r ++ names l
  names (array_subscript base subscript) = names subscript ++ names base
  names (decl_ref name true) = name ∷ []
  names (unary_minus e) = names e
  names (func_call is_void args) = names_args args
  names (assignment type lhs l r) = names r
  names _ = []

  pub names_args : Nodes → List Bytes
  names_args no_node = []
  names_args (next_node n rest) = names_args rest ++ names n

abbrev pub target_name : Node → Bytes
target_name (decl_ref name is_array) = name
target_name (array_subscript base subscript) = target_name base
target_name _ = []

-- A name that is loaded as one slot and saved from one.
abbrev pub IsScalar : FuncAnalyzer → List (Bytes × Bytes) → Bytes → Type 0
IsScalar a g name =
    (load_from_variable a g name ≡ some (grows 1)) × (save_to_variable a g name ≡ some (shrinks 1))

-- The expressions that leave their value, in the scopes `a` with the global variables `g`. An
-- assignment leaves one if that is requested; what it assigns to is a scalar, or an element of an array
-- whose subscript reads no array.
unfoldable mutual
  pub IsValue : FuncAnalyzer → List (Bytes × Bytes) → Bool → Node → Type 0
  IsValue a g leave (cast_expr e) = IsValue a g leave e
  IsValue a g leave (arithmetic l r) = IsValue a g leave l × IsValue a g leave r
  IsValue a g leave (bitwise l r) = IsValue a g leave l × IsValue a g leave r
  IsValue a g leave (logical l r) = IsValue a g leave l × IsValue a g leave r
  IsValue a g leave (relational l r) = IsValue a g leave l × IsValue a g leave r
  IsValue a g leave (array_subscript base subscript) =
      IsValue a g leave base × IsValue a g leave subscript
  IsValue a g leave (decl_ref name true) = Unit
  IsValue a g leave (decl_ref name false) = load_from_variable a g name ≡ some (grows 1)
  IsValue a g leave sizeof_expr = Unit
  IsValue a g leave literal = Unit
  IsValue a g leave (unary_minus e) = IsValue a g leave e
  IsValue a g leave (other_unary type_name e) =
      (e ≡ decl_ref (target_name e) false)
      × (find_global g (target_name e) ≡ none)
      × (equal type_name (codes "i") ≡ true)
      × (load_from_variable a g (target_name e) ≡ some (grows 1))
  IsValue a g leave (func_call is_void args) = (is_void ≡ false) × AreValues a g leave args
  IsValue a g leave (assignment type lhs l r) =
      (leave ≡ true)
      × (uses_iinc type lhs ≡ false)
      × IsTarget a g leave lhs.is_dereference l
      × IsValue a g true r
  IsValue a g leave _ = ⊥

  pub AreValues : FuncAnalyzer → List (Bytes × Bytes) → Bool → Nodes → Type 0
  AreValues a g leave no_node = Unit
  AreValues a g leave (next_node n rest) = IsValue a g leave n × AreValues a g leave rest

  pub IsTarget : FuncAnalyzer → List (Bytes × Bytes) → Bool → Bool → Node → Type 0
  IsTarget a g leave dereference (decl_ref name is_array) =
      (dereference ≡ false) × IsScalar a g name
  IsTarget a g leave dereference (array_subscript base subscript) =
      (dereference ≡ true)
      × (base ≡ decl_ref (target_name base) true)
      × IsValue a g leave subscript
      × (names subscript ≡ [])
      × (save_to_variable a g (target_name base) ≡ some (shrinks 3))
  IsTarget a g leave dereference _ = ⊥

pub needs-pos : (e : Node) → 1 ≤ needs e
unfolding needs
needs-pos (cast_expr e) = needs-pos e
needs-pos (unary_minus e) = needs-pos e
needs-pos (assignment type lhs l r) = ground (arith, needs-pos r)
needs-pos _ = ground arith
