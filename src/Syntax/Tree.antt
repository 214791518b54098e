-- ===== src/Syntax/Tree.antt =====
-- hzcc/ast/expr/Expr.h: the nodes that the parser of expressions builds, with the operands in
-- the order in which their constructors, there and in hzcc/ast/expr/biop, store them.
use hzcc.Prelude.{ℕ, Bool, Bytes}
use hzcc.Token.Value.{Position}

-- What ParseTypeName finds: a numerical type, a struct, and pointers to types.
pub data TypeName : Type 0 where
  numerical : ℕ → TypeName
  struct_type : Bytes → TypeName
  pointer : TypeName → TypeName

-- TypeProxyExpr
pub record TypeProxyExpr : Type 0 where
  pub loc : Position
  pub type : TypeName

-- LiteralType
pub data LiteralType : Type 0 where
  char_ integer real_number string_ : LiteralType

-- The classes of the nodes with two operands and an operator.
pub data Operator : Type 0 where
  assign_expr logical_expr bitwise_expr relational_expr arithmetic_expr : Operator

mutual
  pub data Expr : Type 0 where
    comma : Position → Expr → Expr → Expr
    binary : Operator → Position → Bytes → Expr → Expr → Expr
    ternary : Position → Expr → Expr → Expr → Expr
    explicit_cast : Position → Expr → TypeProxyExpr → Expr
    unary : Position → Bytes → Expr → Expr
    sizeof_type : Position → TypeProxyExpr → Expr
    sizeof_expr : Position → Expr → Expr
    array_subscript : Position → Expr → Expr → Expr
    member : Bool → Position → Bytes → Expr → Expr
    func_call : Position → Bytes → Exprs → Expr
    decl_ref : Position → Bytes → Expr
    literal : LiteralType → Position → Bytes → Expr

  pub data Exprs : Type 0 where
    none_left : Exprs
    one_more : Expr → Exprs → Exprs

-- The constructor of CommaExpr, which hands its operands to OperatorBase in the other order: the node
-- holds the right side of the text as its left operand.
abbrev pub comma_expr : Position → Expr → Expr → Expr
comma_expr loc lhs rhs = comma loc rhs lhs

-- The constructors of the other classes with an operator: the one of BitwiseExpr, which shifts have as
-- well, hands its operands on in the other order.
abbrev pub operator_expr : Operator → Position → Bytes → Expr → Expr → Expr
operator_expr bitwise_expr loc type left_expr right_expr =
    binary bitwise_expr loc type right_expr left_expr
operator_expr class loc type lhs rhs = binary class loc type lhs rhs

-- `args_expr.push_back(...)`
unfoldable pub push_back : Exprs → Expr → Exprs
push_back none_left e = one_more e none_left
push_back (one_more a rest) e = one_more a (push_back rest e)
