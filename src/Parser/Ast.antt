-- ===== src/Parser/Ast.antt =====
-- parser/ast.hpp. A text is its bytes; `ExprPtr` is never null but as the missing `where` of a statement.
use database_engine.Base.{ℕ, Bool, Option, List}
use database_engine.Common.Value.{Value}
use database_engine.Common.Schema.{Column}

pub data BinaryOp : Type 0 where
  op_eq op_neq op_lt op_lte op_gt op_gte op_and op_or : BinaryOp

pub data Expr : Type 0 where
  column_ref : List ℕ → Expr
  literal : Value → Expr
  binary : Expr → BinaryOp → Expr → Expr

pub data AggregateFunc : Type 0 where
  agg_count agg_sum agg_avg agg_min agg_max : AggregateFunc

pub record SelectItem : Type 0 where
  pub is_star : Bool
  pub column : Option (List ℕ)
  pub aggregate : Option AggregateFunc
  pub aggregate_star : Bool
  pub alias : Option (List ℕ)

pub record OrderByClause : Type 0 where
  pub column : List ℕ
  pub descending : Bool

pub data Statement : Type 0 where
  create_table_stmt : List ℕ → List Column → Statement
  drop_table_stmt : List ℕ → Statement
  create_index_stmt : List ℕ → List ℕ → List ℕ → Statement
  drop_index_stmt : List ℕ → Statement
  insert_stmt : List ℕ → List (List ℕ) → List (List Value) → Statement
  update_stmt : List ℕ → List (List ℕ × Value) → Option Expr → Statement
  delete_stmt : List ℕ → Option Expr → Statement
  select_stmt : List SelectItem → List ℕ → Option Expr → Option OrderByClause → Option ℕ → Statement
