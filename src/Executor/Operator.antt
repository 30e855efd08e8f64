-- ===== src/Executor/Operator.antt =====
-- executor/operator.hpp: the interface of the operators of a plan, whose methods are called through
-- `Operator*`. An operator is a type of states and its methods as functions of the state; a state that
-- wraps a child holds the child's. `GetError` is `const`, and leaves the state.
pub mod Rows
use database_engine.Base.{ℕ, Option, List}
use database_engine.Util.Status.{Status}
use database_engine.Common.Value.{Value}
use database_engine.Storage.Page.{RecordId}

pub record Tuple : Type 0 where
  pub rid : RecordId
  pub values : List Value

pub record Operator : Type 1 where
  pub State : Type 0
  pub start : State → State
  pub next : State → Option Tuple × State
  pub close : State → State
  pub get_error : State → Status
