-- ===== src/Executor/Project.antt =====
-- executor/project.hpp.
use database_engine.Base.{
  ℕ, refl, inl, inr, Bool, false, Option, none, some, List, [], ◌∷◌, get_elem?, if◌then◌else◌,
  Option-cases,
}
use database_engine.Util.Status.{ok, err, Status, invalid_argument, corruption}
use database_engine.Common.Value.{Value}
use database_engine.Common.Schema.{Column, Schema, index_of}
use database_engine.Parser.Ast.{SelectItem}
use database_engine.Executor.Filter.{first_error}
use database_engine.Executor.Operator.{Operator, Tuple}
use database_engine.Executor.Operator.Rows.{Runs}

-- What `BuildColumnPlan` fills in.
pub record ColumnPlan : Type 0 where
  pub indices : List ℕ
  pub column_names : List (List ℕ)
  pub error : Status

abbrev pub ends_with : Status → ColumnPlan
ends_with error = record { indices = []; column_names = []; error = error }

abbrev pub with_column : ℕ → List ℕ → ColumnPlan → ColumnPlan
with_column i name plan = record plan {
  indices = i ∷ plan.indices;
  column_names = name ∷ plan.column_names;
}

-- `SELECT *`, from the columns that are left. A column of the schema is found in it.
unfoldable pub plan_star : Schema → List Column → ColumnPlan
plan_star schema [] = ends_with (ok tt)
plan_star schema (col ∷ cols) = elim (index_of schema col.name) [
  | none ↦ ends_with (ok tt)
  | some i ↦ with_column i col.name (plan_star schema cols)
]

-- `value_or`.
abbrev pub value_or {ℓ} : {A : Type ℓ} → Option A → A → A
value_or none a = a
value_or (some b) a = b

-- The loop over the items. An item that is no star and no aggregate has a column.
unfoldable pub plan_items : Schema → List SelectItem → ColumnPlan
plan_items schema [] = ends_with (ok tt)
plan_items schema (item ∷ items) =
    let name = value_or item.column [] in
    elim (index_of schema name) [
      | none ↦ ends_with (err invalid_argument)
      | some i ↦ with_column i (value_or item.alias name) (plan_items schema items)
    ]

abbrev pub only_star : List SelectItem → Bool
only_star (item ∷ []) = item.is_star
only_star _ = false

unfoldable pub build_column_plan : Schema → List SelectItem → ColumnPlan
unfolding plan_star plan_items
build_column_plan schema items =
    if only_star items then plan_star schema schema else plan_items schema items

-- The loop of `Next` over the indices.
unfoldable pub pick : List ℕ → List Value → Option (List Value)
pick [] values = some []
pick (i ∷ is) values = elim (get_elem? values i) [
  | none ↦ none
  | some v ↦ elim (pick is values) [ none ↦ none | some vs ↦ some (v ∷ vs) ]
]

module _ (child : Operator) where
  abbrev pub project_picked :
      Tuple → child.State × Status → Option (List Value) → Option Tuple × (child.State × Status)
  project_picked x (t, error) none = (none, (t, err corruption))
  project_picked x s (some vs) = (some (record { rid = x.rid; values = vs }), s)

  abbrev pub project_step :
      List ℕ → Status → Option Tuple × child.State → Option Tuple × (child.State × Status)
  project_step indices error (none, t) = (none, (t, error))
  project_step indices error (some x, t) = project_picked x (t, error) (pick indices x.values)

  unfoldable pub project_next :
      List ℕ → child.State × Status → Option Tuple × (child.State × Status)
  project_next indices s = project_step indices s.1 (child.next s.0)

  -- The constructor's error stands in the state that it makes; `Open` resets it.
  abbrev pub project_operator : ColumnPlan → Operator
  project_operator plan = record {
    State = child.State × Status;
    start = λ s. (child.start s.0, ok tt);
    next = project_next plan.indices;
    close = λ s. (child.close s.0, s.1);
    get_error = λ s. first_error s.1 (child.get_error s.0);
  }

-- The tuples cut down to the columns, up to the first one that lacks one.
abbrev pub keep_picked : Tuple → List Tuple × Status → Option (List Value) → List Tuple × Status
keep_picked x rest none = ([], err corruption)
keep_picked x (xs, e) (some vs) = (record { rid = x.rid; values = vs } ∷ xs, e)

unfoldable pub projected : List ℕ → List Tuple → List Tuple × Status
projected indices [] = ([], ok tt)
projected indices (x ∷ xs) = keep_picked x (projected indices xs) (pick indices x.values)

-- A projection answers each tuple of its child with the values of the planned columns, in their order,
-- up to the first tuple that lacks one.
pub project-Runs :
    (child : Operator) (plan : ColumnPlan) (s : child.State) (xs : List Tuple) (e : Status)
    → Runs child s xs e
    → Runs
        (project_operator child plan)
        (s, ok tt)
        (projected plan.indices xs).0
        (first_error (projected plan.indices xs).1 e)
unfolding project_next projected
project-Runs child plan s [] e (quiet, t, ended, error) = (quiet, (t, ok tt), rw ended refl, error)
project-Runs child plan s (x ∷ xs) e (quiet, t, first, others) =
    elim (Option-cases (pick plan.indices x.values)) [
      | inl short ↦ rw short (quiet, (t, err corruption), rw (first, short) refl, refl)
      | inr (vs, picked) ↦
          rw picked
            (quiet, (t, ok tt), rw (first, picked) refl, project-Runs child plan t xs e others)
    ]
