-- ===== src/Executor/Filter.antt =====
-- executor/filter.hpp. The loop of `Next` makes `rounds` turns at most; more turns than the child has
-- tuples are enough.
use database_engine.Base.{
  ℕ, zero, suc, ◌<◌, ◌≡◌, refl, inl, inr, Bool, true, false, Option, none, some, List, [], ◌∷◌,
  length, arith,
}
use database_engine.Util.Status.{Result, ok, err, Status, Result-cases}
use database_engine.Common.Schema.{Schema}
use database_engine.Parser.Ast.{Expr}
use database_engine.Executor.Eval.{evaluate_predicate}
use database_engine.Executor.Operator.{Operator, Tuple}
use database_engine.Executor.Operator.Rows.{Runs, Runs-same}

-- `error_.ok() ? child_->GetError() : error_`.
abbrev pub first_error : Status → Status → Status
first_error (ok _) other = other
first_error (err code) other = err code

module _ (child : Operator) (predicate : Option Expr) (schema : Schema) where
  -- The end of a turn: `rest` makes the turns that are left.
  abbrev pub filter_matched :
      (child.State × Status → Option Tuple × (child.State × Status))
      → Tuple
      → child.State × Status
      → Result Bool
      → Option Tuple × (child.State × Status)
  filter_matched rest x (t, error) (err code) = (none, (t, err code))
  filter_matched rest x (t, error) (ok true) = (some x, (t, error))
  filter_matched rest x (t, error) (ok false) = rest (t, error)

  abbrev pub filter_step :
      (child.State × Status → Option Tuple × (child.State × Status))
      → Status
      → Option Tuple × child.State
      → Option Tuple × (child.State × Status)
  filter_step rest error (none, t) = (none, (t, error))
  filter_step rest error (some x, t) =
      filter_matched rest x (t, error) (evaluate_predicate predicate schema x.values)

  unfoldable pub filter_next : ℕ → child.State × Status → Option Tuple × (child.State × Status)
  filter_next zero s = (none, s)
  filter_next (suc rounds) s = filter_step (filter_next rounds) s.1 (child.next s.0)

  abbrev pub filter : ℕ → Operator
  filter rounds = record {
    State = child.State × Status;
    start = λ s. (child.start s.0, ok tt);
    next = filter_next rounds;
    close = λ s. (child.close s.0, s.1);
    get_error = λ s. first_error s.1 (child.get_error s.0);
  }

-- The tuples that match, up to the first one on which the condition fails, and the error of that one.
abbrev pub keep_matched : Tuple → List Tuple × Status → Result Bool → List Tuple × Status
keep_matched x rest (err code) = ([], err code)
keep_matched x (xs, e) (ok true) = (x ∷ xs, e)
keep_matched x rest (ok false) = rest

unfoldable pub matching : Option Expr → Schema → List Tuple → List Tuple × Status
matching predicate schema [] = ([], ok tt)
matching predicate schema (x ∷ xs) =
    keep_matched x (matching predicate schema xs) (evaluate_predicate predicate schema x.values)

module _ (child : Operator) (predicate : Option Expr) (schema : Schema) where
  -- Any number of turns above that of the child's tuples gives the same.
  filter_next-enough :
      (r k : ℕ) (s : child.State) (xs : List Tuple) (e error : Status)
      → Runs child s xs e
      → length xs < r
      → length xs < k
      → filter_next child predicate schema r (s, error)
        ≡ filter_next child predicate schema k (s, error)
  unfolding filter_next
  filter_next-enough zero k s xs e error h less more = absurd (omega arith)
  filter_next-enough (suc r) zero s xs e error h less more = absurd (omega arith)
  filter_next-enough (suc r) (suc k) s [] e error (_, t, ended, _) less more = rw ended refl
  filter_next-enough (suc r) (suc k) s (x ∷ xs) e error (_, t, first, others) less more = rw first (
      skip (evaluate_predicate predicate schema x.values)
        (filter_next-enough r k t xs e error others (omega arith) (omega arith)))
    where
      skip :
          (matched : Result Bool)
          → filter_next child predicate schema r (t, error)
            ≡ filter_next child predicate schema k (t, error)
          → filter_matched child predicate schema
              (filter_next child predicate schema r)
              x
              (t, error)
              matched
            ≡ filter_matched child predicate schema
                (filter_next child predicate schema k)
                x
                (t, error)
                matched
      skip (err code) same = refl
      skip (ok true) same = refl
      skip (ok false) same = same

  -- A filter answers the tuples on which its condition holds, in their order, up to the first one on
  -- which the condition cannot be evaluated, and then that tuple's error; else the child's.
  pub filter-Runs :
      (rounds : ℕ) (s : child.State) (xs : List Tuple) (e : Status)
      → Runs child s xs e
      → length xs < rounds
      → Runs
          (filter child predicate schema rounds)
          (s, ok tt)
          (matching predicate schema xs).0
          (first_error (matching predicate schema xs).1 e)
  unfolding filter_next matching
  filter-Runs zero s xs e h less = absurd (omega arith)
  filter-Runs (suc r) s [] e (quiet, t, ended, error) less =
      (quiet, (t, ok tt), rw ended refl, error)
  filter-Runs (suc r) s (x ∷ xs) e (quiet, t, first, others) less =
      let ih = filter-Runs (suc r) t xs e others (omega arith) in
      elim (Result-cases (evaluate_predicate predicate schema x.values)) [
        | inr (c, failed) ↦ rw failed (quiet, (t, err c), rw (first, failed) refl, refl)
        | inl (true, passed) ↦ rw passed (quiet, (t, ok tt), rw (first, passed) refl, ih)
        | inl (false, passed) ↦
            let skipped : filter_next child predicate schema (suc r) (s, ok tt)
                ≡ filter_next child predicate schema (suc r) (t, ok tt) =
              rw (first, passed)
                (filter_next-enough r (suc r) t xs e (ok tt) others (omega arith) (omega arith)) in
            rw passed (
              Runs-same (filter child predicate schema (suc r)) (t, ok tt) (s, ok tt) _ _ quiet
                skipped ih)
      ]
