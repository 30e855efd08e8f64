-- ===== src/Executor/Limit.antt =====
-- executor/limit.hpp. The limit of a statement is not negative: the parser reads no sign.
use database_engine.Base.{
  ℕ, zero, suc, ◌+◌, ◌≡◌, refl, true, false, Option, none, some, List, [], ◌∷◌, length, take, arith,
  leb, if◌then◌else◌,
}
use database_engine.Util.Status.{ok, Status}
use database_engine.Executor.Operator.{Operator, Tuple}
use database_engine.Executor.Operator.Rows.{Runs, Runs-quiet}

module _ (child : Operator) where
  abbrev pub limit_step : ℕ → Option Tuple × child.State → Option Tuple × (child.State × ℕ)
  limit_step returned (none, t) = (none, (t, returned))
  limit_step returned (some x, t) = (some x, (t, returned + 1))

  unfoldable pub limit_next : ℕ → child.State × ℕ → Option Tuple × (child.State × ℕ)
  limit_next limit s = if leb limit s.1 then (none, s) else limit_step s.1 (child.next s.0)

  abbrev pub limit_operator : ℕ → Operator
  limit_operator limit = record {
    State = child.State × ℕ;
    start = λ s. (child.start s.0, 0);
    next = limit_next limit;
    close = λ s. (child.close s.0, s.1);
    get_error = λ s. child.get_error s.0;
  }

  -- A limit answers the first tuples of its child, as many as it is set to. It shows the child's error
  -- only if the child ends before the limit is reached.
  pub limit-Runs :
      (limit left : ℕ) (s : child.State) (returned : ℕ) (xs : List Tuple) (e : Status)
      → Runs child s xs e
      → returned + left ≡ limit
      → Runs
          (limit_operator limit)
          (s, returned)
          (take left xs)
          (if leb left (length xs) then ok tt else e)
  unfolding limit_next
  limit-Runs limit zero s returned xs e h sum =
      let quiet = Runs-quiet child s xs e h in
      let reached : leb limit returned ≡ true = ground arith in
      let full : leb 0 (length xs) ≡ true = ground arith in
      (quiet, (s, returned), rw reached refl, rw full quiet)
  limit-Runs limit (suc left) s returned [] e (quiet, t, ended, error) sum =
      let open_yet : leb limit returned ≡ false = ground arith in
      let short : leb (suc left) 0 ≡ false = ground arith in
      (quiet, (t, returned), rw (open_yet, ended) refl, rw short error)
  limit-Runs limit (suc left) s returned (x ∷ xs) e (quiet, t, first, others) sum =
      let open_yet : leb limit returned ≡ false = ground arith in
      let same : leb (suc left) (suc (length xs)) ≡ leb left (length xs) = ground arith in
      (
        quiet,
        (t, returned + 1),
        rw (open_yet, first) refl,
        rw same (limit-Runs limit left t (returned + 1) xs e others (omega arith)),
      )
