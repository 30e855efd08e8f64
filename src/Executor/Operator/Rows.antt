-- ===== src/Executor/Operator/Rows.antt =====
-- What a client gets from an operator whose `Next` it calls until there is no tuple, as the executor does.
use database_engine.Base.{
  ℕ, zero, suc, ◌<◌, ◌≡◌, refl, ◌∙◌, Option, none, some, List, [], ◌∷◌, length, arith,
}
use database_engine.Util.Status.{ok, Status}
use database_engine.Executor.Operator.{Operator, Tuple}

module _ (op : Operator) where
  -- From state `s` the calls answer the tuples of a list one after the other with no error to be seen,
  -- and then nothing, with error `e`.
  abbrev pub Runs : op.State → List Tuple → Status → Type 0
  Runs s [] e =
      (op.get_error s ≡ ok tt) × (t : op.State) × (op.next s ≡ (none, t)) × (op.get_error t ≡ e)
  Runs s (x ∷ xs) e =
      (op.get_error s ≡ ok tt) × (t : op.State) × (op.next s ≡ (some x, t)) × Runs t xs e

  pub Runs-quiet :
      (s : op.State) (xs : List Tuple) (e : Status) → Runs s xs e → op.get_error s ≡ ok tt
  Runs-quiet s [] e h = h.0
  Runs-quiet s (x ∷ xs) e h = h.0

  -- Two states that answer alike from here on.
  pub Runs-same :
      (s r : op.State) (xs : List Tuple) (e : Status)
      → op.get_error r ≡ ok tt
      → op.next r ≡ op.next s
      → Runs s xs e
      → Runs r xs e
  Runs-same s r [] e quiet same (_, t, ended, error) = (quiet, t, same ∙ ended, error)
  Runs-same s r (x ∷ xs) e quiet same (_, t, first, others) = (quiet, t, same ∙ first, others)

  -- A turn of the loop: `rest` runs the turns that are left.
  abbrev pub drain_step :
      (op.State → List Tuple × op.State) → Option Tuple × op.State → List Tuple × op.State
  drain_step rest (none, t) = ([], t)
  drain_step rest (some x, t) = let (xs, end) = rest t in (x ∷ xs, end)

  -- `while (auto tuple = child->Next())` with `rounds` turns at most.
  unfoldable pub drain : ℕ → op.State → List Tuple × op.State
  drain zero s = ([], s)
  drain (suc rounds) s = drain_step (drain rounds) (op.next s)

  -- More turns than tuples are enough.
  pub drain-Runs :
      (rounds : ℕ) (s : op.State) (xs : List Tuple) (e : Status)
      → Runs s xs e
      → length xs < rounds
      → (t : op.State) × (drain rounds s ≡ (xs, t)) × (op.get_error t ≡ e)
  unfolding drain
  drain-Runs zero s xs e h k = absurd (omega arith)
  drain-Runs (suc rounds) s [] e (_, t, ended, error) k = (t, rw ended refl, error)
  drain-Runs (suc rounds) s (x ∷ xs) e (_, between, first, others) k =
      let (t, all, error) = drain-Runs rounds between xs e others (omega arith) in
      (t, rw (first, all) refl, error)
