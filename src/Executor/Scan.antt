-- ===== src/Executor/Scan.antt =====
-- executor/seq_scan.hpp. What `TableManager::Scan` visits while the plan runs is the list `rows`.
use database_engine.Base.{
  ℕ, ◌+◌, ◌≡◌, refl, Option, none, some, List, [], ◌∷◌, arith, get_elem?, length, ◌++◌, append-nil,
  append_assoc, length-append,
}
use database_engine.Util.Status.{ok}
use database_engine.Executor.Operator.{Operator, Tuple}
use database_engine.Executor.Operator.Rows.{Runs}

pub record Cursor : Type 0 where
  pub buffered : List Tuple
  pub cursor : ℕ

-- `Next` of an operator that has buffered its tuples.
unfoldable pub next_buffered : Cursor → Option Tuple × Cursor
next_buffered s = elim (get_elem? s.buffered s.cursor) [
  | none ↦ (none, s)
  | some x ↦ (some x, record s { cursor = s.cursor + 1 })
]

-- `abbrev`, as are the other operators: their states compute in statements.
abbrev pub seq_scan : List Tuple → Operator
seq_scan rows = record {
  State = Cursor;
  start = λ s. record { buffered = rows; cursor = 0 };
  next = next_buffered;
  close = λ s. record s { buffered = [] };
  get_error = λ s. ok tt;
}

get_elem?-append :
    (before xs : List Tuple) (x : Tuple) → get_elem? (before ++ (x ∷ xs)) (length before) ≡ some x
get_elem?-append [] xs x = refl
get_elem?-append (y ∷ before) xs x = get_elem?-append before xs x

get_elem?-length : (xs : List Tuple) → get_elem? xs (length xs) ≡ none
get_elem?-length [] = refl
get_elem?-length (x ∷ xs) = get_elem?-length xs

abbrev pub at_cursor : List Tuple → ℕ → Cursor
at_cursor buffered cursor = record { buffered = buffered; cursor = cursor }

next_buffered-some :
    (buffered : List Tuple) (i : ℕ) (x : Tuple)
    → get_elem? buffered i ≡ some x
    → next_buffered (at_cursor buffered i) ≡ (some x, at_cursor buffered (i + 1))
unfolding next_buffered
next_buffered-some buffered i x h = rw h refl

next_buffered-none :
    (buffered : List Tuple) (i : ℕ)
    → get_elem? buffered i ≡ none
    → next_buffered (at_cursor buffered i) ≡ (none, at_cursor buffered i)
unfolding next_buffered
next_buffered-none buffered i h = rw h refl

-- An operator whose `Next` is that of a cursor answers the buffered tuples that are left.
module _ (op : Operator) (embed : Cursor → op.State)
    (steps : (c : Cursor) → op.next (embed c) ≡ ((next_buffered c).0, embed (next_buffered c).1))
    (quiet : (c : Cursor) → op.get_error (embed c) ≡ ok tt) where
  cursor-Runs_from :
      (before xs : List Tuple)
      → Runs op (embed (at_cursor (before ++ xs) (length before))) xs (ok tt)
  cursor-Runs_from before [] =
      let c = at_cursor before (length before) in
      let ended = next_buffered-none before (length before) (get_elem?-length before) in
      rw (append-nil before) (quiet c, embed c, rw (steps c, ended) refl, quiet c)
  cursor-Runs_from before (x ∷ xs) =
      let buffered = before ++ (x ∷ xs) in
      let here = next_buffered-some buffered (length before) x (get_elem?-append before xs x) in
      let further = before ++ (x ∷ []) in
      let split : further ++ xs ≡ buffered = append_assoc before (x ∷ []) xs in
      let count : length further ≡ length before + 1 =
        omega (arith, length-append before (x ∷ [])) in
      (
        quiet (at_cursor buffered (length before)),
        embed (at_cursor buffered (length before + 1)),
        rw (steps (at_cursor buffered (length before)), here) refl,
        rw (split, count) at (cursor-Runs_from further xs),
      )

  pub cursor-Runs : (xs : List Tuple) → Runs op (embed (at_cursor xs 0)) xs (ok tt)
  cursor-Runs xs = cursor-Runs_from [] xs

-- A scan answers the rows of the table.
pub seq_scan-Runs :
    (rows : List Tuple) (c : Cursor) → Runs (seq_scan rows) ((seq_scan rows).start c) rows (ok tt)
seq_scan-Runs rows c = cursor-Runs (seq_scan rows) (λ c. c) (λ c. refl) (λ c. refl) rows
