-- ===== src/Executor/Select/Indexed.antt =====
-- A scan by an index and a scan of the table keep the same rows.
use database_engine.Base.{
  ℕ, suc, ◌<◌, ◌≡◌, ◌≢◌, refl, sym, ap, ◌∙◌, inl, inr, Bool, true, false, Option, none, some, List,
  [], ◌∷◌, length, arith, if◌then◌else◌, Bool-cases, All, get_or,
}
use mathlib.Core.List.{Perm, filter_map, filter_map-cons-some, filter_map-cons-none}
use mathlib.Core.List.Perm
use database_engine.Util.Status.{Result, ok, err}
use database_engine.Common.Value.{Value, null, bool, is_null, bigint}
use database_engine.Common.Schema.{Schema, index_of}
use database_engine.Storage.Page.{RecordId}
use database_engine.Parser.Ast.{Expr, op_neq}
use database_engine.Catalog.Metadata.{IndexMetadata}
use database_engine.Storage.Record.Accepts.{TakesRow}
use database_engine.Executor.Eval.{evaluate, evaluate_predicate, truth}
use database_engine.Executor.Eval.Integers.{Exact}
use database_engine.Executor.Eval.Types.{shape_of, flag, evaluate_predicate-typed}
use database_engine.Executor.Operator.{Tuple}
use database_engine.Executor.Filter.{matching}
use database_engine.Executor.IndexScan.{rows_found, index_scan-Runs}
use database_engine.Executor.Plan.{
  IndexableConjunct, chosen_index, bounds_of, Bounds, extract_int64_key,
}
use database_engine.Executor.Plan.Sound.{within, KeyValue}
use database_engine.Executor.Plan.Covers.{chosen_index-covers}
use database_engine.Executor.Select.{Database, index_chain, search_index, scan_by, with_filter}
use database_engine.Executor.Select.Links.{IsRun, with_filter-IsRun}

-- Whether a row has a key within the bounds.
abbrev key_within : Bounds → Option ℕ → Bool
key_within b none = false
key_within b (some k) = within b k

abbrev pub row_within : Bounds → ℕ → Tuple → Bool
row_within b i x = key_within b (extract_int64_key (get_or x.values i null))

abbrev pub only : (Tuple → Bool) → List Tuple → List Tuple
only test xs = filter_map (λ x. if test x then some x else none) xs

abbrev passes : Result Bool → Bool
passes (ok b) = b
passes (err code) = false

abbrev holds : Expr → Schema → Tuple → Bool
holds e schema x = passes (evaluate_predicate (some e) schema x.values)

only-nil : (test : Tuple → Bool) → only test [] ≡ []
unfolding filter_map
only-nil test = refl

module _ (test : Tuple → Bool) (x : Tuple) (xs : List Tuple) where
  only-yes : test x ≡ true → only test (x ∷ xs) ≡ x ∷ only test xs
  only-yes h = filter_map-cons-some (λ y. if test y then some y else none) x xs (rw h refl)

  only-no : test x ≡ false → only test (x ∷ xs) ≡ only test xs
  only-no h = filter_map-cons-none (λ y. if test y then some y else none) x xs (rw h refl)

-- On rows that fit the schema, a filter keeps those on which its condition holds.
matching-only :
    (e : Expr) (schema : Schema) (xs : List Tuple)
    → shape_of schema e ≡ some flag
    → All (λ x. TakesRow schema x.values) xs
    → (matching (some e) schema xs).0 ≡ only (holds e schema) xs
unfolding matching
matching-only e schema [] typed taken = sym (only-nil (holds e schema))
matching-only e schema (x ∷ xs) typed taken =
    let ih = matching-only e schema xs typed taken.1 in
    let (b, decided) = evaluate_predicate-typed schema x.values e taken.0 typed in
    elim (Bool-cases b) [
      | inl kept ↦
          let yes_here : holds e schema x ≡ true = rw (decided, kept) refl in
          rw (decided, kept) (ap (◌∷◌ x) ih ∙ sym (only-yes (holds e schema) x xs yes_here))
      | inr left_out ↦
          let no_here : holds e schema x ≡ false = rw (decided, left_out) refl in
          rw (decided, left_out) (ih ∙ sym (only-no (holds e schema) x xs no_here))
    ]

-- To leave out rows that would be left out anyway changes nothing.
only-only :
    (p q : Tuple → Bool) (xs : List Tuple)
    → All (λ x. p x ≡ true → q x ≡ true) xs
    → only p (only q xs) ≡ only p xs
only-only p q [] h = ap (only p) (only-nil q)
only-only p q (x ∷ xs) h =
    let ih = only-only p q xs h.1 in
    elim (Bool-cases (p x)) [
      | inl first ↦
          ap (only p) (only-yes q x xs (h.0 first))
          ∙ only-yes p x (only q xs) first
          ∙ ap (◌∷◌ x) ih
          ∙ sym (only-yes p x xs first)
      | inr not_first ↦ elim (Bool-cases (q x)) [
        | inl second ↦
            ap (only p) (only-yes q x xs second)
            ∙ only-no p x (only q xs) not_first
            ∙ ih
            ∙ sym (only-no p x xs not_first)
        | inr neither ↦ ap (only p) (only-no q x xs neither) ∙ ih ∙ sym (only-no p x xs not_first)
      ]
    ]

-- A row whose column `i` an index by conjunct `c` can serve.
abbrev pub Indexable : IndexableConjunct → ℕ → Tuple → Type 0
Indexable c i x =
    KeyValue (get_or x.values i null) × (is_null (get_or x.values i null) ≡ true → c.op ≢ op_neq)

holds-true :
    (e : Expr) (schema : Schema) (x : Tuple)
    → holds e schema x ≡ true
    → evaluate e schema x.values ≡ ok (bool true)
unfolding evaluate_predicate truth
holds-true e schema x h = ground arith

length-rows_found :
    (get_row : RecordId → Result (List Value)) (rids : List RecordId)
    → length (rows_found get_row rids) < suc (length rids)
unfolding rows_found
length-rows_found get_row [] = omega arith
length-rows_found get_row (rid ∷ rids) = ground (arith, length-rows_found get_row rids)

module _ (db : Database) (table : List ℕ) (e : Expr) (schema : Schema) (c : IndexableConjunct)
    (m : IndexMetadata) (i : ℕ) (chosen : chosen_index (db.indexes_of table) (some e) ≡ some (c, m))
    (found : index_of schema m.column_name ≡ some i) (exact : Exact (bigint c.value)) where
  holding-within :
      (x : Tuple)
      → Indexable c i x
      → holds e schema x ≡ true
      → row_within (bounds_of c.op c.value) i x ≡ true
  holding-within x able h =
      let (k, key, inside) =
        chosen_index-covers (db.indexes_of table) e schema x.values c m i chosen found able.0 able.1
          exact (holds-true e schema x h) in
      rw key inside

  All-within :
      (xs : List Tuple)
      → All (Indexable c i) xs
      → All (λ x. holds e schema x ≡ true → row_within (bounds_of c.op c.value) i x ≡ true) xs
  All-within [] able = tt
  All-within (x ∷ xs) able = (holding-within x able.0, All-within xs able.1)

  -- The index that a SELECT chooses finds what a scan of the table would: filtered, its rows are those
  -- of the table that satisfy the condition, perhaps in another order. The index answers with the rows
  -- whose keys lie in the bounds, the rows fit the schema, the condition is well typed, keys and literal
  -- are integers that a double holds, and no null is compared by `<>`.
  pub index_chain-equivalence :
      (rids : List RecordId)
      → shape_of schema e ≡ some flag
      → All (λ x. TakesRow schema x.values) (db.rows_of table)
      → All (Indexable c i) (db.rows_of table)
      → search_index db c m ≡ ok rids
      → Perm
          (rows_found (db.get_row table) rids)
          (only (row_within (bounds_of c.op c.value) i) (db.rows_of table))
      → All (λ x. TakesRow schema x.values) (rows_found (db.get_row table) rids)
      → (xs : List Tuple) × IsRun (with_filter schema (some e) (scan_by db table (some (c, m)))) xs
        × Perm xs (matching (some e) schema (db.rows_of table)).0
  index_chain-equivalence rids typed taken able searched answers found_taken =
      let rows = rows_found (db.get_row table) rids in
      let test = holds e schema in
      let inside = row_within (bounds_of c.op c.value) i in
      let start : IsRun (index_chain db table (ok rids)) rows = (
        index_scan-Runs (db.get_row table) (ok rids) rids,
        length-rows_found (db.get_row table) rids,
      ) in
      let same : only test (only inside (db.rows_of table))
          ≡ (matching (some e) schema (db.rows_of table)).0 =
        only-only test inside (db.rows_of table) (All-within (db.rows_of table) able)
        ∙ sym (matching-only e schema (db.rows_of table) typed taken) in
      (
        (matching (some e) schema rows).0,
        rw searched (
            with_filter-IsRun (some e) schema (index_chain db table (ok rids)) rows typed
              found_taken start),
        rw (matching-only e schema rows typed found_taken, ← same)
            (Perm.filter_map (λ x. if test x then some x else none) answers),
      )
