-- ===== src/Executor/IndexScan.antt =====
-- executor/index_scan.hpp. What the tree answers to the search is `found`, and `get_row` is `GetRow` of the
-- table; both are asked while the plan runs, and do not change then. The candidates stand in the state
-- from the cursor on.
use database_engine.Base.{refl, inl, inr, Option, none, some, List, [], ◌∷◌}
use database_engine.Util.Status.{Result, ok, err, Status, Result-cases}
use database_engine.Common.Value.{Value}
use database_engine.Storage.Page.{RecordId}
use database_engine.Executor.Operator.{Operator, Tuple}
use database_engine.Executor.Operator.Rows.{Runs, Runs-same}

pub record IndexScanState : Type 0 where
  pub candidates : List RecordId
  pub error : Status

-- `Next`: the candidates are passed over until one has a row.
unfoldable pub next_candidate :
    (RecordId → Result (List Value)) → List RecordId → Option Tuple × List RecordId
next_candidate get_row [] = (none, [])
next_candidate get_row (rid ∷ rids) = elim (get_row rid) [
  | ok values ↦ (some (record { rid = rid; values = values }), rids)
  | err code ↦ next_candidate get_row rids
]

abbrev pub opened : Result (List RecordId) → IndexScanState
opened (ok rids) = record { candidates = rids; error = ok tt }
opened (err code) = record { candidates = []; error = err code }

abbrev pub index_scan : Result (List RecordId) → (RecordId → Result (List Value)) → Operator
index_scan found get_row = record {
  State = IndexScanState;
  start = λ s. opened found;
  next = λ s.
      let (x, rids) = next_candidate get_row s.candidates in (x, record s { candidates = rids });
  close = λ s. record s { candidates = [] };
  get_error = λ s. s.error;
}

-- The rows of the candidates that have one.
abbrev pub keep_found : RecordId → List Tuple → Result (List Value) → List Tuple
keep_found rid rest (ok values) = record { rid = rid; values = values } ∷ rest
keep_found rid rest (err code) = rest

unfoldable pub rows_found : (RecordId → Result (List Value)) → List RecordId → List Tuple
rows_found get_row [] = []
rows_found get_row (rid ∷ rids) = keep_found rid (rows_found get_row rids) (get_row rid)

abbrev with_candidates : List RecordId → IndexScanState
with_candidates rids = record { candidates = rids; error = ok tt }

-- An index scan answers the rows of the candidates, in their order, without those that have none.
pub index_scan-Runs :
    (get_row : RecordId → Result (List Value)) (found : Result (List RecordId))
    (rids : List RecordId)
    → Runs (index_scan found get_row) (with_candidates rids) (rows_found get_row rids) (ok tt)
unfolding next_candidate rows_found
index_scan-Runs get_row found [] = (refl, with_candidates [], refl, refl)
index_scan-Runs get_row found (rid ∷ rids) =
    let ih = index_scan-Runs get_row found rids in
    elim (Result-cases (get_row rid)) [
      | inl (values, there) ↦ rw there (refl, with_candidates rids, rw there refl, ih)
      | inr (c, gone) ↦ rw gone (
          Runs-same (index_scan found get_row) (with_candidates rids) (with_candidates (rid ∷ rids))
            (rows_found get_row rids) (ok tt) refl (rw gone refl) ih)
    ]
