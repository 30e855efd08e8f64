-- ===== src/Executor/Plan/Covers.antt =====
-- The condition of a statement, its conjuncts and the one that executor/executor.cpp takes for a scan.
use database_engine.Base.{
  ℕ, ◌≡◌, ◌≢◌, inl, inr, true, Option, none, some, List, [], ◌∷◌, ◌++◌, arith, if◌then◌else◌,
  get_or, Bool-cases, Option-cases, All,
}
use database_engine.Util.Status.{Result, ok}
use database_engine.Common.Value.{Value, null, bool, bigint, is_null}
use database_engine.Common.Schema.{Schema, index_of, same_bytes_iff}
use database_engine.Parser.Ast.{op_neq, op_and, Expr, binary}
use database_engine.Catalog.Metadata.{IndexMetadata}
use database_engine.Executor.Eval.{combine, evaluate}
use database_engine.Executor.Eval.Integers.{Exact}
use database_engine.Executor.Plan.{
  extract_int64_key, flatten_and, IndexableConjunct, extract_indexable_conjunct, index_on,
  is_equality, or_else, choose_index, top_is_or, chosen_index, bounds_of,
}
use database_engine.Executor.Plan.Sound.{within, KeyValue, conjunct-within}

All-append : (P : Expr → Type 0) (xs ys : List Expr) → All P xs → All P ys → All P (xs ++ ys)
All-append P [] ys h k = k
All-append P (x ∷ xs) ys h k = (h.0, All-append P xs ys h.1 k)

after_and-true :
    (p q : Result Value)
    → combine op_and p q ≡ ok (bool true)
    → (p ≡ ok (bool true)) × (q ≡ ok (bool true))
unfolding combine
after_and-true (ok v) (ok w) h = ground arith
after_and-true p q h = ground arith

-- A condition that holds is a conjunction of conditions that hold.
flatten_and-hold :
    (e : Expr) (schema : Schema) (row : List Value)
    → evaluate e schema row ≡ ok (bool true)
    → All (λ c. evaluate c schema row ≡ ok (bool true)) (flatten_and e)
unfolding flatten_and evaluate
flatten_and-hold (binary left op_and right) schema row h =
    let (l, r) = after_and-true (evaluate left schema row) (evaluate right schema row) h in
    All-append _ (flatten_and left) (flatten_and right) (flatten_and-hold left schema row l)
      (flatten_and-hold right schema row r)
flatten_and-hold e schema row h = (h, tt)

index_on-column :
    (column : List ℕ) (ms : List IndexMetadata) (m : IndexMetadata)
    → index_on column ms ≡ some m
    → m.column_name ≡ column
unfolding index_on
index_on-column column [] m h = cc
index_on-column column (k ∷ ks) m h =
    ground (arith, same_bytes_iff k.column_name column, index_on-column column ks m)

-- The turn of the loop on a conjunct.
module _ (indexes : List IndexMetadata) (e : Expr) (cs : List Expr)
    (chosen : Option (IndexableConjunct × IndexMetadata)) where
  choose_index-unfit :
      extract_indexable_conjunct e ≡ none
      → choose_index indexes (e ∷ cs) chosen ≡ choose_index indexes cs chosen
  unfolding choose_index
  choose_index-unfit h = ground (arith, h)

  choose_index-unindexed :
      (c : IndexableConjunct)
      → extract_indexable_conjunct e ≡ some c
      → index_on c.column indexes ≡ none
      → choose_index indexes (e ∷ cs) chosen ≡ choose_index indexes cs chosen
  unfolding choose_index
  choose_index-unindexed c h k = ground (arith, h, k)

  choose_index-candidate :
      (c : IndexableConjunct) (m : IndexMetadata)
      → extract_indexable_conjunct e ≡ some c
      → index_on c.column indexes ≡ some m
      → choose_index indexes (e ∷ cs) chosen ≡ (
          if is_equality c.op
          then some (c, m)
          else choose_index indexes cs (or_else chosen (some (c, m))))
  unfolding choose_index
  choose_index-candidate c m h k = ground (arith, h, k)

-- What the loop has chosen, if anything, comes from a conjunct with `P` and has an index.
abbrev Served :
    List IndexMetadata → (Expr → Type 0) → Option (IndexableConjunct × IndexMetadata) → Type 0
Served indexes P none = Unit
Served indexes P (some (c, m)) =
    (e : Expr) × P e
    × (extract_indexable_conjunct e ≡ some c)
    × (index_on c.column indexes ≡ some m)

Served-or_else :
    (indexes : List IndexMetadata) (P : Expr → Type 0)
    (chosen other : Option (IndexableConjunct × IndexMetadata))
    → Served indexes P chosen
    → Served indexes P other
    → Served indexes P (or_else chosen other)
Served-or_else indexes P none other h k = k
Served-or_else indexes P (some (c, m)) other h k = h

choose_index-Served :
    (indexes : List IndexMetadata) (cs : List Expr) (P : Expr → Type 0)
    (chosen : Option (IndexableConjunct × IndexMetadata))
    → All P cs
    → Served indexes P chosen
    → Served indexes P (choose_index indexes cs chosen)
choose_index-Served indexes [] P chosen hold before = unfold choose_index in before
choose_index-Served indexes (e ∷ cs) P chosen hold before =
    let later = choose_index-Served indexes cs P chosen hold.1 before in
    elim (Option-cases (extract_indexable_conjunct e)) [
      | inl unfit ↦ rw (choose_index-unfit indexes e cs chosen unfit) later
      | inr (c, fit) ↦ elim (Option-cases (index_on c.column indexes)) [
        | inl unindexed ↦ rw (choose_index-unindexed indexes e cs chosen c fit unindexed) later
        | inr (m, indexed) ↦
            let here : Served indexes P (some (c, m)) = (e, hold.0, fit, indexed) in
            let kept = Served-or_else indexes P chosen (some (c, m)) before here in
            rw (choose_index-candidate indexes e cs chosen c m fit indexed)
              (elim (Bool-cases (is_equality c.op)) [
                | inl equality ↦ rw equality here
                | inr range ↦
                    rw range
                      (choose_index-Served indexes cs P (or_else chosen (some (c, m))) hold.1 kept)
              ])
      ]
    ]

-- Every row on which the condition holds has a key within the bounds that the chosen index is scanned
-- with. The key and the literal are integers that a double holds, and no null, which has no key, is
-- compared by `<>`.
pub chosen_index-covers :
    (indexes : List IndexMetadata) (condition : Expr) (schema : Schema) (row : List Value)
    (c : IndexableConjunct) (m : IndexMetadata) (i : ℕ)
    → chosen_index indexes (some condition) ≡ some (c, m)
    → index_of schema m.column_name ≡ some i
    → KeyValue (get_or row i null)
    → (is_null (get_or row i null) ≡ true → c.op ≢ op_neq)
    → Exact (bigint c.value)
    → evaluate condition schema row ≡ ok (bool true)
    → (k : ℕ) × (extract_int64_key (get_or row i null) ≡ some k)
      × (within (bounds_of c.op c.value) k ≡ true)
unfolding chosen_index
chosen_index-covers indexes condition schema row c m i chosen found key not_null exact passed =
    elim (Bool-cases (top_is_or condition)) [
      | inl disjunction ↦ cc (rw disjunction at chosen)
      | inr conjunction ↦
          let P : Expr → Type 0 = λ e. evaluate e schema row ≡ ok (bool true) in
          let served =
            choose_index-Served indexes (flatten_and condition) P none
              (flatten_and-hold condition schema row passed) tt in
          let (e, holds, fit, indexed) = rw (rw conjunction at chosen) at served in
          let column = index_on-column c.column indexes m indexed in
          conjunct-within e schema row c i fit (rw column at found) key not_null exact holds
    ]
