-- ===== src/Executor/Plan/Sound.antt =====
-- Why a scan by the index that executor/executor.cpp chooses misses no row.
use database_engine.Base.{
  ℕ, ◌+◌, ◌≡◌, refl, ap, sym, ◌∙◌, ◌≢◌, ◌⊎◌, inl, inr, Bool, true, false, not, ◌&&◌, ◌||◌, none,
  some, List, arith, ltb, ◌==◌, get_or,
}
use database_engine.Util.Status.{Result, ok}
use database_engine.Common.Value.{Value, null, int, bigint, bool, is_null}
use database_engine.Common.Schema.{Schema, index_of}
use database_engine.Common.Double.Exact.{positive_int, negative_int}
use database_engine.Parser.Ast.{
  BinaryOp, op_eq, op_neq, op_and, op_or, Expr, column_ref, literal, binary,
}
use database_engine.Executor.Eval.{combine, evaluate, ordered}
use database_engine.Executor.Compare.{values_equal}
use database_engine.Executor.Eval.Integers.{
  up_part, down_part, Exact, compares, is_comparison, combine-integers,
}
use database_engine.Executor.Plan.{
  extract_int64_key, widened, flip_comparison_op, IndexableConjunct, conjunct_of, compared_sides,
  extract_indexable_conjunct, Bounds, bounds_of,
}

-- `operator<` of two keys.
abbrev pub key_less : ℕ → ℕ → Bool
key_less a b = ltb (positive_int 64 a + negative_int 64 b) (positive_int 64 b + negative_int 64 a)

abbrev pub below_low : Bounds → ℕ → Bool
below_low b k = elim b.low [
  | none ↦ false
  | some l ↦ key_less k l || (not b.low_inclusive && k == l)
]

abbrev pub above_high : Bounds → ℕ → Bool
above_high b k = elim b.high [
  | none ↦ false
  | some h ↦ key_less h k || (not b.high_inclusive && k == h)
]

-- The keys that a scan with these bounds asks for.
abbrev pub within : Bounds → ℕ → Bool
within b k = not (below_low b k) && not (above_high b k)

-- A value of an indexed column: an integer that a double holds exactly, or null.
abbrev pub KeyValue : Value → Type 0
KeyValue null = Unit
KeyValue v = Exact v

key_parts :
    (v : Value)
    → Exact v
    → (k : ℕ) × (extract_int64_key v ≡ some k)
      × (positive_int 64 k ≡ up_part v)
      × (negative_int 64 k ≡ down_part v)
unfolding extract_int64_key
key_parts (int v) h = (widened v, refl, ground arith, ground arith)
key_parts (bigint v) h = (v, refl, refl, refl)
key_parts v h = absurd h

within-bounds_of :
    (op : BinaryOp) (k x : ℕ)
    → compares op (positive_int 64 k + negative_int 64 x) (positive_int 64 x + negative_int 64 k)
      ≡ true
    → within (bounds_of op x) k ≡ true
unfolding bounds_of
within-bounds_of op_eq k x h = ground arith
within-bounds_of op k x h = ground arith

compares-flip : (op : BinaryOp) (p q : ℕ) → compares op q p ≡ compares (flip_comparison_op op) p q
unfolding flip_comparison_op
compares-flip op_eq p q = ground arith
compares-flip op p q = ground arith

-- What the two sides of a comparison are, where an index may serve it.
Sided : Expr → BinaryOp → Expr → IndexableConjunct → Type 0
Sided left op right c =
    ((left ≡ column_ref c.column) × (right ≡ literal (bigint c.value)) × (c.op ≡ op))
    ⊎ ((left ≡ literal (bigint c.value))
        × (right ≡ column_ref c.column)
        × (c.op ≡ flip_comparison_op op))

conjunct_of-parts :
    (column : List ℕ) (op : BinaryOp) (v : Value) (c : IndexableConjunct)
    → conjunct_of column op v ≡ some c
    → (column ≡ c.column) × (v ≡ bigint c.value) × (c.op ≡ op)
conjunct_of-parts column op (bigint x) c h = ground arith
conjunct_of-parts column op v c h = absurd (ground arith)

compared_sides-parts :
    (left : Expr) (op : BinaryOp) (right : Expr) (c : IndexableConjunct)
    → compared_sides left op right ≡ some c
    → Sided left op right c
unfolding compared_sides Sided
compared_sides-parts (column_ref column) op (literal v) c h =
    let (same, value, op_same) = conjunct_of-parts column op v c h in
    inl (ap column_ref same, ap literal value, op_same)
compared_sides-parts (literal v) op (column_ref column) c h =
    let (same, value, op_same) = conjunct_of-parts column (flip_comparison_op op) v c h in
    inr (ap literal value, ap column_ref same, op_same)
compared_sides-parts left op right c h = absurd (ground arith)

-- A key value is null or an integer.
key_cases : (v : Value) → KeyValue v → (v ≡ null) ⊎ Exact v
key_cases null h = inl refl
key_cases (int v) h = inr h
key_cases (bigint v) h = inr h
key_cases v h = absurd h

is_comparison-flip : (op : BinaryOp) → is_comparison (flip_comparison_op op) ≡ is_comparison op
unfolding flip_comparison_op
is_comparison-flip op_eq = refl
is_comparison-flip op = refl

null-flip :
    (op : BinaryOp) (x : ℕ)
    → is_comparison op ≡ true
    → combine op (ok (bigint x)) (ok null)
      ≡ combine (flip_comparison_op op) (ok null) (ok (bigint x))
unfolding combine ordered values_equal flip_comparison_op is_null
null-flip op_and x h = cc
null-flip op_or x h = cc
null-flip op x h = refl

-- Null passes no comparison but an inequality.
pub null_passes :
    (op : BinaryOp) (x : ℕ) → op ≢ op_neq → combine op (ok null) (ok (bigint x)) ≢ ok (bool true)
unfolding combine ordered values_equal is_null
null_passes op_neq x h passed = h refl
null_passes op x h passed = cc

-- The literal may stand on either side.
combine-flip :
    (op : BinaryOp) (v : Value) (x : ℕ)
    → is_comparison op ≡ true
    → KeyValue v
    → Exact (bigint x)
    → combine op (ok (bigint x)) (ok v) ≡ combine (flip_comparison_op op) (ok v) (ok (bigint x))
combine-flip op v x comparison key exact = elim (key_cases v key) [
  | inl none_there ↦ rw none_there (null-flip op x comparison)
  | inr there ↦
      combine-integers op (bigint x) v exact there comparison
      ∙ ap (λ b. ok (bool b)) (compares-flip op _ _)
      ∙ sym (
          combine-integers (flip_comparison_op op) v (bigint x) there exact
            (is_comparison-flip op ∙ comparison))
]

-- A value that passes a comparison with a literal has a key within the bounds that the scan takes from it.
side-within :
    (op : BinaryOp) (v : Value) (x : ℕ)
    → is_comparison op ≡ true
    → KeyValue v
    → (is_null v ≡ true → op ≢ op_neq)
    → Exact (bigint x)
    → combine op (ok v) (ok (bigint x)) ≡ ok (bool true)
    → (k : ℕ) × (extract_int64_key v ≡ some k) × (within (bounds_of op x) k ≡ true)
unfolding is_null
side-within op v x comparison key not_null exact passed = elim (key_cases v key) [
  | inl none_there ↦
      absurd (null_passes op x (not_null (rw none_there refl)) (rw none_there at passed))
  | inr there ↦
      let (k, extracted, up, down) = key_parts v there in
      let outcome = sym (combine-integers op v (bigint x) there exact comparison) ∙ passed in
      (k, extracted, within-bounds_of op k x (rw (up, down) (ground (arith, outcome))))
]

-- A comparison on the values of its sides.
evaluate-binary :
    (left right : Expr) (op : BinaryOp) (schema : Schema) (row : List Value) (a b : Result Value)
    → evaluate left schema row ≡ a
    → evaluate right schema row ≡ b
    → evaluate (binary left op right) schema row ≡ combine op a b
unfolding evaluate
evaluate-binary left right op schema row a b h k = rw (h, k) refl

evaluate-column :
    (column : List ℕ) (schema : Schema) (row : List Value) (i : ℕ)
    → index_of schema column ≡ some i
    → evaluate (column_ref column) schema row ≡ ok (get_or row i null)
unfolding evaluate
evaluate-column column schema row i found = ground (arith, found)

evaluate-literal :
    (v : Value) (schema : Schema) (row : List Value) → evaluate (literal v) schema row ≡ ok v
unfolding evaluate
evaluate-literal v schema row = refl

module _ (left right : Expr) (op : BinaryOp) (schema : Schema) (row : List Value)
    (c : IndexableConjunct) (i : ℕ) (comparison : is_comparison op ≡ true)
    (found : index_of schema c.column ≡ some i) (key : KeyValue (get_or row i null))
    (not_null : is_null (get_or row i null) ≡ true → c.op ≢ op_neq) (exact : Exact (bigint c.value))
    (passed : evaluate (binary left op right) schema row ≡ ok (bool true)) where
  comparison-within :
      Sided left op right c
      → (k : ℕ) × (extract_int64_key (get_or row i null) ≡ some k)
        × (within (bounds_of c.op c.value) k ≡ true)
  unfolding Sided
  comparison-within (inl (l, r, same)) =
      let a = evaluate-column c.column schema row i found in
      let b = evaluate-literal (bigint c.value) schema row in
      let outcome = evaluate-binary left right op schema row _ _ (rw l a) (rw r b) in
      side-within c.op (get_or row i null) c.value (rw same comparison) key not_null exact
        (rw same (sym outcome ∙ passed))
  comparison-within (inr (l, r, same)) =
      let a = evaluate-column c.column schema row i found in
      let b = evaluate-literal (bigint c.value) schema row in
      let outcome = evaluate-binary left right op schema row _ _ (rw l b) (rw r a) in
      let turned = combine-flip op (get_or row i null) c.value comparison key exact in
      side-within c.op (get_or row i null) c.value (rw same (is_comparison-flip op ∙ comparison))
        key not_null exact (rw same (sym turned ∙ sym outcome ∙ passed))

pub conjunct-within :
    (e : Expr) (schema : Schema) (row : List Value) (c : IndexableConjunct) (i : ℕ)
    → extract_indexable_conjunct e ≡ some c
    → index_of schema c.column ≡ some i
    → KeyValue (get_or row i null)
    → (is_null (get_or row i null) ≡ true → c.op ≢ op_neq)
    → Exact (bigint c.value)
    → evaluate e schema row ≡ ok (bool true)
    → (k : ℕ) × (extract_int64_key (get_or row i null) ≡ some k)
      × (within (bounds_of c.op c.value) k ≡ true)
unfolding extract_indexable_conjunct
conjunct-within (column_ref column) schema row c i taken found key not_null exact passed = cc
conjunct-within (literal v) schema row c i taken found key not_null exact passed = cc
conjunct-within (binary left op_and right) schema row c i taken found key not_null exact passed = cc
conjunct-within (binary left op_or right) schema row c i taken found key not_null exact passed = cc
conjunct-within (binary left op right) schema row c i taken found key not_null exact passed =
    comparison-within left right op schema row c i refl found key not_null exact passed
      (compared_sides-parts left op right c taken)
