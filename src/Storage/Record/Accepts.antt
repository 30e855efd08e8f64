-- ===== src/Storage/Record/Accepts.antt =====
-- Which rows `Encode` of storage/record.cpp takes.
use database_engine.Base.{
  ℕ, suc, ◌+◌, ◌%◌, ◌^◌, ◌≤◌, ◌≡◌, refl, ap, ◌∙◌, ◌≢◌, ◌⊎◌, inl, inr, true, false, List, [], ◌∷◌,
  ◌++◌, arith, ◌==◌, if◌then◌else◌, ==_iff, Bool-cases, length,
}
use database_engine.Util.Status.{ok, err, invalid_argument}
use database_engine.Util.Bytes.{fixed_bytes}
use database_engine.Common.Value.{
  int_type, bigint_type, double_type, bool_type, varchar_type, Value, null, int, bigint, double,
  bool, varchar, is_null, value_matches_type,
}
use database_engine.Common.Schema.{Column, Schema}
use database_engine.Storage.Record.{set_null_bit, encode_value, encode_from, encode}

-- What a column takes.
abbrev pub Takes : Column → Value → Type 0
Takes col null = col.nullable ≡ true
Takes col (int v) = col.type ≡ int_type
Takes col (bigint v) = col.type ≡ bigint_type
Takes col (double v) = col.type ≡ double_type
Takes col (bool v) = col.type ≡ bool_type
Takes col (varchar v) =
    (col.type ≡ varchar_type) × (length v ≤ col.max_length) × (length v ≤ 0xFFFF)

-- A value for each column, and each one that its column takes.
abbrev pub TakesRow : Schema → List Value → Type 0
TakesRow [] [] = Unit
TakesRow [] (v ∷ vs) = ⊥
TakesRow (col ∷ cols) [] = ⊥
TakesRow (col ∷ cols) (v ∷ vs) = Takes col v × TakesRow cols vs

pub TakesRow-length : (cols : Schema) (vs : List Value) → TakesRow cols vs → length vs ≡ length cols
TakesRow-length [] [] h = refl
TakesRow-length [] (v ∷ vs) h = absurd h
TakesRow-length (col ∷ cols) [] h = absurd h
TakesRow-length (col ∷ cols) (v ∷ vs) h = ap suc (TakesRow-length cols vs h.1)

-- A value that is taken lets the loop go on with some buffer.
encode_from_taken :
    (col : Column) (cols : Schema) (v : Value) (vs : List Value) (i : ℕ) (out : List ℕ)
    → Takes col v
    → (next : List ℕ) × (encode_from (col ∷ cols) (v ∷ vs) i out ≡ encode_from cols vs (i + 1) next)
unfolding encode_from encode_value value_matches_type is_null
encode_from_taken col cols null vs i out h = (set_null_bit out i, ground arith)
encode_from_taken col cols (int v) vs i out h = (out ++ fixed_bytes 4 v, ground arith)
encode_from_taken col cols (bigint v) vs i out h = (out ++ fixed_bytes 8 v, ground arith)
encode_from_taken col cols (double v) vs i out h = (out ++ fixed_bytes 8 v, ground arith)
encode_from_taken col cols (bool v) vs i out h = (out ++ (if v then 1 else 0) ∷ [], ground arith)
encode_from_taken col cols (varchar v) vs i out h =
    (out ++ (fixed_bytes 2 (length v % 2 ^ 16) ++ v), ground arith)

-- One that is not taken ends it.
encode_from_refused :
    (col : Column) (cols : Schema) (v : Value) (vs : List Value) (i : ℕ) (out : List ℕ)
    → Takes col v
      ⊎ ((¬ Takes col v) × (encode_from (col ∷ cols) (v ∷ vs) i out ≡ err invalid_argument))
unfolding encode_from encode_value value_matches_type is_null
encode_from_refused col cols null vs i out = ground arith
encode_from_refused col cols (int v) vs i out = ground arith
encode_from_refused col cols (bigint v) vs i out = ground arith
encode_from_refused col cols (double v) vs i out = ground arith
encode_from_refused col cols (bool v) vs i out = ground arith
encode_from_refused col cols (varchar v) vs i out = ground arith

encode_from_takes :
    (cols : Schema) (vs : List Value) (i : ℕ) (out : List ℕ)
    → length vs ≡ length cols
    → (TakesRow cols vs × (bytes : List ℕ) × (encode_from cols vs i out ≡ ok bytes))
      ⊎ ((¬ TakesRow cols vs) × (encode_from cols vs i out ≡ err invalid_argument))
encode_from_takes [] [] i out l = inl (tt, out, unfold encode_from in refl)
encode_from_takes [] (v ∷ vs) i out l = absurd (omega arith)
encode_from_takes (col ∷ cols) [] i out l = absurd (omega arith)
encode_from_takes (col ∷ cols) (v ∷ vs) i out l = elim (encode_from_refused col cols v vs i out) [
  | inr (refused, e) ↦ inr ((λ t. refused t.0), e)
  | inl taken ↦
      let (next, e) = encode_from_taken col cols v vs i out taken in
      elim (encode_from_takes cols vs (i + 1) next (omega arith)) [
        | inl (row, bytes, later) ↦ inl ((taken, row), bytes, e ∙ later)
        | inr (not_row, later) ↦ inr ((λ t. not_row t.1), e ∙ later)
      ]
]

differ_absurd :
    (schema : Schema) (values : List Value)
    → (length values == length schema) ≡ false
    → length values ≢ length schema
differ_absurd schema values h e = ground arith

-- `encode` succeeds exactly on the rows with a value for each column, of the column's type or null where
-- that is allowed, and no text longer than its column's limit or 65535 bytes. On every other row it
-- answers `invalid_argument`.
pub encode-accepts :
    (schema : Schema) (values : List Value)
    → (TakesRow schema values × (bytes : List ℕ) × (encode schema values ≡ ok bytes))
      ⊎ ((¬ TakesRow schema values) × (encode schema values ≡ err invalid_argument))
unfolding encode
encode-accepts schema values = elim (Bool-cases (length values == length schema)) [
  | inl same ↦
      rw same
        (encode_from_takes schema values 0 _ ((==_iff (length values) (length schema)).0 same))
  | inr differ ↦
      inr ((λ t. differ_absurd schema values differ (TakesRow-length schema values t)), rw differ)
]
