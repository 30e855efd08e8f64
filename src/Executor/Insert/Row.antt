-- ===== src/Executor/Insert/Row.antt =====
-- The rows of `ExecuteInsert` of executor/executor.cpp: they fit the schema, and the key that an index gets is
-- that of the literal.
use database_engine.Base.{
  ℕ, zero, suc, ◌+◌, ◌^◌, ◌<◌, ◌≡◌, refl, ◌⊎◌, inl, inr, true, false, some, List, [], ◌∷◌, length,
  replicate, set, get_elem?, ◌==◌, arith, Bool-cases, Option-cases, subst, sym, ◌∙◌, ◌++◌,
  append_assoc, length-append, ap, fun_ext,
}
use database_engine.Util.Status.{Result, ok, ◌>>=◌, >>=-ok_parts, >>=-ok_ok, >>=-ok, Result-cases}
use database_engine.Common.Value.{
  ColumnType, int_type, bigint_type, Value, null, int, bigint, double, bool, varchar, is_null,
  value_matches_type,
}
use database_engine.Common.Schema.{Column, Schema}
use database_engine.Executor.Plan.{extract_int64_key}
use database_engine.Executor.Insert.{
  coerce_to, coerce_literal_to_column_type, all_below, fill_row, target_indices, full_row,
}

coerce_to-matches :
    (t : ColumnType) (literal v : Value)
    → coerce_to t literal ≡ ok v
    → (value_matches_type v t ≡ true) × (is_null v ≡ false)
unfolding coerce_to value_matches_type is_null
coerce_to-matches t null v h = ground arith
coerce_to-matches t (int x) v h = ground arith
coerce_to-matches int_type (bigint x) v h = ground arith
coerce_to-matches t (bigint x) v h = ground arith
coerce_to-matches t (double x) v h = ground arith
coerce_to-matches t (bool x) v h = ground arith
coerce_to-matches t (varchar x) v h = ground arith

-- A literal that is not null goes by the type.
coerce_literal_to_column_type-value :
    (literal : Value) (col : Column)
    → is_null literal ≡ false
    → coerce_literal_to_column_type literal col ≡ coerce_to col.type literal
unfolding coerce_literal_to_column_type
coerce_literal_to_column_type-value literal col h = rw h refl

coerce_literal_to_column_type-null :
    (v : Value) (col : Column)
    → coerce_literal_to_column_type null col ≡ ok v
    → (v ≡ null) × (col.nullable ≡ true)
unfolding coerce_literal_to_column_type is_null
coerce_literal_to_column_type-null v col h = ground arith

coerced-matches :
    (literal v : Value) (col : Column)
    → is_null literal ≡ false
    → coerce_literal_to_column_type literal col ≡ ok v
    → (value_matches_type v col.type ≡ true) × (is_null v ≡ true → col.nullable ≡ true)
coerced-matches literal v col something h =
    let (matching, kept) =
      coerce_to-matches col.type literal v
        (sym (coerce_literal_to_column_type-value literal col something) ∙ h) in
    (matching, λ n. absurd (cc (n, kept)))

-- What a column takes of a literal is null or of its type, and null only if the column is nullable.
coerce_literal_to_column_type-matches :
    (literal v : Value) (col : Column)
    → coerce_literal_to_column_type literal col ≡ ok v
    → (value_matches_type v col.type ≡ true) × (is_null v ≡ true → col.nullable ≡ true)
unfolding value_matches_type is_null
coerce_literal_to_column_type-matches null v col h =
    let (nothing, nullable) = coerce_literal_to_column_type-null v col h in
    (rw nothing refl, λ n. nullable)
coerce_literal_to_column_type-matches (int x) v col h = coerced-matches (int x) v col refl h
coerce_literal_to_column_type-matches (bigint x) v col h = coerced-matches (bigint x) v col refl h
coerce_literal_to_column_type-matches (double x) v col h = coerced-matches (double x) v col refl h
coerce_literal_to_column_type-matches (bool x) v col h = coerced-matches (bool x) v col refl h
coerce_literal_to_column_type-matches (varchar x) v col h = coerced-matches (varchar x) v col refl h

-- An integer that an INT or a BIGINT column takes has the key of what is stored.
key-coerced :
    (x : ℕ) (v : Value) (col : Column)
    → x < 2 ^ 64
    → (col.type ≡ int_type) ⊎ (col.type ≡ bigint_type)
    → coerce_literal_to_column_type (bigint x) col ≡ ok v
    → extract_int64_key v ≡ some x
unfolding coerce_literal_to_column_type coerce_to is_null extract_int64_key
key-coerced x v col small (inl t) h = ground arith
key-coerced x v col small (inr t) h = ground arith

-- A value for each column, null or of its type.
abbrev pub Matches : Schema → List Value → Type 0
Matches [] [] = Unit
Matches [] (v ∷ vs) = ⊥
Matches (col ∷ cols) [] = ⊥
Matches (col ∷ cols) (v ∷ vs) = (value_matches_type v col.type ≡ true) × Matches cols vs

Matches-nulls : (schema : Schema) → Matches schema (replicate (length schema) null)
unfolding value_matches_type
Matches-nulls [] = tt
Matches-nulls (col ∷ cols) = (refl, Matches-nulls cols)

Matches-set :
    (schema : Schema) (vs : List Value) (i : ℕ) (v : Value) (col : Column)
    → get_elem? schema i ≡ some col
    → value_matches_type v col.type ≡ true
    → Matches schema vs
    → Matches schema (set vs i v)
Matches-set [] [] i v col there h k = k
Matches-set [] (w ∷ vs) i v col there h k = absurd k
Matches-set (c ∷ cols) [] i v col there h k = absurd k
Matches-set (c ∷ cols) (w ∷ vs) zero v col there h k = (ground arith, k.1)
Matches-set (c ∷ cols) (w ∷ vs) (suc i) v col there h k =
    (k.0, Matches-set cols vs i v col there h k.1)

ok_same {ℓ} : {A : Type ℓ} (a b : A) → Path (Result A) (ok a) (ok b) → a ≡ b
ok_same a b h = cc

fill_row-Matches :
    (schema : Schema) (is : List ℕ) (vs before after : List Value)
    → Matches schema before
    → fill_row schema is vs before ≡ ok after
    → Matches schema after
unfolding fill_row
fill_row-Matches schema [] vs before after k h = subst (Matches schema) (ok_same before after h) k
fill_row-Matches schema (i ∷ is) [] before after k h =
    subst (Matches schema) (ok_same before after h) k
fill_row-Matches schema (i ∷ is) (v ∷ vs) before after k h =
    elim (Option-cases (get_elem? schema i)) [
      | inl missing ↦ absurd (cc (rw (fill_row, missing) at h))
      | inr (col, there) ↦
          let (w, rest, coerced) =
            >>=-ok_parts _ (coerce_literal_to_column_type v col) (rw (fill_row, there) at h) in
          fill_row-Matches schema is vs (set before i w) after
            (Matches-set schema before i w col there
              (coerce_literal_to_column_type-matches v w col coerced).0 k)
            rest
    ]

-- Each value of a row by itself.
unfoldable pub coerce_row : Schema → List Value → Result (List Value)
coerce_row (col ∷ cols) (v ∷ vs) = do
  w ← coerce_literal_to_column_type v col
  ws ← coerce_row cols vs
  ok (w ∷ ws)
coerce_row _ _ = ok []

get_elem?-middle {ℓ} :
    {A : Type ℓ} (xs ys : List A) (a : A) → get_elem? (xs ++ (a ∷ ys)) (length xs) ≡ some a
get_elem?-middle [] ys a = refl
get_elem?-middle (x ∷ xs) ys a = get_elem?-middle xs ys a

set-middle {ℓ} :
    {A : Type ℓ} (xs ys : List A) (a b : A) → set (xs ++ (a ∷ ys)) (length xs) b ≡ xs ++ (b ∷ ys)
set-middle [] ys a b = refl
set-middle (x ∷ xs) ys a b = ap (λ l. x ∷ l) (set-middle xs ys a b)

-- The columns and the values in front have been dealt with.
fill_row-all :
    (front cols : Schema) (vs filled : List Value)
    → length filled ≡ length front
    → length vs ≡ length cols
    → fill_row
        (front ++ cols)
        (all_below (length cols) (length front))
        vs
        (filled ++ replicate (length cols) null)
      ≡ (coerce_row cols vs >>= λ ws. ok (filled ++ ws))
unfolding fill_row all_below coerce_row
fill_row-all front [] [] filled even whole = refl
fill_row-all front [] (v ∷ vs) filled even whole = absurd (omega arith)
fill_row-all front (col ∷ cols) [] filled even whole = absurd (omega arith)
fill_row-all front (col ∷ cols) (v ∷ vs) filled even whole =
    elim (Result-cases (coerce_literal_to_column_type v col)) [
      | inr (code, failed) ↦ rw (fill_row, get_elem?-middle front cols col, failed) refl
      | inl (w, coerced) ↦
          let nulls = replicate (length cols) null in
          let n = length cols in
          let moved : set (filled ++ (null ∷ nulls)) (length front) w ≡ filled ++ (w ∷ nulls) =
            subst (λ k. set (filled ++ (null ∷ nulls)) k w ≡ filled ++ (w ∷ nulls)) even
              (set-middle filled nulls null w) in
          let turn : fill_row (front ++ (col ∷ cols)) (all_below (suc n) (length front)) (v ∷ vs)
                (filled ++ (null ∷ nulls))
              ≡ fill_row (front ++ (col ∷ cols)) (all_below n (length front + 1)) vs
                  (filled ++ (w ∷ nulls)) =
            rw (fill_row, get_elem?-middle front cols col, coerced)
              (ap (fill_row (front ++ (col ∷ cols)) (all_below n (length front + 1)) vs) moved) in
          let count : length (front ++ (col ∷ [])) ≡ length front + 1 =
            length-append front (col ∷ []) in
          let rest =
            fill_row-all (front ++ (col ∷ [])) cols vs (filled ++ (w ∷ []))
              (omega (arith, count, length-append filled (w ∷ []))) (omega arith) in
          let ahead =
            rw (append_assoc front (col ∷ []) cols, append_assoc filled (w ∷ []) nulls, count) at
              rest in
          let joined : (λ (ws : List Value). Result.ok ((filled ++ (w ∷ [])) ++ ws))
              ≡ (λ ws. ok (filled ++ (w ∷ ws))) =
            fun_ext (λ ws. ap ok (append_assoc filled (w ∷ []) ws)) in
          turn
          ∙ ahead
          ∙ ap (λ k. coerce_row cols vs >>= k) joined
          ∙ rw coerced (sym (>>=-ok_ok (coerce_row cols vs) (λ ws. w ∷ ws) (λ ws. filled ++ ws)))
    ]

length-all_below : (n i : ℕ) → length (all_below n i) ≡ n
unfolding all_below
length-all_below zero i = refl
length-all_below (suc n) i = ap suc (length-all_below n (i + 1))

full_row-filled :
    (schema : Schema) (is : List ℕ) (row : List Value)
    → length row ≡ length is
    → full_row schema is row ≡ fill_row schema is row (replicate (length schema) null)
unfolding full_row
full_row-filled schema is row same =
    let test : (length row == length is) ≡ true = ground arith in rw (full_row, test) refl

full_row-all :
    (schema : Schema) (row : List Value)
    → length row ≡ length schema
    → full_row schema (all_below (length schema) 0) row ≡ coerce_row schema row
full_row-all schema row same =
    full_row-filled schema (all_below (length schema) 0) row
      (same ∙ sym (length-all_below (length schema) 0))
    ∙ fill_row-all [] schema row [] refl same
    ∙ >>=-ok (coerce_row schema row)

-- Whatever the columns of an INSERT, the row that it stores has a value for each column of the table, null
-- or of the column's type.
full_row-Matches :
    (schema : Schema) (is : List ℕ) (row full : List Value)
    → full_row schema is row ≡ ok full
    → Matches schema full
unfolding full_row
full_row-Matches schema is row full h = elim (Bool-cases (length row == length is)) [
  | inl same ↦
      fill_row-Matches schema is row (replicate (length schema) null) full (Matches-nulls schema)
        (rw (full_row, same) at h)
  | inr other ↦ absurd (cc (rw (full_row, other) at h))
]

-- INSERT without a list of columns stores each value of a row as its own column takes it, or answers the
-- error of the first value that its column refuses. The row has as many values as there are columns.
pub full_row-coerce_row :
    (schema : Schema) (is : List ℕ) (row : List Value)
    → target_indices schema [] ≡ ok is
    → length row ≡ length schema
    → full_row schema is row ≡ coerce_row schema row
unfolding target_indices
full_row-coerce_row schema is row all same =
    subst (λ js. full_row schema js row ≡ coerce_row schema row)
      (ok_same (all_below (length schema) 0) is all) (full_row-all schema row same)
