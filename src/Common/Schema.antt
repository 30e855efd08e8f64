-- ===== src/Common/Schema.antt =====
-- common/schema.hpp. Column names are byte strings.
use database_engine.Base.{
  ℕ, ◌+◌, ◌≡◌, refl, ◌↔◌, Bool, true, false, ◌&&◌, Option, none, some, List, [], ◌∷◌, arith, ◌==◌,
  if◌then◌else◌, length,
}
use database_engine.Common.Value.{ColumnType}

pub record Column : Type 0 where
  pub name : List ℕ
  pub type : ColumnType
  pub nullable : Bool
  pub max_length : ℕ

abbrev pub Schema : Type 0
Schema = List Column

-- `operator==` of two byte strings.
unfoldable pub same_bytes : List ℕ → List ℕ → Bool
same_bytes [] [] = true
same_bytes [] (y ∷ ys) = false
same_bytes (x ∷ xs) [] = false
same_bytes (x ∷ xs) (y ∷ ys) = x == y && same_bytes xs ys

pub same_bytes_iff : (xs ys : List ℕ) → (same_bytes xs ys ≡ true) ↔ (xs ≡ ys)
unfolding same_bytes
same_bytes_iff [] [] = (λ h. refl, λ h. refl)
same_bytes_iff [] (y ∷ ys) = (λ h. cc, λ h. cc)
same_bytes_iff (x ∷ xs) [] = (λ h. cc, λ h. cc)
same_bytes_iff (x ∷ xs) (y ∷ ys) = ground (arith, same_bytes_iff xs ys)

-- The loop of `IndexOf`, at column `i`.
unfoldable pub index_from : Schema → List ℕ → ℕ → Option ℕ
unfolding same_bytes
index_from [] name i = none
index_from (col ∷ cols) name i =
    let rest = index_from cols name (i + 1) in if same_bytes col.name name then some i else rest

unfoldable pub index_of : Schema → List ℕ → Option ℕ
unfolding index_from
index_of schema name = index_from schema name 0

abbrev pub column_count : Schema → ℕ
column_count = length
