-- ===== src/Storage/Record.antt =====
-- storage/record.hpp and record.cpp: a row as bytes, a bitmap of its nulls and then its other values.
pub mod Bitmap
pub mod Values
pub mod RoundTrip
pub mod Accepts
use database_engine.Base.{
  ℕ, zero, suc, ◌+◌, ◌-◌, ◌*◌, ◌/◌, ◌%◌, ◌^◌, ◌≤◌, ◌<◌, ◌≡◌, refl, sym, ap, ◌∙◌, fun_ext, subst,
  ◌≢◌, ◌↔◌, ◌⊎◌, inl, inr, Bool, true, false, not, ◌&&◌, ◌||◌, Option, none, some, List, [], ◌∷◌,
  ◌++◌, map, append_assoc, append-nil, arith, ltb, leb, ◌==◌, if◌then◌else◌, ltb→lt, lt→ltb, le→ltb,
  leb→le, ==_iff, Bool-cases, Option-cases, lt-or-le, length, get_elem?, set, get_or, take, drop,
  replicate, All, length-append, length-replicate, take_append, drop_append, length-take,
  length-drop, length-set, get_elem?-set_self, get_elem?-set_ne,
}
use Prim.Native.Nat.{bit_and, bit_or}
use database_engine.Util.Status.{
  Result, ok, err, Code, invalid_argument, corruption, Status, guard, ◌>>=◌, ◌>>◌,
}
use database_engine.Util.Bytes.{read_fixed, read_bytes, fixed_bytes, data_of}
use database_engine.Common.Value.{
  ColumnType, int_type, bigint_type, double_type, bool_type, varchar_type, Value, null, int, bigint,
  double, bool, varchar, is_null, value_matches_type,
}
use database_engine.Common.Schema.{Column, Schema, column_count}

abbrev pub null_bitmap_bytes : ℕ → ℕ
null_bitmap_bytes n = (n + 7) / 8

-- `out[i / 8] |= 1 << (i % 8)`.
unfoldable pub set_null_bit : List ℕ → ℕ → List ℕ
set_null_bit out i = set out (i / 8) (bit_or (get_or out (i / 8) 0) (2 ^ (i % 8)))

-- `(bytes[i / 8] & (1 << (i % 8))) != 0`.
unfoldable pub null_bit : List ℕ → ℕ → Bool
null_bit bytes i = not (bit_and (get_or bytes (i / 8) 0) (2 ^ (i % 8)) == 0)

-- The `switch` of `Encode`, for a value that is not null: the bytes that it appends. The value has
-- been checked against the column's type, so `std::get` of another type is not reached.
unfoldable pub encode_value : Column → Value → Result (List ℕ)
encode_value col null = err invalid_argument
encode_value col (int v) = ok (fixed_bytes 4 v)
encode_value col (bigint v) = ok (fixed_bytes 8 v)
encode_value col (double v) = ok (fixed_bytes 8 v)
encode_value col (bool v) = ok ((if v then 1 else 0) ∷ [])
encode_value col (varchar v) =
    if ltb col.max_length (length v)
    then err invalid_argument
    else if ltb 0xFFFF (length v)
    then err invalid_argument
    else ok (fixed_bytes 2 (length v % 2 ^ 16) ++ v)

-- The loop of `Encode`, at column `i`.
unfoldable pub encode_from : Schema → List Value → ℕ → List ℕ → Result (List ℕ)
encode_from (col ∷ cols) (v ∷ vs) i out =
    if not (value_matches_type v col.type) then err invalid_argument else elim (is_null v) [
      | true ↦
          if not col.nullable
          then err invalid_argument
          else encode_from cols vs (i + 1) (set_null_bit out i)
      | false ↦ encode_value col v >>= λ bytes. encode_from cols vs (i + 1) (out ++ bytes)
    ]
encode_from _ _ i out = ok out

unfoldable pub encode : Schema → List Value → Result (List ℕ)
unfolding encode_from encode_value set_null_bit
encode schema values =
    if not (length values == column_count schema)
    then err invalid_argument
    else encode_from schema values 0 (replicate (null_bitmap_bytes (column_count schema)) 0)

-- The `switch` of `Decode`: the value at the cursor, and the cursor behind it.
unfoldable pub decode_value : ColumnType → List ℕ → ℕ → Result (Value × ℕ)
decode_value int_type bytes cursor = do
  guard (leb (cursor + 4) (length bytes)) corruption
  ok (int (read_fixed 4 (data_of bytes) cursor), cursor + 4)
decode_value bigint_type bytes cursor = do
  guard (leb (cursor + 8) (length bytes)) corruption
  ok (bigint (read_fixed 8 (data_of bytes) cursor), cursor + 8)
decode_value double_type bytes cursor = do
  guard (leb (cursor + 8) (length bytes)) corruption
  ok (double (read_fixed 8 (data_of bytes) cursor), cursor + 8)
decode_value bool_type bytes cursor = do
  guard (leb (cursor + 1) (length bytes)) corruption
  ok (bool (not (data_of bytes cursor == 0)), cursor + 1)
decode_value varchar_type bytes cursor = do
  guard (leb (cursor + 2) (length bytes)) corruption
  let len = read_fixed 2 (data_of bytes) cursor
  guard (leb (cursor + 2 + len) (length bytes)) corruption
  ok (varchar (read_bytes len (data_of bytes) (cursor + 2)), cursor + 2 + len)

-- The loop of `Decode`, at column `i`.
unfoldable pub decode_from : Schema → List ℕ → ℕ → ℕ → Result (List Value)
decode_from [] bytes i cursor = ok []
decode_from (col ∷ cols) bytes i cursor = elim (null_bit bytes i) [
  | true ↦ do values ← decode_from cols bytes (i + 1) cursor; ok (null ∷ values)
  | false ↦ do
    found ← decode_value col.type bytes cursor
    values ← decode_from cols bytes (i + 1) found.1
    ok (found.0 ∷ values)
]

unfoldable pub decode : Schema → List ℕ → Result (List Value)
unfolding decode_from decode_value null_bit data_of
decode schema bytes =
    let bitmap_bytes = null_bitmap_bytes (column_count schema) in
    if ltb (length bytes) bitmap_bytes
    then err corruption
    else decode_from schema bytes 0 bitmap_bytes
