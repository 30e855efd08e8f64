-- ===== src/Catalog/Codec/RoundTrip.antt =====
-- Metadata of catalog/catalog_manager.cpp, encoded and decoded.
use database_engine.Base.{
  ℕ, ◌%◌, ◌^◌, ◌<◌, ◌≡◌, refl, Bool, not, true, false, List, [], ◌∷◌, ◌++◌, append_assoc,
  append-nil, length, drop, take_append, drop_append, length-append, leb, ◌==◌, if◌then◌else◌,
  arith, All,
}
use database_engine.Util.Status.{ok}
use database_engine.Util.Bytes.{fixed_bytes, length-fixed_bytes, read_fixed-data_of}
use database_engine.Common.Value.{
  ColumnType, int_type, bigint_type, double_type, bool_type, varchar_type,
}
use database_engine.Common.Schema.{Column, Schema}
use database_engine.Catalog.Metadata.{TableMetadata, IndexMetadata}
use database_engine.Catalog.Codec.{
  append_string, byte_of_type, encode_column, encode_columns, encode_table_metadata,
  encode_index_metadata, take_fixed, take_byte, read_string, type_of_byte, decode_column,
  decode_columns, no_record, decode_table_metadata, decode_index_metadata,
}

take_fixed-fixed_bytes :
    (n v : ℕ) (rest : List ℕ) → v < 256 ^ n → take_fixed n (fixed_bytes n v ++ rest) ≡ ok (v, rest)
unfolding take_fixed
take_fixed-fixed_bytes n v rest h =
    let enough : leb n (length (fixed_bytes n v ++ rest)) ≡ true =
      ground (arith, length-append (fixed_bytes n v) rest, length-fixed_bytes n v) in
    let value = read_fixed-data_of n v [] rest h in
    let behind : drop n (fixed_bytes n v ++ rest) ≡ rest =
      rw (length-fixed_bytes n v) at (drop_append (fixed_bytes n v) rest) in
    rw (enough, value, behind) refl

read_string-append_string :
    (s rest : List ℕ) → length s < 2 ^ 16 → read_string (append_string s ++ rest) ≡ ok (s, rest)
unfolding read_string append_string
read_string-append_string s rest h =
    let len = length s % 2 ^ 16 in
    let small : len ≡ length s = omega arith in
    let enough : leb (length s) (length (s ++ rest)) ≡ true =
      ground (arith, length-append s rest) in
    let field = take_fixed-fixed_bytes 2 (length s) (s ++ rest) (omega arith) in
    rw
      (
        small,
        append_assoc (fixed_bytes 2 (length s)) s rest,
        field,
        enough,
        take_append s rest,
        drop_append s rest,
      )
      refl

type_of_byte-byte_of_type : (t : ColumnType) → type_of_byte (byte_of_type t) ≡ ok t
unfolding type_of_byte byte_of_type
type_of_byte-byte_of_type int_type = refl
type_of_byte-byte_of_type bigint_type = refl
type_of_byte-byte_of_type double_type = refl
type_of_byte-byte_of_type bool_type = refl
type_of_byte-byte_of_type varchar_type = refl

-- What fits the widths of the encoding.
abbrev pub ColumnFits : Column → Type 0
ColumnFits col = (length col.name < 2 ^ 16) × (col.max_length < 2 ^ 16)

abbrev pub TableFits : TableMetadata → Type 0
TableFits meta =
    (meta.table_id < 2 ^ 32)
    × (length meta.table_name < 2 ^ 16)
    × (meta.first_page_id < 2 ^ 32)
    × (length meta.schema < 2 ^ 16)
    × All ColumnFits meta.schema

abbrev pub IndexFits : IndexMetadata → Type 0
IndexFits meta =
    (meta.index_id < 2 ^ 32)
    × (length meta.index_name < 2 ^ 16)
    × (length meta.table_name < 2 ^ 16)
    × (length meta.column_name < 2 ^ 16)
    × (meta.meta_page_id < 2 ^ 32)

nullable_back : (b : Bool) → not ((if b then 1 else 0) == 0) ≡ b
nullable_back true = refl
nullable_back false = refl

decode_column-encode_column :
    (col : Column) (rest : List ℕ)
    → ColumnFits col
    → decode_column (encode_column col ++ rest) ≡ ok (col, rest)
unfolding decode_column encode_column take_byte
decode_column-encode_column col rest (named, wide) =
    let tail =
      byte_of_type col.type ∷ ((if col.nullable then 1 else 0) ∷ fixed_bytes 2 col.max_length) in
    let name = read_string-append_string col.name (tail ++ rest) named in
    let flag = nullable_back col.nullable in
    let last = take_fixed-fixed_bytes 2 col.max_length rest (omega arith) in
    rw
      (
        append_assoc (append_string col.name) tail rest,
        name,
        type_of_byte-byte_of_type col.type,
        last,
        flag,
      )
      refl

decode_columns-encode_columns :
    (cols : Schema) (rest : List ℕ)
    → All ColumnFits cols
    → decode_columns (length cols) (encode_columns cols ++ rest) ≡ ok (cols, rest)
unfolding decode_columns encode_columns
decode_columns-encode_columns [] rest fits = refl
decode_columns-encode_columns (col ∷ cols) rest (first, others) =
    let head = decode_column-encode_column col (encode_columns cols ++ rest) first in
    rw
      (
        append_assoc (encode_column col) (encode_columns cols) rest,
        head,
        decode_columns-encode_columns cols rest others,
      )
      refl

pub decode_table_metadata-encode :
    (meta : TableMetadata) (rest : List ℕ)
    → TableFits meta
    → decode_table_metadata (encode_table_metadata meta ++ rest)
      ≡ ok (record meta { catalog_record_id = no_record })
unfolding decode_table_metadata encode_table_metadata
decode_table_metadata-encode meta rest (id, named, first, count, columns) =
    let small : length meta.schema % 2 ^ 16 ≡ length meta.schema = omega arith in
    let cols = encode_columns meta.schema in
    let n = length meta.schema in
    let counted = fixed_bytes 2 n ++ cols in
    let paged = fixed_bytes 4 meta.first_page_id ++ counted in
    rw
      (
        small,
        append_assoc (fixed_bytes 4 meta.table_id) (append_string meta.table_name ++ paged) rest,
        append_assoc (append_string meta.table_name) paged rest,
        append_assoc (fixed_bytes 4 meta.first_page_id) counted rest,
        append_assoc (fixed_bytes 2 n) cols rest,
        take_fixed-fixed_bytes 4 meta.table_id
            (append_string meta.table_name
              ++ (fixed_bytes 4 meta.first_page_id ++ (fixed_bytes 2 n ++ (cols ++ rest))))
            (omega arith),
        read_string-append_string meta.table_name
            (fixed_bytes 4 meta.first_page_id ++ (fixed_bytes 2 n ++ (cols ++ rest))) named,
        take_fixed-fixed_bytes 4 meta.first_page_id (fixed_bytes 2 n ++ (cols ++ rest))
            (omega arith),
        take_fixed-fixed_bytes 2 n (cols ++ rest) (omega arith),
        decode_columns-encode_columns meta.schema rest columns,
      )
      refl

-- So is that of an index.
pub decode_index_metadata-encode :
    (meta : IndexMetadata)
    → IndexFits meta
    → decode_index_metadata (encode_index_metadata meta)
      ≡ ok (record meta { catalog_record_id = no_record })
unfolding decode_index_metadata encode_index_metadata
decode_index_metadata-encode meta (id, index_named, table_named, column_named, page) =
    let last = fixed_bytes 4 meta.meta_page_id in
    let column = append_string meta.column_name ++ last in
    let table = append_string meta.table_name ++ column in
    let number : take_fixed 4 last ≡ ok (meta.meta_page_id, []) =
      rw (append-nil last) at (take_fixed-fixed_bytes 4 meta.meta_page_id [] (omega arith)) in
    rw
      (
        take_fixed-fixed_bytes 4 meta.index_id (append_string meta.index_name ++ table)
            (omega arith),
        read_string-append_string meta.index_name table index_named,
        read_string-append_string meta.table_name column table_named,
        read_string-append_string meta.column_name last column_named,
        number,
      )
      refl
