-- ===== src/Catalog/Codec.antt =====
-- The encoding of metadata in catalog/catalog_manager.cpp. A decoder takes the bytes from its cursor on and
-- gives what it has read with the bytes behind it; `need` is a test on their number.
pub mod RoundTrip
use database_engine.Base.{
  ℕ, zero, suc, ◌%◌, ◌^◌, Bool, true, false, not, Option, none, some, List, [], ◌∷◌, ◌++◌, length,
  take, drop, leb, ◌==◌, if◌then◌else◌,
}
use database_engine.Util.Status.{Result, ok, err, Code, corruption, guard, ◌>>=◌, ◌>>◌}
use database_engine.Util.Bytes.{read_fixed, fixed_bytes, data_of}
use database_engine.Common.Value.{
  ColumnType, int_type, bigint_type, double_type, bool_type, varchar_type,
}
use database_engine.Common.Schema.{Column, Schema}
use database_engine.Storage.Page.{RecordId, invalid_page_id}
use database_engine.Catalog.Metadata.{TableMetadata, IndexMetadata}

-- `append_string`: a length of 16 bits and the text.
unfoldable pub append_string : List ℕ → List ℕ
append_string s = fixed_bytes 2 (length s % 2 ^ 16) ++ s

-- The numbers of the types.
unfoldable pub byte_of_type : ColumnType → ℕ
byte_of_type int_type = 0
byte_of_type bigint_type = 1
byte_of_type double_type = 2
byte_of_type bool_type = 3
byte_of_type varchar_type = 4

unfoldable pub encode_column : Column → List ℕ
unfolding append_string byte_of_type
encode_column col =
    append_string col.name
    ++ (byte_of_type col.type ∷ ((if col.nullable then 1 else 0) ∷ fixed_bytes 2 col.max_length))

unfoldable pub encode_columns : Schema → List ℕ
unfolding encode_column
encode_columns [] = []
encode_columns (col ∷ cols) = encode_column col ++ encode_columns cols

unfoldable pub encode_table_metadata : TableMetadata → List ℕ
unfolding encode_columns
encode_table_metadata meta =
    fixed_bytes 4 meta.table_id
    ++ (append_string meta.table_name
        ++ (fixed_bytes 4 meta.first_page_id
            ++ (fixed_bytes 2 (length meta.schema % 2 ^ 16) ++ encode_columns meta.schema)))

unfoldable pub encode_index_metadata : IndexMetadata → List ℕ
unfolding append_string
encode_index_metadata meta =
    fixed_bytes 4 meta.index_id
    ++ (append_string meta.index_name
        ++ (append_string meta.table_name
            ++ (append_string meta.column_name ++ fixed_bytes 4 meta.meta_page_id)))

-- A number of `n` bytes, and one byte.
unfoldable pub take_fixed : ℕ → List ℕ → Result (ℕ × List ℕ)
take_fixed n left = do
  guard (leb n (length left)) corruption
  ok (read_fixed n (data_of left) 0, drop n left)

unfoldable pub take_byte : List ℕ → Result (ℕ × List ℕ)
take_byte [] = err corruption
take_byte (b ∷ left) = ok (b, left)

-- `read_string`.
unfoldable pub read_string : List ℕ → Result (List ℕ × List ℕ)
unfolding take_fixed
read_string left = do
  len ← take_fixed 2 left
  guard (leb len.0 (length len.1)) corruption
  ok (take len.0 len.1, drop len.0 len.1)

-- The cast to `ColumnType`. A byte that is the number of no type, which the source casts all the same,
-- ends the decoding here: the type has no value for it.
unfoldable pub type_of_byte : ℕ → Result ColumnType
type_of_byte b =
    if b == 0
    then ok int_type
    else if b == 1
    then ok bigint_type
    else if b == 2
    then ok double_type
    else if b == 3
    then ok bool_type
    else if b == 4
    then ok varchar_type
    else err corruption

unfoldable pub decode_column : List ℕ → Result (Column × List ℕ)
unfolding read_string take_byte type_of_byte take_fixed
decode_column left = do
  name ← read_string left
  byte ← take_byte name.1
  type ← type_of_byte byte.0
  nullable ← take_byte byte.1
  max_length ← take_fixed 2 nullable.1
  ok (
    record {
      name = name.0;
      type = type;
      nullable = not (nullable.0 == 0);
      max_length = max_length.0;
    },
    max_length.1,
  )

-- The loop over the columns.
unfoldable pub decode_columns : ℕ → List ℕ → Result (Schema × List ℕ)
unfolding decode_column
decode_columns zero left = ok ([], left)
decode_columns (suc count) left = do
  first ← decode_column left
  others ← decode_columns count first.1
  ok (first.0 ∷ others.0, others.1)

-- The `catalog_record_id` of metadata that has just been decoded, or made.
abbrev pub no_record : RecordId
no_record = record { page_id = invalid_page_id; slot_id = 0 }

unfoldable pub decode_table_metadata : List ℕ → Result TableMetadata
unfolding decode_columns
decode_table_metadata bytes = do
  table_id ← take_fixed 4 bytes
  name ← read_string table_id.1
  first_page_id ← take_fixed 4 name.1
  count ← take_fixed 2 first_page_id.1
  columns ← decode_columns count.0 count.1
  ok (record {
    table_id = table_id.0;
    table_name = name.0;
    schema = columns.0;
    first_page_id = first_page_id.0;
    catalog_record_id = no_record;
  })

unfoldable pub decode_index_metadata : List ℕ → Result IndexMetadata
unfolding read_string take_fixed
decode_index_metadata bytes = do
  index_id ← take_fixed 4 bytes
  index_name ← read_string index_id.1
  table_name ← read_string index_name.1
  column_name ← read_string table_name.1
  meta_page_id ← take_fixed 4 column_name.1
  ok (record {
    index_id = index_id.0;
    index_name = index_name.0;
    table_name = table_name.0;
    column_name = column_name.0;
    meta_page_id = meta_page_id.0;
    catalog_record_id = no_record;
  })
