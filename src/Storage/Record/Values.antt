-- ===== src/Storage/Record/Values.antt =====
-- One value of a row of storage/record.cpp, written and read back.
use database_engine.Base.{
  ℕ, ◌+◌, ◌%◌, ◌^◌, ◌≤◌, ◌≡◌, true, false, List, ◌++◌, append_assoc, arith, length, length-append,
}
use database_engine.Util.Status.{ok}
use database_engine.Util.Bytes.{
  read_fixed, read_bytes, fixed_bytes, data_of, length-fixed_bytes, read_fixed-data_of,
  read_bytes-data_of, data_of-append,
}
use database_engine.Common.Value.{
  ColumnType, int_type, bigint_type, double_type, bool_type, varchar_type, Value, null, int, bigint,
  double, bool, varchar, value_matches_type, InRange,
}
use database_engine.Common.Schema.{Column}
use database_engine.Storage.Record.{encode_value, decode_value}

fits : (front bytes rest : List ℕ) → length front + length bytes ≤ length (front ++ (bytes ++ rest))
fits front bytes rest = omega (arith, length-append front (bytes ++ rest), length-append bytes rest)

-- The two parts of a VARCHAR.
length_field :
    (v front rest : List ℕ)
    → read_fixed 2
        (data_of (front ++ ((fixed_bytes 2 (length v % 2 ^ 16) ++ v) ++ rest)))
        (length front)
      ≡ length v % 2 ^ 16
length_field v front rest =
    rw (append_assoc (fixed_bytes 2 (length v % 2 ^ 16)) v rest)
      (read_fixed-data_of 2 (length v % 2 ^ 16) front (v ++ rest) (omega arith))

text_field :
    (v front rest : List ℕ)
    → read_bytes
        (length v)
        (data_of (front ++ ((fixed_bytes 2 (length v % 2 ^ 16) ++ v) ++ rest)))
        (length front + 2)
      ≡ v
text_field v front rest =
    let head = fixed_bytes 2 (length v % 2 ^ 16) in
    rw (append_assoc head v rest) (
      rw
        (
          append_assoc front head (v ++ rest),
          length-append front head,
          length-fixed_bytes 2 (length v % 2 ^ 16),
        )
        at (read_bytes-data_of v (front ++ head) rest))

-- One value behind anything and before anything.
pub decode_value-encode_value :
    (col : Column) (v : Value) (t : ColumnType) (bytes front rest : List ℕ)
    → value_matches_type v t ≡ true
    → InRange v
    → encode_value col v ≡ ok bytes
    → decode_value t (front ++ (bytes ++ rest)) (length front) ≡ ok (v, length front + length bytes)
unfolding decode_value encode_value value_matches_type
decode_value-encode_value col null t bytes front rest m r e = cc
decode_value-encode_value col (int v) int_type bytes front rest m r e =
    ground (arith, read_fixed-data_of 4 v front rest, length-fixed_bytes 4 v, fits front bytes rest)
decode_value-encode_value col (bigint v) bigint_type bytes front rest m r e =
    ground (arith, read_fixed-data_of 8 v front rest, length-fixed_bytes 8 v, fits front bytes rest)
decode_value-encode_value col (double v) double_type bytes front rest m r e =
    ground (arith, read_fixed-data_of 8 v front rest, length-fixed_bytes 8 v, fits front bytes rest)
decode_value-encode_value col (bool true) bool_type bytes front rest m r e =
    ground (arith, data_of-append front 1 rest, fits front bytes rest)
decode_value-encode_value col (bool false) bool_type bytes front rest m r e =
    ground (arith, data_of-append front 0 rest, fits front bytes rest)
decode_value-encode_value col (varchar v) varchar_type bytes front rest m r e =
    let head = fixed_bytes 2 (length v % 2 ^ 16) in
    ground (
      arith,
      length-append head v,
      length-fixed_bytes 2 (length v % 2 ^ 16),
      length_field v front rest,
      text_field v front rest,
      fits front bytes rest,
    )
decode_value-encode_value col _ t bytes front rest m r e = ground arith
