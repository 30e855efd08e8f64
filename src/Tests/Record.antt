-- ===== src/Tests/Record.antt =====
-- storage/record.cpp on a row with a null and a text.
use database_engine.Base.{ℕ, ◌≡◌, refl, ◌⊎◌, true, false, List, [], ◌∷◌, ◌++◌, arith}
use database_engine.Util.Status.{ok, err, invalid_argument}
use database_engine.Util.Bytes.{fixed_bytes}
use database_engine.Common.Value.{
  value_matches_type, is_null, int_type, varchar_type, Value, null, int, varchar,
}
use database_engine.Common.Schema.{Schema}
use database_engine.Storage.Record.{encode, decode}
use database_engine.Storage.Record.RoundTrip.{decode-encode}
use database_engine.Storage.Record.Accepts.{TakesRow, encode-accepts}

abbrev schema : Schema
schema =
    record { name = 97 ∷ []; type = int_type; nullable = false; max_length = 255 }
    ∷ record { name = 98 ∷ []; type = varchar_type; nullable = true; max_length = 3 }
    ∷ record { name = 99 ∷ []; type = varchar_type; nullable = true; max_length = 3 }
    ∷ []

abbrev row : List Value
row = int 258 ∷ null ∷ varchar (104 ∷ 105 ∷ []) ∷ []

encoded_row : encode schema row ≡ ok (2 ∷ 2 ∷ 1 ∷ 0 ∷ 0 ∷ 2 ∷ 0 ∷ 104 ∷ 105 ∷ [])
unfolding encode fixed_bytes value_matches_type is_null
encoded_row = refl

too_long : encode schema (int 0 ∷ null ∷ varchar (1 ∷ 2 ∷ 3 ∷ 4 ∷ []) ∷ []) ≡ err invalid_argument
unfolding encode fixed_bytes value_matches_type is_null
too_long = refl

decode-encode_example :
    decode schema ((2 ∷ 2 ∷ 1 ∷ 0 ∷ 0 ∷ 2 ∷ 0 ∷ 104 ∷ 105 ∷ []) ++ 9 ∷ []) ≡ ok row
decode-encode_example =
    decode-encode schema row (2 ∷ 2 ∷ 1 ∷ 0 ∷ 0 ∷ 2 ∷ 0 ∷ 104 ∷ 105 ∷ []) (9 ∷ []) (omega arith)
      encoded_row

encode-accepts_example :
    (TakesRow schema row × (bytes : List ℕ) × (encode schema row ≡ ok bytes))
    ⊎ ((¬ TakesRow schema row) × (encode schema row ≡ err invalid_argument))
encode-accepts_example = encode-accepts schema row
