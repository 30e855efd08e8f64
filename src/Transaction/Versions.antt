-- ===== src/Transaction/Versions.antt =====
-- transaction/mvcc.cpp: the header of a row's version, its creator and its deleter. `substr` throws on a row
-- shorter than the header, and `drop` gives nothing then.
use database_engine.Base.{
  ℕ, ◌*◌, ◌^◌, ◌<◌, ◌≡◌, ap, ◌∙◌, subst, List, [], ◌++◌, append_assoc, arith, length, drop,
  length-append, drop_append,
}
use database_engine.Util.Bytes.{
  read_fixed, fixed_bytes, data_of, read_fixed-data_of, length-fixed_bytes,
}
use database_engine.Transaction.Visibility.{VersionMeta}

abbrev pub version_header_size : ℕ
version_header_size = 8 * 2

unfoldable pub encode_versioned : VersionMeta → List ℕ → List ℕ
encode_versioned meta row = (fixed_bytes 8 meta.xmin ++ fixed_bytes 8 meta.xmax) ++ row

unfoldable pub decode_version_meta : List ℕ → VersionMeta
unfolding data_of
decode_version_meta bytes = record {
  xmin = read_fixed 8 (data_of bytes) 0;
  xmax = read_fixed 8 (data_of bytes) 8;
}

unfoldable pub row_payload : List ℕ → List ℕ
row_payload bytes = drop version_header_size bytes

-- What `DeleteVersion` writes in place of a row: the same row with another deleter.
unfoldable pub deleted_version : ℕ → List ℕ → List ℕ
unfolding encode_versioned decode_version_meta row_payload
deleted_version txn_id bytes =
    encode_versioned (record (decode_version_meta bytes) { xmax = txn_id }) (row_payload bytes)

length-version_header :
    (meta : VersionMeta) → length (fixed_bytes 8 meta.xmin ++ fixed_bytes 8 meta.xmax) ≡ 16
length-version_header meta = omega (
  arith,
  length-append (fixed_bytes 8 meta.xmin) (fixed_bytes 8 meta.xmax),
  length-fixed_bytes 8 meta.xmin,
  length-fixed_bytes 8 meta.xmax,
)

module _ (meta : VersionMeta) (row : List ℕ) (min_fits : meta.xmin < 2 ^ 64)
    (max_fits : meta.xmax < 2 ^ 64) where
  decode-encode_versioned : decode_version_meta (encode_versioned meta row) ≡ meta
  unfolding decode_version_meta encode_versioned
  decode-encode_versioned =
      let low = fixed_bytes 8 meta.xmin in
      let high = fixed_bytes 8 meta.xmax in
      let split : (low ++ high) ++ row ≡ low ++ (high ++ row) = append_assoc low high row in
      let first = read_fixed-data_of 8 meta.xmin [] (high ++ row) min_fits in
      let second =
        rw (length-fixed_bytes 8 meta.xmin) at (read_fixed-data_of 8 meta.xmax low row max_fits) in
      cc (split, first, second)

  payload-encode_versioned : row_payload (encode_versioned meta row) ≡ row
  unfolding row_payload encode_versioned
  payload-encode_versioned =
      let header = fixed_bytes 8 meta.xmin ++ fixed_bytes 8 meta.xmax in
      subst (λ n. drop n (header ++ row) ≡ row) (length-version_header meta)
        (drop_append header row)

  -- To delete a version changes its deleter alone, and the row keeps its length, so that it is updated
  -- in place. The ids fit 64 bits.
  pub deleted_version_lem :
      (txn_id : ℕ)
      → (deleted_version txn_id (encode_versioned meta row)
          ≡ encode_versioned (record meta { xmax = txn_id }) row)
        × (length (deleted_version txn_id (encode_versioned meta row))
            ≡ length (encode_versioned meta row))
  unfolding deleted_version
  deleted_version_lem txn_id =
      let same : deleted_version txn_id (encode_versioned meta row)
          ≡ encode_versioned (record meta { xmax = txn_id }) row =
        cc (decode-encode_versioned, payload-encode_versioned) in
      (
        same,
        ap length same
            ∙ unfold encode_versioned in
              omega (
                arith,
                length-append (fixed_bytes 8 meta.xmin ++ fixed_bytes 8 meta.xmax) row,
                length-append (fixed_bytes 8 meta.xmin ++ fixed_bytes 8 txn_id) row,
                length-version_header meta,
                length-version_header (record meta { xmax = txn_id }),
              ),
      )
