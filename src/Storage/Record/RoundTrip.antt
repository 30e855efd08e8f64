-- ===== src/Storage/Record/RoundTrip.antt =====
-- What `Encode` of storage/record.cpp writes, `Decode` reads back.
use database_engine.Base.{
  ℕ, ◌+◌, ◌*◌, ◌≤◌, ◌<◌, ◌≡◌, refl, ap, ◌∙◌, ◌⊎◌, inl, inr, true, false, List, [], ◌∷◌, ◌++◌,
  append_assoc, append-nil, arith, Bool-cases, length, replicate, All, length-append,
  length-replicate,
}
use database_engine.Util.Status.{Result, ok, >>=-ok_parts}
use database_engine.Common.Value.{Value, null, is_null, value_matches_type, InRange}
use database_engine.Common.Schema.{Column, Schema, column_count}
use database_engine.Storage.Record.{
  null_bitmap_bytes, set_null_bit, null_bit, encode_value, encode_from, encode, decode_from, decode,
}
use database_engine.Storage.Record.Bitmap.{
  IsByte, null_bit-set_null_bit, length-set_null_bit, All-set_null_bit, set_null_bit-append,
  null_bit-append, null_bit-replicate, All-replicate,
}
use database_engine.Storage.Record.Values.{decode_value-encode_value}
use native.Mathlib.Nat.{add-zero}

-- What the loop of `encode` makes of a buffer of a bitmap `bm` and a payload `pay`, from column `i` on.
record Encoded (cols : Schema) (vs : List Value) (i : ℕ) (bm pay bytes : List ℕ) : Type 0 where
  bitmap : List ℕ
  payload : List ℕ
  split : bytes ≡ bitmap ++ (pay ++ payload)
  size : length bitmap ≡ length bm
  earlier : (j : ℕ) → j < i → null_bit bitmap j ≡ null_bit bm j
  decoded :
      (rest : List ℕ)
      → decode_from cols ((bitmap ++ (pay ++ payload)) ++ rest) i (length bm + length pay) ≡ ok vs

null_bit_behind :
    (bm mid rest : List ℕ) (i : ℕ)
    → i < 8 * length bm
    → null_bit ((bm ++ mid) ++ rest) i ≡ null_bit bm i
null_bit_behind bm mid rest i lt = rw (append_assoc bm mid rest) (null_bit-append bm _ i lt)

regroup :
    (bm pay part more rest : List ℕ)
    → (bm ++ pay) ++ (part ++ (more ++ rest)) ≡ (bm ++ (pay ++ (part ++ more))) ++ rest
regroup bm pay part more rest = simp append_assoc

abbrev Clear : List ℕ → ℕ → Type 0
Clear bm i = (j : ℕ) → i ≤ j → null_bit bm j ≡ false

module _ (col : Column) (cols : Schema) (v : Value) (vs : List Value) (i : ℕ)
    (bm pay bytes : List ℕ) (room : i < 8 * length bm) where
  Encoded-null :
      v ≡ null
      → All IsByte bm
      → Encoded cols vs (i + 1) (set_null_bit bm i) pay bytes
      → Encoded (col ∷ cols) (v ∷ vs) i bm pay bytes
  unfolding decode_from
  Encoded-null n b e = record {
    bitmap = e.bitmap;
    payload = e.payload;
    split = e.split;
    size = e.size ∙ length-set_null_bit bm i;
    earlier = λ j lt. ground (arith, e.earlier j, null_bit-set_null_bit bm i j b room);
    decoded = λ rest.
        let marked =
          null_bit_behind e.bitmap (pay ++ e.payload) rest i
            (omega (arith, e.size, length-set_null_bit bm i)) in
        ground (
          arith,
          n,
          marked,
          e.earlier i,
          null_bit-set_null_bit bm i i b room,
          rw length-set_null_bit at (e.decoded rest),
        );
  }

  Encoded-value :
      (part : List ℕ)
      → value_matches_type v col.type ≡ true
      → InRange v
      → encode_value col v ≡ ok part
      → Clear bm i
      → Encoded cols vs (i + 1) bm (pay ++ part) bytes
      → Encoded (col ∷ cols) (v ∷ vs) i bm pay bytes
  unfolding decode_from
  Encoded-value part m r p c e = record {
    bitmap = e.bitmap;
    payload = part ++ e.payload;
    split = e.split ∙ ap (◌++◌ e.bitmap) (append_assoc pay part e.payload);
    size = e.size;
    earlier = λ j lt. e.earlier j (omega arith);
    decoded = λ rest.
        let clear =
          null_bit_behind e.bitmap (pay ++ (part ++ e.payload)) rest i (omega (arith, e.size)) in
        let here =
          rw (length-append e.bitmap pay, e.size, regroup e.bitmap pay part e.payload rest) at
            (decode_value-encode_value col v col.type part (e.bitmap ++ pay) (e.payload ++ rest) m r
              p) in
        let later =
          rw (length-append pay part, append_assoc pay part e.payload) at (e.decoded rest) in
        let cursor : length bm + (length pay + length part) ≡ length bm + length pay + length part =
          omega arith in
        ground (arith, clear, e.earlier i, c i, here, cursor, later);
  }

is_null→eq : (v : Value) → is_null v ≡ true → v ≡ null
unfolding is_null
is_null→eq v h = ground arith

-- The two ways on which the loop goes on.
encode_from_inversion :
    (col : Column) (cols : Schema) (v : Value) (vs : List Value) (i : ℕ) (out bytes : List ℕ)
    → encode_from (col ∷ cols) (v ∷ vs) i out ≡ ok bytes
    → (value_matches_type v col.type ≡ true)
      × ((v ≡ null) × (encode_from cols vs (i + 1) (set_null_bit out i) ≡ ok bytes)
          ⊎ ((part : List ℕ) × (encode_value col v ≡ ok part)
              × (encode_from cols vs (i + 1) (out ++ part) ≡ ok bytes)))
unfolding encode_from
encode_from_inversion col cols v vs i out bytes e = elim (Bool-cases (is_null v)) [
  | inl n ↦ (ground arith, inl (is_null→eq v n, ground arith))
  | inr n ↦ (
    ground arith,
    inr (
        let next : List ℕ → Result (List ℕ) = λ part. encode_from cols vs (i + 1) (out ++ part) in
        let (part, rest, found) = >>=-ok_parts next (encode_value col v) (ground arith) in
        (part, found, rest)),
  )
]

encode_from-Encoded :
    (cols : Schema) (vs : List Value) (i : ℕ) (bm pay bytes : List ℕ)
    → length vs ≡ length cols
    → i + length cols ≤ 8 * length bm
    → All IsByte bm
    → All InRange vs
    → Clear bm i
    → encode_from cols vs i (bm ++ pay) ≡ ok bytes
    → Encoded cols vs i bm pay bytes
unfolding encode_from
encode_from-Encoded [] [] i bm pay bytes l room b r c e = record {
  bitmap = bm;
  payload = [];
  split = rw append-nil (ground arith);
  size = refl;
  earlier = λ j lt. refl;
  decoded = λ rest. unfold decode_from in refl;
}
encode_from-Encoded [] (v ∷ vs) i bm pay bytes l room b r c e = absurd (omega arith)
encode_from-Encoded (col ∷ cols) [] i bm pay bytes l room b r c e = absurd (omega arith)
encode_from-Encoded (col ∷ cols) (v ∷ vs) i bm pay bytes l room b r c e =
    let (m, way) = encode_from_inversion col cols v vs i (bm ++ pay) bytes e in
    let lt : i < 8 * length bm = omega arith in
    elim way [
      | inl (n, later) ↦ Encoded-null col cols v vs i bm pay bytes lt n b (
          encode_from-Encoded cols vs (i + 1) (set_null_bit bm i) pay bytes (omega arith)
            (omega (arith, length-set_null_bit bm i)) (All-set_null_bit bm i b) r.1
            (λ j k. ground (arith, null_bit-set_null_bit bm i j b lt, c j))
            (rw (set_null_bit-append bm pay i lt) at later))
      | inr (part, p, later) ↦ Encoded-value col cols v vs i bm pay bytes lt part m r.0 p c (
          encode_from-Encoded cols vs (i + 1) bm (pay ++ part) bytes (omega arith) (omega arith) b
            r.1 (λ j k. c j (omega arith)) (rw (append_assoc bm pay part) at later))
    ]

-- Whatever `encode` returns for a row whose values fit their types' widths, `decode` with the same
-- schema reads back as that row, also with more bytes behind it.
pub decode-encode :
    (schema : Schema) (values : List Value) (bytes rest : List ℕ)
    → All InRange values
    → encode schema values ≡ ok bytes
    → decode schema (bytes ++ rest) ≡ ok values
unfolding encode decode
decode-encode schema values bytes rest r e =
    let n = null_bitmap_bytes (column_count schema) in
    let bm : List ℕ = replicate n 0 in
    let size : length bm ≡ n = length-replicate n 0 in
    let run : encode_from schema values 0 bm ≡ ok bytes = ground arith in
    let count : length values ≡ length schema = ground arith in
    let enc =
      encode_from-Encoded schema values 0 bm [] bytes count (omega (arith, size)) (All-replicate n)
        r (λ j _. null_bit-replicate n j) (rw (append-nil bm) run) in
    let whole = length-append (enc.bitmap ++ enc.payload) rest in
    rw enc.split (
      ground (
        arith,
        size,
        enc.size,
        length-append enc.bitmap enc.payload,
        whole,
        rw (size, add-zero) at (enc.decoded rest),
      ))
