-- ===== src/Recovery/Wal/Torn.antt =====
-- A crash in the middle of an append of recovery/wal_manager.cpp.
use database_engine.Base.{
  ℕ, zero, suc, ◌%◌, ◌^◌, ◌≤◌, ◌<◌, ◌≡◌, refl, ap, ◌∙◌, subst, List, [], ◌++◌, append-nil, arith,
  length, drop, All, length-append, drop_append,
}
use database_engine.Util.Status.{ok, err, corruption}
use database_engine.Util.Bytes.{
  read_fixed, fixed_bytes, data_of, length-fixed_bytes, read_fixed-data_of,
}
use database_engine.Recovery.Wal.{WalRecord, body, read_from, read_all, open_log}
use database_engine.Recovery.Wal.Frames.{Fits}
use database_engine.Recovery.Wal.History.{framed, read_all-framed, read_from_short}

read_from_cut :
    (fuel len : ℕ) (bytes left : List ℕ)
    → 4 ≤ length bytes
    → read_fixed 4 (data_of bytes) 0 ≡ len
    → drop 4 bytes ≡ left
    → length left < len
    → read_from (suc fuel) bytes ≡ err corruption
unfolding read_from
read_from_cut fuel len bytes left long e d short = rw (e, d) (ground arith)

-- The part of a record that reached the file: its first bytes, fewer than all.
torn_read :
    (fuel : ℕ) (r : WalRecord) (part : List ℕ)
    → length (body r) < 2 ^ 32
    → length part < length (body r)
    → 1 ≤ fuel
    → read_from fuel (fixed_bytes 4 (length (body r) % 2 ^ 32) ++ part) ≡ err corruption
torn_read zero r part fits short fuelled = absurd (omega arith)
torn_read (suc fuel) r part fits short fuelled =
    let n = length (body r) % 2 ^ 32 in
    let head = fixed_bytes 4 n in
    let behind : drop (length head) (head ++ part) ≡ part = drop_append head part in
    let read = read_fixed-data_of 4 n [] part (omega arith) in
    read_from_cut fuel n (head ++ part) part
      (omega (arith, length-append head part, length-fixed_bytes 4 n)) read
      (subst (λ k. drop k (head ++ part) ≡ part) (length-fixed_bytes 4 n) behind) (omega arith)

module _ (rs : List WalRecord) (fits : All Fits rs) (r : WalRecord)
    (small : length (body r) < 2 ^ 32) where
  -- A crash that leaves the length of a record and a part of its body makes the whole log unreadable,
  -- the records before it too: `ReadAll` answers `corruption`, and the log is opened with 1 as its
  -- next number.
  pub read_all-torn_body :
      (part : List ℕ)
      → length part < length (body r)
      → let file = framed rs ++ (fixed_bytes 4 (length (body r) % 2 ^ 32) ++ part) in
        (read_all file ≡ err corruption) × ((open_log file).next_lsn ≡ 1)
  unfolding open_log
  read_all-torn_body part short =
      let tail = fixed_bytes 4 (length (body r) % 2 ^ 32) ++ part in
      let (fuel, enough, read) = read_all-framed rs tail fits in
      let size : 4 ≤ length tail = omega (
        arith,
        length-append (fixed_bytes 4 (length (body r) % 2 ^ 32)) part,
        length-fixed_bytes 4 (length (body r) % 2 ^ 32),
      ) in
      let failed : read_all (framed rs ++ tail) ≡ err corruption =
        read ∙ rw (torn_read fuel r part small short (omega arith)) refl in
      (failed, rw (open_log, failed) refl)

  -- A crash that leaves fewer than 4 bytes of the record loses that record alone.
  read_all-torn_length : (part : List ℕ) → length part < 4 → read_all (framed rs ++ part) ≡ ok rs
  read_all-torn_length part short =
      let (fuel, enough, read) = read_all-framed rs part fits in
      read ∙ rw (read_from_short fuel part short) (ap ok (append-nil rs))
