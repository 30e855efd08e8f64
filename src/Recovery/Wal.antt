-- ===== src/Recovery/Wal.antt =====
-- recovery/wal_record.hpp, wal_manager.hpp and wal_manager.cpp: the log file. `file_` is its bytes, and a
-- write to it succeeds. The constructor's calls of the file system and the mutex are left out.
pub mod Frames
pub mod History
pub mod Torn
use database_engine.Base.{
  ℕ, zero, suc, ◌+◌, ◌-◌, ◌*◌, ◌/◌, ◌%◌, ◌^◌, ◌≤◌, ◌<◌, ◌≡◌, refl, sym, ap, ◌∙◌, fun_ext, subst,
  ◌≢◌, ◌↔◌, ◌⊎◌, inl, inr, Bool, true, false, not, ◌&&◌, ◌||◌, Option, none, some, List, [], ◌∷◌,
  ◌++◌, map, append_assoc, append-nil, arith, ltb, leb, ◌==◌, if◌then◌else◌, ltb→lt, lt→ltb, le→ltb,
  leb→le, ==_iff, Bool-cases, Option-cases, lt-or-le, length, get_elem?, set, get_or, take, drop,
  replicate, All, length-append, length-replicate, take_append, drop_append, length-take,
  length-drop, length-set, get_elem?-set_self, get_elem?-set_ne,
}
use database_engine.Util.Status.{Result, ok, err, corruption, ◌>>=◌}
use database_engine.Util.Bytes.{read_fixed, read_bytes, fixed_bytes, data_of}
use database_engine.Storage.Page.{Page, page_size, invalid_page_id}
use database_engine.Transaction.Manager.{invalid_txn_id}

-- `WALRecordType` is a byte, since `ReadAll` casts whatever byte it finds.
abbrev pub update_type : ℕ
update_type = 1

abbrev pub commit_type : ℕ
commit_type = 2

abbrev pub abort_type : ℕ
abort_type = 3

abbrev pub checkpoint_type : ℕ
checkpoint_type = 4

pub record WalRecord : Type 0 where
  pub lsn : ℕ
  pub type : ℕ
  pub txn_id : ℕ
  pub page_id : ℕ
  pub before_image : List ℕ
  pub after_image : List ℕ

pub record WalManager : Type 0 where
  pub file : List ℕ
  pub next_lsn : ℕ

abbrev pub fixed_size : ℕ
fixed_size = 8 + 1 + 8 + 4

-- `fixed`, the part that every record has.
abbrev pub fixed_part : WalRecord → List ℕ
fixed_part r = fixed_bytes 8 r.lsn ++ (r.type ∷ (fixed_bytes 8 r.txn_id ++ fixed_bytes 4 r.page_id))

-- `buf`, and with its length before it what is written.
unfoldable pub body : WalRecord → List ℕ
body r =
    if r.type == update_type
    then fixed_part r ++ (r.before_image ++ r.after_image)
    else fixed_part r

unfoldable pub frame : WalRecord → List ℕ
frame r = fixed_bytes 4 (length (body r) % 2 ^ 32) ++ body r

unfoldable pub append_record : WalManager → WalRecord → ℕ × WalManager
append_record w record_in =
    let r = record record_in { lsn = w.next_lsn } in
    (r.lsn, record { file = w.file ++ frame r; next_lsn = (w.next_lsn + 1) % 2 ^ 64 })

-- A record as `WALRecord r;` makes it.
abbrev pub plain : ℕ → ℕ → WalRecord
plain type txn_id = record {
  lsn = 0;
  type = type;
  txn_id = txn_id;
  page_id = invalid_page_id;
  before_image = [];
  after_image = [];
}

unfoldable pub append_update : WalManager → ℕ → ℕ → Page → Page → ℕ × WalManager
append_update w txn_id page_id before after = append_record w (record (plain update_type txn_id) {
  page_id = page_id;
  before_image = read_bytes page_size before 0;
  after_image = read_bytes page_size after 0;
})

unfoldable pub append_commit : WalManager → ℕ → ℕ × WalManager
append_commit w txn_id = append_record w (plain commit_type txn_id)

unfoldable pub append_abort : WalManager → ℕ → ℕ × WalManager
append_abort w txn_id = append_record w (plain abort_type txn_id)

unfoldable pub append_checkpoint : WalManager → ℕ × WalManager
append_checkpoint w = append_record w (plain checkpoint_type invalid_txn_id)

-- The fixed part of the record in `buf`. Where `buf` is shorter, its fields are read as 0.
unfoldable pub parse_fixed : List ℕ → WalRecord
unfolding data_of
parse_fixed buf = record {
  lsn = read_fixed 8 (data_of buf) 0;
  type = data_of buf 8;
  txn_id = read_fixed 8 (data_of buf) 9;
  page_id = read_fixed 4 (data_of buf) 17;
  before_image = [];
  after_image = [];
}

-- The record in `buf`.
unfoldable pub parse_body : List ℕ → Result WalRecord
unfolding parse_fixed
parse_body buf =
    let r = parse_fixed buf in
    if not (r.type == update_type)
    then ok r
    else if ltb (length buf) (fixed_size + 2 * page_size)
    then err corruption
    else ok (record r {
      before_image = take page_size (drop fixed_size buf);
      after_image = take page_size (drop (fixed_size + page_size) buf);
    })

-- The loop of `ReadAll` on what is left of the file. A turn that goes on reads 4 bytes or more, so the
-- length of the file is enough fuel.
unfoldable pub read_from : ℕ → List ℕ → Result (List WalRecord)
unfolding parse_body data_of
read_from zero bytes = ok []
read_from (suc fuel) bytes =
    let len = read_fixed 4 (data_of bytes) 0 in
    let left = drop 4 bytes in
    let later = read_from fuel (drop len left) in
    if ltb (length bytes) 4
    then ok []
    else if ltb (length left) len
    then err corruption
    else (parse_body (take len left) >>= λ r. later >>= λ records. ok (r ∷ records))

unfoldable pub read_all : List ℕ → Result (List WalRecord)
unfolding read_from
read_all file = read_from (length file) file

-- `existing.value().back().lsn + 1`, or 1 where there is no last record.
unfoldable pub lsn_after : List WalRecord → ℕ
lsn_after [] = 1
lsn_after (r ∷ []) = (r.lsn + 1) % 2 ^ 64
lsn_after (r ∷ s ∷ records) = lsn_after (s ∷ records)

-- The constructor, on the bytes of the log: a log that cannot be read leaves `next_lsn_` at 1.
unfoldable pub open_log : List ℕ → WalManager
unfolding read_all lsn_after
open_log file = elim (read_all file) [
  | ok records ↦ record { file = file; next_lsn = lsn_after records }
  | err code ↦ record { file = file; next_lsn = 1 }
]
