-- ===== src/Storage/Page.antt =====
-- storage/page.hpp and utilities/config.hpp. A page is raw memory of `page_size` bytes; an
-- `int32_t` page id is its bit pattern, so -1 is 2 ^ 32 - 1 and the negative ids are those from
-- 2 ^ 31 on.
use database_engine.Base.{ℕ, ◌-◌, ◌^◌, ◌≡◌, ◌↔◌, Bool, true, not, ◌&&◌, arith, ◌==◌}
use database_engine.Util.Bytes.{Memory}
use database_engine.Util.Sets.{Eq}

-- `Page::Size()`.
abbrev pub page_size : ℕ
page_size = 4096

abbrev pub header_page_id : ℕ
header_page_id = 0

abbrev pub first_data_page_id : ℕ
first_data_page_id = 1

abbrev pub invalid_page_id : ℕ
invalid_page_id = 2 ^ 32 - 1

abbrev pub Page : Type 0
Page = Memory

-- `Page()` and `Reset()`.
unfoldable pub blank : Page
blank i = 0

pub record RecordId : Type 0 where
  pub page_id : ℕ
  pub slot_id : ℕ

-- `operator==`, `RecordIdEq` and the test that the index and the lock table make.
abbrev pub same_rid : RecordId → RecordId → Bool
same_rid a b = a.page_id == b.page_id && a.slot_id == b.slot_id

pub same_rid_iff : (a b : RecordId) → (same_rid a b ≡ true) ↔ (a ≡ b)
same_rid_iff a b = ground arith

instance abbrev pub rid_eq : Eq RecordId
rid_eq = record { eqb = same_rid; eqb_correct = same_rid_iff }

-- `RecordId::IsValid()`.
abbrev pub is_valid : RecordId → Bool
is_valid r = not (r.page_id == invalid_page_id)
