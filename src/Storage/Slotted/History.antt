-- ===== src/Storage/Slotted/History.antt =====
-- Any sequence of the operations of storage/slotted_page.hpp, from a fresh page on.
use database_engine.Base.{
  ℕ, ◌^◌, ◌<◌, inl, inr, List, [], ◌∷◌, arith, Bool-cases, Option-cases, All,
}
use database_engine.Storage.Page.{Page}
use database_engine.Storage.Slotted.{
  init, set_next_page_id, insert_record, delete_record, update_record_in_place,
}
use database_engine.Storage.Slotted.Invariant.{IsValid, insert_record-Placed}
use database_engine.Storage.Slotted.Reads.{
  insert_record-fails, get_record-delete_record, get_record-update_record,
}
use database_engine.Storage.Slotted.Preserve.{
  init-IsValid, set_next_page_id-IsValid, Placed-IsValid, Resized-IsValid, delete_record-Resized,
  update_record_in_place-Resized,
}

-- A call, with its arguments.
pub data Call : Type 0 where
  inserts : List ℕ → Call
  deletes : ℕ → Call
  updates : ℕ → List ℕ → Call
  links : ℕ → Call

-- The page that a call leaves, whatever it answered.
unfoldable pub step : Page → Call → Page
step p (inserts bytes) = (insert_record p bytes).1
step p (deletes i) = (delete_record p i).1
step p (updates i bytes) = (update_record_in_place p i bytes).1
step p (links next) = set_next_page_id p next

unfoldable pub run : Page → List Call → Page
unfolding step
run p [] = p
run p (c ∷ cs) = run (step p c) cs

-- A page id that is linked is a 32-bit pattern.
abbrev pub InRange : Call → Type 0
InRange (links next) = next < 2 ^ 32
InRange _ = Unit

step-IsValid : (p : Page) (c : Call) → InRange c → IsValid p → IsValid (step p c)
unfolding step
step-IsValid p (inserts bytes) r v = elim (Option-cases (insert_record p bytes).0) [
  | inl e ↦ rw ((insert_record-fails p bytes v).1 e) v
  | inr (i, e) ↦ Placed-IsValid p _ i bytes v (insert_record-Placed p _ i bytes v (ground arith))
]
step-IsValid p (deletes i) r v = elim (Bool-cases (delete_record p i).0) [
  | inl e ↦ Resized-IsValid p _ i [] v (delete_record-Resized p _ i v (ground arith))
  | inr e ↦ rw ((get_record-delete_record p i v).1 e) v
]
step-IsValid p (updates i bytes) r v = elim (Bool-cases (update_record_in_place p i bytes).0) [
  | inl e ↦
      Resized-IsValid p _ i bytes v (update_record_in_place-Resized p _ i bytes v (ground arith))
  | inr e ↦ rw ((get_record-update_record p i bytes v).1 e) v
]
step-IsValid p (links next) r v = set_next_page_id-IsValid p next r v

run-IsValid : (p : Page) (cs : List Call) → All InRange cs → IsValid p → IsValid (run p cs)
unfolding run
run-IsValid p [] r v = v
run-IsValid p (c ∷ cs) r v = run-IsValid (step p c) cs r.1 (step-IsValid p c r.0 v)

-- After `init` and any calls, failing or not, the directory and the records stay inside the page and
-- no two live records overlap.
pub run-init-IsValid :
    (p : Page) (id next : ℕ) (cs : List Call)
    → id < 2 ^ 32
    → next < 2 ^ 32
    → All InRange cs
    → IsValid (run (init p id next) cs)
run-init-IsValid p id next cs a b r = run-IsValid (init p id next) cs r (init-IsValid p id next a b)
