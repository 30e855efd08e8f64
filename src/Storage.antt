-- ===== src/Storage.antt =====
-- storage/: pages, records and files of records.
pub mod Page
pub mod Slotted
pub mod Record
pub mod PageFile
