-- ===== src/Catalog/Metadata.antt =====
-- catalog/table_metadata.hpp and catalog/index_metadata.hpp. Names are byte strings.
use database_engine.Base.{ℕ, List}
use database_engine.Common.Schema.{Schema}
use database_engine.Storage.Page.{RecordId}

pub record TableMetadata : Type 0 where
  pub table_id : ℕ
  pub table_name : List ℕ
  pub schema : Schema
  pub first_page_id : ℕ
  pub catalog_record_id : RecordId

pub record IndexMetadata : Type 0 where
  pub index_id : ℕ
  pub index_name : List ℕ
  pub table_name : List ℕ
  pub column_name : List ℕ
  pub meta_page_id : ℕ
  pub catalog_record_id : RecordId
