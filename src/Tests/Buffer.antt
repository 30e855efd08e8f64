-- ===== src/Tests/Buffer.antt =====
-- buffer/buffer_pool.cpp on a pool of two frames.
use database_engine.Base.{ℕ, ◌≡◌, ◌⊎◌, none, some, []}
use database_engine.Buffer.Pool.{BufferPool, new_pool, fetch_page}
use database_engine.Buffer.Pool.Invariant.{OnDisk, IsValid, Keeps, new_pool-IsValid}
use database_engine.Buffer.Pool.Load.{Fetched}
use database_engine.Buffer.Pool.Cache.{Marks, fetch_page_lem}
use database_engine.Tests.PageFile.{one_page, one_page-IsValid}

abbrev pool : BufferPool
pool = new_pool one_page 2

fetch_page_lem_example :
    ((f : ℕ) × ((fetch_page pool 1).0 ≡ some f)
      × Fetched pool 1 f (fetch_page pool 1).1
      × Marks pool 1 (fetch_page pool 1).1)
    ⊎ ((fetch_page pool 1).0 ≡ none)
      × IsValid (fetch_page pool 1).1
      × Keeps pool (fetch_page pool 1).1
      × Marks pool 1 (fetch_page pool 1).1
      × (pool.page_table 1 ≡ none)
      × ((¬ OnDisk pool 1) ⊎ (pool.free_list ≡ []) × (pool.replacer ≡ []))
fetch_page_lem_example = fetch_page_lem pool 1 (new_pool-IsValid one_page 2 one_page-IsValid)
