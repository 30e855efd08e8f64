-- ===== src/Lib.antt =====
-- minidb, a relational database engine: pages in a data file, a page cache, a write-ahead log with
-- recovery, transactions with versions and locks, and a parser of SQL. The development models these
-- parts after the C++ code. Paths are from the repository's root.
--
-- The parts, from the bottom up, and where they stand:
--   * src/utilities, src/common: Util.Status is `Result` and `Status` (codes without their texts),
--     Util.Bytes is `ReadFixed` and `WriteFixed` on memory as a function from address to byte,
--     Common.Value and Common.Schema are values (numbers and doubles as bit patterns) and columns.
--   * src/storage/page.hpp, slotted_page.hpp: Storage.Page and Storage.Slotted, every operation on
--     the 4096 bytes of a page; the layout, the invariant and what reads return are in its children.
--   * src/storage/record.cpp: Storage.Record, a row as a null bitmap and its values.
--   * src/storage/page_manager.cpp: Storage.PageFile, the data file as bytes, a size and a flag for
--     a stream that has failed. Its pages are what the buffer pool and recovery read and write.
--   * src/buffer: Buffer.Replacer, the frames in the order of their last unpinning, and Buffer.Pool,
--     frames, page table, free list and replacer over a data file. Buffer.Pool.Invariant says what a
--     client sees of a page, in memory or on disk; a pool refines that view.
--   * src/recovery: Recovery.Wal, the log as bytes, appended and read back record by record, and
--     Recovery.Replay, the three passes of `Recover` over the records and the data file.
--   * src/transaction: Transaction.Manager (ids and states; a pointer to a transaction is its id),
--     Transaction.Visibility (`IsVisible`), Transaction.Versions (the header of a row's version and what
--     `DeleteVersion` writes) and Transaction.Locks (shared and exclusive row locks).
--   * src/parser: Parser.Token, Parser.Tokenizer, Parser.Ast, Parser.Stream (the parser's state is
--     the tokens that are left), Parser.Literal, Parser.Expression and Parser.Statement.
--   * src/catalog: Catalog.Metadata are the records of a table's and an index's metadata, Catalog.Codec
--     is their encoding, Catalog.Directory is what `CatalogManager` does alike for tables and for indexes,
--     a map of names and a heap file, and Catalog.Manager puts the two together. The heap file is an
--     interface there, with its laws in Catalog.Directory.Loading.
--   * src/executor: Executor.Compare and Executor.Eval are the comparisons of value_compare.hpp and the
--     expressions of expr_eval.cpp, with doubles from Common.Double. Executor.Operator is the interface
--     of the operators of a plan, as a type of states with their methods, and Executor.Operator.Rows what
--     the calls of `Next` answer; Executor.Scan, IndexScan, Filter, Sort, Project, Limit and Aggregate
--     are the operators. Executor.Plan chooses an index, and Executor.Select is `ExecuteSelect`, which
--     builds the plan and runs it on a record of what tables, catalog and indexes answer.
--     Executor.Insert is how `ExecuteInsert` makes a row of literals.
--
-- Conventions. Machine integers are natural numbers with the wrap-around written out where the
-- source can reach it; a negative page id is its 32-bit pattern, 2 ^ 31 or more. A hash map is a
-- function to options, a hash set is a list without repetitions. Mutexes are left out: each call is
-- one step, and histories are lists of calls. Loops are structural recursion, but for `ReadAll` of the
-- log (fuel: the length of the file; each turn takes 4 bytes or more), `TokenizeAll` (one more than
-- the length of the text; each turn takes a character or more), lists with commas and chains of
-- `AND` and `OR` (one more than the number of tokens; each turn takes a token) and nested
-- parentheses (the same). The loops over `Next` in the executor make one turn more than the scan has
-- tuples at most; an operator answers no more tuples than its child. In the parser and the tokenizer
-- the code `corruption`, which the source does not answer there, marks the end of the fuel.
--
-- Not modelled: heap files and versioned records, the B+ tree, detection of deadlocks, and in the
-- executor the storing of rows with their index entries, UPDATE, DELETE and the statements on tables and
-- indexes, which are to follow; the command line, the network, the result formatter, tests and
-- benchmarks, which are input and output. The sum and the quotient of doubles are a parameter of the
-- aggregates, and `std::stod` is one of the parser. Failures of file writes are modelled in the data
-- file, as a stream that is not good, and not in the log.
pub mod Base
pub mod Util
pub mod Common
pub mod Storage
pub mod Buffer
pub mod Recovery
pub mod Transaction
pub mod Parser
pub mod Executor
pub mod Catalog
mod Tests
