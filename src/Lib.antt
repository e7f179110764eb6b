-- ===== src/Lib.antt =====
-- A model of duck-duck-dbms, a small relational database in C++, and theorems about it.
--
-- The program keeps rows in slotted pages, which a buffer pool caches; tables are chains of pages;
-- a catalog names the tables. Transactions take row locks by two-phase locking and keep an undo
-- log. Queries are bound against the catalog, planned, and run by operators, which evaluate
-- expressions on records of values. What is modelled:
--
--   * Txn: src/transaction/lock_manager.cpp, manager.cpp and transaction.cpp. `Txn.Queue` is one
--     queue of requests (`can_grant` and what is done to its nodes), `Txn.Locks` the lock table,
--     the transactions and the calls: `lock_shared`, `lock_exclusive`, `unlock_all`, `begin`,
--     `commit`, `abort`. The latch makes a call atomic up to its wait on the condition variable,
--     so a run of the program is a sequence of calls and wakings, `Txn.Locks.step`, in any order
--     of the threads. A waking tests the predicate again, and a flag says whether the second is
--     over. A thread that waits makes no call, and a transaction has one thread. What an undo
--     record does to the tables (src/transaction/undo.cpp) is not modelled: the lock manager does
--     not depend on it, and what is said of it holds whatever a record does.
--   * Table: `Table.Page` is src/table/slotted_page.cpp, with the page size of
--     include/duck/config/sizes.hpp. The header and the slot directory, which the program lays over
--     the first bytes of a page, are fields of a record beside the bytes. The 16-bit arithmetic is
--     written out. A page is valid (`Table.Page.Layout.IsValid`) when the directory ends below the
--     free space, and the live tuples lie above it, inside the page and apart from each other.
--   * Storage: `Storage.Disk` is src/storage/disk_manager.cpp: `allocate_page`, `deallocate_page`,
--     `write_page` and `read_page`. The file and what `pread` and `pwrite` do to it are a
--     parameter, `FileOps`; what POSIX says of them is the hypothesis `Storage.Disk.Pages.IsFile`,
--     and of the length of a read `Buffer.Invariant.IsBounded`.
--   * Buffer: src/buffer/pool_manager.cpp, replacer.cpp and page.cpp. A `Pool` has the frames, the
--     page table, the free frames, the list of the replacer, and the disk manager and the file below
--     it. A call gives its result or what it throws, and the pool that it leaves; calls are one after
--     the other. `Buffer.Invariant.contents` is what a client means by the bytes of a page: those in
--     its frame, or else those on the disk. Clients are the steps of `Buffer.Clients.Step`.
--   * Tuple: `Tuple.Value` is src/tuple/value.cpp and include/duck/tuple/value.hpp. Integers are
--     integers of the range of their type, strings are lists of bytes, and doubles and floats are
--     their bit patterns. `Tuple.Schema` is src/tuple/column.cpp and, of
--     src/tuple/schema.cpp, the byte codec, `column_index` and `projected`.
--     `Tuple.Row` is src/tuple/tuple.cpp: the checks of the constructor, the bitmap of nulls,
--     `serialize`, `compute_offsets` and `deserialize`.
--   * Expression: src/expression/*.cpp and include/duck/record/record.hpp. `Compare` is
--     `ComparisonExpression::compare`, `Evaluate` the expression tree. What the processor does with
--     doubles, comparison and conversion, is the record `FloatOps`, a parameter of the model. Code
--     that throws returns a `Result`.
--   * Plan: src/plan and, of src/execution, the state of the operators, `build` and `reset`. The
--     schema of a table and the records that a scan of it gives are parameters.
--   * Execution: `next` of the operators in src/execution/operator, and `drain`, a client that takes
--     records until there are no more, as src/main.cpp does. `Execution.Meaning.meaning` says which
--     records a plan means: for a join, the pairs block by block. `Execution.Typed.HasPlan` are the
--     plans whose predicates and columns fit the records of the tables.
--   * Query: src/query and include/duck/query. `Query` has the expressions and the queries that a
--     client builds, `Query.Binder` is src/query/binder.cpp and query_engine.cpp: names are resolved
--     against the tables in scope, and the bound query is the plan that `Plan.make_join` and the
--     other constructors build, which is optimized and run. The catalog is what it answers to a
--     name. `Query.Answers` says what a query asks for by its names alone, with no plan.
--
-- Loops are recursion on a list, an expression or a plan. The exception is `next`, whose fuel bounds
-- the rounds of the loops and the depth of the operators together, and `drain`; the theorems on them
-- show that some amount of fuel, and each one above it, is enough.
--
-- Not modelled: the header of the database file; the latches of the buffer pool and `PinnedPage`
-- (src/buffer); chains of pages and tables (src/table/table_heap.cpp, table.cpp); the catalog and
-- the database (src/catalog, src/database); values and rows as text; the lexer and the parser,
-- which are empty files; src/main.cpp, which is a demonstration. Reading a page through pointers
-- that overlap its bytes is not modelled either: the directory and the tuples are separate, which
-- the valid layout justifies.
mod Common
pub mod Buffer
pub mod Execution
pub mod Expression
pub mod Plan
pub mod Query
pub mod Storage
pub mod Table
pub mod Tuple
pub mod Txn
