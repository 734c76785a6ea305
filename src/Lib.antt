-- ===== src/Lib.antt =====
-- RUCbase, a teaching database: what its storage and its transactions do, modelled on the C++
-- sources under src/.
--
-- Parts and files.
--   Base       the numbers, lists, tests and lemmas that the parts share.
--   Lock       the lock manager of src/transaction/concurrency/lock_manager.cpp with the records of
--              src/transaction/transaction.h and txn_defs.h. Lock/Types has the ids, modes and
--              transactions; Lock/Queue what each lock function decides on the queue of one id
--              (decide_shared_on_table for lock_shared_on_table, and so on) and unlock_queue for
--              the queue part of unlock; Lock/Manager the functions over the whole table;
--              Lock/Manager/System any number of transactions that call them. Lock/Commit has begin
--              and commit of src/transaction/transaction_manager.cpp.
--   Storage    Storage/Replacer is src/replacer/lru_replacer.cpp, Storage/Disk the page functions of
--              src/storage/disk_manager.cpp, and Storage/Pool the buffer pool of
--              src/storage/buffer_pool_manager.cpp: Pool/Frames the state and what is done to one
--              frame, Pool/Ops the functions that callers use, Pool/Inv the invariant,
--              Pool/Flush what a flush writes. Replacer/Turns has calls of the replacer
--              in any order.
--   Record     Record/Bitmap is src/record/bitmap.h, Record/Layout the page layout of
--              src/record/rm_manager.h and rm_file_handle.h, and Record/File the functions of
--              RmFileHandle in src/record/rm_file_handle.cpp with a null context: no lock is asked
--              for, and the pages are those that the buffer pool shows. Record/Scan is
--              src/record/rm_scan.cpp.
--   Index      the nodes of the B+ tree, IxNodeHandle of src/index/ix_index_handle.{h,cpp}:
--              Index/Order what a node uses of ix_compare, Index/Compare the comparison of INT
--              keys, Index/Columns the one of keys of several columns,
--              Index/Node the searches and changes of a node, Index/Header the file header of
--              src/index/ix_defs.h. Index/Tree has the functions of IxIndexHandle on all pages of
--              an index: Tree/Split the insertion, Tree/Remove the deletion, Tree/Places the places
--              in the leaves with src/index/ix_scan.cpp, Tree/Create what create_index of
--              src/index/ix_manager.h makes. Tree/Shape says when the pages are a search tree.
--   System     System/Meta the metadata of tables in src/system/sm_meta.h, and its << and >> on the
--              characters of System/Stream.
--              System/Catalogue has its lookups and those of DbMeta, and
--              System/Tables create_table of src/system/sm_manager.cpp.
--   Recovery   Recovery/Log has the log records of src/recovery/log_manager.h.
--   Query      the execution of a query. Query/Value has the values and conditions of
--              src/common/common.h, Query/Cursor the interface AbstractExecutor of
--              src/execution/executor_abstract.h as a record of operations, and what it is for an
--              executor to yield a list of records. Query/Eval is the evaluation of conditions in
--              executor_seq_scan.h and executor_nestedloop_join.h with ix_compare of
--              src/index/ix_index_handle.h; Query/SeqScan, Query/Join and Query/Projection are the
--              executors of these names; Query/Select puts them together as src/portal.h does.
--              Query/Modify has the executors that insert, update and delete, over a record of the
--              operations that they use of an index, which int_index fills with those of the
--              tree on one INT column; Modify/Updates is an update on that tree. Query/Plan has how the planner, in
--              src/optimizer/planner.cpp, gives the conditions to scans and joins. Query/Ast
--              has the statements of src/parser/ast.h and Query/Analyze do_analyze of
--              src/analyze/analyze.cpp.
--   Tests      concrete runs.
--
-- State. A function of the source becomes a function of the state that it changes: the lock table
-- and the calling transaction, or the pool with the disk in it. The latches make each of them one
-- step, so an interleaving of threads is a list of calls. A lock function ends with a Boolean or
-- with the reason of the exception; a pool function returns, or ends in the exception of a short
-- read or write, with the state as it is at that point. Loops are structural recursion on the list
-- or the number of what is left, so no fuel is needed, but for the two binary searches of a node,
-- whose fuel is the number of keys (the range is shorter after each turn), and for the loops of the
-- executors, which call other executors: their rounds are a parameter, and the theorems give a
-- number that is enough, the records of the file for a scan and the pairs for a join. In the tree of
-- an index the rounds are the levels that a function goes down or up.
--
-- Numbers. Transaction ids, frames, pin counts and lock counters are natural numbers: they are
-- counted up from 0, and where the source decrements one, it is shown or tested to be positive
-- first. Their overflow at 2^31 is not modelled. File descriptors, page numbers and the record count
-- of a page are integers. The offsets of columns in create_table and the sizes in the file header of an
-- index wrap around as an int does; an offset in a log record that no int holds is an error of the model.
--
-- The files of the operating system are a parameter (FileSystem in Storage/Disk): an access may
-- move fewer bytes than asked for; a page that was written reads back as it was written, and a write
-- leaves the other pages that can be read. Tests/Storage gives an instance in memory. So is how a
-- number is written in a text stream and read back (NumberFormat in System/Stream); Tests/System gives
-- an instance.
--
-- Records. A record is its bytes. An access outside of a record, undefined in C++, is an error of the
-- model. How two floats compare is a parameter, on four bytes each.
--
-- Not modelled: pins and locks of the record and index files, the files of
-- SmManager, how the planner orders the joins, the sort and the index scan (their bodies are empty
-- in the source), abort's rollback (no code records a write for it to take back), the log manager and the recovery
-- (their functions are empty in the source), sockets and printing.
pub mod Base
pub mod Lock
pub mod Storage
pub mod Record
pub mod Index
pub mod System
pub mod Recovery
pub mod Query
pub mod Tests
