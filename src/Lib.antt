-- ===== src/Lib.antt =====
-- dsm_db is a small storage engine in C. A file of 4096-byte pages (src/disk) is cached in a buffer
-- pool (src/pool), whose blocks hold slotted pages for records (src/disk/page.c) and pages of a
-- B-link tree for the index (src/index). The tables and the tree are operated by src/interface, on
-- behalf of a command server (src/cmd, src/network). common has the containers: a hash table of
-- open tables, an AVL tree of open pages, lists and queues.
--
-- Which file is about which code:
--   Page         include/page.h, src/disk/page.c. A page is the record `Page`: the header's fields
--                and the bytes of the data area. The functions keep their names. `none` is an
--                access outside of the data area.
--   Blink        src/index/b_page.h, src/index/b_page.c. `Blink.Leaf` is struct
--                b_link_leaf_page, its data as a sequence of entries, with the bound of `data` where an
--                insertion writes; `Blink.Pivot` is struct
--                b_link_pivot_page, its pairs as a function of the index. `Blink.probe` is the
--                binary search that the functions write out; `Blink.Pivot.Split` has the functions
--                that move pairs between two pages.
--   Disk         include/disk.h, src/disk/disk.c: reads and writes of pages over the system calls,
--                which are parameters (`Storage`, and what is relied on, `IsStorage`). `Pool` relies on
--                whole writes too (`IsPageStorage`), so a close that fails to write is not seen.
--   Pool         include/pool.h, include/block.h, src/pool/pool.c: the buffer pool. `Pool.Blocks` has
--                the sub-pools, `Pool.Ids` the ids of pages, `Pool.Table` the table of the pages in
--                the pool, as the nodes of its AVL tree, `Pool.Calls` the calls on pages, `Pool.Info` the start and the end of a
--                pool. `Pool.Cache` says what the pages are that a pool stands for.
--   Hash         common/hash_table.h, common/hash_table.c: the hash table.
--   Rqueue       common/rqueue.h, common/rqueue.c: the ring queue.
--   Wrap         include/wrap.h, src/network/wrap.c: the loops over recv and send.
--   Index        src/interface/interface.c, from `IS_LEAF` on: the tree over a map from page ids to
--                pages. `Index.Insertion` is `__move_right` and `db_1_iinsert`; `Index.Represents`
--                says what map from keys to entries a tree stands for.
--   Table        include/db.h, src/interface/interface.c, up to `db_1_tdelete`: the directory of
--                tables over the pool of `Pool`. `Table.Create` makes and opens tables, `Table.Drop`
--                drops them.
--   Protocol     include/net.h, client/db_client.h. `Protocol.Client` is client/db_client.c, where the
--                size of the blocks that malloc gives is a parameter,
--                `Protocol.Server` is src/cmd/cmd.c with `executer` and `exec` of
--                src/network/net.c; a string on the server is its offset in the buffer.
--   Latch        src/latch/isdlock.h, src/latch/isdlock.c: the lock as a step relation, one access
--                of one thread at a time.
--   Linklist     common/linklist.h, common/linklist.c: the list over a memory of nodes.
--   Avl          common/avl.h, common/avl.c, but for the removal: the tree over a memory of nodes.
--   Shared       Boolean tests, partial results, lists, bytes in memory, and exclusive or.
--
-- How the code is modelled: a function of the source is a function here, from the state it is given
-- to its answer and the state it leaves. Numbers are natural numbers with the wrap-around written
-- out. A pointer to a record is the record, or its index. A lock is held for the whole of a call in
-- the functions here, so a call is one step; only `Latch` has the steps of several threads.
--
-- Bounds and fuel: a `while (1)` of a binary search gets as many rounds as the page has records,
-- which is enough, since each round makes the range smaller; without order on the page it may not
-- end, and then the answer is `none`. Other loops are counted as in the source. The read of a page
-- that waits for the right id gets fuel, and one round is enough for a page that the file has. The
-- loops of `Table` get fuel too, one round for each slot or page. The loops over
-- recv and send run over the list of what those calls give. In `Index` a call gets fuel for the pages
-- on its way, in `Avl` for the nodes, and one more than the tree is high, or has nodes, is enough. The
-- loops over text in `Protocol.Client` run over the text; those of the server, which look for a NUL in
-- memory, get fuel, and 512 rounds are enough for a message that the buffer has room for.
--
-- Not modelled: the epoll loop, the rows of the general tables and the removal of keys from the
-- tree (src/interface), the removal from the AVL tree (but for the nodes that it leaves, in `Pool`),
-- a recv that fails or brings a part of a message to the server, common/lllq.c, the thread
-- pool (common/threadpool.c, a copy of another project's library), and the failure of malloc.
pub mod Shared
pub mod Page
pub mod Blink
pub mod Hash
pub mod Disk
pub mod Rqueue
pub mod Pool
pub mod Wrap
pub mod Index
pub mod Protocol
pub mod Latch
pub mod Linklist
pub mod Avl
pub mod Table
