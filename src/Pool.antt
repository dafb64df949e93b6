-- ===== src/Pool.antt =====
-- include/pool.h, include/block.h and src/pool/pool.c: the buffer pool. `Blocks` has the sub-pools,
-- each with its blocks and the list of those that are not in use; `Transfer` moves pages between a
-- block and the file, `Ids` gives out the ids of pages, `Table` is the table of the pages in the
-- pool, and `Pages` and `Calls` have the calls on pages, which use all of these.
pub mod Blocks
pub mod Transfer
pub mod Ids
pub mod Table
pub mod Pages
pub mod Calls
pub mod Frames
pub mod Cache
pub mod Entries
pub mod Taken
pub mod Loading
pub mod Opening
pub mod Closing
pub mod Info
pub mod Starting
mod Tests
pub mod Marks
pub mod Creating
pub mod Deleting
