-- ===== src/Pool/Ids.antt =====
-- src/pool/pool.c: `allocate_pages_id` and `free_pages_id`. The ids that were freed are a stack: the
-- entries of the page of `ft_block`, and below them the pages that this one was put on top of, which
-- are in the file. Entry 0 of a page is the id of the page below it. The lock `ft_mutex` is held
-- through both functions. `none` is an access outside of a page, a use of NULL, and a read that is
-- still going on when the fuel is out.
use dsm_db.Shared.{
  ℕ, zero, suc, ◌+◌, ◌-◌, ◌%◌, ◌^◌, ◌==◌, Option, some, none, List, [], ◌∷◌, if◌then◌else◌, ◌>>=◌,
}
use dsm_db.Shared.Memory.{load32, word_bytes}
use dsm_db.Disk.{Storage}
use dsm_db.Page.{
  page_id_null, Page, p_entry_pagefull, p_entry_insert, p_entry_delete_by_index,
  p_entry_read_by_index, p_entry_set_nextpid, p_entry_set_pagetype, page_init,
}
use dsm_db.Pool.Transfer.{page_bring_in, page_swap_out}
pub mod Words
pub mod Chain
pub mod Stack
pub mod Freeing
pub mod Lifo
pub mod Stale

-- PAGEIDSTOREPAGE
abbrev pub page_id_store_page : ℕ
page_id_store_page = 2

-- What the two functions use of `struct pool_mg` and of the disk: `page` and `flags` are those of
-- `ft_block`.
pub record PageIds (File : Type 0) : Type 0 where
  pub page_counter : ℕ
  pub page : Page
  pub flags : ℕ
  pub file : File

-- The id of the page below: `(tmp) ? *((uint32_t*)tmp) : PAGEIDNULL`
unfoldable pub prev_id_of : Page → Option ℕ → ℕ
prev_id_of page none = page_id_null
prev_id_of page (some at) = load32 page.bytes at

module _ {File : Type 0} (s : Storage File Page) where
  -- `record_num == 1`: only the id of the page below is left.
  unfoldable pub allocate_bottom : ℕ → PageIds File → Option (ℕ × PageIds File)
  allocate_bottom fuel ids = do
    tmp ← p_entry_read_by_index ids.page 0
    let prev_id = prev_id_of ids.page tmp
    let counted = record ids { page_counter = (ids.page_counter + 1) % 2 ^ 32 }
    let brought = page_bring_in s fuel ids.file prev_id ids.page
    if prev_id == page_id_null
        then some (ids.page_counter, counted)
        else (do (_, page) ← brought; some (ids.page.page_id, record ids { page = page }))

  -- The last entry.
  unfoldable pub allocate_top : PageIds File → Option (ℕ × PageIds File)
  allocate_top ids = do
    let stack_top = (ids.page.record_num + 65535) % 65536
    found ← p_entry_read_by_index ids.page stack_top
    at ← found
    (_, page) ← p_entry_delete_by_index ids.page stack_top
    some (load32 ids.page.bytes at, record ids { page = page })

  unfoldable pub allocate_page_id : ℕ → PageIds File → Option (ℕ × PageIds File)
  allocate_page_id fuel ids =
      if ids.page.record_num == 1 then allocate_bottom fuel ids else allocate_top ids

  unfoldable pub allocate_pages_id : ℕ → ℕ → PageIds File → Option (List ℕ × PageIds File)
  allocate_pages_id fuel zero ids = some ([], ids)
  allocate_pages_id fuel (suc n) ids = do
    (id, ids') ← allocate_page_id fuel ids
    (to, ids'') ← allocate_pages_id fuel n ids'
    some (id ∷ to, ids'')

  -- The page is full: it goes to the file, and the freed page is the new store page.
  unfoldable pub start_store_page : ℕ → PageIds File → Option (PageIds File)
  start_store_page id ids = do
    let (_, linked) = p_entry_set_nextpid ids.page id
    let (_, file) = page_swap_out s ids.file ids.flags linked
    let fresh = p_entry_set_pagetype (page_init 4 id page_id_null) page_id_store_page
    (_, page) ← p_entry_insert fresh (some (word_bytes ids.page.page_id)) 4
    some (record ids { page = page; file = file })

  unfoldable pub free_page_id : ℕ → PageIds File → Option (PageIds File)
  free_page_id id ids = do
    (r, page) ← p_entry_insert ids.page (some (word_bytes id)) 4
    let started = start_store_page id (record ids { page = page })
    if r == p_entry_pagefull then started else some (record ids { page = page })

  unfoldable pub free_pages_id : List ℕ → PageIds File → Option (PageIds File)
  free_pages_id [] ids = some ids
  free_pages_id (id ∷ from) ids = do ids' ← free_page_id id ids; free_pages_id from ids'
