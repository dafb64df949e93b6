-- ===== src/Table.antt =====
-- include/db.h and src/interface/interface.c, up to `db_1_tdelete`: the directory of tables, and how
-- tables are made, opened and dropped, over the buffer pool of `Pool`. Text is the list of its codes.
-- The hash table of open tables is the list of their names with their blocks, the last one first.
-- One call runs at a time, so the locks of the pages leave no trace. `none` is a use of NULL, an
-- access outside of a buffer or a page, and a loop that is still running when the fuel is out.
use dsm_db.Shared.{
  ℕ, zero, suc, ◌+◌, ◌-◌, ◌%◌, ◌^◌, ◌<◌, Bool, true, false, ltb, leb, ◌==◌, ◌&&◌, Option, some,
  none, List, [], ◌∷◌, length, if◌then◌else◌, ◌>>=◌,
}
use dsm_db.Shared.Memory.{Bytes, load32, word_bytes, memcpy}
use dsm_db.Disk.{Storage}
use dsm_db.Page.{
  Page, p_entry_pagefull, p_entry_insert, p_entry_delete_by_index, p_entry_read_by_index,
  p_entry_set_nextpid, page_id_null,
}
use dsm_db.Pool.Pages.{PoolMg, set_page, set_flags, page_gtype_bit, general}
use dsm_db.Pool.Calls.{mp_page_create, mp_page_open, mp_page_ddelete}
use dsm_db.Pool.Info.{bdirty, pagedirentrysize, pagedirpage}
pub mod Create
pub mod Drop
pub mod Wiped
pub mod Prefix
pub mod Entered
mod Tests

-- ATTRSIZE
abbrev pub attrsize : ℕ
attrsize = 28

-- TABLEATTRSLIMIT
abbrev pub tableattrslimit : ℕ
tableattrslimit = 118

-- PAGEDIRINDEX
abbrev pub pagedirindex : ℕ
pagedirindex = 1

abbrev pub text_bytes : List ℕ → Bytes
text_bytes [] j = 0
text_bytes (c ∷ cs) zero = c
text_bytes (c ∷ cs) (suc j) = text_bytes cs j

-- A buffer of 32 bytes with a name at the start and a page id at the end; a longer name is written
-- behind the buffer.
unfoldable pub entry_buf : List ℕ → ℕ → Option Bytes
entry_buf name page_id =
    if ltb pagedirentrysize (length name)
    then none
    else some (memcpy (text_bytes name) attrsize (word_bytes page_id) 4)

-- `__strcmp`: up to the end of the first text.
unfoldable pub strcmp : List ℕ → Bytes → ℕ → Bool
strcmp [] b at = true
strcmp (c ∷ cs) b at = let rest = strcmp cs b (at + 1) in if c == b at then rest else false

-- What the search in one page of the directory ends with.
pub data Searched : Type 0 where
  last : Searched
  at_entry : ℕ → ℕ → Searched
  goes_on : Searched

-- The slots i, i + 1, ..., `k` of them, with `entry` names seen before.
unfoldable pub search_slots : ℕ → ℕ → ℕ → Page → List ℕ → Option Searched
search_slots zero i entry p name = some goes_on
search_slots (suc k) i entry p name = do
  table ← p_entry_read_by_index p i
  let skip = search_slots k (i + 1) entry p name
  let more = search_slots k (i + 1) (entry + 1) p name
  if leb p.record_num entry && (p.next_page_id == page_id_null) then some last else elim table [
    | none ↦ skip
    | some at ↦ if strcmp name p.bytes at then some (at_entry i at) else more
  ]

-- The first slot of a page, from `i` on, that holds the name.
unfoldable pub slot_of : ℕ → ℕ → Page → List ℕ → Option (Option ℕ)
slot_of zero i p name = some none
slot_of (suc k) i p name = do
  table ← p_entry_read_by_index p i
  let more = slot_of k (i + 1) p name
  elim table [ none ↦ more | some at ↦ if strcmp name p.bytes at then some (some i) else more ]

abbrev pub put_page : {File : Type 0} → PoolMg File → ℕ → Page → PoolMg File
put_page pm b p = record pm { page = set_page pm.page b p }

module _ {File : Type 0} (s : Storage File Page) (fuel : ℕ) where
  -- A page that is used without a look at whether its block is NULL.
  unfoldable pub opens : PoolMg File → ℕ → Option (ℕ × PoolMg File)
  opens pm page_id = do
    (r, pm') ← mp_page_open s fuel pm page_id page_gtype_bit
    b ← r
    some (b, pm')

  unfoldable pub creates : PoolMg File → ℕ → ℕ → Option (ℕ × PoolMg File)
  creates pm page_type data_width = do
    (r, pm') ← mp_page_create s fuel pm page_type data_width
    b ← r
    some (b, pm')

  -- The page of the directory is full: a new one behind it.
  unfoldable pub extend_pdir : PoolMg File → ℕ → Bytes → Option (PoolMg File)
  extend_pdir pm page_dir buf = do
    (new, pm') ← creates pm pagedirpage pagedirentrysize
    let new_id = (pm'.page new).page_id
    let (_, linked) = p_entry_set_nextpid (pm'.page page_dir) new_id
    let joined = put_page pm' page_dir linked
    (_, p) ← p_entry_insert (joined.page new) (some buf) pagedirentrysize
    some (record (set_flags (put_page joined new p) new bdirty) { page_dir_tail = new_id })

  unfoldable pub insert_table_in_pdir : PoolMg File → List ℕ → ℕ → Option (PoolMg File)
  insert_table_in_pdir pm name page_id = do
    buf ← entry_buf name page_id
    (page_dir, pm') ← opens pm pm.page_dir_tail
    (r, p) ← p_entry_insert (pm'.page page_dir) (some buf) pagedirentrysize
    let inserted = put_page pm' page_dir p
    let extended = extend_pdir inserted page_dir buf
    pm'' ← (if r == p_entry_pagefull then extended else some inserted)
    some (set_flags pm'' page_dir bdirty)

  -- The pages of the directory from that of the block `b` on: the block, and the id of the table.
  unfoldable pub search_pages : ℕ → PoolMg File → ℕ → List ℕ → Option (Option (ℕ × ℕ) × PoolMg File)
  search_pages zero pm b name = none
  search_pages (suc f) pm b name = do
    r ← search_slots tableattrslimit 0 0 (pm.page b) name
    let onward = (do (next, pm') ← opens pm (pm.page b).next_page_id; search_pages f pm' next name)
    elim r [
      | last ↦ some (none, pm)
      | at_entry i at ↦ some (some (b, load32 (pm.page b).bytes (at + attrsize)), pm)
      | goes_on ↦ onward
    ]

  abbrev pub search_table_from_pdir : PoolMg File → List ℕ → Option (Option (ℕ × ℕ) × PoolMg File)
  search_table_from_pdir pm name = search_pages fuel pm pagedirindex name

  -- The entry is taken from the page that the search gave; the answer is the id of the table.
  unfoldable pub remove_table_from_pdir : PoolMg File → List ℕ → Option (Option ℕ × PoolMg File)
  remove_table_from_pdir pm name = do
    (r, pm') ← search_table_from_pdir pm name
    elim r [
      | none ↦ some (none, pm')
      | some (tar, tid) ↦ (do
        slot ← slot_of tableattrslimit 0 (pm'.page tar) name
        p ← elim slot [
          | none ↦ some (pm'.page tar)
          | some i ↦ (do (_, p) ← p_entry_delete_by_index (pm'.page tar) i; some p)
        ]
        some (some tid, set_flags (put_page pm' tar p) tar bdirty))
    ]
