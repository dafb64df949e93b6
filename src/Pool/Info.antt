-- ===== src/Pool/Info.antt =====
-- src/pool/pool.c: the pages of the system, 0 for the counters, 1 for the page directory and 2 for the
-- freed ids: how a pool starts, with a new file or an old one, and how it ends. What the memory of a
-- new pool holds is `page` and `set_later`.
use dsm_db.Shared.{ℕ, zero, suc, ◌+◌, Bool, ◌==◌, Option, some, [], if◌then◌else◌, ◌>>=◌}
use dsm_db.Shared.Memory.{load32, word_bytes}
use dsm_db.Disk.{Storage}
use dsm_db.Page.{
  Page, page_init, p_entry_insert, p_entry_read_by_index, p_entry_set_pagetype,
  p_entry_update_by_index, page_id_null,
}
use dsm_db.Pool.Blocks.{new_sub_pool, spm_allocate_blocks}
use dsm_db.Pool.Transfer.{page_swap_out}
use dsm_db.Pool.Ids.{page_id_store_page}
use dsm_db.Pool.Table.{gnodefinish, pagenotinpool, gpt_push, gpt_allocate_node}
use dsm_db.Pool.Pages.{PoolMg, set_page, set_sub_pool, block_of, set_flags, page_gtype_bit}
use dsm_db.Pool.Calls.{mp_page_open}

-- BDIRTY
abbrev pub bdirty : ℕ
bdirty = 2

-- PAGEDIRENTRYSIZE
abbrev pub pagedirentrysize : ℕ
pagedirentrysize = 32

abbrev pub sysrootpage : ℕ
sysrootpage = 0

abbrev pub pagedirpage : ℕ
pagedirpage = 1

-- The blocks of a new pool, before its first pages.
unfoldable pub blank_pool : {File : Type 0} → (ℕ → Page) → ℕ → File → PoolMg File
blank_pool page set_later file = record {
  sub_pool = λ _. new_sub_pool;
  page = page;
  gpt = record { glist = []; reference_count = λ _. 0; block_state = λ _. pagenotinpool };
  page_dir_tail = set_later;
  page_counter = set_later;
  ft_block = set_later;
  file = file;
}

-- The `uint32_t` of an entry.
unfoldable pub word_at : Page → ℕ → Option ℕ
word_at p index = do found ← p_entry_read_by_index p index; at ← found; some (load32 p.bytes at)

unfoldable pub insert_word : ℕ → Page → Option Page
insert_word w p = do (_, p') ← p_entry_insert p (some (word_bytes w)) 4; some p'

-- The three pages of `init_db_info`.
unfoldable pub info_page : ℕ → ℕ → ℕ → Option Page
info_page start_index free_top tail = do
  p ← insert_word start_index (p_entry_set_pagetype (page_init 4 0 page_id_null) sysrootpage)
  p' ← insert_word free_top p
  insert_word tail p'

abbrev pub dir_page : Page
dir_page = p_entry_set_pagetype (page_init pagedirentrysize 1 page_id_null) pagedirpage

unfoldable pub store_page : Option Page
store_page =
    insert_word page_id_null (p_entry_set_pagetype (page_init 4 2 page_id_null) page_id_store_page)

module _ {File : Type 0} (s : Storage File Page) where
  unfoldable pub hook_info : ℕ → PoolMg File → Option (PoolMg File)
  hook_info fuel pm = do
    counter ← word_at (pm.page 0) 0
    tail ← word_at (pm.page 0) 2
    let hooked = record pm { ft_block = 2; page_counter = counter; page_dir_tail = tail }
    let opened = (do (_, pm') ← mp_page_open s fuel hooked tail page_gtype_bit; some pm')
    if tail == 1 then some hooked else opened

  -- The pages 0 and 1 and the first store page, whose id is in page 0, come from the file.
  unfoldable pub load_info_from_disk : ℕ → PoolMg File → Option (PoolMg File)
  load_info_from_disk fuel pm = do
    (_, pm0) ← mp_page_open s fuel pm 0 page_gtype_bit
    (_, pm1) ← mp_page_open s fuel pm0 1 page_gtype_bit
    free_top ← word_at (pm1.page 0) 1
    (_, pm2) ← mp_page_open s fuel pm1 free_top page_gtype_bit
    hook_info fuel pm2

  -- A node for each of the blocks 0, 1 and 2.
  unfoldable pub push_info : PoolMg File → PoolMg File
  push_info pm =
      let push = λ (pm : PoolMg File) (i : ℕ).
        set_flags (record pm { gpt = gpt_push pm.gpt (gpt_allocate_node i (some i) gnodefinish) }) i
          page_gtype_bit in
      push (push (push pm 0) 1) 2

  unfoldable pub init_db_info : ℕ → PoolMg File → Option (PoolMg File)
  init_db_info fuel pm = do
    (_, spm) ← spm_allocate_blocks (pm.sub_pool 0) 3
    info ← info_page 3 2 1
    store ← store_page
    let pages = set_page (set_page (set_page pm.page 0 info) 1 dir_page) 2 store
    let held = record pm { sub_pool = set_sub_pool pm.sub_pool 0 spm; page = pages }
    pm' ← hook_info fuel (
        set_flags (set_flags (set_flags (record held { page_dir_tail = 1 }) 0 bdirty) 1 bdirty) 2
          bdirty)
    some (push_info pm')

  unfoldable pub mp_pool_open : ℕ → Bool → (ℕ → Page) → ℕ → File → Option (PoolMg File)
  mp_pool_open fuel init page set_later file =
      let pool = blank_pool page set_later file in
      if init then init_db_info fuel pool else load_info_from_disk fuel pool

  -- An update of a word of the page 0, with the answer dropped.
  unfoldable pub update_word : ℕ → ℕ → PoolMg File → Option (PoolMg File)
  update_word index w pm = do
    (_, p) ← p_entry_update_by_index (pm.page 0) (word_bytes w) index
    some (record pm { page = set_page pm.page 0 p })

  -- The blocks from `b` on, `n` of them, go to the file.
  unfoldable pub swap_out_from : ℕ → ℕ → PoolMg File → PoolMg File
  swap_out_from zero b pm = pm
  swap_out_from (suc n) b pm =
      let (_, file) = page_swap_out s pm.file (block_of pm b).flags (pm.page b) in
      swap_out_from n (b + 1) (record pm { file = file })

  -- What is in the file in the end.
  unfoldable pub mp_pool_close : PoolMg File → Option File
  mp_pool_close pm = do
    pm0 ← update_word 0 pm.page_counter (set_flags pm 0 bdirty)
    pm1 ← update_word 1 (pm0.page pm0.ft_block).page_id pm0
    pm2 ← update_word 2 pm1.page_dir_tail pm1
    some (swap_out_from 64 0 (set_flags pm2 2 bdirty)).file
