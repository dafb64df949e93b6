-- ===== src/Pool/Pages.antt =====
-- src/pool/pool.c: the calls on pages. A block is its number in the pool, 16 times that of its
-- sub-pool and its place there. The pages are general ones; a B-link page is read as one here, by
-- its bytes. One call runs at a time. `none` is a use of NULL, an access outside of a page, and a
-- wait or a read that does not end.
use dsm_db.Shared.{
  ℕ, zero, suc, ◌+◌, ◌-◌, ◌*◌, ◌/◌, ◌%◌, bit_or, leb, ◌==◌, Option, some, none, if◌then◌else◌,
  ◌>>=◌,
}
use dsm_db.Page.{Page}
use dsm_db.Pool.Blocks.{
  subpoolblocks, Block, SubPool, set_block, spm_allocate_block, spm_free_block,
}
use dsm_db.Pool.Ids.{PageIds}
use dsm_db.Pool.Table.{Gpt, set_at}

-- `struct pool_mg` and the disk; `page` is the page of each block.
pub record PoolMg (File : Type 0) : Type 0 where
  pub sub_pool : ℕ → SubPool
  pub page : ℕ → Page
  pub gpt : Gpt
  pub page_dir_tail : ℕ
  pub page_counter : ℕ
  pub ft_block : ℕ
  pub file : File

abbrev pub set_page : (ℕ → Page) → ℕ → Page → ℕ → Page
set_page m b p j = if j == b then p else m j

abbrev pub set_sub_pool : (ℕ → SubPool) → ℕ → SubPool → ℕ → SubPool
set_sub_pool m i spm j = if j == i then spm else m j

abbrev pub block_of : {File : Type 0} → PoolMg File → ℕ → Block
block_of pm b = (pm.sub_pool (b / subpoolblocks)).buf_list (b % subpoolblocks)

abbrev pub set_flags : {File : Type 0} → PoolMg File → ℕ → ℕ → PoolMg File
set_flags pm b bit = record pm {
  sub_pool =
      set_sub_pool pm.sub_pool (b / subpoolblocks) (record (pm.sub_pool (b / subpoolblocks)) {
        buf_list =
            set_block (pm.sub_pool (b / subpoolblocks)).buf_list (b % subpoolblocks)
              (record (block_of pm b) { flags = bit_or (block_of pm b).flags bit });
      });
}

-- PAGE_GTYPE_BIT and PAGE_ITYPE_BIT
abbrev pub page_gtype_bit : ℕ
page_gtype_bit = 0x20

abbrev pub page_itype_bit : ℕ
page_itype_bit = 0x40

-- memset to 0
abbrev pub zero_page : Page
zero_page = record {
  checksum = 0;
  next_page_id = 0;
  page_id = 0;
  record_num = 0;
  data_width = 0;
  flags = 0;
  free_slot_offset = 0;
  page_type = 0;
  padding = λ _. 0;
  bytes = λ _. 0;
}

-- `address_index_table`, the sub-pools i = n - 1, ..., 0: the last one that starts at or before the
-- block.
unfoldable pub spm_index_below : ℕ → ℕ → Option ℕ
spm_index_below zero block = none
spm_index_below (suc n) block =
    let rest = spm_index_below n block in if leb (subpoolblocks * n) block then some n else rest

unfoldable pub get_block_spm_index : ℕ → Option ℕ
get_block_spm_index block = spm_index_below 4 block

-- The loop over the sub-pools from `i` on, `n` of them, up to the first that gives a block.
unfoldable pub allocate_block_from : ℕ → ℕ → (ℕ → SubPool) → Option (Option ℕ × (ℕ → SubPool))
allocate_block_from zero i spms = some (none, spms)
allocate_block_from (suc n) i spms = do
  (r, spm) ← spm_allocate_block (spms i)
  let spms' = set_sub_pool spms i spm
  let rest = allocate_block_from n (i + 1) spms'
  elim r [ some b ↦ some (some (subpoolblocks * i + b), spms') | none ↦ rest ]

abbrev pub allocate_block : (ℕ → SubPool) → Option (Option ℕ × (ℕ → SubPool))
allocate_block spms = allocate_block_from 4 0 spms

-- `spm_free_block` in the sub-pool of the block
unfoldable pub free_block : {File : Type 0} → PoolMg File → ℕ → Option (PoolMg File)
free_block pm b = do
  i ← get_block_spm_index b
  some (record pm {
    sub_pool = set_sub_pool pm.sub_pool i (spm_free_block (pm.sub_pool i) (b - subpoolblocks * i));
  })

abbrev pub set_block_state : Gpt → ℕ → ℕ → Gpt
set_block_state gpt b state = record gpt { block_state = set_at gpt.block_state b state }

-- What the ids of pages are kept in, and back.
abbrev pub ids_of : {File : Type 0} → PoolMg File → PageIds File
ids_of pm = record {
  page_counter = pm.page_counter;
  page = pm.page pm.ft_block;
  flags = (block_of pm pm.ft_block).flags;
  file = pm.file;
}

abbrev pub with_ids : {File : Type 0} → PoolMg File → PageIds File → PoolMg File
with_ids pm ids = record pm {
  page = set_page pm.page pm.ft_block ids.page;
  page_counter = ids.page_counter;
  file = ids.file;
}

-- The `pid` of a B-link page: its first four bytes.
abbrev pub blink_pid_of : Page → ℕ
blink_pid_of p = p.checksum + 65536 * (p.next_page_id % 65536)

-- GENERAL and BLINK
pub data PageKind : Type 0 where
  general : PageKind
  blink : PageKind

unfoldable pub page_id_by : PageKind → Page → ℕ
page_id_by general p = p.page_id
page_id_by blink p = blink_pid_of p
