-- ===== src/Pool/Calls.antt =====
-- src/pool/pool.c: `mp_page_create`, `mp_pages_create`, `mp_page_open`, `mp_page_close`,
-- `mp_page_mdelete` and `mp_page_ddelete`. The answer of an open or a creation is the block, or NULL.
use dsm_db.Shared.{
  ℕ, zero, suc, ◌+◌, ◌*◌, Bool, true, ◌==◌, Option, some, none, List, [], ◌∷◌, map, if◌then◌else◌,
  ◌>>=◌,
}
use dsm_db.Disk.{Storage}
use dsm_db.Page.{Page, page_init, p_entry_set_pagetype, page_id_null}
use dsm_db.Pool.Blocks.{subpoolblocks, SubPool, spm_allocate_blocks}
use dsm_db.Pool.Transfer.{pageloadfail, page_bring_in, page_swap_out}
use dsm_db.Pool.Ids.{allocate_pages_id, free_pages_id}
use dsm_db.Pool.Table.{
  gnodefinish, gnodeswapping, gnodedestory, pageinpool, pagenotinpool, Gnode, reference_add,
  set_node, gpt_push, gpt_remove, gpt_allocate_node, gpt_open_test_and_set, gpt_close_test_and_set,
}
use dsm_db.Pool.Pages.{
  PoolMg, set_page, set_sub_pool, block_of, set_flags, page_gtype_bit, page_itype_bit, zero_page,
  allocate_block, free_block, set_block_state, ids_of, with_ids, PageKind, page_id_by,
}

module _ {File : Type 0} (s : Storage File Page) where
  -- A new page `page_id` in the block `b`: its node, its header, and the marks of the block.
  unfoldable pub place_page : ℕ → Page → ℕ → PoolMg File → PoolMg File
  place_page b fresh page_id pm =
      let pushed = gpt_push pm.gpt (gpt_allocate_node page_id (some b) gnodefinish) in
      set_flags
        (record pm { gpt = set_block_state pushed b pageinpool; page = set_page pm.page b fresh }) b
        page_gtype_bit

  -- The rest of a creation, once there is a block.
  unfoldable pub create_in : ℕ → ℕ → ℕ → ℕ → PoolMg File → Option (PoolMg File)
  create_in fuel page_type data_width b pm = do
    (ids, i) ← allocate_pages_id s fuel 1 (ids_of pm)
    let pm' = with_ids pm i
    elim ids [
      | [] ↦ none
      | page_id ∷ _ ↦
          let fresh = p_entry_set_pagetype (page_init data_width page_id page_id_null) page_type in
          some (place_page b fresh page_id pm')
    ]

  unfoldable pub mp_page_create : ℕ → PoolMg File → ℕ → ℕ → Option (Option ℕ × PoolMg File)
  mp_page_create fuel pm page_type data_width = do
    (r, spms) ← allocate_block pm.sub_pool
    let held = record pm { sub_pool = spms }
    elim r [
      | none ↦ some (none, held)
      | some b ↦ (do
        pm' ← create_in fuel page_type data_width b (record held { gpt = reference_add held.gpt b })
        some (some b, pm'))
    ]

  -- The loop over the sub-pools from `i` on, `k` of them, up to the first that gives `n` blocks.
  unfoldable pub allocate_blocks_from :
      ℕ → ℕ → ℕ → (ℕ → SubPool) → Option (Option (List ℕ) × (ℕ → SubPool))
  allocate_blocks_from zero i n spms = some (none, spms)
  allocate_blocks_from (suc k) i n spms = do
    (r, spm) ← spm_allocate_blocks (spms i) n
    let spms' = set_sub_pool spms i spm
    let rest = allocate_blocks_from k (i + 1) n spms'
    elim r [ some bs ↦ some (some (map (λ b. subpoolblocks * i + b) bs), spms') | none ↦ rest ]

  -- A page for each block, with the ids in order; the users of the blocks are not counted.
  unfoldable pub place_pages : List ℕ → List ℕ → PoolMg File → PoolMg File
  place_pages (b ∷ bs) (page_id ∷ ids) pm =
      place_pages bs ids (place_page b (page_init 4 page_id page_id_null) page_id pm)
  place_pages [] ids pm = pm
  place_pages (b ∷ bs) [] pm = pm

  unfoldable pub mp_pages_create : ℕ → PoolMg File → ℕ → Option (Option (List ℕ) × PoolMg File)
  mp_pages_create fuel pm n = do
    (r, spms) ← allocate_blocks_from 4 0 n pm.sub_pool
    let held = record pm { sub_pool = spms }
    elim r [
      | none ↦ some (none, held)
      | some bs ↦ (do
        (ids, i) ← allocate_pages_id s fuel n (ids_of held)
        some (some bs, place_pages bs ids (with_ids held i)))
    ]

  -- PAGE_GTYPE_SET or PAGE_ITYPE_SET, by what the page is opened as
  unfoldable pub set_type : ℕ → ℕ → PoolMg File → PoolMg File
  set_type b open_type pm =
      let general = if open_type == page_gtype_bit then set_flags pm b page_gtype_bit else pm in
      if open_type == page_itype_bit then set_flags general b page_itype_bit else general

  -- The page is read into the block `b`.
  unfoldable pub load_in : ℕ → ℕ → ℕ → ℕ → PoolMg File → Option (Option ℕ × PoolMg File)
  load_in fuel page_id open_type b pm = do
    let hooked = record pm.gpt { glist = set_node pm.gpt.glist page_id (some b) gnodefinish }
    (r, p) ← page_bring_in s fuel pm.file page_id (pm.page b)
    let read = record pm { gpt = hooked; page = set_page pm.page b p }
    let failed = (do
      pm' ← free_block read b
      gpt ← gpt_remove (set_block_state pm'.gpt b pagenotinpool) page_id
      some (none, record pm' { gpt = gpt }))
    let marked = set_type b open_type (record read { gpt = set_block_state read.gpt b pageinpool })
    if r == pageloadfail
        then failed
        else some (some b, record marked { gpt = reference_add marked.gpt b })

  -- A page that has a block, or that waits for one.
  unfoldable pub open_node : ℕ → ℕ → ℕ → Gnode → PoolMg File → Option (Option ℕ × PoolMg File)
  open_node fuel page_id open_type gnode pm = elim gnode.block [
    | some b ↦ some (some b, pm)
    | none ↦ (do
      (r, spms) ← allocate_block pm.sub_pool
      let held = record pm { sub_pool = spms }
      elim r [
        | none ↦ (do gpt ← gpt_remove held.gpt page_id; some (none, record held { gpt = gpt }))
        | some b ↦ load_in fuel page_id open_type b held
      ])
  ]

  unfoldable pub mp_page_open : ℕ → PoolMg File → ℕ → ℕ → Option (Option ℕ × PoolMg File)
  mp_page_open fuel pm page_id open_type = do
    (r, gpt) ← gpt_open_test_and_set pm.gpt page_id
    let tested = record pm { gpt = gpt }
    elim r [
      | none ↦ some (none, tested)
      | some gnode ↦ open_node fuel page_id open_type gnode tested
    ]

  -- The rest of a close, once the node may go.
  unfoldable pub close_in : ℕ → ℕ → Gnode → PoolMg File → Option (PoolMg File)
  close_in page_id b gnode pm = do
    let (_, file) = page_swap_out s pm.file (block_of pm b).flags (pm.page b)
    pm' ← free_block (record pm { file = file; gpt = set_block_state pm.gpt b pagenotinpool }) b
    wiped ← gnode.block
    gpt ← gpt_remove pm'.gpt page_id
    some (record pm' { gpt = gpt; page = set_page pm'.page wiped zero_page })

  unfoldable pub mp_page_close : PoolMg File → ℕ → Bool → Option (PoolMg File)
  mp_page_close pm b enforce = do
    let page_id = (pm.page b).page_id
    (r, gpt) ← gpt_close_test_and_set pm.gpt page_id gnodeswapping enforce
    let tested = record pm { gpt = gpt }
    elim r [ none ↦ some tested | some gnode ↦ close_in page_id b gnode tested ]

  -- The rest of a deletion, once there is a node.
  unfoldable pub delete_in : ℕ → ℕ → PoolMg File → Option (PoolMg File)
  delete_in page_id b pm = do
    pm' ← free_block (record pm { gpt = set_block_state pm.gpt b pagenotinpool }) b
    let wiped = record pm' { page = set_page pm'.page b zero_page }
    i ← free_pages_id s (page_id ∷ []) (ids_of wiped)
    let freed = with_ids wiped i
    gpt ← gpt_remove freed.gpt page_id
    some (record freed { gpt = gpt })

  unfoldable pub mp_page_mdelete : PoolMg File → ℕ → PageKind → Option (PoolMg File)
  mp_page_mdelete pm b type = do
    let page_id = page_id_by type (pm.page b)
    (r, gpt) ← gpt_close_test_and_set pm.gpt page_id gnodedestory true
    let tested = record pm { gpt = gpt }
    elim r [ none ↦ some tested | some gnode ↦ delete_in page_id b tested ]

  unfoldable pub mp_page_ddelete : PoolMg File → ℕ → PageKind → Option (PoolMg File)
  mp_page_ddelete pm page_id type = do
    (r, gpt) ← gpt_close_test_and_set pm.gpt page_id gnodedestory true
    let tested = record pm { gpt = gpt }
    let unknown = (do i ← free_pages_id s (page_id ∷ []) (ids_of tested); some (with_ids tested i))
    elim r [ none ↦ unknown | some gnode ↦ (do b ← gnode.block; mp_page_mdelete tested b type) ]
