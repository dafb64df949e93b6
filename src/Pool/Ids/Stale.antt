-- ===== src/Pool/Ids/Stale.antt =====
-- src/pool/pool.c: `free_pages_id` where the block of the store page is not marked as dirty, as after
-- `load_info_from_disk`.
use dsm_db.Shared.{ℕ, suc, ◌<◌, ◌≡◌, refl, ap, ◌∙◌, false, some, List, [], ◌∷◌, length, arith}
use dsm_db.Shared.Memory.{word_bytes}
use dsm_db.Disk.{Storage, dkreadaccept, dk_read_page_by_pid}
use dsm_db.Page.{Page, p_entry_insert, p_entry_set_pagetype, page_init, page_id_null}
use dsm_db.Pool.Transfer.{dirtycheck, pageloadaccp, page_bring_in, page_swap_out}
use dsm_db.Pool.Ids.{PageIds, page_id_store_page, allocate_page_id, start_store_page, free_page_id}
use dsm_db.Pool.Ids.Words.{
  IsStack, room, record_num_lem, push, push_full, read_last, new_store_page,
}
use dsm_db.Pool.Ids.Stack.{bottom, bottom_brings}
use dsm_db.Pool.Ids.Freeing.{overflows}

module _ {File : Type 0} (s : Storage File Page) where
  starts_unwritten :
      (i : PageIds File) (x n : ℕ) (p : Page)
      → dirtycheck i.flags ≡ false
      → p_entry_insert
          (p_entry_set_pagetype (page_init 4 x page_id_null) page_id_store_page)
          (some (word_bytes i.page.page_id))
          4
        ≡ some (n, p)
      → start_store_page s x i ≡ some (record i { page = p })
  unfolding start_store_page page_swap_out
  starts_unwritten i x n p clean inserts = rw (inserts, clean) refl

  brings :
      (fuel id : ℕ) (file : File) (p q : Page)
      → dk_read_page_by_pid s (suc fuel) (λ _. file) id p ≡ some (dkreadaccept, q)
      → page_bring_in s (suc fuel) file id p ≡ some (pageloadaccp, q)
  unfolding page_bring_in
  brings fuel id file p q reads = rw reads refl

  -- Where the store page is full and its block is not marked as dirty, an id is freed and given out
  -- again: the store page is then what the file had of it before, whatever was freed and given out
  -- since that was written.
  pub free_allocate_stale :
      (i : PageIds File) (x id fuel : ℕ) (ws : List ℕ) (q : Page)
      → dirtycheck i.flags ≡ false
      → IsStack i.page id ws
      → length ws ≡ room
      → id < page_id_null
      → ((y : Page) → dk_read_page_by_pid s (suc fuel) (λ _. i.file) id y ≡ some (dkreadaccept, q))
      → (i' : PageIds File) × (free_page_id s x i ≡ some i')
        × (allocate_page_id s (suc fuel) i' ≡ some (x, record i { page = q }))
  free_allocate_stale i x id fuel ws q clean st full small reads =
      let (p', inserts, st') =
        push _ x [] (new_store_page x page_id_store_page page_id_null) i.page.page_id
          (omega (arith, small, st.page_id)) (omega arith) in
      let i' : PageIds File = record i { page = p' } in
      (
        i',
        overflows s x i (push_full i.page id ws st x full)
            ∙ starts_unwritten i x _ p' clean inserts,
        bottom s (suc fuel) i' (record_num_lem p' x (i.page.page_id ∷ []) st')
            ∙ bottom_brings s (suc fuel) i' q id _ (read_last p' x i.page.page_id [] st')
                (st'.words.0 ∙ st.page_id) (omega (arith, small))
                (brings fuel id i.file p' q (reads p'))
            ∙ ap (λ v. some (v, record i { page = q })) st'.page_id,
      )
