-- ===== src/Table/Wiped.antt =====
-- src/pool/pool.c and src/interface/interface.c: what `db_1_tdelete` reads in the block of a page that
-- it has deleted.
use dsm_db.Shared.{
  [], ℕ, suc, ◌^◌, ◌<◌, ◌≡◌, ◌≢◌, refl, ap, ◌∙◌, false, ◌==◌, some, List, length, ◌>>=◌, arith,
  ==_refl,
}
use dsm_db.Shared.Memory.{word_bytes}
use dsm_db.Disk.{Storage}
use dsm_db.Page.{Page, p_entry_insert}
use dsm_db.Pool.Ids.{PageIds, free_page_id}
use dsm_db.Pool.Ids.Words.{IsStack, room, push}
use dsm_db.Pool.Ids.Freeing.{kept}
use dsm_db.Pool.Pages.{PoolMg, general, set_page, zero_page, ids_of}
use dsm_db.Pool.Calls.{mp_page_ddelete}
use dsm_db.Pool.Deleting.{deleted, both_delete}
use dsm_db.Pool.Frames.{free_block_lem}
use dsm_db.Pool.Cache.{Entry, block_for, IsPool, without}
use dsm_db.Pool.Entries.{IsUsed-block}
use dsm_db.Table.{opens}
use dsm_db.Table.Drop.{delete_data, delete_attr}

module _ {File : Type 0} (s : Storage File Page) where
  module _ (es : List Entry) (pm : PoolMg File) (free : ℕ → List ℕ) (ok : IsPool pm es free)
      (b k : ℕ) (ws : List ℕ) (known : block_for es (pm.page b).page_id ≡ some b)
      (others : without es (pm.page b).page_id ≢ []) (apart : b ≢ pm.ft_block)
      (st : IsStack (pm.page pm.ft_block) k ws) (left : length ws < room)
      (small : (pm.page b).page_id < 2 ^ 32) where
    abbrev own : ℕ
    own = (pm.page b).page_id

    ddelete_lem :
        (pm' : PoolMg File) × (mp_page_ddelete s pm own general ≡ some pm')
        × (pm'.page b ≡ zero_page)
    ddelete_lem =
        let (spms, frees, _) =
          free_block_lem pm free b ok.subs (IsUsed-block free es own b ok.used known) in
        let (store, inserts, _) = push (pm.page pm.ft_block) k ws st own small left in
        let off : (pm.ft_block == b) ≡ false = ground (arith, apart) in
        let off' : (b == pm.ft_block) ≡ false = ground (arith, apart) in
        let wiped : PoolMg File = record pm {
          sub_pool = spms;
          page = set_page pm.page b zero_page;
        } in
        let there : (ids_of wiped).page ≡ pm.page pm.ft_block = rw off refl in
        let freed : PageIds File = record (ids_of wiped) { page = store } in
        let gives : free_page_id s own (ids_of wiped) ≡ some freed =
          kept s own (ids_of wiped) store (length ws)
            (ap (λ p. p_entry_insert p (some (word_bytes own)) 4) there ∙ inserts)
            (omega (arith, left)) in
        (
          deleted s pm own b spms freed,
          (both_delete s es pm free ok b known others spms freed frees gives).1,
          rw (off', ==_refl b) refl,
        )

    -- An attribute page is in the pool's table under the id of its header, not alone there and not
    -- in the block of the freed ids, and the store page has room. Once `db_1_tdelete` is through
    -- with its data pages, it deletes the page and reads the link to the next one from the block,
    -- which is then filled with 0: it goes on with page 0, the page of the counters, as the next
    -- attribute page, whatever the link was.
    pub delete_attr-wiped :
        (before : PoolMg File) (fuel f : ℕ)
        → delete_data s fuel fuel 0 0 before b ≡ some pm
        → (pm' : PoolMg File) × (mp_page_ddelete s pm own general ≡ some pm')
          × (delete_attr s fuel (suc f) before b
              ≡ ◌>>=◌ (opens s fuel pm' 0) (λ r. delete_attr s fuel f r.1 r.0))
    unfolding delete_attr
    delete_attr-wiped before fuel f emptied =
        let (pm', deletes, zeros) = ddelete_lem in (pm', deletes, rw (emptied, deletes, zeros) refl)
