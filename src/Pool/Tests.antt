-- ===== src/Pool/Tests.antt =====
-- A pool over a file that is a function from offsets to pages: the theorems at inputs that meet
-- their conditions.
use dsm_db.Shared.{
  ℕ, zero, suc, ◌*◌, ◌/◌, ◌^◌, ◌<◌, ◌≤◌, ◌≡◌, ◌≢◌, inr, refl, sym, ap, ◌∙◌, true, false, ◌==◌, some,
  List, [], ◌∷◌, if◌then◌else◌, length, IsDistinct, arith, ==_refl,
}
use dsm_db.Disk.{Storage, page_size, page_offset, dkreadaccept, dk_read_page_by_pid}
use dsm_db.Page.{Page, page_init, p_entry_set_pagetype}
use dsm_db.Pool.Blocks.{new_sub_pool, spm_allocate_blocks, take_blocks, take_block}
use dsm_db.Pool.Ids.{PageIds, allocate_pages_id, free_pages_id, allocate_page_id, free_page_id}
use dsm_db.Pool.Ids.Words.{IsStack, room, push, new_store_page}
use dsm_db.Pool.Ids.Chain.{IsPageStorage, OnDisk}
use dsm_db.Pool.Ids.Stack.{FreeIds, Represents, give_id, take_id, take_freed}
use dsm_db.Pool.Ids.Lifo.{allocate_pages_id-free_pages_id, allocate_pages_id-IsDistinct}
use dsm_db.Pool.Ids.Stale.{free_allocate_stale}
use dsm_db.Pool.Pages.{PoolMg, zero_page, ids_of, page_gtype_bit, general}
use dsm_db.Pool.Calls.{
  mp_page_create, mp_page_open, mp_page_close, mp_page_mdelete, mp_page_ddelete,
}
use dsm_db.Pool.Deleting.{mp_page_mdelete-mp_page_ddelete}
use dsm_db.Pool.Cache.{IsPool, Content, without, block_for}
use dsm_db.Pool.Taken.{back}
use dsm_db.Pool.Creating.{Creates, mp_page_create_lem}
use dsm_db.Pool.Opening.{Opens, mp_page_open_lem}
use dsm_db.Pool.Closing.{mp_page_close_lem}
use dsm_db.Pool.Info.{mp_pool_open, push_info}
use dsm_db.Pool.Starting.{
  entries_at_start, free_at_start, mp_pool_open_lem, hooked, push_info-IsPool, push_info-Represents,
  info_page_lem, store_page_lem, first_three, after,
}

abbrev File : Type 0
File = ℕ → Page

abbrev storage : Storage File Page
storage = record {
  page_id_of = λ p. p.page_id;
  read_page = λ f o y. (4096, f o);
  write_page = λ f o x. (4096, λ p. if p == o then x else f p);
}

storage-IsPageStorage : IsPageStorage storage
storage-IsPageStorage = record {
  laws = record {
    read_back = λ f f' o x y h. ap (λ r. (4096, r.1 o)) (sym h) ∙ rw (==_refl o) refl;
    read_other = λ f f' i j n x y z ne h before.
        ap (λ r. (4096, r.1 (page_size * j))) (sym h)
        ∙ (let apart : (page_size * j == page_size * i) ≡ false = ground (arith, ne) in
            rw apart before);
  };
  id_lem = λ p. refl;
  whole = λ f o p. refl;
}

-- A page with its id and nothing in it.
abbrev named : ℕ → Page
named id = record zero_page { page_id = id }

abbrev file : File
file o = named (o / 4096)

abbrev start :
    (pm : PoolMg File) × (mp_pool_open storage 1 true (λ _. zero_page) 0 file ≡ some pm)
    × IsPool pm entries_at_start free_at_start
    × Represents storage storage-IsPageStorage 2 (ids_of pm) (record { next = 3; freed = [] })
start = mp_pool_open_lem storage storage-IsPageStorage (λ _. zero_page) 0 1 file

mp_pool_open_lem_example :
    (pm : PoolMg File) × (mp_pool_open storage 1 true (λ _. zero_page) 0 file ≡ some pm)
    × IsPool pm entries_at_start free_at_start
    × Represents storage storage-IsPageStorage 2 (ids_of pm) (record { next = 3; freed = [] })
mp_pool_open_lem_example = mp_pool_open_lem storage storage-IsPageStorage (λ _. zero_page) 0 1 file

abbrev nothing_freed : FreeIds
nothing_freed = record { next = 3; freed = [] }

allocate_pages_id-free_pages_id_example :
    (i' i'' : PageIds File) × (free_pages_id storage (5 ∷ 9 ∷ []) (ids_of start.0) ≡ some i')
    × (allocate_pages_id storage 1 2 i' ≡ some (9 ∷ 5 ∷ [], i''))
    × Represents storage storage-IsPageStorage 2 i'' nothing_freed
unfolding give_id
allocate_pages_id-free_pages_id_example =
    allocate_pages_id-free_pages_id storage storage-IsPageStorage 2 (ids_of start.0) nothing_freed 0
      (5 ∷ 9 ∷ []) start.3
      (
        record { fresh = refl; other = omega arith; small = omega arith },
        (record { fresh = refl; other = omega arith; small = omega arith }, tt),
      )

allocate_pages_id-IsDistinct_example :
    (ids : List ℕ) × (i' : PageIds File) × (allocate_pages_id storage 1 4 (ids_of start.0)
      ≡ some (ids, i'))
    × IsDistinct ids
allocate_pages_id-IsDistinct_example =
    allocate_pages_id-IsDistinct storage storage-IsPageStorage 2 (ids_of start.0) nothing_freed 0 4
      start.3 tt (omega arith)

-- Page 7 is in the file that the pool started with.
seven-OnDisk : OnDisk storage storage-IsPageStorage file 7 (named 7)
unfolding dk_read_page_by_pid page_offset
seven-OnDisk fuel y = refl

-- The same pool, written out.
abbrev begun : PoolMg File
begun = push_info storage (hooked storage (λ _. zero_page) 0 file info_page_lem.0 store_page_lem.0)

begun-IsPool : IsPool begun entries_at_start free_at_start
begun-IsPool = push_info-IsPool storage (λ _. zero_page) 0 file info_page_lem.0 store_page_lem.0

mp_page_open_lem_example :
    Opens storage storage-IsPageStorage entries_at_start 7
      (named 7)
      begun
      free_at_start
      (mp_page_open storage 1 begun 7 page_gtype_bit)
unfolding push_info
mp_page_open_lem_example =
    mp_page_open_lem storage storage-IsPageStorage entries_at_start 7 (named 7) 0 page_gtype_bit
      begun free_at_start begun-IsPool (inr (refl, seven-OnDisk))

begun_ids : Represents storage storage-IsPageStorage 2 (ids_of begun) nothing_freed
begun_ids =
    push_info-Represents storage (λ _. zero_page) 0 file info_page_lem.0 store_page_lem.0
      storage-IsPageStorage store_page_lem.2

mp_page_create_lem_example :
    Creates storage storage-IsPageStorage 2 entries_at_start begun nothing_freed free_at_start 0 32
      (mp_page_create storage 1 begun 0 32)
unfolding push_info take_id take_freed
mp_page_create_lem_example =
    mp_page_create_lem storage storage-IsPageStorage 2 entries_at_start begun nothing_freed
      free_at_start begun-IsPool (omega arith, refl) begun_ids refl 0 0 32

mp_page_close_lem_example :
    (pm' : PoolMg File) × (mp_page_close storage begun 1 true ≡ some pm')
    × IsPool pm' (without entries_at_start 1) (back free_at_start 1)
    × ((k : ℕ) (q : Page)
        → k < 2 ^ 20
        → Content storage storage-IsPageStorage entries_at_start begun k q
        → Content storage storage-IsPageStorage (without entries_at_start 1) pm' k q)
unfolding push_info first_three after take_blocks take_block spm_allocate_blocks new_sub_pool
    p_entry_set_pagetype page_init
mp_page_close_lem_example =
    mp_page_close_lem storage storage-IsPageStorage entries_at_start begun free_at_start
      begun-IsPool 1 1 refl true refl (omega arith) refl refl (λ e. cc e)

mp_page_mdelete-mp_page_ddelete_example :
    (pm' : PoolMg File) × (mp_page_mdelete storage begun 1 general ≡ some pm')
    × (mp_page_ddelete storage begun 1 general ≡ some pm')
    × IsPool pm' (without entries_at_start 1) (back free_at_start 1)
    × Represents storage storage-IsPageStorage 2 (ids_of pm') (give_id 1 nothing_freed)
    × (pm'.page 1 ≡ zero_page)
    × ((k : ℕ) (q : Page)
        → 1 ≢ k
        → block_for entries_at_start k ≢ some 2
        → (begun.page 2).page_id ≢ k
        → k < 2 ^ 20
        → Content storage storage-IsPageStorage entries_at_start begun k q
        → Content storage storage-IsPageStorage (without entries_at_start 1) pm' k q)
unfolding push_info p_entry_set_pagetype page_init
mp_page_mdelete-mp_page_ddelete_example =
    mp_page_mdelete-mp_page_ddelete storage storage-IsPageStorage 2 entries_at_start begun
      nothing_freed free_at_start begun-IsPool begun_ids 1 refl (λ e. cc e) (omega arith)
      (record { fresh = refl; other = omega arith; small = omega arith })

-- A store page with `n` words.
filled : (n : ℕ) → n ≤ room → (p : Page) × (ws : List ℕ) × (length ws ≡ n) × IsStack p 2 ws
filled zero h = (_, [], refl, new_store_page 2 2 9)
filled (suc n) h =
    let (p, ws, count, st) = filled n (omega arith) in
    let (p', _, st') = push p 2 ws st 7 (omega arith) (omega (arith, count)) in
    (p', 7 ∷ ws, omega (arith, count), st')

abbrev full_page : (p : Page) × (ws : List ℕ) × (length ws ≡ room) × IsStack p 2 ws
full_page = filled 677 (omega arith)

-- After a start with an old file: the store page is full, and its block is not marked as dirty.
abbrev reopened : PageIds File
reopened = record { page_counter = 3; page = full_page.0; flags = 0x30; file = file }

two_on_disk :
    (y : Page) → dk_read_page_by_pid storage 1 (λ _. file) 2 y ≡ some (dkreadaccept, named 2)
unfolding dk_read_page_by_pid page_offset
two_on_disk y = refl

free_allocate_stale_example :
    (i' : PageIds File) × (free_page_id storage 5 reopened ≡ some i')
    × (allocate_page_id storage 1 i' ≡ some (5, record reopened { page = named 2 }))
free_allocate_stale_example =
    free_allocate_stale storage reopened 5 2 0 full_page.1 (named 2) refl full_page.3 full_page.2
      (omega arith) two_on_disk
