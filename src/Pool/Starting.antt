-- ===== src/Pool/Starting.antt =====
-- src/pool/pool.c: a pool over a new file.
use dsm_db.Shared.{
  ℕ, ◌^◌, ◌<◌, ◌≡◌, inl, inr, refl, sym, ap, subst, ◌∙◌, true, ◌==◌, Option, some, none, List, [],
  ◌∷◌, ◌++◌, if◌then◌else◌, length, arith, range_from, Bool-cases,
}
use dsm_db.Disk.{Storage}
use dsm_db.Page.{Page, page_id_null}
use dsm_db.Pool.Blocks.{SubPool, new_sub_pool, spm_allocate_blocks, take_blocks, take_block}
use dsm_db.Pool.Blocks.Laws.{IsSubPool, new_sub_pool-IsSubPool, spm_allocate_blocks_lem}
use dsm_db.Pool.Ids.{page_id_store_page}
use dsm_db.Pool.Ids.Words.{IsStack, room, push, read_word, new_store_page}
use dsm_db.Pool.Ids.Chain.{IsPageStorage}
use dsm_db.Pool.Ids.Stack.{Represents}
use dsm_db.Pool.Table.{pagenotinpool, gnodefinish, gpt_push, gpt_allocate_node}
use dsm_db.Pool.Pages.{PoolMg, ids_of, set_flags, set_page, set_sub_pool, page_gtype_bit}
use dsm_db.Pool.Frames.{Subs, set_flags-Subs}
use dsm_db.Pool.Cache.{Entry, IsPool}
use dsm_db.Pool.Info.{
  blank_pool, word_at, insert_word, info_page, dir_page, store_page, hook_info, init_db_info,
  push_info, mp_pool_open, sysrootpage, bdirty,
}

insert_word_lem :
    (p : Page) (id w : ℕ) (ws : List ℕ)
    → IsStack p id ws
    → w < 2 ^ 32
    → length ws < room
    → (p' : Page) × (insert_word w p ≡ some p') × IsStack p' id (w ∷ ws)
unfolding insert_word
insert_word_lem p id w ws st small left =
    let (p', inserts, st') = push p id ws st w small left in (p', rw inserts refl, st')

word_at_lem :
    (p : Page) (id w : ℕ) (above below : List ℕ)
    → IsStack p id (above ++ (w ∷ below))
    → word_at p (length below) ≡ some w
unfolding word_at
word_at_lem p id w above below st =
    let (reads, word) = read_word p id w above below st in rw reads (ap (λ v. some v) word)

-- The three words of the page 0.
pub info_page_lem : (p : Page) × (info_page 3 2 1 ≡ some p) × IsStack p 0 (1 ∷ 2 ∷ 3 ∷ [])
unfolding info_page
info_page_lem =
    let (p, e, st) =
      insert_word_lem _ 0 3 [] (new_store_page 0 sysrootpage page_id_null) (omega arith)
        (omega arith) in
    let (p', e', st') = insert_word_lem p 0 2 (3 ∷ []) st (omega arith) (omega arith) in
    let (p'', e'', st'') = insert_word_lem p' 0 1 (2 ∷ 3 ∷ []) st' (omega arith) (omega arith) in
    (p'', rw (e, e') e'', st'')

pub store_page_lem : (p : Page) × (store_page ≡ some p) × IsStack p 2 (page_id_null ∷ [])
unfolding store_page
store_page_lem =
    insert_word_lem _ 2 page_id_null [] (new_store_page 2 page_id_store_page page_id_null)
      (omega arith) (omega arith)

unfoldable pub after : Option (Option (List ℕ) × SubPool) → SubPool
after none = new_sub_pool
after (some (r, spm)) = spm

-- The first sub-pool without its first three blocks.
unfoldable pub first_three : SubPool
unfolding after
first_three = after (spm_allocate_blocks new_sub_pool 3)

three_taken :
    (spm_allocate_blocks new_sub_pool 3 ≡ some (some (0 ∷ 1 ∷ 2 ∷ []), first_three))
    × IsSubPool first_three (range_from 3 13)
unfolding first_three after
three_taken =
    let (spm, takes, is) =
      spm_allocate_blocks_lem new_sub_pool (0 ∷ 1 ∷ 2 ∷ []) (range_from 3 13)
        new_sub_pool-IsSubPool in
    (
      takes ∙ ap (λ x. some (some (0 ∷ 1 ∷ 2 ∷ []), x)) (sym (ap after takes)),
      subst (λ x. IsSubPool x (range_from 3 13)) (sym (ap after takes)) is,
    )

-- What is free after the start.
abbrev pub free_at_start : ℕ → List ℕ
free_at_start j = if j == 0 then range_from 3 13 else range_from 0 16

abbrev pub entries_at_start : List Entry
entries_at_start = (2, 2) ∷ (1, 1) ∷ (0, 0) ∷ []

module _ {File : Type 0} (s : Storage File Page) (pages : ℕ → Page) (set_later : ℕ) (file : File)
    (info store : Page) where
  -- Once the three pages are written, and once the counters are read back.
  abbrev pub blank : PoolMg File
  blank = record {
    sub_pool = set_sub_pool (λ _. new_sub_pool) 0 first_three;
    page = set_page (set_page (set_page pages 0 info) 1 dir_page) 2 store;
    gpt = record { glist = []; reference_count = λ _. 0; block_state = λ _. pagenotinpool };
    page_dir_tail = 1;
    page_counter = set_later;
    ft_block = set_later;
    file = file;
  }

  abbrev pub written : PoolMg File
  written = set_flags (set_flags (set_flags blank 0 bdirty) 1 bdirty) 2 bdirty

  abbrev pub hooked : PoolMg File
  hooked = record written { ft_block = 2; page_counter = 3; page_dir_tail = 1 }

  hook_info_lem :
      (fuel : ℕ) → IsStack info 0 (1 ∷ 2 ∷ 3 ∷ []) → hook_info s fuel written ≡ some hooked
  unfolding hook_info
  hook_info_lem fuel st =
      rw (word_at_lem info 0 3 (1 ∷ 2 ∷ []) [] st, word_at_lem info 0 1 [] (2 ∷ 3 ∷ []) st) refl

  init_lem :
      (fuel : ℕ)
      → info_page 3 2 1 ≡ some info
      → store_page ≡ some store
      → IsStack info 0 (1 ∷ 2 ∷ 3 ∷ [])
      → mp_pool_open s fuel true pages set_later file ≡ some (push_info s hooked)
  unfolding mp_pool_open init_db_info blank_pool
  init_lem fuel e e' st = rw (three_taken.0, e, e', hook_info_lem fuel st) refl

  -- The pool with the node of the page `i`, which is in the block `i`.
  abbrev with_node : PoolMg File → ℕ → PoolMg File
  with_node pm i = record pm { gpt = gpt_push pm.gpt (gpt_allocate_node i (some i) gnodefinish) }

  abbrev step0 : PoolMg File
  step0 = set_flags (with_node hooked 0) 0 page_gtype_bit

  abbrev step1 : PoolMg File
  step1 = set_flags (with_node step0 1) 1 page_gtype_bit

  blank-Subs : Subs blank.sub_pool free_at_start
  blank-Subs j h = elim (Bool-cases (j == 0)) [
    | inl first ↦ rw first three_taken.1
    | inr other ↦ rw other new_sub_pool-IsSubPool
  ]

  hooked-Subs : Subs hooked.sub_pool free_at_start
  hooked-Subs =
      set_flags-Subs (set_flags (set_flags blank 0 bdirty) 1 bdirty) free_at_start 2 bdirty (
        set_flags-Subs (set_flags blank 0 bdirty) free_at_start 1 bdirty
          (set_flags-Subs blank free_at_start 0 bdirty blank-Subs))

  push_info-Subs : Subs (push_info s hooked).sub_pool free_at_start
  unfolding push_info
  push_info-Subs = set_flags-Subs (with_node step1 2) free_at_start 2 page_gtype_bit (
      set_flags-Subs (with_node step0 1) free_at_start 1 page_gtype_bit
        (set_flags-Subs (with_node hooked 0) free_at_start 0 page_gtype_bit hooked-Subs))

  pub push_info-IsPool : IsPool (push_info s hooked) entries_at_start free_at_start
  unfolding push_info
  push_info-IsPool = record {
    table = refl;
    subs = push_info-Subs;
    ids = (refl, (refl, (refl, tt)));
    blocks = (refl, (refl, (refl, tt)));
    used = ((omega arith, refl), ((omega arith, refl), ((omega arith, refl), tt)));
  }

  pub push_info-Represents :
      (good : IsPageStorage s)
      → IsStack store 2 (page_id_null ∷ [])
      → Represents s good 2 (ids_of (push_info s hooked)) (record { next = 3; freed = [] })
  unfolding push_info first_three after take_blocks take_block spm_allocate_blocks new_sub_pool
  push_info-Represents good st = (
    2,
    page_id_null,
    [],
    [],
    [],
    record {
      counter = refl;
      dirty = refl;
      stack = st;
      below = (refl, refl, refl);
      freed = refl;
      distinct = tt;
      small = (omega arith, tt);
      out = refl;
    },
  )

-- With a new file the pool starts, whatever its memory holds: the three pages of the system are in
-- its first blocks, no page id and no block is twice in the table, and no block in it is free. The
-- next new page id is 3, and no id is freed.
pub mp_pool_open_lem :
    {File : Type 0} (s : Storage File Page) (good : IsPageStorage s) (pages : ℕ → Page)
    (set_later fuel : ℕ) (file : File)
    → (pm : PoolMg File) × (mp_pool_open s fuel true pages set_later file ≡ some pm)
      × IsPool pm entries_at_start free_at_start
      × Represents s good 2 (ids_of pm) (record { next = 3; freed = [] })
mp_pool_open_lem s good pages set_later fuel file =
    let (info, e, st) = info_page_lem in
    let (store, e', st') = store_page_lem in
    (
      push_info s (hooked s pages set_later file info store),
      init_lem s pages set_later file info store fuel e e' st,
      push_info-IsPool s pages set_later file info store,
      push_info-Represents s pages set_later file info store good st',
    )
