-- ===== src/Pool/Deleting.antt =====
-- src/pool/pool.c: `mp_page_mdelete` and `mp_page_ddelete` of a general page.
use dsm_db.Shared.{
  ℕ, ◌/◌, ◌<◌, ◌≡◌, ◌≢◌, inl, inr, refl, sym, ap, ◌∙◌, Bool, true, false, ◌==◌, ◌||◌, Option, some,
  none, List, [], ◌∷◌, arith, ==_refl, Bool-cases,
}
use dsm_db.Disk.{Storage}
use dsm_db.Page.{Page}
use dsm_db.Pool.Blocks.{SubPool}
use dsm_db.Pool.Transfer.{dirtycheck}
use dsm_db.Pool.Ids.{PageIds, free_page_id, free_pages_id}
use dsm_db.Pool.Ids.Chain.{IsPageStorage, OnDisk, id_bound}
use dsm_db.Pool.Ids.Stack.{FreeIds, give_id, CanGive, Represents}
use dsm_db.Pool.Ids.Freeing.{free_page_id_lem}
use dsm_db.Pool.Table.{
  Gpt, Gnode, gnodedestory, pagenotinpool, node_of, set_node, without_node, close_block, close_by,
  gpt_close_test_and_set, gpt_remove_lem,
}
use dsm_db.Pool.Pages.{
  PoolMg, general, page_id_by, set_page, set_block_state, zero_page, free_block, ids_of,
  get_block_spm_index,
}
use dsm_db.Pool.Calls.{delete_in, mp_page_mdelete, mp_page_ddelete}
use dsm_db.Pool.Frames.{IsUsed, free_block_lem, get_block_spm_index_lem}
use dsm_db.Pool.Marks.{flags_in, flags-free_block}
use dsm_db.Pool.Cache.{Entry, node, block_for, without, IsPool, Content}
use dsm_db.Pool.Entries.{
  node_found, node_of-nodes, nodes_there, without_node-nodes, without_node-set_node,
  block_for-without, block_for_apart, IsUsed-block,
}
use dsm_db.Pool.Taken.{back}
use dsm_db.Pool.Closing.{closed, closed-IsPool}
use dsm_db.Pool.Creating.{Represents-as}

or_true : (c : Bool) → (c || true) ≡ true
or_true true = refl
or_true false = refl

node_of-set_node :
    (gs : List Gnode) (id state : ℕ) (g : Gnode) (block : Option ℕ)
    → node_of gs id ≡ some g
    → node_of (set_node gs id block state) id
      ≡ some (record { pid = id; block = block; state = state })
unfolding node_of set_node
node_of-set_node [] id state g block h = absurd (ground arith)
node_of-set_node (x ∷ gs) id state g block h = elim (Bool-cases (x.pid == id)) [
  | inl same ↦ rw (same, ==_refl id) refl
  | inr other ↦ rw (other, other) (node_of-set_node gs id state g block (rw other at h))
]

-- The table has no part in what a block that is freed leaves.
abbrev with_table : {File : Type 0} → Gpt → Option (PoolMg File) → Option (PoolMg File)
with_table gpt none = none
with_table gpt (some pm) = some (record pm { gpt = gpt })

free_block-with_table :
    {File : Type 0} (pm : PoolMg File) (gpt : Gpt) (b : ℕ) (spms : ℕ → SubPool)
    → b < 64
    → free_block pm b ≡ some (record pm { sub_pool = spms })
    → free_block (record pm { gpt = gpt }) b ≡ some (record pm { gpt = gpt; sub_pool = spms })
unfolding free_block
free_block-with_table {File = File} pm gpt b spms inside frees =
    let here : get_block_spm_index b ≡ some (b / 16) = get_block_spm_index_lem b inside in
    let same : free_block (record pm { gpt = gpt }) b ≡ with_table gpt (free_block pm b) =
      rw here refl in
    same ∙ ap (with_table gpt) frees

module _ {File : Type 0} (s : Storage File Page) where
  -- The table with the node of a page that is going.
  abbrev destroyed : PoolMg File → ℕ → ℕ → PoolMg File
  destroyed pm id b = record pm {
    gpt = record pm.gpt { glist = set_node pm.gpt.glist id (some b) gnodedestory };
  }

  ddelete_mdeletes :
      (pm : PoolMg File) (id b state : ℕ)
      → node_of pm.gpt.glist id ≡ some (record { pid = id; block = some b; state = state })
      → mp_page_ddelete s pm id general ≡ mp_page_mdelete s (destroyed pm id b) b general
  unfolding mp_page_ddelete gpt_close_test_and_set close_by close_block
  ddelete_mdeletes pm id b state known = rw (known, or_true (pm.gpt.reference_count b == 1)) refl

  mdelete_deletes :
      (pm : PoolMg File) (b state : ℕ)
      → node_of pm.gpt.glist (pm.page b).page_id
        ≡ some (record { pid = (pm.page b).page_id; block = some b; state = state })
      → mp_page_mdelete s pm b general
        ≡ delete_in s (pm.page b).page_id b (destroyed pm (pm.page b).page_id b)
  unfolding mp_page_mdelete page_id_by gpt_close_test_and_set close_by close_block
  mdelete_deletes pm b state known = rw (known, or_true (pm.gpt.reference_count b == 1)) refl

  -- The block `b` is free and filled with 0.
  abbrev wiped : PoolMg File → ℕ → (ℕ → SubPool) → PoolMg File
  wiped pm b spms = record pm { sub_pool = spms; page = set_page pm.page b zero_page }

  -- The pool with the page of `b` gone, and the sub-pools and the ids as they are then.
  abbrev pub deleted : PoolMg File → ℕ → ℕ → (ℕ → SubPool) → PageIds File → PoolMg File
  deleted pm id b spms i = record pm {
    gpt = record (set_block_state pm.gpt b pagenotinpool) { glist = without_node pm.gpt.glist id };
    sub_pool = spms;
    page = set_page (set_page pm.page b zero_page) pm.ft_block i.page;
    page_counter = i.page_counter;
    file = i.file;
  }

  module _ (pm : PoolMg File) (b : ℕ) (spms : ℕ → SubPool) (inside : b < 64)
      (frees : free_block pm b ≡ some (record pm { sub_pool = spms })) (id : ℕ) (i : PageIds File)
      (gives : free_page_id s id (ids_of (wiped pm b spms)) ≡ some i)
      (left : without_node pm.gpt.glist id ≢ []) where
    delete_in_by :
        (gs : List Gnode)
        → without_node gs id ≡ without_node pm.gpt.glist id
        → delete_in s id b (record pm { gpt = record pm.gpt { glist = gs } })
          ≡ some (deleted pm id b spms i)
    unfolding delete_in free_pages_id
    delete_in_by gs same =
        let gpt : Gpt = set_block_state (record pm.gpt { glist = gs }) b pagenotinpool in
        rw
          (
            free_block-with_table pm gpt b spms inside frees,
            gives,
            gpt_remove_lem gpt id (without_node pm.gpt.glist id) same left,
          )
          refl

module _ {File : Type 0} (s : Storage File Page) (es : List Entry) (pm : PoolMg File)
    (free : ℕ → List ℕ) (ok : IsPool pm es free) (b : ℕ)
    (known : block_for es (pm.page b).page_id ≡ some b)
    (left : without es (pm.page b).page_id ≢ []) where
  abbrev own : ℕ
  own = (pm.page b).page_id

  pub b-IsUsed : IsUsed free b
  b-IsUsed = IsUsed-block free es own b ok.used known

  in_table : node_of pm.gpt.glist own ≡ some (node (own, b))
  in_table = ap (λ l. node_of l own) ok.table ∙ node_of-nodes es own ∙ ap (node_found own) known

  nodes_left : without_node pm.gpt.glist own ≢ []
  nodes_left e =
      nodes_there (without es own) left
        (sym (ap (λ l. without_node l own) ok.table ∙ without_node-nodes es own) ∙ e)

  -- Both calls come to the rest of a deletion.
  pub both_delete :
      (spms : ℕ → SubPool) (i : PageIds File)
      → free_block pm b ≡ some (record pm { sub_pool = spms })
      → free_page_id s own (ids_of (wiped s pm b spms)) ≡ some i
      → (mp_page_mdelete s pm b general ≡ some (deleted s pm own b spms i))
        × (mp_page_ddelete s pm own general ≡ some (deleted s pm own b spms i))
  both_delete spms i frees gives =
      let gs : List Gnode = pm.gpt.glist in
      let once : List Gnode = set_node gs own (some b) gnodedestory in
      let twice : List Gnode = set_node once own (some b) gnodedestory in
      let goes : without_node once own ≡ without_node gs own =
        without_node-set_node gs own gnodedestory (some b) in
      let goes_too : without_node twice own ≡ without_node gs own =
        without_node-set_node once own gnodedestory (some b) ∙ goes in
      (
        mdelete_deletes s pm b _ in_table
            ∙ delete_in_by s pm b spms b-IsUsed.0 frees own i gives nodes_left once goes,
        ddelete_mdeletes s pm own b _ in_table
            ∙ mdelete_deletes s (destroyed s pm own b) b _
                (node_of-set_node gs own gnodedestory (node (own, b)) (some b) in_table)
            ∙ delete_in_by s pm b spms b-IsUsed.0 frees own i gives nodes_left twice goes_too,
      )

module _ {File : Type 0} (s : Storage File Page) (good : IsPageStorage s) (root : ℕ)
    (es : List Entry) (pm : PoolMg File) (f : FreeIds) (free : ℕ → List ℕ) (ok : IsPool pm es free)
    (ids : Represents s good root (ids_of pm) f) (b : ℕ)
    (known : block_for es (pm.page b).page_id ≡ some b) (left : without es (pm.page b).page_id ≢ [])
    (apart : b ≢ pm.ft_block) where
  abbrev its_id : ℕ
  its_id = (pm.page b).page_id

  module _ (spms : ℕ → SubPool)
      (frees : free_block pm b ≡ some (record pm { sub_pool = spms })) where
    off : (pm.ft_block == b) ≡ false
    off = ground (arith, apart)

    same_page : (ids_of (wiped s pm b spms)).page ≡ pm.page pm.ft_block
    same_page = rw off refl

    still_dirty : dirtycheck (flags_in spms pm.ft_block) ≡ true
    still_dirty =
        ap dirtycheck (
          flags-free_block pm (record pm { sub_pool = spms }) b pm.ft_block
            (b-IsUsed s es pm free ok b known left).0 (λ at. apart (sym at)) frees)
        ∙ ids.5.dirty

    wiped-Represents : Represents s good root (ids_of (wiped s pm b spms)) f
    wiped-Represents =
        Represents-as s good root (ids_of pm) (ids_of (wiped s pm b spms)) f same_page refl refl
          still_dirty ids

    module _ (i : PageIds File)
        (kept_on : (k : ℕ) (q : Page)
          → (ids_of (wiped s pm b spms)).page.page_id ≢ k
          → k < id_bound
          → OnDisk s good pm.file k q
          → OnDisk s good i.file k q) where
      others_kept :
          (k : ℕ) (q : Page)
          → its_id ≢ k
          → block_for es k ≢ some pm.ft_block
          → (pm.page pm.ft_block).page_id ≢ k
          → k < id_bound
          → Content s good es pm k q
          → Content s good (without es its_id) (deleted s pm its_id b spms i) k q
      others_kept k q ne not_ft not_store lt (inl (x, there, here)) =
          let away : (x == b) ≡ false =
            ground (arith, block_for_apart es ok.blocks its_id k b x ne known there) in
          let away' : (x == pm.ft_block) ≡ false = elim (Bool-cases (x == pm.ft_block)) [
            | inl at ↦
                let e : x ≡ pm.ft_block = ground arith in
                absurd (not_ft (there ∙ ap (λ t. some t) e))
            | inr miss ↦ miss
          ] in
          inl (x, block_for-without es its_id k ne ∙ there, rw (away, away') here)
      others_kept k q ne not_ft not_store lt (inr (nowhere, on)) = inr (
        block_for-without es its_id k ne ∙ nowhere,
        kept_on k q (λ e. not_store (ap (λ p. p.page_id) (sym same_page) ∙ e)) lt on,
      )

  -- In a pool over a storage that keeps its pages, and where every write writes a whole page, the
  -- block of the freed ids is marked as dirty, and a page is in the table under the id of its header,
  -- and not alone there, in another block than that of the freed ids, and its id may be freed.
  -- Then `mp_page_mdelete` of its block and `mp_page_ddelete` of its id leave the same pool: the
  -- page is not in the table, its block is free and filled with 0, and its id is the next that is
  -- given out. Every other page with an id below 2^20 is what it was, but for the store page of the
  -- freed ids.
  pub mp_page_mdelete-mp_page_ddelete :
      CanGive root f its_id
      → (pm' : PoolMg File) × (mp_page_mdelete s pm b general ≡ some pm')
        × (mp_page_ddelete s pm its_id general ≡ some pm')
        × IsPool pm' (without es its_id) (back free b)
        × Represents s good root (ids_of pm') (give_id its_id f)
        × (pm'.page b ≡ zero_page)
        × ((k : ℕ) (q : Page)
            → its_id ≢ k
            → block_for es k ≢ some pm.ft_block
            → (pm.page pm.ft_block).page_id ≢ k
            → k < id_bound
            → Content s good es pm k q
            → Content s good (without es its_id) pm' k q)
  mp_page_mdelete-mp_page_ddelete can =
      let (spms, frees, all) =
        free_block_lem pm free b ok.subs (b-IsUsed s es pm free ok b known left) in
      let (i, gives, given, kept_on) =
        free_page_id_lem s good root (ids_of (wiped s pm b spms)) f its_id
          (wiped-Represents spms frees) can in
      let is : IsPool (closed pm its_id b pm.file spms) (without es its_id) (back free b) =
        closed-IsPool s good es pm free ok b its_id known pm.file spms all in
      let away : (b == pm.ft_block) ≡ false = ground (arith, apart) in
      let (goes, goes_too) = both_delete s es pm free ok b known left spms i frees gives in
      (
        deleted s pm its_id b spms i,
        goes,
        goes_too,
        record {
          table = is.table;
          subs = is.subs;
          ids = is.ids;
          blocks = is.blocks;
          used = is.used;
        },
        Represents-as s good root i (ids_of (deleted s pm its_id b spms i)) (give_id its_id f)
            (rw (==_refl pm.ft_block) refl) refl refl (still_dirty spms frees) given,
        rw (away, ==_refl b) refl,
        others_kept spms frees i kept_on,
      )
