-- ===== src/Pool/Creating.antt =====
-- src/pool/pool.c: `mp_page_create`.
use dsm_db.Shared.{
  ℕ, suc, ◌+◌, ◌*◌, ◌<◌, ◌≡◌, ◌≢◌, inl, inr, refl, sym, ap, subst, ◌∙◌, true, false, ◌==◌, Option,
  some, none, List, [], ◌∷◌, ◌++◌, has, arith, ==_refl, Bool-cases,
}
use dsm_db.Disk.{Storage}
use dsm_db.Page.{Page, page_id_null, page_init, p_entry_set_pagetype}
use dsm_db.Pool.Blocks.{subpoolblocks, SubPool}
use dsm_db.Pool.Blocks.Laws.{IsSubPool}
use dsm_db.Pool.Transfer.{dirtycheck}
use dsm_db.Pool.Ids.{PageIds, allocate_page_id, allocate_pages_id}
use dsm_db.Pool.Ids.Words.{IsStack}
use dsm_db.Pool.Ids.Chain.{IsPageStorage, OnDisk, Below}
use dsm_db.Pool.Ids.Stack.{FreeIds, take_id, Represents, allocate_page_id_lem}
use dsm_db.Pool.Table.{reference_add}
use dsm_db.Pool.Pages.{PoolMg, page_gtype_bit, ids_of, with_ids, allocate_block}
use dsm_db.Pool.Calls.{place_page, create_in, mp_page_create}
use dsm_db.Pool.Frames.{Subs, set_free, IsUsed, refused, found, allocate_block_lem, set_flags-Subs}
use dsm_db.Pool.Marks.{flags_in, flags-allocate_block, flags-set_flags}
use dsm_db.Pool.Cache.{Entry, node, ids_in, block_for, IsPool, Content}
use dsm_db.Pool.Entries.{IsUsed-block}
use dsm_db.Pool.Taken.{IsUsed-apart, block-IsUsed, others_used}

-- The new page.
abbrev pub fresh_page : ℕ → ℕ → ℕ → Page
fresh_page page_type data_width id =
    p_entry_set_pagetype (page_init data_width id page_id_null) page_type

module _ {File : Type 0} (s : Storage File Page) where
  create_refused :
      (fuel page_type width : ℕ) (pm : PoolMg File) (spms : ℕ → SubPool)
      → allocate_block pm.sub_pool ≡ some (none, spms)
      → mp_page_create s fuel pm page_type width ≡ some (none, record pm { sub_pool = spms })
  unfolding mp_page_create
  create_refused fuel page_type width pm spms refuses = rw refuses refl

  -- The block `b` is taken, and counts a user.
  abbrev held : PoolMg File → ℕ → (ℕ → SubPool) → PoolMg File
  held pm b spms = record pm { sub_pool = spms; gpt = reference_add pm.gpt b }

  create_places :
      (fuel page_type width b id : ℕ) (pm : PoolMg File) (spms : ℕ → SubPool) (i : PageIds File)
      → allocate_block pm.sub_pool ≡ some (some b, spms)
      → allocate_page_id s fuel (ids_of (held pm b spms)) ≡ some (id, i)
      → mp_page_create s fuel pm page_type width
        ≡ some (
          some b,
          place_page s b (fresh_page page_type width id) id (with_ids (held pm b spms) i),
        )
  unfolding mp_page_create create_in allocate_pages_id
  create_places fuel page_type width b id pm spms i takes ids = rw (takes, ids) refl

module _ {File : Type 0} (s : Storage File Page) (good : IsPageStorage s) (root : ℕ) where
  -- What the ids stand for depends on the page, the counter and the file, and on the mark as dirty.
  pub Represents-as :
      (i j : PageIds File) (f : FreeIds)
      → j.page ≡ i.page
      → j.page_counter ≡ i.page_counter
      → j.file ≡ i.file
      → dirtycheck j.flags ≡ true
      → Represents s good root i f
      → Represents s good root j f
  Represents-as i j f same count_same file_same dirty (id, prev, ids, bs, xs, h) = (
    id,
    prev,
    ids,
    bs,
    xs,
    record {
      counter = count_same ∙ h.counter;
      dirty = dirty;
      stack = subst (λ p. IsStack p id (ids ++ (prev ∷ []))) (sym same) h.stack;
      below = subst (λ file. Below s good root file prev id bs xs) (sym file_same) h.below;
      freed = h.freed;
      distinct = h.distinct;
      small = h.small;
      out = h.out;
    },
  )

  module _ (es : List Entry) (pm : PoolMg File) (f : FreeIds) where
    -- A new page is in the block `b`, under the next id; the pool is one again, the ids stand for
    -- what is left of them, and the other pages are what they were, but for the store page of the
    -- freed ids, which the pool changes itself.
    pub record IsCreated (b : ℕ) (fresh : Page) (pm' : PoolMg File) : Type 0 where
      pub free : ℕ → List ℕ
      pub pool : IsPool pm' (((take_id f).0, b) ∷ es) free
      pub here : pm'.page b ≡ fresh
      pub ids : Represents s good root (ids_of pm') (take_id f).1
      pub others :
          (k : ℕ) (q : Page)
          → k ≢ (take_id f).0
          → block_for es k ≢ some pm.ft_block
          → Content s good es pm k q
          → Content s good (((take_id f).0, b) ∷ es) pm' k q

    -- How a call ends: with a block for a new page, or, where no block is free, with NULL.
    pub data Creates (free : ℕ → List ℕ) (page_type width : ℕ) (r : Option (Option ℕ × PoolMg File))
        : Type 0 where
      created :
          (b : ℕ) (pm' : PoolMg File)
          → r ≡ some (some b, pm')
          → IsCreated b (fresh_page page_type width (take_id f).0) pm'
          → Creates free page_type width r
      full :
          (pm' : PoolMg File)
          → r ≡ some (none, pm')
          → ((j : ℕ) → j < 4 → free j ≡ [])
          → IsPool pm' es free
          → ((k : ℕ) (q : Page) → Content s good es pm k q → Content s good es pm' k q)
          → Creates free page_type width r

    module _ (free : ℕ → List ℕ) (ok : IsPool pm es free) (ft_used : IsUsed free pm.ft_block)
        (ids : Represents s good root (ids_of pm) f)
        (new : has (take_id f).0 (ids_in es) ≡ false) where
      module _ (j c : ℕ) (rest : List ℕ) (first : free j ≡ c ∷ rest) (inside : j < 4)
          (spms : ℕ → SubPool)
          (takes : allocate_block pm.sub_pool ≡ some (some (subpoolblocks * j + c), spms))
          (all : Subs spms (set_free free j rest)) where
        heads : IsSubPool (pm.sub_pool j) (c ∷ rest)
        heads = subst (IsSubPool (pm.sub_pool j)) first (ok.subs j inside)

        abbrev b : ℕ
        b = subpoolblocks * j + c

        apart : (x : ℕ) → IsUsed free x → x ≢ b
        apart x used = (IsUsed-apart free j c rest first heads.below.0 x used).0

        held_dirty : dirtycheck (flags_in spms pm.ft_block) ≡ true
        held_dirty =
            ap dirtycheck (
              flags-allocate_block pm.sub_pool spms free (some b) pm.ft_block ok.subs ft_used takes)
            ∙ ids.5.dirty

        held_ids : Represents s good root (ids_of (held s pm b spms)) f
        held_ids =
            Represents-as (ids_of pm) (ids_of (held s pm b spms)) f refl refl refl held_dirty ids

        module _ (page_type width : ℕ) (i : PageIds File) (same_file : i.file ≡ pm.file)
            (left : Represents s good root i (take_id f).1) where
          abbrev fresh : Page
          fresh = fresh_page page_type width (take_id f).0

          abbrev placed : PoolMg File
          placed = place_page s b fresh (take_id f).0 (with_ids (held s pm b spms) i)

          placed-IsPool : IsPool placed (((take_id f).0, b) ∷ es) (set_free free j rest)
          unfolding place_page
          placed-IsPool = record {
            table = ap (λ l. node ((take_id f).0, b) ∷ l) ok.table;
            subs =
                set_flags-Subs (with_ids (held s pm b spms) i) (set_free free j rest) b
                  page_gtype_bit all;
            ids = (new, ok.ids);
            blocks = ((others_used free j c rest first heads.below.0 es ok.used).0, ok.blocks);
            used = (
              block-IsUsed free j c rest first heads.below.0 heads.distinct inside,
              (others_used free j c rest first heads.below.0 es ok.used).1,
            );
          }

          placed_ids : Represents s good root (ids_of placed) (take_id f).1
          unfolding place_page
          placed_ids =
              let off : (pm.ft_block == b) ≡ false = ground (arith, apart pm.ft_block ft_used) in
              Represents-as i (ids_of placed) (take_id f).1 (rw (off, ==_refl pm.ft_block) refl)
                refl refl
                (ap dirtycheck (
                    flags-set_flags (with_ids (held s pm b spms) i) b page_gtype_bit pm.ft_block
                      (apart pm.ft_block ft_used))
                  ∙ held_dirty)
                left

          placed_others :
              (k : ℕ) (q : Page)
              → k ≢ (take_id f).0
              → block_for es k ≢ some pm.ft_block
              → Content s good es pm k q
              → Content s good (((take_id f).0, b) ∷ es) placed k q
          unfolding place_page
          placed_others k q ne not_ft (inl (x, known, here)) =
              let other : ((take_id f).0 == k) ≡ false = ground (arith, ne) in
              let off : (x == b) ≡ false =
                ground (arith, apart x (IsUsed-block free es k x ok.used known)) in
              let off' : (x == pm.ft_block) ≡ false = elim (Bool-cases (x == pm.ft_block)) [
                | inl at ↦
                    let e : x ≡ pm.ft_block = ground arith in
                    absurd (not_ft (known ∙ ap (λ t. some t) e))
                | inr miss ↦ miss
              ] in
              inl (x, rw other known, rw (off, off') here)
          placed_others k q ne not_ft (inr (none_there, on)) =
              let other : ((take_id f).0 == k) ≡ false = ground (arith, ne) in
              inr (rw other none_there, subst (λ file. OnDisk s good file k q) (sym same_file) on)

      -- In a pool over a storage that keeps its pages, the block of the freed ids is in use, and the
      -- page that the ids give next is not in the table. Then a creation, with fuel for one read,
      -- gives a block with a new page under that id, which the ids stand for no longer. Every other
      -- page is what it was, but for the store page of the freed ids. Only if no block is free is the
      -- answer NULL, and then every page is what it was.
      pub mp_page_create_lem :
          (fuel page_type width : ℕ)
          → Creates free page_type width (mp_page_create s (suc fuel) pm page_type width)
      mp_page_create_lem fuel page_type width = elim (allocate_block_lem pm.sub_pool free ok.subs) [
        | refused spms r all nowhere ↦
            full (record pm { sub_pool = spms })
              (create_refused s (suc fuel) page_type width pm spms r)
              (λ j lt. nowhere j (omega arith) (omega arith))
              (record {
                table = ok.table;
                subs = all;
                ids = ok.ids;
                blocks = ok.blocks;
                used = ok.used;
              })
              (λ k q c. c)
        | found j c rest spms r inside first all ↦
            let (i, takes, same_file, left) =
              allocate_page_id_lem s good root (ids_of (held s pm (subpoolblocks * j + c) spms)) f
                fuel (held_ids j c rest first inside spms r all) in
            created (subpoolblocks * j + c)
              (placed j c rest first inside spms r all page_type width i same_file left)
              (create_places s (suc fuel) page_type width (subpoolblocks * j + c) (take_id f).0 pm
                spms i r takes)
              (record {
                free = set_free free j rest;
                pool =
                    placed-IsPool j c rest first inside spms r all page_type width i same_file left;
                here = unfold place_page in rw (==_refl (subpoolblocks * j + c)) refl;
                ids = placed_ids j c rest first inside spms r all page_type width i same_file left;
                others =
                    placed_others j c rest first inside spms r all page_type width i same_file left;
              })
      ]
