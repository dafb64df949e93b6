-- ===== src/Pool/Opening.antt =====
-- src/pool/pool.c: `mp_page_open`, on each way that it ends.
use dsm_db.Shared.{
  ℕ, suc, ◌+◌, ◌*◌, ◌<◌, ◌≡◌, ◌≢◌, ◌⊎◌, inl, inr, refl, sym, ap, subst, ◌∙◌, false, ◌==◌, Option,
  some, none, List, [], ◌∷◌, arith, ==_refl, Bool-cases,
}
use dsm_db.Disk.{Storage}
use dsm_db.Page.{Page}
use dsm_db.Pool.Blocks.{subpoolblocks, SubPool}
use dsm_db.Pool.Blocks.Laws.{IsSubPool}
use dsm_db.Pool.Ids.Chain.{IsPageStorage, OnDisk}
use dsm_db.Pool.Table.{node_of, reference_add}
use dsm_db.Pool.Pages.{PoolMg, allocate_block}
use dsm_db.Pool.Calls.{mp_page_open}
use dsm_db.Pool.Frames.{Subs, set_free, refused, found, allocate_block_lem}
use dsm_db.Pool.Loading.{
  loaded, open_in_pool, open_new, open_refused, open_crashes, open_loads, load_lem,
}
use dsm_db.Pool.Taken.{block, IsUsed-apart, block-IsUsed, others_used}
use dsm_db.Pool.Cache.{Entry, node, nodes, block_for, IsPool, Content}
use dsm_db.Pool.Entries.{node_found, node_of-nodes, nodes_there, ids_unknown, IsUsed-block}

empty_or_not : (es : List Entry) → (es ≡ []) ⊎ (es ≢ [])
empty_or_not [] = inl refl
empty_or_not (e ∷ es) = inr (λ h. cc h)

module _ {File : Type 0} (s : Storage File Page) (good : IsPageStorage s) where
  module _ (es : List Entry) (id : ℕ) (p : Page) where
    -- The page is in a block, the others are what they were, and the pool is one again.
    pub record IsOpened (pm pm' : PoolMg File) (b : ℕ) : Type 0 where
      pub entries : List Entry
      pub free : ℕ → List ℕ
      pub pool : IsPool pm' entries free
      pub known : block_for entries id ≡ some b
      pub here : pm'.page b ≡ p
      pub others : (k : ℕ) (q : Page) → Content s good es pm k q → Content s good entries pm' k q

    -- How a call ends: with a block for the page, or, where no block is free and the page is not in
    -- the pool, with NULL, unless there is no page at all in the pool.
    pub data Opens (pm : PoolMg File) (free : ℕ → List ℕ) (r : Option (Option ℕ × PoolMg File))
        : Type 0 where
      opened :
          (b : ℕ) (pm' : PoolMg File) → r ≡ some (some b, pm') → IsOpened pm pm' b → Opens pm free r
      full :
          (pm' : PoolMg File)
          → r ≡ some (none, pm')
          → block_for es id ≡ none
          → ((j : ℕ) → j < 4 → free j ≡ [])
          → IsPool pm' es free
          → ((k : ℕ) (q : Page) → Content s good es pm k q → Content s good es pm' k q)
          → Opens pm free r
      crashes : es ≡ [] → ((j : ℕ) → j < 4 → free j ≡ []) → r ≡ none → Opens pm free r

    module _ (fuel open_type : ℕ) (pm : PoolMg File) (free : ℕ → List ℕ)
        (ok : IsPool pm es free) where
      in_pool :
          (b : ℕ)
          → block_for es id ≡ some b
          → pm.page b ≡ p
          → Opens pm free (mp_page_open s (suc fuel) pm id open_type)
      in_pool b known here =
          opened b (record pm { gpt = reference_add pm.gpt b })
            (open_in_pool s (suc fuel) pm id open_type b
              (ap (λ l. node_of l id) ok.table ∙ node_of-nodes es id ∙ ap (node_found id) known))
            (record {
              entries = es;
              free = free;
              pool = record {
                table = ok.table;
                subs = ok.subs;
                ids = ok.ids;
                blocks = ok.blocks;
                used = ok.used;
              };
              known = known;
              here = here;
              others = λ k q c. c;
            })

      not_in_table : block_for es id ≡ none → node_of pm.gpt.glist id ≡ none
      not_in_table unknown =
          ap (λ l. node_of l id) ok.table ∙ node_of-nodes es id ∙ ap (node_found id) unknown

      no_block :
          (spms : ℕ → SubPool)
          → es ≢ []
          → block_for es id ≡ none
          → allocate_block pm.sub_pool ≡ some (none, spms)
          → Subs spms free
          → ((j : ℕ) → j < 4 → free j ≡ [])
          → Opens pm free (mp_page_open s (suc fuel) pm id open_type)
      no_block spms some_there unknown refuses all nowhere =
          full (record pm { sub_pool = spms })
            (open_new s (suc fuel) pm id open_type (not_in_table unknown)
              ∙ open_refused s (suc fuel) pm id open_type spms refuses
                  (λ e. nodes_there es some_there (sym ok.table ∙ e)))
            unknown nowhere
            (record {
              table = ok.table;
              subs = all;
              ids = ok.ids;
              blocks = ok.blocks;
              used = ok.used;
            })
            (λ k q c. c)

      module _ (j c : ℕ) (rest : List ℕ) (first : free j ≡ c ∷ rest) (inside : j < 4)
          (spms : ℕ → SubPool) (unknown : block_for es id ≡ none)
          (on : OnDisk s good pm.file id p) where
        heads : IsSubPool (pm.sub_pool j) (c ∷ rest)
        heads = subst (IsSubPool (pm.sub_pool j)) first (ok.subs j inside)

        loaded-IsPool :
            (spms' : ℕ → SubPool)
            → Subs spms' (set_free free j rest)
            → IsPool
                (loaded pm id (block free j c rest first heads.below.0) p spms')
                ((id, block free j c rest first heads.below.0) ∷ es)
                (set_free free j rest)
        loaded-IsPool spms' all = record {
          table = ap (λ l. node (id, block free j c rest first heads.below.0) ∷ l) ok.table;
          subs = all;
          ids = (ids_unknown es id unknown, ok.ids);
          blocks = ((others_used free j c rest first heads.below.0 es ok.used).0, ok.blocks);
          used = (
            block-IsUsed free j c rest first heads.below.0 heads.distinct inside,
            (others_used free j c rest first heads.below.0 es ok.used).1,
          );
        }

        same_page : (q : Page) → OnDisk s good pm.file id q → p ≡ q
        same_page q on' = cc (on fuel p, on' fuel p)

        others_kept :
            (spms' : ℕ → SubPool) (k : ℕ) (q : Page)
            → Content s good es pm k q
            → Content s good
                ((id, block free j c rest first heads.below.0) ∷ es)
                (loaded pm id (block free j c rest first heads.below.0) p spms')
                k
                q
        others_kept spms' k q (inl (b', known', here')) = elim (Bool-cases (id == k)) [
          | inl same ↦
              let e : id ≡ k = ground arith in
              let both : some b' ≡ none = sym known' ∙ ap (block_for es) (sym e) ∙ unknown in
              absurd (ground (arith, both))
          | inr other ↦
              let (apart, _) =
                IsUsed-apart free j c rest first heads.below.0 b'
                  (IsUsed-block free es k b' ok.used known') in
              let ne : (b' == block free j c rest first heads.below.0) ≡ false =
                ground (arith, apart) in
              inl (b', rw other known', rw ne here')
        ]
        others_kept spms' k q (inr (none_there, on')) = elim (Bool-cases (id == k)) [
          | inl same ↦
              let e : id ≡ k = ground arith in
              inl (
                block free j c rest first heads.below.0,
                rw same refl,
                rw (==_refl (block free j c rest first heads.below.0))
                    (same_page q (subst (λ n. OnDisk s good pm.file n q) (sym e) on')),
              )
          | inr other ↦ inr (rw other none_there, on')
        ]

      loads :
          (j c : ℕ) (rest : List ℕ) (spms : ℕ → SubPool)
          → block_for es id ≡ none
          → OnDisk s good pm.file id p
          → allocate_block pm.sub_pool ≡ some (some (subpoolblocks * j + c), spms)
          → j < 4
          → free j ≡ c ∷ rest
          → Subs spms (set_free free j rest)
          → Opens pm free (mp_page_open s (suc fuel) pm id open_type)
      loads j c rest spms unknown on takes inside first all =
          let b : ℕ = subpoolblocks * j + c in
          let (spms', loads', all') =
            load_lem s good fuel id open_type b pm p spms (set_free free j rest) on all in
          opened b (loaded pm id b p spms')
            (open_new s (suc fuel) pm id open_type (not_in_table unknown)
              ∙ open_loads s (suc fuel) pm id open_type b spms takes
              ∙ loads')
            (record {
              entries = (id, b) ∷ es;
              free = set_free free j rest;
              pool = loaded-IsPool j c rest first inside spms unknown on spms' all';
              known = rw (==_refl id) refl;
              here = rw (==_refl b) refl;
              others = others_kept j c rest first inside spms unknown on spms';
            })

      unknown_page :
          block_for es id ≡ none
          → OnDisk s good pm.file id p
          → Opens pm free (mp_page_open s (suc fuel) pm id open_type)
      unknown_page unknown on = elim (allocate_block_lem pm.sub_pool free ok.subs) [
        | refused spms r all nowhere ↦
            let none_free : (j : ℕ) → j < 4 → free j ≡ [] =
              (λ j lt. nowhere j (omega arith) (omega arith)) in
            elim (empty_or_not es) [
              | inl empty ↦ crashes empty none_free (
                  open_new s (suc fuel) pm id open_type (not_in_table unknown)
                  ∙ open_crashes s (suc fuel) pm id open_type spms r (ok.table ∙ ap nodes empty))
              | inr some_there ↦ no_block spms some_there unknown r all none_free
            ]
        | found j c rest spms r inside first all ↦ loads j c rest spms unknown on r inside first all
      ]

      -- In a pool over a storage that keeps its pages, `p` is the page of `id`, in its block or in
      -- the file. Then an open, with fuel for one read, gives a block that holds `p`, and every other
      -- page is what it was. Only if the page is not in the pool and no block is free is the answer
      -- NULL, and then every page is what it was; if in this case no page at all is in the pool, the
      -- removal of the new node from the table follows a NULL.
      pub mp_page_open_lem :
          Content s good es pm id p → Opens pm free (mp_page_open s (suc fuel) pm id open_type)
      mp_page_open_lem (inl (b, known, here)) = in_pool b known here
      mp_page_open_lem (inr (unknown, on)) = unknown_page unknown on
