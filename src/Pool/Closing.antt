-- ===== src/Pool/Closing.antt =====
-- src/pool/pool.c: `mp_page_close`: a page goes back to the file, or its block has a user less.
use dsm_db.Shared.{
  ℕ, ◌<◌, ◌≡◌, ◌≢◌, inl, inr, refl, sym, ap, subst, ◌∙◌, Bool, true, false, ◌==◌, ◌||◌, some, none,
  List, [], arith, Bool-cases,
}
use dsm_db.Disk.{Storage, dk_write_page_by_pid}
use dsm_db.Page.{Page}
use dsm_db.Pool.Blocks.{SubPool}
use dsm_db.Pool.Transfer.{dirtycheck, page_swap_out}
use dsm_db.Pool.Ids.Chain.{IsPageStorage, OnDisk, id_bound, written-OnDisk, other-OnDisk}
use dsm_db.Pool.Table.{
  Gpt, gnodeswapping, pagenotinpool, node_of, set_node, without_node, reference_sub, close_block,
  close_by, gpt_close_test_and_set, gpt_remove_lem,
}
use dsm_db.Pool.Pages.{PoolMg, block_of, set_page, set_block_state, zero_page, free_block}
use dsm_db.Pool.Calls.{close_in, mp_page_close}
use dsm_db.Pool.Frames.{Subs, IsUsed, free_block_lem}
use dsm_db.Pool.Taken.{back, all-still-IsUsed}
use dsm_db.Pool.Cache.{Entry, node, block_for, without, IsPool, Content}
use dsm_db.Pool.Entries.{
  node_found, node_of-nodes, nodes_there, without_node-nodes, without_node-set_node,
  block_for-without, block_for-without_same, ids-without, blocks-without, IsUsed-block,
  block_for_apart, block_gone, AllUsed-without,
}

-- The pool once the page of `b` is gone, with the file and the sub-pools.
abbrev pub closed : {File : Type 0} → PoolMg File → ℕ → ℕ → File → (ℕ → SubPool) → PoolMg File
closed pm id b file spms =
    let gpt : Gpt = reference_sub pm.gpt b in
    record pm {
      sub_pool = spms;
      file = file;
      gpt = record (set_block_state gpt b pagenotinpool) { glist = without_node pm.gpt.glist id };
      page = set_page pm.page b zero_page;
    }

-- The pool with the page of `b` in the file `file`, before the block is free.
abbrev swapped : {File : Type 0} → PoolMg File → ℕ → ℕ → File → PoolMg File
swapped pm id b file =
    let gpt : Gpt = reference_sub pm.gpt b in
    let marked : Gpt = record gpt { glist = set_node pm.gpt.glist id (some b) gnodeswapping } in
    record pm { file = file; gpt = set_block_state marked b pagenotinpool }

module _ {File : Type 0} (s : Storage File Page) (pm : PoolMg File) (b : ℕ) (enforce : Bool) where
  abbrev own_id : ℕ
  own_id = (pm.page b).page_id

  abbrev out : File
  out = (dk_write_page_by_pid s pm.file own_id (pm.page b)).1

  close_goes :
      (spms : ℕ → SubPool)
      → node_of pm.gpt.glist own_id ≡ some (node (own_id, b))
      → ((pm.gpt.reference_count b == 1) || enforce) ≡ true
      → dirtycheck (block_of pm b).flags ≡ true
      → s.page_id_of (pm.page b) ≡ own_id
      → free_block (swapped pm own_id b out) b
        ≡ some (record (swapped pm own_id b out) { sub_pool = spms })
      → without_node pm.gpt.glist own_id ≢ []
      → mp_page_close s pm b enforce ≡ some (closed pm own_id b out spms)
  unfolding mp_page_close gpt_close_test_and_set close_by close_block close_in page_swap_out
  close_goes spms known may dirty same frees left =
      rw
        (
          known,
          may,
          dirty,
          same,
          frees,
          gpt_remove_lem (swapped pm own_id b out).gpt own_id (without_node pm.gpt.glist own_id)
              (without_node-set_node pm.gpt.glist own_id gnodeswapping (some b)) left,
        )
        refl

  close_counts :
      node_of pm.gpt.glist own_id ≡ some (node (own_id, b))
      → ((pm.gpt.reference_count b == 1) || enforce) ≡ false
      → mp_page_close s pm b enforce ≡ some (record pm { gpt = reference_sub pm.gpt b })
  unfolding mp_page_close gpt_close_test_and_set close_by close_block
  close_counts known stays = rw (known, stays) refl

module _ {File : Type 0} (s : Storage File Page) (good : IsPageStorage s) (es : List Entry)
    (pm : PoolMg File) (free : ℕ → List ℕ) (ok : IsPool pm es free) (b id : ℕ)
    (known : block_for es id ≡ some b) where
  in_table : node_of pm.gpt.glist id ≡ some (node (id, b))
  in_table = ap (λ l. node_of l id) ok.table ∙ node_of-nodes es id ∙ ap (node_found id) known

  used : IsUsed free b
  used = IsUsed-block free es id b ok.used known

  -- The entries of other pages have other blocks.
  other_block : (k b' : ℕ) → id ≢ k → block_for es k ≡ some b' → b' ≢ b
  other_block k b' ne other = block_for_apart es ok.blocks id k b b' ne known other

  pub others_left : without es id ≢ [] → without_node pm.gpt.glist id ≢ []
  others_left left e =
      nodes_there (without es id) left
        (sym (ap (λ l. without_node l id) ok.table ∙ without_node-nodes es id) ∙ e)

  pub closed-IsPool :
      (file : File) (spms : ℕ → SubPool)
      → Subs spms (back free b)
      → IsPool (closed pm id b file spms) (without es id) (back free b)
  closed-IsPool file spms all = record {
    table = ap (λ l. without_node l id) ok.table ∙ without_node-nodes es id;
    subs = all;
    ids = ids-without es id ok.ids;
    blocks = blocks-without es id ok.blocks;
    used =
        all-still-IsUsed free b (without es id) (block_gone es id b ok.blocks known)
          (AllUsed-without free es id ok.used);
  }

  module _ (spms : ℕ → SubPool) (named : (pm.page b).page_id ≡ id) (small : id < id_bound) where
    abbrev gone : PoolMg File
    gone = closed pm id b (dk_write_page_by_pid s pm.file id (pm.page b)).1 spms

    -- The page itself is in the file.
    kept_itself : (q : Page) → Content s good es pm id q → Content s good (without es id) gone id q
    kept_itself q (inl (b', known', here)) =
        let same : b' ≡ b = cc (known, known') in
        inr (
          block_for-without_same es id ok.ids,
          subst (OnDisk s good gone.file id) (ap pm.page (sym same) ∙ here)
              (written-OnDisk s good pm.file (pm.page b) id named),
        )
    kept_itself q (inr (none_there, on)) =
        absurd (let both : some b ≡ none = sym known ∙ none_there in ground (arith, both))

    kept_other :
        (k : ℕ) (q : Page)
        → id ≢ k
        → k < id_bound
        → Content s good es pm k q
        → Content s good (without es id) gone k q
    kept_other k q ne small' (inl (b', known', here)) =
        let off : (b' == b) ≡ false = ground (arith, other_block k b' ne known') in
        inl (b', block_for-without es id k ne ∙ known', rw off here)
    kept_other k q ne small' (inr (none_there, on)) = inr (
      block_for-without es id k ne ∙ none_there,
      other-OnDisk s good pm.file q (pm.page b) k id small' small ne on,
    )

    kept :
        (k : ℕ) (q : Page)
        → k < id_bound
        → Content s good es pm k q
        → Content s good (without es id) gone k q
    kept k q small' c = elim (Bool-cases (id == k)) [
      | inl same ↦
          let e : id ≡ k = ground arith in
          subst (λ n. Content s good (without es id) gone n q) e
            (kept_itself q (subst (λ n. Content s good es pm n q) (sym e) c))
      | inr other ↦ kept_other k q (ground (arith, other)) small' c
    ]

  -- In a pool over a storage that keeps its pages, and where every write writes a whole page, the
  -- page of a block is in the table under the id of its header, and not alone there, is marked as
  -- dirty, and has one user or is closed by force. Then it goes to the file, the block is free again,
  -- and every page is what it was, if the ids are below 2^20.
  pub mp_page_close_lem :
      (enforce : Bool)
      → (pm.page b).page_id ≡ id
      → id < id_bound
      → dirtycheck (block_of pm b).flags ≡ true
      → ((pm.gpt.reference_count b == 1) || enforce) ≡ true
      → without es id ≢ []
      → (pm' : PoolMg File) × (mp_page_close s pm b enforce ≡ some pm')
        × IsPool pm' (without es id) (back free b)
        × ((k : ℕ) (q : Page)
            → k < id_bound
            → Content s good es pm k q
            → Content s good (without es id) pm' k q)
  mp_page_close_lem enforce named small dirty may left =
      let own : ℕ = (pm.page b).page_id in
      let file : File = (dk_write_page_by_pid s pm.file own (pm.page b)).1 in
      let (spms, frees, all) = free_block_lem (swapped pm own b file) free b ok.subs used in
      let there : node_of pm.gpt.glist own ≡ some (node (own, b)) =
        subst (λ n. node_of pm.gpt.glist n ≡ some (node (n, b))) (sym named) in_table in
      (
        closed pm id b (dk_write_page_by_pid s pm.file id (pm.page b)).1 spms,
        close_goes s pm b enforce spms there may dirty (good.id_lem (pm.page b)) frees
              (subst (λ n. without_node pm.gpt.glist n ≢ []) (sym named) (others_left left))
            ∙ ap (λ n. some (closed pm n b (dk_write_page_by_pid s pm.file n (pm.page b)).1 spms))
                named,
        closed-IsPool _ spms all,
        kept spms named small,
      )

  -- A page with other users stays, and has one less.
  pub close_counts_lem :
      (pm.page b).page_id ≡ id
      → (pm.gpt.reference_count b == 1) ≡ false
      → mp_page_close s pm b false ≡ some (record pm { gpt = reference_sub pm.gpt b })
  close_counts_lem named more =
      close_counts s pm b false
        (subst (λ n. node_of pm.gpt.glist n ≡ some (node (n, b))) (sym named) in_table)
        (rw more refl)
