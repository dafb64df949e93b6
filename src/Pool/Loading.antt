-- ===== src/Pool/Loading.antt =====
-- src/pool/pool.c: the parts of `mp_page_open`: the test of the table, and the read into a block.
use dsm_db.Shared.{ℕ, suc, ◌≡◌, ◌≢◌, refl, [], some, none, List, ◌∷◌, ==_refl}
use dsm_db.Disk.{Storage}
use dsm_db.Page.{Page}
use dsm_db.Pool.Blocks.{SubPool}
use dsm_db.Pool.Transfer.{pageloadaccp, page_bring_in}
use dsm_db.Pool.Ids.Chain.{IsPageStorage, OnDisk}
use dsm_db.Pool.Table.{
  Gpt, gnodeloading, pageinpool, node_of, set_node, without_node, open_known, open_by,
  gpt_open_test_and_set, gpt_push, reference_add, gpt_allocate_node, gpt_remove, left_over,
  gpt_remove_lem,
}
use dsm_db.Pool.Pages.{PoolMg, set_page, set_block_state, allocate_block}
use dsm_db.Pool.Calls.{load_in, open_node, mp_page_open}
use dsm_db.Pool.Frames.{Subs, set_type_lem}
use dsm_db.Pool.Cache.{node}

-- The parts of a call, by what is found.
module _ {File : Type 0} (s : Storage File Page) (fuel : ℕ) (pm : PoolMg File)
    (id open_type : ℕ) where
  pub open_in_pool :
      (b : ℕ)
      → node_of pm.gpt.glist id ≡ some (node (id, b))
      → mp_page_open s fuel pm id open_type
        ≡ some (some b, record pm { gpt = reference_add pm.gpt b })
  unfolding mp_page_open gpt_open_test_and_set open_by open_known open_node
  open_in_pool b known = rw known refl

  -- The table with a node that has no block yet.
  abbrev pub waiting : PoolMg File
  waiting = record pm { gpt = gpt_push pm.gpt (gpt_allocate_node id none gnodeloading) }

  pub open_new :
      node_of pm.gpt.glist id ≡ none
      → mp_page_open s fuel pm id open_type
        ≡ open_node s fuel id open_type (gpt_allocate_node id none gnodeloading) waiting
  unfolding mp_page_open gpt_open_test_and_set open_by
  open_new unknown = rw unknown refl

  pub open_refused :
      (spms' : ℕ → SubPool)
      → allocate_block pm.sub_pool ≡ some (none, spms')
      → pm.gpt.glist ≢ []
      → open_node s fuel id open_type (gpt_allocate_node id none gnodeloading) waiting
        ≡ some (none, record pm { sub_pool = spms' })
  unfolding open_node
  open_refused spms' none_free some_there =
      rw
        (
          none_free,
          gpt_remove_lem waiting.gpt id pm.gpt.glist (unfold without_node in rw (==_refl id) refl)
              some_there,
        )
        refl

  -- The node that goes again was the only one.
  pub open_crashes :
      (spms' : ℕ → SubPool)
      → allocate_block pm.sub_pool ≡ some (none, spms')
      → pm.gpt.glist ≡ []
      → open_node s fuel id open_type (gpt_allocate_node id none gnodeloading) waiting ≡ none
  unfolding open_node gpt_remove without_node left_over
  open_crashes spms' none_free nothing = rw (none_free, ==_refl id, nothing) refl

  pub open_loads :
      (b : ℕ) (spms' : ℕ → SubPool)
      → allocate_block pm.sub_pool ≡ some (some b, spms')
      → open_node s fuel id open_type (gpt_allocate_node id none gnodeloading) waiting
        ≡ load_in s fuel id open_type b (record waiting { sub_pool = spms' })
  unfolding open_node
  open_loads b spms' takes = rw takes refl

-- The pool once the page `p` is in the block `b`, with the sub-pools `spms`.
abbrev pub loaded : {File : Type 0} → PoolMg File → ℕ → ℕ → Page → (ℕ → SubPool) → PoolMg File
loaded pm id b p spms =
    let gpt : Gpt =
      set_block_state (record pm.gpt { glist = node (id, b) ∷ pm.gpt.glist }) b pageinpool in
    record pm { sub_pool = spms; page = set_page pm.page b p; gpt = reference_add gpt b }

module _ {File : Type 0} (s : Storage File Page) (good : IsPageStorage s) where
  brings :
      (fuel id : ℕ) (file : File) (old p : Page)
      → OnDisk s good file id p
      → page_bring_in s (suc fuel) file id old ≡ some (pageloadaccp, p)
  unfolding page_bring_in
  brings fuel id file old p on = rw (on fuel old) refl

  pub load_lem :
      (fuel id open_type b : ℕ) (pm : PoolMg File) (p : Page) (spms : ℕ → SubPool)
      (free : ℕ → List ℕ)
      → OnDisk s good pm.file id p
      → Subs spms free
      → (spms' : ℕ → SubPool) × (load_in s
            (suc fuel)
            id
            open_type
            b
            (record (waiting s fuel pm id open_type) { sub_pool = spms })
          ≡ some (some b, loaded pm id b p spms'))
        × Subs spms' free
  unfolding load_in set_node
  load_lem fuel id open_type b pm p spms free on all =
      let read : PoolMg File = record pm {
        sub_pool = spms;
        page = set_page pm.page b p;
        gpt = set_block_state (record pm.gpt { glist = node (id, b) ∷ pm.gpt.glist }) b pageinpool;
      } in
      let (spms', marks, all') = set_type_lem s b open_type read free all in
      (spms', rw (==_refl id, brings fuel id pm.file (pm.page b) p on, marks) refl, all')
