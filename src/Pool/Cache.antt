-- ===== src/Pool/Cache.antt =====
-- src/pool/pool.c: the pool as a cache of the pages in the file. The table, between two calls, is a
-- list of page ids with their blocks; the page of an id is that of its block, or else what a read of
-- the file gives.
use dsm_db.Shared.{ℕ, ◌≡◌, ◌⊎◌, ◌==◌, Option, some, none, List, [], ◌∷◌, if◌then◌else◌, IsDistinct}
use dsm_db.Disk.{Storage}
use dsm_db.Page.{Page}
use dsm_db.Pool.Ids.Chain.{IsPageStorage, OnDisk}
use dsm_db.Pool.Table.{Gnode, gnodefinish}
use dsm_db.Pool.Pages.{PoolMg}
use dsm_db.Pool.Frames.{Subs, IsUsed}

-- A page in the pool: its id, and its block.
abbrev pub Entry : Type 0
Entry = ℕ × ℕ

abbrev pub node : Entry → Gnode
node (id, b) = record { pid = id; block = some b; state = gnodefinish }

abbrev pub nodes : List Entry → List Gnode
nodes [] = []
nodes (e ∷ es) = node e ∷ nodes es

abbrev pub ids_in : List Entry → List ℕ
ids_in [] = []
ids_in (e ∷ es) = e.0 ∷ ids_in es

abbrev pub blocks_in : List Entry → List ℕ
blocks_in [] = []
blocks_in (e ∷ es) = e.1 ∷ blocks_in es

abbrev pub block_for : List Entry → ℕ → Option ℕ
block_for [] id = none
block_for (e ∷ es) id = if e.0 == id then some e.1 else block_for es id

abbrev pub without : List Entry → ℕ → List Entry
without [] id = []
without (e ∷ es) id = if e.0 == id then es else e ∷ without es id

abbrev pub AllUsed : (ℕ → List ℕ) → List Entry → Type 0
AllUsed free [] = Unit
AllUsed free (e ∷ es) = IsUsed free e.1 × AllUsed free es

-- The pool between two calls: no page id twice, no block twice, and no block that is free.
pub record IsPool {File : Type 0} (pm : PoolMg File) (es : List Entry) (free : ℕ → List ℕ)
    : Type 0 where
  pub table : pm.gpt.glist ≡ nodes es
  pub subs : Subs pm.sub_pool free
  pub ids : IsDistinct (ids_in es)
  pub blocks : IsDistinct (blocks_in es)
  pub used : AllUsed free es

-- The page of an id.
abbrev pub Content :
    {File : Type 0} (s : Storage File Page) (good : IsPageStorage s) (es : List Entry)
    (pm : PoolMg File)
    → ℕ
    → Page
    → Type 0
Content s good es pm id p =
    ((b : ℕ) × (block_for es id ≡ some b) × (pm.page b ≡ p))
    ⊎ ((block_for es id ≡ none) × OnDisk s good pm.file id p)
