-- ===== src/Pool/Table.antt =====
-- src/pool/pool.c: the table of the pages that are in the pool, `gpt`. The AVL tree of `Avl`, in which
-- the nodes stand by their page ids, is the list of the nodes here, the last one that was inserted
-- first; a node is known by its page id. One call runs at a time: a wait for another thread is
-- `none`, as is a use of NULL.
use dsm_db.Shared.{
  ℕ, ◌+◌, ◌-◌, ◌%◌, ◌^◌, ◌≡◌, ◌≢◌, refl, Bool, ◌||◌, ◌==◌, Option, some, none, List, [], ◌∷◌,
  if◌then◌else◌, ◌>>=◌,
}

abbrev pub gnodeloading : ℕ
gnodeloading = 0

abbrev pub gnodefinish : ℕ
gnodefinish = 1

abbrev pub gnodeswapping : ℕ
gnodeswapping = 2

abbrev pub gnodedestory : ℕ
gnodedestory = 3

abbrev pub pageinpool : ℕ
pageinpool = 0

abbrev pub pagenotinpool : ℕ
pagenotinpool = 1

-- `struct gnode`; a block is its number in the pool, and `none` is NULL.
pub record Gnode : Type 0 where
  pub pid : ℕ
  pub block : Option ℕ
  pub state : ℕ

-- The nodes, and of each block the count of its users and its state, which the table's functions
-- also reach.
pub record Gpt : Type 0 where
  pub glist : List Gnode
  pub reference_count : ℕ → ℕ
  pub block_state : ℕ → ℕ

abbrev pub set_at : (ℕ → ℕ) → ℕ → ℕ → ℕ → ℕ
set_at m b v j = if j == b then v else m j

-- atomic_fetch_add and atomic_fetch_sub of 1
abbrev pub reference_add : Gpt → ℕ → Gpt
reference_add gpt b = record gpt {
  reference_count = set_at gpt.reference_count b ((gpt.reference_count b + 1) % 2 ^ 32);
}

abbrev pub reference_sub : Gpt → ℕ → Gpt
reference_sub gpt b = record gpt {
  reference_count = set_at gpt.reference_count b ((gpt.reference_count b + (2 ^ 32 - 1)) % 2 ^ 32);
}

-- `avl_search_by_pid`
unfoldable pub node_of : List Gnode → ℕ → Option Gnode
node_of [] page_id = none
node_of (g ∷ gs) page_id = if g.pid == page_id then some g else node_of gs page_id

-- A change of the node of a page.
unfoldable pub set_node : List Gnode → ℕ → Option ℕ → ℕ → List Gnode
set_node [] page_id block state = []
set_node (g ∷ gs) page_id block state =
    if g.pid == page_id
    then record { pid = page_id; block = block; state = state } ∷ gs
    else g ∷ set_node gs page_id block state

-- The nodes that `avl_remove_by_addr` leaves.
unfoldable pub without_node : List Gnode → ℕ → List Gnode
without_node [] page_id = []
without_node (g ∷ gs) page_id = if g.pid == page_id then gs else g ∷ without_node gs page_id

abbrev pub gpt_push : Gpt → Gnode → Gpt
gpt_push gpt node = record gpt { glist = node ∷ gpt.glist }

-- `avl_remove_by_addr` of the last node follows a NULL, when it balances what is left: `none`. (The
-- wrong parent that `__switch` sets is for a right child of another node than the one that goes, which
-- the least node of its right subtree never is.)
unfoldable pub left_over : Gpt → List Gnode → Option Gpt
left_over gpt [] = none
left_over gpt (g ∷ gs) = some (record gpt { glist = g ∷ gs })

unfoldable pub gpt_remove : Gpt → ℕ → Option Gpt
gpt_remove gpt page_id = left_over gpt (without_node gpt.glist page_id)

pub gpt_remove_lem :
    (gpt : Gpt) (page_id : ℕ) (gs : List Gnode)
    → without_node gpt.glist page_id ≡ gs
    → gs ≢ []
    → gpt_remove gpt page_id ≡ some (record gpt { glist = gs })
unfolding gpt_remove left_over
gpt_remove_lem gpt page_id [] e some_left = absurd (some_left refl)
gpt_remove_lem gpt page_id (g ∷ gs) e some_left = rw e refl

abbrev pub gpt_allocate_node : ℕ → Option ℕ → ℕ → Gnode
gpt_allocate_node page_id b_addr state = record { pid = page_id; block = b_addr; state = state }

-- What is done for a page that has a node: a wait for a swap that never ends is `none`.
unfoldable pub open_known : Gpt → Gnode → Gnode → Option (Option Gnode × Gpt)
open_known gpt new gnode =
    if gnode.state == gnodeswapping
    then (do
      tmp ← gnode.block
      if gpt.block_state tmp == pagenotinpool then some (some new, gpt_push gpt new) else none)
    else if gnode.state == gnodedestory
    then some (none, gpt)
    else if gnode.state == gnodeloading
    then none
    else (do b ← gnode.block; some (some gnode, reference_add gpt b))

unfoldable pub open_by : Gpt → Gnode → Option Gnode → Option (Option Gnode × Gpt)
open_by gpt new none = some (some new, gpt_push gpt new)
open_by gpt new (some gnode) = open_known gpt new gnode

unfoldable pub gpt_open_test_and_set : Gpt → ℕ → Option (Option Gnode × Gpt)
gpt_open_test_and_set gpt page_id =
    open_by gpt (gpt_allocate_node page_id none gnodeloading) (node_of gpt.glist page_id)

-- The node is given out if its block has one user, or if the call enforces it.
unfoldable pub close_block : Gpt → Gnode → ℕ → Bool → ℕ → Option Gnode × Gpt
close_block gpt gnode state enforce b =
    let ref = gpt.reference_count b in
    let counted = if state == gnodeswapping then reference_sub gpt b else gpt in
    if (ref == 1) || enforce
    then (
      some (record gnode { state = state }),
      record counted { glist = set_node counted.glist gnode.pid gnode.block state },
    )
    else (none, counted)

unfoldable pub close_by : Gpt → ℕ → Bool → Option Gnode → Option (Option Gnode × Gpt)
close_by gpt state enforce none = some (none, gpt)
close_by gpt state enforce (some gnode) = do
  b ← gnode.block
  some (close_block gpt gnode state enforce b)

unfoldable pub gpt_close_test_and_set : Gpt → ℕ → ℕ → Bool → Option (Option Gnode × Gpt)
gpt_close_test_and_set gpt page_id state enforce =
    close_by gpt state enforce (node_of gpt.glist page_id)
