-- ===== src/Index.antt =====
-- src/interface/interface.c: the B-link tree, by `db_1_isearch` and `db_1_iinsert`, over the pages of
-- src/index. The buffer pool stands here as a map from page ids to pages: an open gives the page of
-- the id, and NULL where there is none. A block is the id that it was opened by, and a change of its
-- page is a change of the map. One call runs at a time, so the locks of the pages leave no trace;
-- the count of the readers of the tree's lock is kept. `none` is a use of NULL as a block, and a
-- loop that is still running when the fuel is out.
use dsm_db.Shared.{
  ℕ, zero, suc, ◌+◌, ◌-◌, ◌%◌, ◌^◌, Bool, true, false, ltb, leb, ◌==◌, not, ◌&&◌, Option, some,
  none, List, [], ◌∷◌, if◌then◌else◌, ◌>>=◌, length,
}
use dsm_db.Blink.{blink_is_root}
use dsm_db.Page.{page_id_null}
use dsm_db.Blink.Leaf.{
  Entry, Leaf, blink_leaf_init, is_leaf_safe, blink_leaf_scan, blink_entry_insert_to_leaf,
  blink_leaf_split,
}
use dsm_db.Blink.Pivot.{
  Pivot, key_at, Kind, sep, pivot_upbound_index, is_pivot_safe, blink_pivot_init, blink_pivot_scan,
  blink_entry_insert_to_pivot, blink_pivot_set,
}
use dsm_db.Blink.Pivot.Split.{blink_pivot_split}
pub mod Represents
pub mod Search
pub mod Insertion
pub mod Descent
pub mod Insert
mod Tests

-- A page of the tree, by the bits of its page type.
pub data IndexPage : Type 0 where
  leaf : Leaf → IndexPage
  pivot : Pivot → IndexPage

abbrev pub Pages : Type 0
Pages = ℕ → Option IndexPage

-- `blink_table` keeps the id of the root and the count of the records; `count_is` counts who is
-- within the lock as a reader, and `supply` lists the ids that `mp_index_create` will give.
pub record Index : Type 0 where
  pub pages : Pages
  pub root : ℕ
  pub records : ℕ
  pub count_is : ℕ
  pub supply : List ℕ

abbrev pub blinkstacksize : ℕ
blinkstacksize = 64

-- mp_page_open
abbrev pub open_page : Index → ℕ → Option IndexPage
open_page ix pid = ix.pages pid

abbrev pub set_page : Index → ℕ → IndexPage → Index
set_page ix pid page = record ix { pages = λ q. if q == pid then some page else ix.pages q }

-- GET_BLINK_PID and the like
abbrev pub blink_pid : IndexPage → ℕ
blink_pid (leaf l) = l.pid
blink_pid (pivot p) = p.pid

abbrev pub blink_npid : IndexPage → ℕ
blink_npid (leaf l) = l.npid
blink_npid (pivot p) = p.npid

abbrev pub blink_par : IndexPage → ℕ
blink_par (leaf l) = l.ppid
blink_par (pivot p) = p.ppid

abbrev pub blink_width : IndexPage → ℕ
blink_width (leaf l) = l.width
blink_width (pivot p) = p.width

abbrev pub upbound_of : IndexPage → ℕ
upbound_of (leaf l) = l.upbound
upbound_of (pivot p) = key_at p pivot_upbound_index

abbrev pub set_npid : ℕ → IndexPage → IndexPage
set_npid id (leaf l) = leaf (record l { npid = id })
set_npid id (pivot p) = pivot (record p { npid = id })

abbrev pub set_bpid : ℕ → IndexPage → IndexPage
set_bpid id (leaf l) = leaf (record l { bpid = id })
set_bpid id (pivot p) = pivot (record p { bpid = id })

abbrev pub set_par : ℕ → IndexPage → IndexPage
set_par id (leaf l) = leaf (record l { ppid = id })
set_par id (pivot p) = pivot (record p { ppid = id })

-- type & ~ROOT_PAGE
abbrev pub without_root : ℕ → ℕ
without_root type = if blink_is_root type then type - 4 else type

abbrev pub clear_root : IndexPage → IndexPage
clear_root (leaf l) = leaf (record l { page_type = without_root l.page_type })
clear_root (pivot p) = pivot (record p { page_type = without_root p.page_type })

unfoldable pub blink_is_node_safe : IndexPage → Bool
blink_is_node_safe (leaf l) = is_leaf_safe l
blink_is_node_safe (pivot p) = is_pivot_safe p

-- A setter of a header, on the page of an id.
unfoldable pub change : (IndexPage → IndexPage) → Index → ℕ → Option Index
change f ix pid = do page ← open_page ix pid; some (set_page ix pid (f page))

-- mp_index_create, for a page of the same kind as `like`, with its id.
unfoldable pub create_like : IndexPage → Index → List ℕ → Option (ℕ × Index)
create_like like ix [] = none
create_like (leaf l) ix (id ∷ ids) = some (
  id,
  record (set_page ix id (leaf (blink_leaf_init id page_id_null page_id_null l.width 1))) {
    supply = ids;
  },
)
create_like (pivot p) ix (id ∷ ids) = some (
  id,
  record (set_page ix id (pivot (blink_pivot_init id page_id_null page_id_null 2))) {
    supply = ids;
  },
)

-- mp_index_create (ROOT_PAGE | PIVOT_PAGE)
unfoldable pub create_root : Index → List ℕ → Option (ℕ × Index)
create_root ix [] = none
create_root ix (id ∷ ids) = some (
  id,
  record (set_page ix id (pivot (blink_pivot_init id page_id_null page_id_null 6))) {
    supply = ids;
  },
)

-- The descent of `db_1_isearch`; the inner `none` is the return for a child id that is null.
unfoldable pub walk : ℕ → Index → IndexPage → ℕ → Option (Option Leaf)
walk zero ix page key = none
walk (suc f) ix (leaf l) key = some (some l)
walk (suc f) ix (pivot p) key = do
  page_id ← blink_pivot_scan p key
  let below = (open_page ix page_id >>= λ page. walk f ix page key)
  if page_id == page_id_null then some none else below

-- The loop that moves right over the leaves; the inner `none` is the return for an open that fails.
-- A pivot page in place of the next leaf would be read as a leaf: `none`.
unfoldable pub next_leaves : ℕ → Index → Leaf → ℕ → Option (Option Leaf)
next_leaves zero ix l key = none
next_leaves (suc f) ix l key =
    let on : IndexPage → Option (Option Leaf) =
      λ page. elim page [ leaf r ↦ next_leaves f ix r key | pivot p ↦ none ] in
    let right : Option (Option Leaf) = elim (open_page ix l.npid) [
      | none ↦ some none
      | some page ↦ on page
    ] in
    if not (l.upbound == page_id_null) && ltb l.upbound key then right else some (some l)

-- How far `db_1_isearch` comes: to an early return of NULL, or to the scan of a leaf page, whose
-- answer it puts in `tmp`.
pub data Sought : Type 0 where
  returns : Sought
  scanned : Option Entry → Sought

unfoldable pub seek : ℕ → Index → ℕ → Option Sought
seek f ix key =
    let from_leaf : Leaf → Option Sought = λ l. do
      found ← blink_leaf_scan l key
      some (scanned (elim found [ none ↦ none | some i ↦ some (l.entries i) ]))
    in let moved : Leaf → Option Sought = λ l. do
      last ← next_leaves f ix l key
      elim last [ none ↦ some returns | some l' ↦ from_leaf l' ]
      in let from_root : IndexPage → Option Sought = λ page. do
        reached ← walk f ix page key
        elim reached [ none ↦ some returns | some l ↦ moved l ]
        in elim (open_page ix ix.root) [ none ↦ some returns | some page ↦ from_root page ]

-- The answer, and the index that is left. `state`, which the function answers, is never written:
-- `unset` is what it holds. What the scan found is dropped. An early return leaves the lock taken.
unfoldable pub db_1_isearch : ℕ → Index → ℕ → ℕ → Option (ℕ × Index)
db_1_isearch f ix key unset = do
  sought ← seek f ix key
  some (elim sought [
    | returns ↦ (0, record ix { count_is = ix.count_is + 1 })
    | scanned tmp ↦ (unset, ix)
  ])
