-- ===== src/Index/Insertion.antt =====
-- src/interface/interface.c: `__move_right` and `db_1_iinsert`.
use dsm_db.Shared.{
  ℕ, zero, suc, ◌+◌, ◌-◌, ◌%◌, ◌^◌, Bool, true, false, ltb, leb, ◌==◌, not, ◌&&◌, Option, some,
  none, List, [], ◌∷◌, length, if◌then◌else◌, ◌>>=◌,
}
use dsm_db.Page.{page_id_null}
use dsm_db.Blink.Leaf.{Entry, bll_key_dup, blink_entry_insert_to_leaf, blink_leaf_split}
use dsm_db.Blink.Pivot.{sep, blink_pivot_scan, blink_entry_insert_to_pivot, blink_pivot_set}
use dsm_db.Blink.Pivot.Split.{blink_pivot_split}
use dsm_db.Index.{
  IndexPage, leaf, pivot, Index, blinkstacksize, open_page, set_page, blink_pid, blink_npid,
  blink_par, upbound_of, set_npid, set_bpid, set_par, clear_root, blink_is_node_safe, change,
  create_like, create_root,
}

-- `__move_right`, from the page of an id; the inner `none` is NULL.
unfoldable pub move_right : ℕ → Index → ℕ → ℕ → Option (Option ℕ)
move_right zero ix cur key = none
move_right (suc f) ix cur key = do
  page ← open_page ix cur
  let right : Option (Option ℕ) = elim (open_page ix (blink_npid page)) [
    | none ↦ some none
    | some next ↦ move_right f ix (blink_npid page) key
  ]
  if not (upbound_of page == page_id_null) && ltb (upbound_of page) key
      then right
      else some (some cur)

-- The descent, with the stack of the ids on the way; the inner `none` is the return for a child id
-- that is null. A push behind the end of the stack is `none`.
unfoldable pub descend : ℕ → Index → ℕ → IndexPage → ℕ → List ℕ → Option (Option (ℕ × List ℕ))
descend zero ix cur page key stack = none
descend (suc f) ix cur (leaf l) key stack = some (some (cur, stack))
descend (suc f) ix cur (pivot p) key stack = do
  page_id ← blink_pivot_scan p key
  let below = (open_page ix page_id >>= λ page. descend f ix page_id page key (p.pid ∷ stack))
  if leb blinkstacksize (length stack)
      then none
      else if page_id == page_id_null
      then some none
      else below

-- What goes up from a split: the key, and the id of the new page.
abbrev pub Risen : Type 0
Risen = ℕ × ℕ

-- The split of the page `cur` with the new page `sibling`, by the page's kind. The leaf takes the
-- entry, by the key that came with it, the pivot what has risen from below.
unfoldable pub split_page :
    Entry → ℕ → Risen → IndexPage → IndexPage → Option (ℕ × IndexPage × IndexPage)
split_page entry key risen (leaf l) (leaf r) = do
  (max, l', r') ← blink_leaf_split l r entry key
  some (max, leaf l', leaf r')
split_page entry _ (key, cpid) (pivot p) (pivot q) = do
  (max, p', q') ← blink_pivot_split p q key cpid
  some (max, pivot p', pivot q')
split_page entry key risen (leaf l) (pivot q) = none
split_page entry key risen (pivot p) (leaf r) = none

-- The links of the level: the page after `cur` is `npid`, and may not be there.
unfoldable pub link_level : Index → ℕ → ℕ → ℕ → Option Index
link_level ix cur sibling npid =
    let ends = (change (set_npid page_id_null) ix sibling) in
    let after : Option Index = elim (open_page ix npid) [
      | none ↦ ends
      | some a ↦
          (change (set_npid (blink_pid a)) ix sibling >>= λ ix1. change (set_bpid sibling) ix1 npid)
    ] in
    ((if npid == page_id_null then ends else after) >>= λ ix1.
    (change (set_npid sibling) ix1 cur >>= λ ix2. change (set_bpid cur) ix2 sibling))

-- A new root over `old` and `sibling`.
unfoldable pub grow_root : Index → ℕ → ℕ → ℕ → Option (ℕ × Index)
grow_root ix old sibling key = do
  (top, ix1) ← create_root ix ix.supply
  ix2 ← change clear_root ix1 old
  ix3 ← change (set_par top) ix2 old
  page ← open_page ix3 top
  elim page [
    | leaf l ↦ none
    | pivot p ↦ some (top, set_page ix3 top (pivot (blink_pivot_set p key old sibling)))
  ]

-- The parent's id, and the stack that is left: the stack's top, or with no stack the page's own
-- parent. The page takes the id from the stack.
unfoldable pub parent_of : Index → ℕ → ℕ → List ℕ → Option (ℕ × List ℕ × Index)
parent_of ix old par [] = some (par, [], ix)
parent_of ix old par (top ∷ stack) = do
  ix1 ← (if par == top then some ix else change (set_par top) ix old)
  some (top, stack, ix1)

-- The parent that takes the new key, after moving right.
unfoldable pub find_parent : ℕ → Index → ℕ → ℕ → List ℕ → ℕ → Option (ℕ × List ℕ × Index)
find_parent f ix old par stack key = do
  (page_id, stack', ix1) ← parent_of ix old par stack
  place ← move_right f ix1 page_id key
  cur ← place
  some (cur, stack', ix1)

-- The insertion in a page with room: a root that has just grown is noted down instead. False says
-- that the key is there.
unfoldable pub insert_safe : Index → ℕ → IndexPage → Entry → Risen → Bool → Option (Bool × Index)
insert_safe ix cur page entry risen true = some (true, record ix { root = blink_pid page })
insert_safe ix cur (leaf l) entry risen false = do
  (rev, l') ← blink_entry_insert_to_leaf l entry
  some (not (rev == bll_key_dup), set_page ix cur (leaf l'))
insert_safe ix cur (pivot p) entry (key, cpid) false = do
  (rev, p') ← blink_entry_insert_to_pivot p key cpid sep
  some (not (rev == bll_key_dup), set_page ix cur (pivot p'))

-- The loop from BLINK_INSERT_TO_PREV_LEVEL on.
unfoldable pub insert_level :
    ℕ → Index → ℕ → List ℕ → Entry → ℕ → Risen → Bool → Option (Bool × Index)
insert_level zero ix cur stack entry key risen is_root = none
insert_level (suc f) ix cur stack entry key risen is_root = do
  page ← open_page ix cur
  let up : Option (Bool × Index) = (do
    (sibling, ix1) ← create_like page ix ix.supply
    fresh ← open_page ix1 sibling
    (max, left, right) ← split_page entry key risen page fresh
    let npid = blink_npid page
    ix2 ← link_level (set_page (set_page ix1 cur left) sibling right) cur sibling npid
    let grown : Option (Bool × Index) = (do
      (top, ix3) ← grow_root ix2 cur sibling max
      ix4 ← change (set_par top) ix3 sibling
      insert_level f ix4 top stack entry key (max, sibling) true)
    let climbed : Option (Bool × Index) = (do
      (par, stack', ix3) ← find_parent f ix2 cur (blink_par page) stack max
      ix4 ← change (set_par par) ix3 sibling
      insert_level f ix4 par stack' entry key (max, sibling) is_root)
    if blink_par page == page_id_null then grown else climbed)
  if blink_is_node_safe page then insert_safe ix cur page entry risen is_root else up

-- The key comes beside the entry, which has one of its own. A key that is there, and a child id that is null, leave the lock taken and the count as it was.
unfoldable pub db_1_iinsert : ℕ → Index → Entry → ℕ → Option (Bool × Index)
db_1_iinsert f ix entry key = do
  page ← open_page ix ix.root
  let inside = record ix { count_is = ix.count_is + 1 }
  let on_leaf : ℕ → List ℕ → Option (Bool × Index) = λ start stack. (do
    place ← move_right f inside start key
    cur ← place
    (done, ix') ← insert_level f inside cur stack entry key (page_id_null, page_id_null) false
    some (
        if done
        then (
          true,
          record ix' { records = (ix'.records + 1) % 2 ^ 32; count_is = ix'.count_is - 1 },
        )
        else (false, ix')))
  reached ← descend f inside ix.root page key []
  elim reached [ none ↦ some (false, inside) | some (cur, stack) ↦ on_leaf cur stack ]
