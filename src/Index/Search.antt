-- ===== src/Index/Search.antt =====
-- src/interface/interface.c: `db_1_isearch` finds what the tree stands for.
use dsm_db.Shared.{
  ℕ, zero, suc, ◌-◌, ◌≤◌, ◌<◌, ◌≡◌, ◌⊎◌, refl, false, ltb, ◌==◌, not, ◌&&◌, Option, some, none,
  ◌>>=◌, arith,
}
use dsm_db.Page.{page_id_null}
use dsm_db.Blink.Leaf.{Entry, Leaf, blink_leaf_scan}
use dsm_db.Blink.Leaf.Scan.{lookup}
use dsm_db.Blink.Pivot.{Pivot, key_at, cpid_at}
use dsm_db.Blink.Pivot.Route.{Routes, blink_pivot_scan-Routes}
use dsm_db.Index.{
  IndexPage, leaf, pivot, Index, open_page, walk, next_leaves, scanned, seek, db_1_isearch,
}
use dsm_db.Index.Represents.{Entries, Span, child_span, Represents}

-- The key that a child is searched for lies between the child's bounds.
pub within_child :
    (p : Pivot) (s : Span) (h key i : ℕ)
    → s.low ≤ key
    → key ≤ s.high
    → Routes p.records (key_at p) key i
    → ((child_span p s h i).low ≤ key) × (key ≤ (child_span p s h i).high)
within_child p s h key i low high r = ground (arith, r.below (i - 1), r.above i, r.inside)

-- The leaf that a descent ends at.
abbrev pub Reaches : Index → ℕ → Option (Option Leaf) → Entries → Type 0
Reaches ix key r m =
    (l : Leaf) × (r ≡ some (some l))
    × ((l.upbound ≡ page_id_null) ⊎ (key ≤ l.upbound))
    × (lookup l key ≡ some (m key))

walk_lem :
    (span : ℕ → Span) (ix : Index) (f h pid key : ℕ) (s : Span) (m : Entries)
    → h < f
    → s.low ≤ key
    → key ≤ s.high
    → Represents span ix.pages h pid s m
    → (page : IndexPage) × (open_page ix pid ≡ some page) × Reaches ix key (walk f ix page key) m
unfolding walk
walk_lem span ix zero h pid key s m hf low high r = absurd (omega arith)
walk_lem span ix (suc f) zero pid key s m hf low high (at, height, (l, there, is)) =
    (leaf l, there, (l, refl, ground (arith, is.bound), is.entries key low high))
walk_lem span ix (suc f) (suc h) pid key s m hf low high (at, height, (p, there, is, below)) =
    let (i, route, scan) = blink_pivot_scan-Routes p key is.sorted is.some_there in
    let (low', high') = within_child p s h key i low high route in
    let (page, opened, (l, walks, bound, found)) =
      walk_lem span ix f h (cpid_at p i) key (child_span p s h i) m (omega arith) low' high'
        (below i route.inside) in
    let named : (cpid_at p i == page_id_null) ≡ false = ground (arith, is.named i route.inside) in
    (pivot p, there, (l, rw (scan, named, opened) walks, bound, found))

-- The leaf does not send the key on to the right.
stays :
    (ix : Index) (f key : ℕ) (l : Leaf)
    → (l.upbound ≡ page_id_null) ⊎ (key ≤ l.upbound)
    → next_leaves (suc f) ix l key ≡ some (some l)
unfolding next_leaves
stays ix f key l h =
    let test : (not (l.upbound == page_id_null) && ltb l.upbound key) ≡ false = ground arith in
    rw test refl

scanned_as :
    (r : Option (Option ℕ)) (g : Option ℕ → Option Entry) (v : Option Entry)
    → (r >>= λ x. some (g x)) ≡ some v
    → (r >>= λ x. some (scanned (g x))) ≡ some (scanned v)
scanned_as none g v h = cc
scanned_as (some x) g v h = cc

-- The last scan finds what the tree has.
seek_lem :
    (span : ℕ → Span) (ix : Index) (f h key : ℕ) (s : Span) (m : Entries)
    → h < f
    → s.low ≤ key
    → key ≤ s.high
    → Represents span ix.pages h ix.root s m
    → seek f ix key ≡ some (scanned (m key))
unfolding seek lookup
seek_lem span ix zero h key s m hf low high r = absurd (omega arith)
seek_lem span ix (suc f) h key s m hf low high r =
    let (page, opened, (l, walks, bound, found)) =
      walk_lem span ix (suc f) h ix.root key s m hf low high r in
    rw (opened, seek)
      (rw walks (
        rw (stays ix f key l bound) (
          scanned_as (blink_leaf_scan l key)
            (λ x. elim x [ none ↦ none | some i ↦ some (l.entries i) ]) (m key) found)))

-- The pages below the root, of height `h`, stand for `m`. With fuel for `h + 1` pages, the search of
-- a key between the bounds of the tree scans the leaf page that tells what `m` has for the key, leaves
-- the pages as they were, and gives the lock back. But the answer is not what the scan found: it is
-- `unset`, the value of a variable that is never written, whatever `m` has.
pub db_1_isearch-Represents :
    (span : ℕ → Span) (ix : Index) (f h key unset : ℕ) (s : Span) (m : Entries)
    → h < f
    → s.low ≤ key
    → key ≤ s.high
    → Represents span ix.pages h ix.root s m
    → (seek f ix key ≡ some (scanned (m key))) × (db_1_isearch f ix key unset ≡ some (unset, ix))
unfolding db_1_isearch
db_1_isearch-Represents span ix f h key unset s m hf low high r =
    let seeks : seek f ix key ≡ some (scanned (m key)) =
      seek_lem span ix f h key s m hf low high r in
    (seeks, rw seeks refl)
