-- ===== src/Index/Represents.antt =====
-- src/interface/interface.c: what a tree of index pages stands for.
use dsm_db.Shared.{
  ℕ, zero, suc, ◌+◌, ◌-◌, ◌≤◌, ◌<◌, ◌≡◌, ◌≢◌, ◌⊎◌, ◌==◌, Option, some, if◌then◌else◌,
}
use dsm_db.Page.{page_id_null}
use dsm_db.Blink.Leaf.{Entry, Leaf}
use dsm_db.Blink.Leaf.Scan.{IsSortedLeaf, lookup}
use dsm_db.Blink.Pivot.{Pivot, key_at, cpid_at}
use dsm_db.Blink.Pivot.Route.{IsSortedPivot}
use dsm_db.Index.{leaf, pivot, Pages}

abbrev pub Entries : Type 0
Entries = ℕ → Option Entry

-- Where a page stands in the tree: its height, and the least and greatest key that lead to it.
pub record Span : Type 0 where
  pub height : ℕ
  pub low : ℕ
  pub high : ℕ

-- The keys that lead to the child `i`, of those between `low` and `high` that lead to a pivot page.
abbrev pub child_span : Pivot → Span → ℕ → ℕ → Span
child_span p s h i = record {
  height = h;
  low = if i == 0 then s.low else key_at p (i - 1) + 1;
  high = if i == p.records then s.high else key_at p i;
}

-- A leaf page of rising keys that stands for the entries of its keys, and whose upper bound does
-- not send them on to the right.
pub record IsLeafOf (l : Leaf) (pid : ℕ) (s : Span) (m : Entries) : Type 0 where
  pub id : l.pid ≡ pid
  pub sorted : IsSortedLeaf l
  pub bound : (l.upbound ≡ page_id_null) ⊎ (s.high ≤ l.upbound)
  pub entries : (k : ℕ) → s.low ≤ k → k ≤ s.high → lookup l k ≡ some (m k)

-- A pivot page of rising keys, all of them between the bounds, that names no child null.
pub record IsPivotOf (p : Pivot) (s : Span) : Type 0 where
  pub sorted : IsSortedPivot p
  pub some_there : 0 < p.records
  pub within : (i : ℕ) → i < p.records → (s.low ≤ key_at p i) × (key_at p i ≤ s.high)
  pub named : (i : ℕ) → i ≤ p.records → cpid_at p i ≢ page_id_null

-- The pages below an id, of a height, stand for the entries of the keys between the bounds; `span`
-- says where each page stands, so that no page stands at two places.
abbrev pub Represents : (ℕ → Span) → Pages → ℕ → ℕ → Span → Entries → Type 0
Represents span pages zero pid s m =
    (span pid ≡ s)
    × (s.height ≡ 0)
    × ((l : Leaf) × (pages pid ≡ some (leaf l)) × IsLeafOf l pid s m)
Represents span pages (suc h) pid s m =
    (span pid ≡ s)
    × (s.height ≡ suc h)
    × ((p : Pivot) × (pages pid ≡ some (pivot p))
        × IsPivotOf p s
        × ((i : ℕ) → i ≤ p.records → Represents span pages h (cpid_at p i) (child_span p s h i) m))
