-- ===== src/Index/Tests.antt =====
-- A tree of a pivot page over two leaf pages: runs, and the theorems at inputs that meet their
-- conditions.
use dsm_db.Shared.{
  ℕ, ◌+◌, ◌*◌, ◌%◌, ◌^◌, ◌≤◌, ◌<◌, ◌≡◌, inl, inr, refl, ap, Bool, true, false, leb, ◌==◌,
  if◌then◌else◌, Option, some, none, [], ◌∷◌, arith, Bool-cases, ◌∙◌, sym, subst,
}
use dsm_db.Blink.{probe}
use dsm_db.Page.{page_id_null}
use dsm_db.Blink.Leaf.{
  Entry, Leaf, cleared, found_at, blink_leaf_scan, place_at, insert_place, shift_up, put_entry,
  has_space, put_placed, blink_entry_insert_to_leaf, is_leaf_safe, blink_leaf_init, move_entries,
  clear_entries, blink_leaf_split,
}
use dsm_db.Blink.Leaf.Scan.{IsSortedLeaf, lookup, lookup_found, lookup_absent}
use dsm_db.Blink.Pivot.{
  Pivot, cpid_at, blink_pivot_scan, child_index, route, blink_pivot_init, blink_pivot_set, put_pair,
  shift_up as shift_pairs, exchange, put_at, append_pair, blink_entry_insert_to_pivot,
  is_pivot_safe,
}
use dsm_db.Index.{
  leaf, pivot, Index, blink_is_node_safe, change, create_like, create_root, walk, next_leaves,
  returns, scanned, seek, db_1_isearch,
}
use dsm_db.Index.Insertion.{
  move_right, descend, split_page, link_level, grow_root, parent_of, find_parent, insert_safe,
  insert_level, db_1_iinsert,
}
use dsm_db.Index.Represents.{Entries, Span, child_span, Represents}
use dsm_db.Blink.Leaf.Space.{Fits}
use dsm_db.Index.Search.{db_1_isearch-Represents}
use dsm_db.Index.Insert.{set_entry, db_1_iinsert-Represents, db_1_iinsert-duplicate}

abbrev entry_of : ℕ → Entry
entry_of k = record { key = k; rest = λ j. k + j }

-- A leaf page of the keys `a` and `b`.
abbrev two : ℕ → ℕ → ℕ → ℕ → ℕ → Leaf
two pid npid bound a b = record {
  pid = pid;
  ppid = 1;
  bpid = page_id_null;
  npid = npid;
  page_type = 1;
  records = 2;
  width = 32;
  upbound = bound;
  entries = λ i. if leb 2 i then cleared else entry_of (if i == 0 then a else b);
}

abbrev top : Pivot
top = record {
  pid = 1;
  ppid = page_id_null;
  bpid = page_id_null;
  npid = page_id_null;
  page_type = 6;
  records = 1;
  width = 8;
  pairs = λ i. record { key = if i == 0 then 20 else page_id_null; cpid = i + 2 };
}

abbrev left : Leaf
left = two 2 3 20 10 20

abbrev right : Leaf
right = two 3 page_id_null page_id_null 30 40

abbrev tree : Index
tree = record {
  pages = λ q.
      if q == 1
      then some (pivot top)
      else if q == 2
      then some (leaf left)
      else if q == 3
      then some (leaf right)
      else none;
  root = 1;
  records = 4;
  count_is = 0;
  supply = 4 ∷ 5 ∷ 6 ∷ [];
}

abbrev whole : Span
whole = record { height = 1; low = 0; high = 1000 }

abbrev spans : ℕ → Span
spans q = if q == 1 then whole else child_span top whole 0 (if q == 2 then 0 else 1)

abbrev entry_at : ℕ → ℕ → Entries
entry_at a b k = if k == a then some (entry_of a) else if k == b then some (entry_of b) else none

abbrev entries : Entries
entries k = if leb k 20 then entry_at 10 20 k else entry_at 30 40 k

two-IsSorted : (pid npid bound a b : ℕ) → a < b → IsSortedLeaf (two pid npid bound a b)
two-IsSorted pid npid bound a b h i j lt hj = ground (arith, h)

lookup-two :
    (pid npid bound a b : ℕ)
    → a < b
    → (k : ℕ) → lookup (two pid npid bound a b) k ≡ some (entry_at a b k)
lookup-two pid npid bound a b h k =
    let l = two pid npid bound a b in
    let s : IsSortedLeaf l = two-IsSorted pid npid bound a b h in
    elim (Bool-cases (k == a)) [
      | inl first ↦ rw first (lookup_found l k 0 s (omega arith) (ground arith))
      | inr other ↦ elim (Bool-cases (k == b)) [
        | inl second ↦ rw (other, second) (lookup_found l k 1 s (omega arith) (ground arith))
        | inr out ↦ rw (other, out) (lookup_absent l k s (λ j hj. ground arith))
      ]
    ]

abbrev At : ℕ → Type 0
At i = Represents spans tree.pages 0 (cpid_at top i) (child_span top whole 0 i) entries

left-At : At 0
left-At = (
  refl,
  refl,
  (
    left,
    refl,
    record {
      id = refl;
      sorted = two-IsSorted 2 3 20 10 20 (omega arith);
      bound = inr (omega arith);
      entries = λ k low high. lookup-two 2 3 20 10 20 (omega arith) k ∙ ap some (ground arith);
    },
  ),
)

right-At : At 1
right-At = (
  refl,
  refl,
  (
    right,
    refl,
    record {
      id = refl;
      sorted = two-IsSorted 3 page_id_null page_id_null 30 40 (omega arith);
      bound = inl refl;
      entries = λ k low high.
          lookup-two 3 page_id_null page_id_null 30 40 (omega arith) k ∙ ap some (ground arith);
    },
  ),
)

tree-Represents : Represents spans tree.pages 1 1 whole entries
tree-Represents = (
  refl,
  refl,
  (
    top,
    refl,
    record {
      sorted = λ i j lt h. absurd (omega arith);
      some_there = omega arith;
      within = λ i h. ground arith;
      named = λ i h. ground arith;
    },
    λ i h. elim (Bool-cases (i == 0)) [
      | inl first ↦ let e : 0 ≡ i = ground arith in subst At e left-At
      | inr other ↦ let e : 1 ≡ i = ground arith in subst At e right-At
    ],
  ),
)

inside : {l r : Leaf} → some (leaf l) ≡ some (leaf r) → l ≡ r
inside e = cc e

unfold_safe : is_leaf_safe left ≡ true
unfolding is_leaf_safe
unfold_safe = refl

elsewhere :
    (q : ℕ) (l : Leaf)
    → (q == 2) ≡ false
    → tree.pages q ≡ some (leaf l)
    → ((spans q).low ≤ 15) × (15 ≤ (spans q).high)
    → ⊥
elsewhere q l other at here = ground (arith, at, here, other)

space_15 :
    (q : ℕ) (l : Leaf)
    → tree.pages q ≡ some (leaf l)
    → ((spans q).low ≤ 15) × (15 ≤ (spans q).high)
    → Fits l (l.records + 1)
space_15 q l at here = elim (Bool-cases (q == 2)) [
  | inl second ↦
      let e : q ≡ 2 = ground arith in
      let same : left ≡ l = inside (ap tree.pages (sym e) ∙ at) in
      subst (λ x. Fits x (x.records + 1)) same
        (record { key_fits = omega arith; inside = omega arith })
  | inr other ↦ absurd (elsewhere q l other at here)
]

db_1_isearch-Represents_example :
    (seek 2 tree 30 ≡ some (scanned (some (entry_of 30))))
    × (db_1_isearch 2 tree 30 7 ≡ some (7, tree))
db_1_isearch-Represents_example =
    db_1_isearch-Represents spans tree 2 1 30 7 whole entries (omega arith) (omega arith)
      (omega arith) tree-Represents

abbrev new : Entry
new = entry_of 15

db_1_iinsert-Represents_example :
    (ix' : Index) × (db_1_iinsert 2 tree new 15 ≡ some (true, ix'))
    × Represents spans ix'.pages 1 ix'.root whole (set_entry entries new)
    × (ix'.records ≡ (tree.records + 1) % 2 ^ 32)
    × (ix'.count_is ≡ tree.count_is)
db_1_iinsert-Represents_example =
    db_1_iinsert-Represents spans tree 2 1 whole entries new (omega arith) (omega arith)
      (omega arith) (omega arith) tree-Represents space_15 refl

safe_20 :
    (q : ℕ) (l : Leaf)
    → tree.pages q ≡ some (leaf l)
    → ((spans q).low ≤ 20) × (20 ≤ (spans q).high)
    → is_leaf_safe l ≡ true
safe_20 q l at here = elim (Bool-cases (q == 2)) [
  | inl second ↦
      let e : q ≡ 2 = ground arith in
      let same : left ≡ l = inside (ap tree.pages (sym e) ∙ at) in
      subst (λ x. is_leaf_safe x ≡ true) same unfold_safe
  | inr other ↦ absurd (ground (arith, at, here, other))
]

db_1_iinsert-duplicate_example :
    (ix' : Index) × (db_1_iinsert 2 tree (entry_of 20) 20 ≡ some (false, ix'))
    × ((k : ℕ) → ix'.pages k ≡ tree.pages k)
    × (ix'.root ≡ tree.root)
    × Represents spans ix'.pages 1 ix'.root whole entries
    × (ix'.records ≡ tree.records)
    × (ix'.count_is ≡ tree.count_is + 1)
db_1_iinsert-duplicate_example =
    db_1_iinsert-duplicate spans tree 2 1 whole entries (entry_of 20) (entry_of 20) (omega arith)
      (omega arith) (omega arith) (omega arith) tree-Represents safe_20 refl

-- All that a run of an insertion computes with.
program : Unit {0}
unfolding probe found_at blink_leaf_scan place_at insert_place shift_up put_entry has_space
    put_placed blink_entry_insert_to_leaf is_leaf_safe blink_leaf_init move_entries clear_entries
    blink_leaf_split blink_pivot_scan child_index route blink_pivot_init blink_pivot_set put_pair
    shift_pairs exchange put_at append_pair blink_entry_insert_to_pivot is_pivot_safe
    blink_is_node_safe change create_like create_root walk next_leaves seek move_right descend
    split_page link_level grow_root parent_of find_parent insert_safe insert_level db_1_iinsert
program = tt

-- One leaf page, that three wide records fill.
abbrev full : Leaf
full = record {
  pid = 1;
  ppid = page_id_null;
  bpid = page_id_null;
  npid = page_id_null;
  page_type = 5;
  records = 3;
  width = 1024;
  upbound = page_id_null;
  entries = λ i. if leb 3 i then cleared else entry_of (10 * (i + 1));
}

abbrev small : Index
small = record {
  pages = λ q. if q == 1 then some (leaf full) else none;
  root = 1;
  records = 3;
  count_is = 0;
  supply = 4 ∷ 5 ∷ [];
}

abbrev found_after : Option (Bool × Index) → ℕ → Option ℕ
found_after none key = none
found_after (some (ok, ix)) key = elim (seek 5 ix key) [
  | none ↦ none
  | some r ↦ elim r [
    | returns ↦ none
    | scanned tmp ↦ elim tmp [ none ↦ none | some e ↦ some e.key ]
  ]
]

abbrev root_after : Option (Bool × Index) → ℕ
root_after none = 0
root_after (some (ok, ix)) = ix.root

-- The full root splits, and a new root stands over its halves.
grown_root : root_after (db_1_iinsert 5 small new 15) ≡ 5
unfolding program
grown_root = refl

found_10 : found_after (db_1_iinsert 5 small new 15) 10 ≡ some 10
unfolding program
found_10 = refl

found_15 : found_after (db_1_iinsert 5 small new 15) 15 ≡ some 15
unfolding program
found_15 = refl

found_30 : found_after (db_1_iinsert 5 small new 15) 30 ≡ some 30
unfolding program
found_30 = refl
