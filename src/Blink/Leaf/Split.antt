-- ===== src/Blink/Leaf/Split.antt =====
-- src/index/b_page.c: `blink_leaf_split` and `blink_merge_leaf`.
use dsm_db.Shared.{
  ℕ, zero, suc, ◌+◌, ◌-◌, ◌/◌, ◌≤◌, ◌<◌, ◌≡◌, ◌⊎◌, inl, inr, refl, ◌∙◌, sym, ap, true, Option, some,
  none, ltb, ◌==◌, if◌then◌else◌, arith, Bool-cases,
}
use native.Mathlib.Nat.{add-zero}
use dsm_db.Blink.Leaf.{
  Entry, Leaf, key_at, clear_entries, shift_up, insert_place, put_entry, put_placed, bll_accept,
  blink_entry_insert_to_leaf, move_entries, blink_leaf_split,
}
use dsm_db.Blink.Leaf.Arrays.{clear_entries_lem}
use dsm_db.Blink.Leaf.Scan.{IsSortedLeaf, Finds-cases, lookup, lookup_found, lookup_absent}
use dsm_db.Blink.Leaf.Insert.{insert_absent}
use dsm_db.Blink.Leaf.Space.{Fits, Fits-fewer, Fits-lt, Fits-same, has_space_lem}

-- An entry whose key is above all others goes behind the last one.
abbrev IsAbove : Leaf → ℕ → Type 0
IsAbove l key = (l.records ≡ 0) ⊎ (key_at l (l.records - 1) < key)

insert_above :
    (l : Leaf) (e : Entry)
    → IsAbove l e.key
    → Fits l (l.records + 1)
    → blink_entry_insert_to_leaf l e ≡ some (bll_accept, put_entry l l.records e)
unfolding blink_entry_insert_to_leaf insert_place put_placed
insert_above l e h fits = elim (Bool-cases (l.records == 0)) [
  | inl empty ↦
      rw (empty, has_space_lem l fits) (ap (λ n. some (bll_accept, put_entry l n e)) (ground arith))
  | inr some_there ↦
      let above : ltb (key_at l (l.records - 1)) e.key ≡ true = ground arith in
      rw (some_there, above, has_space_lem l fits) refl
]

entries-append :
    (l : Leaf) (e : Entry) (j : ℕ)
    → (put_entry l l.records e).entries j ≡ (if j == l.records then e else l.entries j)
unfolding put_entry shift_up
entries-append l e j = let none_to_move : l.records - l.records ≡ 0 = omega arith in rw none_to_move

records-append :
    (l : Leaf) (e : Entry) → l.records < 65535 → (put_entry l l.records e).records ≡ l.records + 1
unfolding put_entry
records-append l e h = omega arith

width-append : (l : Leaf) (e : Entry) → (put_entry l l.records e).width ≡ l.width
unfolding put_entry
width-append l e = refl

-- What moving `n` entries of `from`, from index `i` on, behind those of `to` leaves.
record Moved (from to : Leaf) (i n : ℕ) (after : Leaf) : Type 0 where
  count : after.records ≡ to.records + n
  width : after.width ≡ to.width
  old : (j : ℕ) → j < to.records → after.entries j ≡ to.entries j
  new : (j : ℕ) → j < n → after.entries (to.records + j) ≡ from.entries (i + j)

module _ (from to : Leaf) (i n : ℕ) (room : to.records < 65535) where
  abbrev appended : Leaf
  appended = put_entry to to.records (from.entries i)

  Moved-cons : (after : Leaf) → Moved from appended (i + 1) n after → Moved from to i (suc n) after
  Moved-cons after m = record {
    count = omega (arith, m.count, records-append to (from.entries i) room);
    width = m.width ∙ width-append to (from.entries i);
    old = λ j hj.
        m.old j (omega (arith, records-append to (from.entries i) room))
        ∙ ground (arith, entries-append to (from.entries i) j);
    new = new;
  }
    where
      new : (j : ℕ) → j < suc n → after.entries (to.records + j) ≡ from.entries (i + j)
      new zero hj =
          ap after.entries (omega arith)
          ∙ m.old to.records (omega (arith, records-append to (from.entries i) room))
          ∙ ground
              (arith, entries-append to (from.entries i) to.records, ap from.entries (add-zero i))
      new (suc j) hj =
          ap after.entries (omega (arith, records-append to (from.entries i) room))
          ∙ m.new j (omega arith)
          ∙ ap from.entries (omega arith)

  IsAbove-appended :
      IsSortedLeaf from
      → i + suc n ≤ from.records
      → (n ≡ 0) ⊎ IsAbove appended (key_at from (i + 1))
  IsAbove-appended s inside = elim (Bool-cases (n == 0)) [
    | inl e ↦ inl (ground arith)
    | inr e ↦ inr (
        inr (
          ground (
            arith,
            s i (i + 1),
            records-append to (from.entries i) room,
            entries-append to (from.entries i) (appended.records - 1),
          )))
  ]

-- The entries that are moved stand behind those that were there, in order.
move_entries-Moved :
    (from to : Leaf) (i n : ℕ)
    → IsSortedLeaf from
    → i + n ≤ from.records
    → from.width ≡ to.width
    → Fits to (to.records + n)
    → (n ≡ 0) ⊎ IsAbove to (key_at from i)
    → (after : Leaf) × (move_entries from to i n ≡ some after) × Moved from to i n after
unfolding move_entries
move_entries-Moved from to i zero s inside even fits h = (
  to,
  refl,
  record {
    count = omega arith;
    width = refl;
    old = λ j hj. refl;
    new = λ j hj. absurd (omega arith);
  },
)
move_entries-Moved from to i (suc n) s inside even fits h =
    let above : IsAbove to (key_at from i) = ground arith in
    let fits_one : Fits to (to.records + 1) =
      Fits-fewer to (to.records + suc n) (to.records + 1) (omega arith) fits in
    let small : to.records < 65535 =
      (let lt = Fits-lt to (to.records + 1) fits_one in omega (arith, lt)) in
    let there : (from.width == to.width) ≡ true = ground (arith, even) in
    let next : Leaf = appended from to i n small in
    let count : next.records + n ≡ to.records + suc n =
      omega (arith, records-append to (from.entries i) small) in
    let (after, e, m) =
      move_entries-Moved from next (i + 1) n s (omega arith)
        (even ∙ sym (width-append to (from.entries i)))
        (Fits-same to next (to.records + suc n) (next.records + n)
          (sym (width-append to (from.entries i))) count fits)
        (IsAbove-appended from to i n small s inside) in
    (
      after,
      rw (there, insert_above to (from.entries i) above fits_one) e,
      Moved-cons from to i n small after m,
    )

-- A page that holds the records of another from `off` on finds the keys of those.
lookup_part :
    (part from : Leaf) (off k : ℕ)
    → IsSortedLeaf part
    → IsSortedLeaf from
    → off + part.records ≤ from.records
    → ((j : ℕ) → j < part.records → part.entries j ≡ from.entries (off + j))
    → ((j : ℕ) → j < from.records → key_at from j ≡ k → (off ≤ j) × (j < off + part.records))
    → lookup part k ≡ lookup from k
lookup_part part from off k sp sf fits same range = elim (Finds-cases from k sf) [
  | inl (i, hi, e) ↦
      let (low, high) = range i hi e in
      let back : off + (i - off) ≡ i = omega arith in
      let at = same (i - off) (omega arith) ∙ ap from.entries back in
      lookup_found part k (i - off) sp (omega arith) (ap (λ x. x.key) at ∙ e)
      ∙ ap (λ x. some (some x)) at
      ∙ sym (lookup_found from k i sf hi e)
  | inr out ↦
      lookup_absent part k sp
        (λ j hj q. out (off + j) (omega arith) (ap (λ x. x.key) (sym (same j hj)) ∙ q))
      ∙ sym (lookup_absent from k sf out)
]

IsSorted_part :
    (part from : Leaf) (off : ℕ)
    → IsSortedLeaf from
    → off + part.records ≤ from.records
    → ((j : ℕ) → j < part.records → part.entries j ≡ from.entries (off + j))
    → IsSortedLeaf part
IsSorted_part part from off sf fits same i j lt hj =
    ground (arith, same i, same j, sf (off + i) (off + j))

-- The two halves before the new entry goes in.
abbrev mid_of : Leaf → ℕ
mid_of from = from.records / 2 + 1

abbrev max_of : Leaf → ℕ
max_of from = key_at from (mid_of from - 1)

abbrev kept_of : Leaf → Leaf
kept_of from = record from {
  entries = clear_entries from.entries (mid_of from) (from.records - mid_of from);
  records = mid_of from;
  upbound = max_of from;
}

abbrev bounded_of : Leaf → Leaf → Leaf
bounded_of from moved = record moved { upbound = from.upbound }

module _ (from : Leaf) (k : ℕ) (s : IsSortedLeaf from) (some_there : 0 < from.records) where
  kept-entries : (j : ℕ) → j < mid_of from → (kept_of from).entries j ≡ from.entries (0 + j)
  kept-entries j hj =
      clear_entries_lem from.entries (mid_of from) (from.records - mid_of from) j
      ∙ ground (arith, ap from.entries (zero_add j))
    where
      zero_add : (j : ℕ) → 0 + j ≡ j
      zero_add j = omega arith

  kept-IsSorted : IsSortedLeaf (kept_of from)
  kept-IsSorted = IsSorted_part (kept_of from) from 0 s (omega arith) kept-entries

  lookup-kept : k ≤ max_of from → lookup (kept_of from) k ≡ lookup from k
  lookup-kept le =
      lookup_part (kept_of from) from 0 k kept-IsSorted s (omega arith) kept-entries
        (λ j hj e. (omega arith, ground (arith, s (mid_of from - 1) j)))

  module _ (to moved : Leaf) (empty : to.records ≡ 0)
      (m : Moved from to (mid_of from) (from.records - mid_of from) moved) where
    moved-entries : (j : ℕ) → j < moved.records → moved.entries j ≡ from.entries (mid_of from + j)
    moved-entries j hj =
        ap moved.entries (omega (arith, empty)) ∙ m.new j (omega (arith, m.count, empty))

    bounded-IsSorted : IsSortedLeaf (bounded_of from moved)
    bounded-IsSorted =
        IsSorted_part (bounded_of from moved) from (mid_of from) s (omega (arith, m.count, empty))
          moved-entries

    lookup-bounded : max_of from < k → lookup (bounded_of from moved) k ≡ lookup from k
    lookup-bounded lt =
        lookup_part (bounded_of from moved) from (mid_of from) k bounded-IsSorted s
          (omega (arith, m.count, empty)) moved-entries
          (λ j hj e. (ground (arith, s j (mid_of from - 1)), omega (arith, m.count, empty)))

-- Which of the two pages answers for a key, once one of them has the new entry.
chosen :
    (max k new : ℕ) (e : Entry) (left right old : Option (Option Entry))
    → (max < k → right ≡ (if k == new then some (some e) else old))
    → (k ≤ max → left ≡ (if k == new then some (some e) else old))
    → (if ltb max k then right else left) ≡ (if k == new then some (some e) else old)
chosen max k new e left right old hr hl = elim (Bool-cases (ltb max k)) [
  | inl far ↦ rw far (hr (ground arith))
  | inr near ↦ rw near (hl (ground arith))
]

-- A leaf page with a record has rising keys and its records inside of `data`, in which two entries
-- more than half of them have space, and an entry has at least 4 bytes. Then the split for an entry
-- with a key that is not there, into an empty page of the same width, ends and writes inside of the
-- two pages. Both have rising keys and together one record more, the answer is the upper bound of
-- the left one, the right one takes the old upper bound, and a search that goes right just for keys
-- above the answer finds the new entry and all that was there.
pub blink_leaf_split_lem :
    (from to : Leaf) (e : Entry) (k : ℕ)
    → IsSortedLeaf from
    → 0 < from.records
    → Fits from from.records
    → Fits from (from.records / 2 + 2)
    → from.width ≡ to.width
    → to.records ≡ 0
    → lookup from e.key ≡ some none
    → (a_max : ℕ) × (left : Leaf) × (right : Leaf) × (blink_leaf_split from to e e.key
        ≡ some (a_max, left, right))
      × IsSortedLeaf left
      × IsSortedLeaf right
      × (left.records + right.records ≡ from.records + 1)
      × (left.upbound ≡ a_max)
      × (right.upbound ≡ from.upbound)
      × ((if ltb a_max k then lookup right k else lookup left k)
          ≡ (if k == e.key then some (some e) else lookup from k))
unfolding blink_leaf_split
blink_leaf_split_lem from to e k s some_there fits fits_left even empty out =
    let right_fits : (n : ℕ) → n ≤ from.records → Fits to n =
      (λ n h. Fits-same from to n n even refl (Fits-fewer from from.records n h fits)) in
    let (moved, moves, m) =
      move_entries-Moved from to (mid_of from) (from.records - mid_of from) s (omega arith) even
        (right_fits (to.records + (from.records - mid_of from)) (omega (arith, empty)))
        (inr (inl empty)) in
    let right = bounded_of from moved in
    let left_s = kept-IsSorted from k s some_there in
    let right_s = bounded-IsSorted from k s some_there to moved empty m in
    elim (Bool-cases (ltb (max_of from) e.key)) [
      | inl far ↦
          let far' : max_of from < e.key = ground arith in
          let (l', ins, sorted, count, bound, law) =
            insert_absent right e k right_s
              (Fits-same to right (right.records + 1) (right.records + 1) (sym m.width) refl
                (right_fits (right.records + 1) (omega (arith, m.count, empty))))
              (lookup-bounded from e.key s some_there to moved empty m far' ∙ out) in
          (
            max_of from,
            kept_of from,
            l',
            rw (moves, far, ins),
            left_s,
            sorted,
            omega (arith, count, m.count, empty),
            refl,
            bound,
            chosen (max_of from) k e.key e _ _ (lookup from k)
                (λ h. law ∙ ground (arith, lookup-bounded from k s some_there to moved empty m h))
                (λ h. lookup-kept from k s some_there h ∙ ground arith),
          )
      | inr near ↦
          let near' : e.key ≤ max_of from = ground arith in
          let (l', ins, sorted, count, bound, law) =
            insert_absent (kept_of from) e k left_s
              (Fits-same from (kept_of from) (from.records / 2 + 2) (mid_of from + 1) refl
                (omega arith) fits_left)
              (lookup-kept from e.key s some_there near' ∙ out) in
          (
            max_of from,
            l',
            right,
            rw (moves, near, ins),
            sorted,
            right_s,
            omega (arith, count, m.count, empty),
            bound,
            refl,
            chosen (max_of from) k e.key e _ _ (lookup from k)
                (λ h. lookup-bounded from k s some_there to moved empty m h ∙ ground arith)
                (λ h. law ∙ ground (arith, lookup-kept from k s some_there h)),
          )
    ]
