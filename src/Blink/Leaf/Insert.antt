-- ===== src/Blink/Leaf/Insert.antt =====
-- src/index/b_page.c: `blink_entry_insert_to_leaf` as an insertion into a map.
use dsm_db.Shared.{
  ℕ, ◌+◌, ◌-◌, ◌≤◌, ◌<◌, ◌≡◌, ◌≢◌, ◌⊎◌, inl, inr, refl, ◌∙◌, sym, ap, Option, some, none, ltb, ◌==◌,
  if◌then◌else◌, arith, Bool-cases, ◌>>=◌,
}
use dsm_db.Blink.{Probe, at, between, diverged}
use dsm_db.Blink.Search.{Locates, probe_whole}
use dsm_db.Blink.Leaf.{
  Entry, Leaf, key_at, place_at, insert_place, put_entry, bll_key_dup, bll_accept, has_space,
  put_placed, blink_entry_insert_to_leaf,
}
use dsm_db.Blink.Leaf.Space.{Fits, Fits-lt, has_space_lem}
use dsm_db.Blink.Leaf.Arrays.{shift_up_lem}
use dsm_db.Blink.Leaf.Scan.{IsSortedLeaf, Finds-cases, lookup, lookup_found, lookup_absent}

-- The place where the keys pass the new key.
pub record Splits (l : Leaf) (key p : ℕ) : Type 0 where
  pub inside : p ≤ l.records
  pub below : (j : ℕ) → j < p → key_at l j < key
  pub above : (j : ℕ) → p ≤ j → j < l.records → key < key_at l j

abbrev pub Placed : Leaf → ℕ → Option (Option ℕ) → Type 0
Placed l key none = ⊥
Placed l key (some none) = (i : ℕ) × (i < l.records) × (key_at l i ≡ key)
Placed l key (some (some p)) = Splits l key p

place_at-Placed :
    (l : Leaf) (key : ℕ) (r : Probe)
    → IsSortedLeaf l
    → Locates l.records (key_at l) key r
    → Placed l key (place_at r)
unfolding place_at
place_at-Placed l key (at i) s h = (i, h.0, h.1)
place_at-Placed l key (between i) s h = record {
  inside = omega (arith, h.0);
  below = λ j hj. ground (arith, s j i, h.0, h.1);
  above = λ j p hj. ground (arith, s (i + 1) j, h.2);
}
place_at-Placed l key diverged s h = h

insert_place-Placed : (l : Leaf) (key : ℕ) → IsSortedLeaf l → Placed l key (insert_place l key)
unfolding insert_place
insert_place-Placed l key s = elim (Bool-cases (l.records == 0)) [
  | inl empty ↦ rw empty (record {
    inside = omega arith;
    below = λ j hj. absurd (omega arith);
    above = λ j p hj. absurd (ground arith);
  })
  | inr some_there ↦ elim (Bool-cases (ltb (key_at l (l.records - 1)) key)) [
    | inl above ↦
        rw (some_there, above)
          (record {
            inside = omega arith;
            below = λ j hj. ground (arith, s j (l.records - 1));
            above = λ j p hj. absurd (omega arith);
          })
    | inr not_above ↦ elim (Bool-cases (ltb key (key_at l 0))) [
      | inl below ↦
          rw (some_there, not_above, below)
            (record {
              inside = omega arith;
              below = λ j hj. absurd (omega arith);
              above = λ j p hj. ground (arith, s 0 j);
            })
      | inr not_below ↦
          rw (some_there, not_above, not_below)
            (place_at-Placed l key _ s
              (probe_whole l.records (key_at l) key (ground arith) (ground arith) (ground arith)))
    ]
  ]
]

module _ (l : Leaf) (e : Entry) (p : ℕ) (h : Splits l e.key p) (room : l.records < 65535) where
  -- The entries after an insertion at `p`.
  entries-put_entry :
      (j : ℕ)
      → j ≤ l.records
      → (put_entry l p e).entries j
        ≡ (if ltb j p then l.entries j else if j == p then e else l.entries (j - 1))
  unfolding put_entry
  entries-put_entry j hj = ground (arith, shift_up_lem l.entries p (l.records - p) j, h.inside)

  records-put_entry : (put_entry l p e).records ≡ l.records + 1
  unfolding put_entry
  records-put_entry = omega arith

  key_at-put_entry :
      (j : ℕ)
      → j ≤ l.records
      → key_at (put_entry l p e) j
        ≡ (if ltb j p then key_at l j else if j == p then e.key else key_at l (j - 1))
  key_at-put_entry j hj = ground (arith, entries-put_entry j hj)

  pub put_entry-IsSorted : IsSortedLeaf l → IsSortedLeaf (put_entry l p e)
  put_entry-IsSorted s i j lt hj = ground (
    arith,
    records-put_entry,
    key_at-put_entry i,
    key_at-put_entry j,
    s i j,
    s i (j - 1),
    s (i - 1) (j - 1),
    h.below i,
    h.above (j - 1),
    h.inside,
  )

  has_new : IsSortedLeaf l → lookup (put_entry l p e) e.key ≡ some (some e)
  has_new s =
      lookup_found (put_entry l p e) e.key p (put_entry-IsSorted s)
        (omega (arith, records-put_entry, h.inside)) (ground (arith, key_at-put_entry p h.inside))
      ∙ ap (λ x. some (some x)) (ground (arith, entries-put_entry p h.inside))

  keeps_others : IsSortedLeaf l → (k : ℕ) → k ≢ e.key → lookup (put_entry l p e) k ≡ lookup l k
  keeps_others s k ne = elim (Finds-cases l k s) [
    | inl (i, hi, ei) ↦ old i hi ei
    | inr out ↦
        lookup_absent (put_entry l p e) k (put_entry-IsSorted s) (λ j hj q.
          ground (arith, records-put_entry, key_at-put_entry j, out j, out (j - 1), h.inside))
        ∙ sym (lookup_absent l k s out)
  ]
    where
      moved : ℕ → ℕ
      moved i = if ltb i p then i else i + 1

      at_moved :
          (i : ℕ)
          → i < l.records
          → (moved i ≤ l.records) × ((put_entry l p e).entries (moved i) ≡ l.entries i)
      at_moved i hi =
          (ground arith, ground (arith, entries-put_entry (moved i), ap l.entries (minus_one i)))
        where
          minus_one : (i : ℕ) → i + 1 - 1 ≡ i
          minus_one i = omega arith

      old : (i : ℕ) → i < l.records → key_at l i ≡ k → lookup (put_entry l p e) k ≡ lookup l k
      old i hi ei =
          lookup_found (put_entry l p e) k (moved i) (put_entry-IsSorted s)
            (omega (arith, records-put_entry, (at_moved i hi).0))
            (ap (λ x. x.key) (at_moved i hi).1 ∙ ei)
          ∙ ap (λ x. some (some x)) (at_moved i hi).1
          ∙ sym (lookup_found l k i s hi ei)

upbound-put_entry : (l : Leaf) (p : ℕ) (e : Entry) → (put_entry l p e).upbound ≡ l.upbound
unfolding put_entry
upbound-put_entry l p e = refl

-- What an insertion answers and leaves: for a key that is there the page as it was; else a page
-- on which the key is found with the new entry, and every other key as before.
abbrev pub Inserts : Leaf → Entry → ℕ → Option (ℕ × Leaf) → Type 0
Inserts l e k r =
    ((x : Entry) × (lookup l e.key ≡ some (some x)) × (r ≡ some (bll_key_dup, l)))
    ⊎ ((l' : Leaf) × (r ≡ some (bll_accept, l'))
        × (lookup l e.key ≡ some none)
        × IsSortedLeaf l'
        × (l'.records ≡ l.records + 1)
        × (l'.upbound ≡ l.upbound)
        × (lookup l' k ≡ (if k == e.key then some (some e) else lookup l k)))

Inserts-place :
    (l : Leaf) (e : Entry) (k : ℕ) (place : Option (Option ℕ))
    → IsSortedLeaf l
    → (lookup l e.key ≡ some none → Fits l (l.records + 1))
    → Placed l e.key place
    → Inserts l e k (place >>= put_placed l e)
unfolding put_placed
Inserts-place l e k none s fits h = absurd h
Inserts-place l e k (some none) s fits h =
    inl (l.entries h.0, lookup_found l e.key h.0 s h.1 h.2, refl)
Inserts-place l e k (some (some p)) s fits h = inr (
  put_entry l p e,
  rw (has_space_lem l (fits new)) refl,
  new,
  put_entry-IsSorted l e p h room s,
  records-put_entry l e p h room,
  upbound-put_entry l p e,
  law,
)
  where
    new : lookup l e.key ≡ some none
    new = lookup_absent l e.key s (λ j hj q. ground (arith, h.below j, h.above j))

    room : l.records < 65535
    room = let lt = Fits-lt l (l.records + 1) (fits new) in omega (arith, lt)

    law : lookup (put_entry l p e) k ≡ (if k == e.key then some (some e) else lookup l k)
    law = elim (Bool-cases (k == e.key)) [
      | inl same ↦ rw same (ap (lookup (put_entry l p e)) (ground arith) ∙ has_new l e p h room s)
      | inr other ↦ rw other (keeps_others l e p h room s k (ground arith))
    ]

-- In a leaf page whose keys rise, an insertion of a key that is there is refused, and the page stays
-- as it was. For a new key, `data` has space for one entry more, of at least 4 bytes. Then the
-- insertion writes inside of `data`: the keys rise again, there is one record more, the upper bound
-- stays, the new key is found with the new entry, and every other key as before.
pub blink_entry_insert_to_leaf-Inserts :
    (l : Leaf) (e : Entry) (k : ℕ)
    → IsSortedLeaf l
    → (lookup l e.key ≡ some none → Fits l (l.records + 1))
    → Inserts l e k (blink_entry_insert_to_leaf l e)
unfolding blink_entry_insert_to_leaf
blink_entry_insert_to_leaf-Inserts l e k s fits =
    Inserts-place l e k (insert_place l e.key) s fits (insert_place-Placed l e.key s)

-- The page's id and the width of its entries stay.
stays_place :
    (l : Leaf) (e : Entry) (a : ℕ) (l' : Leaf) (place : Option (Option ℕ))
    → (place >>= put_placed l e) ≡ some (a, l')
    → (l'.pid ≡ l.pid) × (l'.width ≡ l.width)
unfolding put_placed put_entry
stays_place l e a l' none h = cc
stays_place l e a l' (some none) h = (cc, cc)
stays_place l e a l' (some (some i)) h = elim (Bool-cases (has_space l)) [
  | inl fits ↦ let h' = rw fits at h in (cc (h'), cc (h'))
  | inr full ↦ let h' = rw full at h in absurd (cc (h'))
]

pub insert-stays :
    (l : Leaf) (e : Entry) (a : ℕ) (l' : Leaf)
    → blink_entry_insert_to_leaf l e ≡ some (a, l')
    → (l'.pid ≡ l.pid) × (l'.width ≡ l.width)
unfolding blink_entry_insert_to_leaf
insert-stays l e a l' h = stays_place l e a l' (insert_place l e.key) h

-- The same for a key that is not there.
pub insert_absent :
    (l : Leaf) (e : Entry) (k : ℕ)
    → IsSortedLeaf l
    → Fits l (l.records + 1)
    → lookup l e.key ≡ some none
    → (l' : Leaf) × (blink_entry_insert_to_leaf l e ≡ some (bll_accept, l'))
      × IsSortedLeaf l'
      × (l'.records ≡ l.records + 1)
      × (l'.upbound ≡ l.upbound)
      × (lookup l' k ≡ (if k == e.key then some (some e) else lookup l k))
insert_absent l e k s fits out = elim (blink_entry_insert_to_leaf-Inserts l e k s (λ _. fits)) [
  | inl there ↦ absurd (cc (there.1, out))
  | inr here ↦ (here.0, here.1, here.3, here.4, here.5, here.6)
]
