-- ===== src/Blink/Leaf/Scan.antt =====
-- src/index/b_page.c: `blink_leaf_scan` on a leaf page whose keys rise.
use dsm_db.Shared.{
  ℕ, ◌-◌, ◌<◌, ◌≡◌, ◌≢◌, ◌⊎◌, inl, inr, refl, ap, Option, some, none, ltb, ◌==◌, arith, Bool-cases,
  ◌>>=◌,
}
use dsm_db.Blink.{Probe, at, between, diverged}
use dsm_db.Blink.Search.{
  IsSorted, Locates, probe_whole, absent_of_between, absent_of_below, absent_of_above,
}
use dsm_db.Blink.Leaf.{Entry, Leaf, key_at, found_at, blink_leaf_scan}

abbrev pub IsSortedLeaf : Leaf → Type 0
IsSortedLeaf l = IsSorted l.records (key_at l)

-- What an answer of a search says.
abbrev pub Finds : Leaf → ℕ → Option ℕ → Type 0
Finds l key (some i) = (i < l.records) × (key_at l i ≡ key)
Finds l key none = (j : ℕ) → j < l.records → key_at l j ≢ key

-- A search that ends, with a true answer.
abbrev pub Answered : Leaf → ℕ → Option (Option ℕ) → Type 0
Answered l key none = ⊥
Answered l key (some found) = Finds l key found

found_at-Answered :
    (l : Leaf) (key : ℕ) (r : Probe)
    → IsSortedLeaf l
    → Locates l.records (key_at l) key r
    → Answered l key (found_at r)
unfolding found_at
found_at-Answered l key (at i) s h = h
found_at-Answered l key (between i) s h =
    λ j hj. absent_of_between l.records i j key (key_at l) s h.1 h.2 h.0 hj
found_at-Answered l key diverged s h = h

-- The search of a leaf page whose keys rise ends. It gives an index below the count of records
-- that holds the key, or NULL where no record has it.
pub blink_leaf_scan-Answered :
    (l : Leaf) (key : ℕ) → IsSortedLeaf l → Answered l key (blink_leaf_scan l key)
unfolding blink_leaf_scan
blink_leaf_scan-Answered l key s = elim (Bool-cases (l.records == 0)) [
  | inl empty ↦ rw empty (λ j hj. absurd (ground arith))
  | inr some_there ↦ elim (Bool-cases (ltb (key_at l (l.records - 1)) key)) [
    | inl above ↦
        rw (some_there, above)
          (λ j hj. absent_of_above l.records j key (key_at l) s (ground arith) hj)
    | inr not_above ↦ elim (Bool-cases (ltb key (key_at l 0))) [
      | inl below ↦
          rw (some_there, not_above, below)
            (λ j hj. absent_of_below l.records j key (key_at l) s (ground arith) hj)
      | inr not_below ↦
          rw (some_there, not_above, not_below)
            (found_at-Answered l key _ s
              (probe_whole l.records (key_at l) key (ground arith) (ground arith) (ground arith)))
    ]
  ]
]

unique_index :
    (n : ℕ) (keys : ℕ → ℕ) (i j : ℕ) → IsSorted n keys → i < n → j < n → keys i ≡ keys j → i ≡ j
unique_index n keys i j s hi hj e = ground (arith, s i j, s j i)

answer_of_index :
    (l : Leaf) (key i : ℕ) (r : Option (Option ℕ))
    → IsSortedLeaf l
    → i < l.records
    → key_at l i ≡ key
    → Answered l key r
    → r ≡ some (some i)
answer_of_index l key i none s hi e a = absurd a
answer_of_index l key i (some none) s hi e a = absurd (a i hi e)
answer_of_index l key i (some (some j)) s hi e a =
    ap (λ k. some (some k)) (unique_index l.records (key_at l) j i s a.0 hi (ground arith))

answer_of_absent :
    (l : Leaf) (key : ℕ) (r : Option (Option ℕ))
    → Finds l key none
    → Answered l key r
    → r ≡ some none
answer_of_absent l key none h a = absurd a
answer_of_absent l key (some none) h a = refl
answer_of_absent l key (some (some j)) h a = absurd (h j a.0 a.1)

-- The answer is determined by the records.
pub scan_found :
    (l : Leaf) (key i : ℕ)
    → IsSortedLeaf l
    → i < l.records
    → key_at l i ≡ key
    → blink_leaf_scan l key ≡ some (some i)
scan_found l key i s hi e = answer_of_index l key i _ s hi e (blink_leaf_scan-Answered l key s)

pub scan_absent :
    (l : Leaf) (key : ℕ) → IsSortedLeaf l → Finds l key none → blink_leaf_scan l key ≡ some none
scan_absent l key s h = answer_of_absent l key _ h (blink_leaf_scan-Answered l key s)

-- The entry that a search finds: a leaf page as a map from keys to entries.
unfoldable pub lookup : Leaf → ℕ → Option (Option Entry)
lookup l key = do
  found ← blink_leaf_scan l key
  some (elim found [ none ↦ none | some i ↦ some (l.entries i) ])

pub lookup_found :
    (l : Leaf) (key i : ℕ)
    → IsSortedLeaf l
    → i < l.records
    → key_at l i ≡ key
    → lookup l key ≡ some (some (l.entries i))
unfolding lookup
lookup_found l key i s hi e = rw (scan_found l key i s hi e)

pub lookup_absent :
    (l : Leaf) (key : ℕ) → IsSortedLeaf l → Finds l key none → lookup l key ≡ some none
unfolding lookup
lookup_absent l key s h = rw (scan_absent l key s h)

-- A leaf has a record with the key, or none.
pub Finds-cases :
    (l : Leaf) (key : ℕ)
    → IsSortedLeaf l
    → ((i : ℕ) × (i < l.records) × (key_at l i ≡ key)) ⊎ Finds l key none
Finds-cases l key s = split (blink_leaf_scan l key) (blink_leaf_scan-Answered l key s)
  where
    split :
        (r : Option (Option ℕ))
        → Answered l key r
        → ((i : ℕ) × (i < l.records) × (key_at l i ≡ key)) ⊎ Finds l key none
    split none a = absurd a
    split (some none) a = inr a
    split (some (some i)) a = inl (i, a.0, a.1)
