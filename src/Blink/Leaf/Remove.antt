-- ===== src/Blink/Leaf/Remove.antt =====
-- src/index/b_page.c: `blink_entry_remove_from_leaf` and `blink_entry_update_leaf` on a map.
use dsm_db.Shared.{ℕ, ◌+◌, ◌-◌, ◌<◌, ◌≡◌, refl, Option, some, none, ltb, if◌then◌else◌, arith}
use dsm_db.Blink.Leaf.{Leaf, key_at, take_entry, removal_state}
use dsm_db.Blink.Leaf.Arrays.{shift_down_lem}
use dsm_db.Blink.Leaf.Scan.{IsSortedLeaf}

module _ (l : Leaf) (i : ℕ) (hi : i < l.records) where
  entries-take_entry :
      (j : ℕ)
      → j < l.records - 1
      → (take_entry l i).entries j ≡ (if ltb j i then l.entries j else l.entries (j + 1))
  unfolding take_entry
  entries-take_entry j hj = ground (arith, shift_down_lem l.entries i (l.records - 1 - i) j)

  key_at-take_entry :
      (j : ℕ)
      → j < l.records - 1
      → key_at (take_entry l i) j ≡ (if ltb j i then key_at l j else key_at l (j + 1))
  key_at-take_entry j hj = ground (arith, entries-take_entry j hj)

  records-take_entry : (take_entry l i).records ≡ l.records - 1
  unfolding take_entry
  records-take_entry = refl

  pub take_entry-IsSorted : IsSortedLeaf l → IsSortedLeaf (take_entry l i)
  take_entry-IsSorted s a b lt hb = ground (
    arith,
    records-take_entry,
    key_at-take_entry a,
    key_at-take_entry b,
    s a b,
    s a (b + 1),
    s (a + 1) (b + 1),
  )

-- The state after a deletion that was asked for it.
abbrev pub reported : Leaf → ℕ → Option ℕ → Option ℕ
reported l key none = none
reported l key (some state) = some (removal_state l key)
