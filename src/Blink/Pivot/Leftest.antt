-- ===== src/Blink/Pivot/Leftest.antt =====
-- src/index/b_page.c: which child a key goes to, after `blink_entry_remove_from_pivot` of a key
-- below all of the page's, which takes the leftmost child away.
use dsm_db.Shared.{
  ℕ, zero, suc, ◌+◌, ◌-◌, ◌≤◌, ◌<◌, ◌≡◌, ◌∙◌, ap, true, false, Option, some, ltb, leb, ◌==◌, ◌&&◌,
  if◌then◌else◌, arith,
}
use dsm_db.Blink.Pivot.{
  Pairs, Pivot, key_at, cpid_at, set_pair, shift_pairs, drop_leftest, blp_leftest, blink_pivot_scan,
  blink_entry_remove_from_pivot,
}
use dsm_db.Blink.Pivot.Route.{Routes, IsSortedPivot, blink_pivot_scan_lem}
use dsm_db.Blink.Pivot.Remove.{reported, removed-reported}

shift_pairs_lem :
    (a : Pairs) (i n j : ℕ)
    → shift_pairs a i n j ≡ (if leb i j && ltb j (i + n) then a (j + 1) else a j)
unfolding shift_pairs
shift_pairs_lem a i zero j = ground arith
shift_pairs_lem a i (suc n) j =
    shift_pairs_lem (set_pair a i (a (i + 1))) (i + 1) n j ∙ ground arith

abbrev left_over : Pivot → Pivot
left_over p = record p { records = p.records - 1; pairs = drop_leftest p.pairs p.records }

module _ (p : Pivot) (s : IsSortedPivot p) (more : 1 < p.records) where
  keys-left_over : (j : ℕ) → j < p.records - 1 → key_at (left_over p) j ≡ key_at p (j + 1)
  unfolding drop_leftest
  keys-left_over j h = ground (arith, shift_pairs_lem p.pairs 0 (p.records - 1) j)

  children-left_over : (j : ℕ) → j ≤ p.records - 1 → cpid_at (left_over p) j ≡ cpid_at p (j + 1)
  unfolding drop_leftest
  children-left_over j h = ground (
    arith,
    shift_pairs_lem p.pairs 0 (p.records - 1) j,
    shift_pairs_lem p.pairs 0 (p.records - 1) (p.records - 1 + 1),
  )

  left_over-IsSorted : IsSortedPivot (left_over p)
  left_over-IsSorted a b lt h =
      ground (arith, keys-left_over a, keys-left_over b, s (a + 1) (b + 1))

  scan-left_over :
      (x j : ℕ)
      → Routes p.records (key_at p) x j
      → blink_pivot_scan (left_over p) x ≡ some (if j == 0 then cpid_at p 1 else cpid_at p j)
  scan-left_over x j r =
      blink_pivot_scan_lem (left_over p) x (j - 1) left_over-IsSorted (omega arith) (record {
        inside = omega (arith, r.inside);
        below = λ a h. ground (arith, keys-left_over a, r.below (a + 1), r.inside);
        above = λ a h l. ground (arith, keys-left_over a, r.above (a + 1));
      })
      ∙ ap some (children-left_over (j - 1) (omega (arith, r.inside)) ∙ ground arith)

-- The removal of a key below all keys of a pivot page with at least two records, whose keys rise,
-- takes the leftmost child away, with the first key, and says so. The keys rise again, there is one
-- record less, and every search ends where it ended before, but for the keys that went to the
-- leftmost child: they go to the second one. The state is the one that is reported for the page.
pub blink_entry_remove_from_pivot_leftest :
    (p : Pivot) (key : ℕ) (state : Option ℕ)
    → IsSortedPivot p
    → 1 < p.records
    → key < key_at p 0
    → (p' : Pivot) × (blink_entry_remove_from_pivot p key state
        ≡ some (blp_leftest, p', reported p state))
      × IsSortedPivot p'
      × (p'.records + 1 ≡ p.records)
      × ((x j : ℕ)
          → Routes p.records (key_at p) x j
          → blink_pivot_scan p' x ≡ some (if j == 0 then cpid_at p 1 else cpid_at p j))
unfolding blink_entry_remove_from_pivot
blink_entry_remove_from_pivot_leftest p key state s more low =
    let not_empty : (p.records == 0) ≡ false = ground arith in
    let not_above : ltb (key_at p (p.records - 1)) key ≡ false =
      ground (arith, s 0 (p.records - 1)) in
    let below : ltb key (key_at p 0) ≡ true = ground arith in
    (
      left_over p,
      rw (not_empty, not_above, below)
          (ap some (removed-reported p (drop_leftest p.pairs p.records) blp_leftest state)),
      left_over-IsSorted p s more,
      omega arith,
      scan-left_over p s more,
    )
