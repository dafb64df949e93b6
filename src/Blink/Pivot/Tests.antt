-- ===== src/Blink/Pivot/Tests.antt =====
-- A pivot page with three keys and four children: runs, and the theorems at inputs that meet their
-- conditions.
use dsm_db.Shared.{
  ℕ, ◌+◌, ◌*◌, ◌≡◌, inr, refl, true, leb, ◌==◌, if◌then◌else◌, Option, some, none, arith,
}
use dsm_db.Blink.{probe}
use dsm_db.Page.{page_id_null}
use dsm_db.Blink.Pivot.{
  Pair, Pivot, sep, key_at, cpid_at, blp_accept, blp_leftest, null_pair, route, child_index,
  blink_pivot_scan, put_pair, append_pair, put_at, shift_up, exchange, blink_pivot_set,
  blink_entry_insert_to_pivot, blink_entry_remove_from_pivot,
}
use dsm_db.Blink.Pivot.Route.{Routes, IsSortedPivot, blink_pivot_scan-Routes}
use dsm_db.Blink.Pivot.Insert.{Separates}
use dsm_db.Blink.Pivot.Separate.{
  blink_entry_insert_to_pivot-Separates, blink_entry_insert_to_pivot_misroutes,
}
use dsm_db.Blink.Pivot.Remove.{reported, blink_entry_remove_from_pivot_lem}
use dsm_db.Blink.Pivot.Leftest.{blink_entry_remove_from_pivot_leftest}
use dsm_db.Blink.Pivot.Split.{
  move_pairs, null_pairs, halved, blink_pivot_split, spread_pairs, copy_pairs, merge_leftest,
  blink_merge_pivot,
}

-- The keys 10, 20 and 30, and the children 100 to 103.
abbrev three : Pivot
three = record {
  pid = 5;
  ppid = 2;
  bpid = page_id_null;
  npid = 6;
  page_type = 2;
  records = 3;
  width = 8;
  pairs = λ i. record { key = if leb 3 i then page_id_null else 10 * (i + 1); cpid = 100 + i };
}

three-IsSorted : IsSortedPivot three
three-IsSorted i j lt h = ground arith

scan_20 : blink_pivot_scan three 20 ≡ some 101
unfolding blink_pivot_scan child_index route
scan_20 = refl

abbrev sent_to : Option (ℕ × Pivot) → ℕ → Option ℕ
sent_to none x = none
sent_to (some (r, p)) x = blink_pivot_scan p x

-- A key in the middle: the first two children have changed places.
misrouted : sent_to (blink_entry_insert_to_pivot three 25 200 sep) 5 ≡ some 101
unfolding blink_entry_insert_to_pivot probe put_at put_pair shift_up exchange blink_pivot_scan
    child_index route
misrouted = refl

blink_pivot_scan-Routes_example :
    (i : ℕ) × Routes 3 (key_at three) 25 i × (blink_pivot_scan three 25 ≡ some (cpid_at three i))
blink_pivot_scan-Routes_example = blink_pivot_scan-Routes three 25 three-IsSorted (omega arith)

Routes-at_35 : Routes 3 (key_at three) 35 3
Routes-at_35 = record {
  inside = omega arith;
  below = λ j h. ground arith;
  above = λ j h l. absurd (omega arith);
}

Routes-at_25 : Routes 3 (key_at three) 25 2
Routes-at_25 = record {
  inside = omega arith;
  below = λ j h. ground arith;
  above = λ j h l. ground arith;
}

blink_entry_insert_to_pivot-Separates_example :
    (p' : Pivot) × (blink_entry_insert_to_pivot three 35 200 sep ≡ some (blp_accept, p'))
    × IsSortedPivot p'
    × (p'.records ≡ 3 + 1)
    × Separates three p' 3 35 200
blink_entry_insert_to_pivot-Separates_example =
    blink_entry_insert_to_pivot-Separates three 35 200 3 three-IsSorted (omega arith) (omega arith)
      Routes-at_35 (λ j h. ground arith) (inr refl)

blink_entry_insert_to_pivot_misroutes_example :
    (p' : Pivot) × (blink_entry_insert_to_pivot three 25 200 sep ≡ some (blp_accept, p'))
    × (blink_pivot_scan three 5 ≡ some 100)
    × (blink_pivot_scan p' 5 ≡ some (if 2 == 1 then 200 else 101))
    × (blink_pivot_scan p' 25 ≡ some (if 2 == 1 then 100 else 200))
blink_entry_insert_to_pivot_misroutes_example =
    blink_entry_insert_to_pivot_misroutes three 25 200 2 5 three-IsSorted (omega arith) Routes-at_25
      (λ j h. ground arith) (omega arith) (omega arith) (omega arith)

blink_entry_remove_from_pivot_lem_example :
    (p' : Pivot) × (blink_entry_remove_from_pivot three 20 (some 0)
      ≡ some (blp_accept, p', reported three (some 0)))
    × IsSortedPivot p'
    × (p'.records + 1 ≡ 3)
    × ((x j : ℕ)
        → Routes 3 (key_at three) x j
        → blink_pivot_scan p' x ≡ some (if j == 1 + 1 then cpid_at three 1 else cpid_at three j))
blink_entry_remove_from_pivot_lem_example =
    blink_entry_remove_from_pivot_lem three 1 (some 0) three-IsSorted (omega arith) (omega arith)

blink_entry_remove_from_pivot_leftest_example :
    (p' : Pivot) × (blink_entry_remove_from_pivot three 5 (some 0)
      ≡ some (blp_leftest, p', reported three (some 0)))
    × IsSortedPivot p'
    × (p'.records + 1 ≡ 3)
    × ((x j : ℕ)
        → Routes 3 (key_at three) x j
        → blink_pivot_scan p' x ≡ some (if j == 0 then cpid_at three 1 else cpid_at three j))
blink_entry_remove_from_pivot_leftest_example =
    blink_entry_remove_from_pivot_leftest three 5 (some 0) three-IsSorted (omega arith)
      (omega arith)

-- A page with four keys is split at the third one: two keys stay, and the key between goes up.
abbrev four : Pivot
four = record {
  pid = 5;
  ppid = 2;
  bpid = page_id_null;
  npid = 6;
  page_type = 2;
  records = 4;
  width = 8;
  pairs = λ i. record { key = if leb 4 i then 50 else 10 * (i + 1); cpid = 100 + i };
}

abbrev blank : Pivot
blank = record three { records = 0; pairs = λ i. null_pair }

abbrev split_keys : Option (ℕ × Pivot × Pivot) → ℕ × ℕ × ℕ × ℕ × ℕ
split_keys none = (0, 0, 0, 0, 0)
split_keys (some (m, l, r)) = (m, l.records, r.records, key_at l 4, key_at r 4)

four_split : split_keys (blink_pivot_split four blank 45 200) ≡ (30, 2, 2, 30, 50)
unfolding blink_pivot_set blink_pivot_split halved null_pairs move_pairs blink_entry_insert_to_pivot
    append_pair probe put_at put_pair shift_up exchange
four_split = refl

abbrev merged_key : Option Pivot → ℕ → Pair
merged_key none i = null_pair
merged_key (some p) i = p.pairs i

-- The left neighbour with one key comes before a page with two, at the key 9.
merged :
    merged_key
      (blink_merge_pivot
        (record three { records = 1; pairs = λ i. record { key = 7; cpid = 90 + i } })
        three
        9
        true)
      1
    ≡ record { key = 9; cpid = 91 }
unfolding blink_merge_pivot merge_leftest spread_pairs copy_pairs
merged = refl
