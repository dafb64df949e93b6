-- ===== src/Blink/Pivot/Split.antt =====
-- src/index/b_page.c: `blink_pivot_split` and `blink_merge_pivot`, which move pairs between two
-- pivot pages. `none` stands for what it stands for in an insertion.
use dsm_db.Shared.{
  ℕ, zero, suc, ◌+◌, ◌-◌, ◌/◌, ◌%◌, Bool, true, false, ltb, Option, some, if◌then◌else◌, ◌>>=◌,
}
use dsm_db.Page.{page_id_null}
use dsm_db.Blink.Pivot.{
  Pairs, Pivot, move, key_at, cpid_at, null_pair, set_key, set_cpid, set_pair, pivot_upbound_index,
  blink_entry_insert_to_pivot, blink_pivot_set,
}

-- for (i = k; i < k + n; i ++) insert(to, from->pairs[i].key, from->pairs[i + 1].cpid, MOVE)
unfoldable pub move_pairs : Pivot → Pivot → ℕ → ℕ → Option Pivot
move_pairs from to i zero = some to
move_pairs from to i (suc n) = do
  (_, to') ← blink_entry_insert_to_pivot to (key_at from i) (cpid_at from (i + 1)) move
  move_pairs from to' (i + 1) n

-- for (i = k; i < k + n; i ++) pairs[i].key = pairs[i].cpid = PAGEIDNULL
unfoldable pub null_pairs : Pairs → ℕ → ℕ → Pairs
null_pairs a i zero = a
null_pairs a i (suc n) = null_pairs (set_pair a i null_pair) (i + 1) n

-- The page that is split, before the new key; `mid` is the index of the first pair that goes.
unfoldable pub halved : Pivot → ℕ → Pivot
halved from mid =
    let n = from.records in
    let gone = set_cpid (null_pairs from.pairs mid (n - mid)) n page_id_null in
    let a_max = (gone (mid - 1)).key in
    record from {
      records = mid - 1;
      pairs = set_key (set_key gone (mid - 1) page_id_null) pivot_upbound_index a_max;
    }

-- The greatest key that stays, and the two pages.
unfoldable pub blink_pivot_split : Pivot → Pivot → ℕ → ℕ → Option (ℕ × Pivot × Pivot)
blink_pivot_split from to key cpid = do
  let n = from.records
  let mid = n / 2 + 1
  let gone = set_cpid (null_pairs from.pairs mid (n - mid)) n page_id_null
  let a_max = (gone (mid - 1)).key
  let upbound = (set_key gone (mid - 1) page_id_null pivot_upbound_index).key
  moved ←
      move_pairs from
        (blink_pivot_set to (key_at from mid) (cpid_at from mid) (cpid_at from (mid + 1))) (mid + 1)
        (n - (mid + 1))
  let bounded = record moved { pairs = set_key moved.pairs pivot_upbound_index upbound }
  if ltb a_max key
      then (do
        (_, right) ← blink_entry_insert_to_pivot bounded key cpid move
        some (a_max, halved from mid, right))
      else (do
        (_, left) ← blink_entry_insert_to_pivot (halved from mid) key cpid move
        some (a_max, left, bounded))

-- for (i = k; i < k + n; i ++) to->pairs[i + off] = to->pairs[i]
unfoldable pub spread_pairs : Pairs → ℕ → ℕ → ℕ → Pairs
spread_pairs to i off zero = to
spread_pairs to i off (suc n) = spread_pairs (set_pair to (i + off) (to i)) (i + 1) off n

-- for (i = k; i < k + n; i ++) to->pairs[i] = from->pairs[i]
unfoldable pub copy_pairs : Pairs → Pairs → ℕ → ℕ → Pairs
copy_pairs from to i zero = to
copy_pairs from to i (suc n) = copy_pairs from (set_pair to i (from i)) (i + 1) n

-- The merge of the leftmost page: its pairs go before those of the other one.
unfoldable pub merge_leftest : Pivot → Pivot → ℕ → Pivot
merge_leftest from to key =
    let from_rds = from.records + 1 in
    let to_rds = to.records in
    let behind = set_cpid to.pairs (to_rds + from_rds) (cpid_at to to_rds) in
    let moved = spread_pairs behind 0 from_rds to_rds in
    let joined = copy_pairs from.pairs moved 0 from_rds in
    record to { records = (to_rds + from_rds) % 65536; pairs = set_key joined (from_rds - 1) key }

unfoldable pub blink_merge_pivot : Pivot → Pivot → ℕ → Bool → Option Pivot
blink_merge_pivot from to key true = some (merge_leftest from to key)
blink_merge_pivot from to key false = do
  (_, first) ← blink_entry_insert_to_pivot to key (cpid_at from 0) move
  moved ← move_pairs from first 0 from.records
  some (record moved {
    pairs = set_key moved.pairs pivot_upbound_index (key_at from pivot_upbound_index);
  })
