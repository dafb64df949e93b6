-- ===== src/Blink/Leaf.antt =====
-- src/index/b_page.c: the leaf page. Every access to `data` is to a whole entry, at a multiple of
-- the width, and the key is the first word of an entry; so the data area is the sequence of the
-- entries in it, with what lies behind the last record left as it is. A loop is given as many
-- rounds as there are records. `none` stands for a loop that would go on, and for an insertion that
-- writes behind the 4070 bytes of `data`, or an entry that is too short for its key.
use dsm_db.Shared.{
  ℕ, zero, suc, ◌+◌, ◌-◌, ◌*◌, ◌/◌, ◌%◌, Bool, true, false, ltb, leb, ◌==◌, ◌||◌, not, ◌&&◌, Option,
  some, none, if◌then◌else◌, ◌>>=◌,
}
use dsm_db.Shared.Memory.{Bytes}
use dsm_db.Blink.{
  page_size, blink_header_size, blink_is_root, blink_del_merge_bit, blink_del_last_bit, Probe, at,
  between, diverged, probe,
}
use dsm_db.Page.{page_id_null}
pub mod Arrays
pub mod Space
pub mod Scan
pub mod Insert
pub mod Remove
pub mod Split
mod Tests

-- BLINK_LEAF_DATA_SIZE
abbrev pub blink_leaf_data_size : ℕ
blink_leaf_data_size = 4070

-- One record: the key, and the bytes behind it.
pub record Entry : Type 0 where
  pub key : ℕ
  pub rest : Bytes

-- What memset leaves.
abbrev pub cleared : Entry
cleared = record { key = 0; rest = λ _. 0 }

-- `struct b_link_leaf_page`, with its header
pub record Leaf : Type 0 where
  pub pid : ℕ
  pub ppid : ℕ
  pub bpid : ℕ
  pub npid : ℕ
  pub page_type : ℕ
  pub records : ℕ
  pub width : ℕ
  pub upbound : ℕ
  pub entries : ℕ → Entry

-- GET_ENTRY_KEY at an index
abbrev pub key_at : Leaf → ℕ → ℕ
key_at l i = (l.entries i).key

abbrev pub update : (ℕ → Entry) → ℕ → Entry → ℕ → Entry
update a i e j = if j == i then e else a j

unfoldable pub blink_is_leaf_full : Leaf → Bool
blink_is_leaf_full l = leb page_size (blink_header_size + (l.records + 1) * l.width)

-- The leaf's half of `blink_is_node_safe`.
unfoldable pub is_leaf_safe : Leaf → Bool
is_leaf_safe l = not (leb page_size ((l.records + 1) * l.width + blink_header_size))

unfoldable pub blink_leaf_init : ℕ → ℕ → ℕ → ℕ → ℕ → Leaf
blink_leaf_init pid ppid npid width type = record {
  pid = pid;
  ppid = ppid;
  bpid = page_id_null;
  npid = npid;
  page_type = type;
  records = 0;
  width = width;
  upbound = page_id_null;
  entries = λ _. cleared;
}

-- What a search for a record makes of the end of the loop.
unfoldable pub found_at : Probe → Option (Option ℕ)
found_at (at i) = some (some i)
found_at (between i) = some none
found_at diverged = none

-- The index of the entry with the key, or NULL. With no record the code reads the entry before the
-- first; whatever it finds there, it returns NULL.
unfoldable pub blink_leaf_scan : Leaf → ℕ → Option (Option ℕ)
blink_leaf_scan l key =
    if l.records == 0
    then some none
    else if ltb (key_at l (l.records - 1)) key || ltb key (key_at l 0)
    then some none
    else found_at (probe (key_at l) key l.records 0 l.records)

-- Where an insertion goes, or that the key is there.
unfoldable pub place_at : Probe → Option (Option ℕ)
place_at (at i) = some none
place_at (between i) = some (some (i + 1))
place_at diverged = none

unfoldable pub insert_place : Leaf → ℕ → Option (Option ℕ)
insert_place l key =
    if l.records == 0
    then some (some 0)
    else if ltb (key_at l (l.records - 1)) key
    then some (some l.records)
    else if ltb key (key_at l 0)
    then some (some 0)
    else place_at (probe (key_at l) key l.records 0 l.records)

-- for (i = index + n; i > index; i --) entries[i] = entries[i - 1]
unfoldable pub shift_up : (ℕ → Entry) → ℕ → ℕ → ℕ → Entry
shift_up a index zero = a
shift_up a index (suc n) = shift_up (update a (index + n + 1) (a (index + n))) index n

-- for (i = index; i < index + n; i ++) entries[i] = entries[i + 1]
unfoldable pub shift_down : (ℕ → Entry) → ℕ → ℕ → ℕ → Entry
shift_down a index zero = a
shift_down a index (suc n) = shift_down (update a index (a (index + 1))) (index + 1) n

abbrev pub bll_key_dup : ℕ
bll_key_dup = 0

abbrev pub bll_accept : ℕ
bll_accept = 1

abbrev pub bll_unexist : ℕ
bll_unexist = 0

unfoldable pub put_entry : Leaf → ℕ → Entry → Leaf
put_entry l index e = record l {
  entries = update (shift_up l.entries index (l.records - index)) index e;
  records = (l.records + 1) % 65536;
}

-- One more record lies inside of `data`, and its key is not longer than the entry.
unfoldable pub has_space : Leaf → Bool
has_space l = leb 4 l.width && leb ((l.records + 1) * l.width) blink_leaf_data_size

unfoldable pub put_placed : Leaf → Entry → Option ℕ → Option (ℕ × Leaf)
put_placed l e none = some (bll_key_dup, l)
put_placed l e (some index) = if has_space l then some (bll_accept, put_entry l index e) else none

-- The code does not look whether there is space: a write behind `data` is `none`.
unfoldable pub blink_entry_insert_to_leaf : Leaf → Entry → Option (ℕ × Leaf)
blink_entry_insert_to_leaf l e = do place ← insert_place l e.key; put_placed l e place

unfoldable pub blink_entry_update_leaf : Leaf → ℕ → Entry → Option (ℕ × Leaf)
blink_entry_update_leaf l key e = do
  found ← blink_leaf_scan l key
  some (elim found [
    | none ↦ (bll_unexist, l)
    | some index ↦ (bll_accept, record l { entries = update l.entries index e })
  ])

unfoldable pub take_entry : Leaf → ℕ → Leaf
take_entry l index = record l {
  entries = update (shift_down l.entries index (l.records - 1 - index)) (l.records - 1) cleared;
  records = l.records - 1;
}

-- The state that a deletion reports: whether the last record went, and whether too few are left.
-- The deletion from a root reports nothing.
unfoldable pub removal_state : Leaf → ℕ → ℕ
removal_state l key =
    let last = if key_at l (l.records - 1) == key then blink_del_last_bit else 0 in
    let merge =
      if ltb ((page_size - blink_header_size - 4) / l.width / 2) (l.records - 1)
      then 0
      else blink_del_merge_bit in
    if blink_is_root l.page_type then 0 else last + merge

-- `state` may be NULL.
unfoldable pub blink_entry_remove_from_leaf : Leaf → ℕ → Option ℕ → Option (ℕ × Leaf × Option ℕ)
blink_entry_remove_from_leaf l key state = do
  found ← blink_leaf_scan l key
  some (elim found [
    | none ↦ (bll_unexist, l, state)
    | some index ↦ (
      bll_accept,
      take_entry l index,
      elim state [ none ↦ none | some _ ↦ some (removal_state l key) ],
    )
  ])

-- The first loop of a split: the entries from `i` on, `n` of them, are inserted in `to`, with as many
-- bytes as an entry of `to` has. Where that is another number than in `from`: `none`.
unfoldable pub move_entries : Leaf → Leaf → ℕ → ℕ → Option Leaf
move_entries from to i zero = some to
move_entries from to i (suc n) = do
  (_, to') ← if from.width == to.width then blink_entry_insert_to_leaf to (from.entries i) else none
  move_entries from to' (i + 1) n

-- The second loop, memset.
unfoldable pub clear_entries : (ℕ → Entry) → ℕ → ℕ → ℕ → Entry
clear_entries a i zero = a
clear_entries a i (suc n) = clear_entries (update a i cleared) (i + 1) n

-- The greatest key that stays, and the two pages.
unfoldable pub blink_leaf_split : Leaf → Leaf → Entry → ℕ → Option (ℕ × Leaf × Leaf)
blink_leaf_split from to entry key = do
  let mid = from.records / 2 + 1
  let a_max = key_at from (mid - 1)
  let kept = record from {
    entries = clear_entries from.entries mid (from.records - mid);
    records = mid;
    upbound = a_max;
  }
  moved ← move_entries from to mid (from.records - mid)
  let bounded = record moved { upbound = from.upbound }
  if ltb a_max key
      then (do (_, right) ← blink_entry_insert_to_leaf bounded entry; some (a_max, kept, right))
      else (do (_, left) ← blink_entry_insert_to_leaf kept entry; some (a_max, left, bounded))

-- With no record in `from` the key before its first entry would be read: `none`.
unfoldable pub blink_merge_leaf : Leaf → Leaf → Option Leaf
blink_merge_leaf from to = do
  merged ← move_entries from to 0 from.records
  if from.records == 0
      then none
      else some (record merged { upbound = key_at from (from.records - 1) })
