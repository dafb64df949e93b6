-- ===== src/Blink/Pivot.antt =====
-- src/index/b_page.c: the pivot page. A page has five pairs; behind them lies padding that nothing
-- reads, so `pairs` has a pair at every index. `none` stands for a read of the pair before the
-- first, which is in the header, and for a loop that would go on: a loop is given as many rounds as
-- there are records.
use dsm_db.Shared.{
  ℕ, zero, suc, ◌+◌, ◌-◌, ◌*◌, ◌/◌, ◌%◌, bit_xor, Bool, true, false, ltb, leb, ◌==◌, ◌&&◌, ◌||◌,
  not, Option, some, none, if◌then◌else◌, ◌>>=◌,
}
use dsm_db.Blink.{blink_is_root, blink_del_merge_bit, Probe, at, between, diverged, probe}
use dsm_db.Page.{page_id_null}
pub mod Route
pub mod Insert
pub mod Separate
pub mod Split
pub mod Remove
pub mod Leftest
mod Tests

-- PAIRENTRYS
abbrev pub pair_entrys : ℕ
pair_entrys = 5

abbrev pub pivot_upbound_index : ℕ
pivot_upbound_index = 4

pub record Pair : Type 0 where
  pub key : ℕ
  pub cpid : ℕ

-- `struct b_link_pivot_page`, with its header
pub record Pivot : Type 0 where
  pub pid : ℕ
  pub ppid : ℕ
  pub bpid : ℕ
  pub npid : ℕ
  pub page_type : ℕ
  pub records : ℕ
  pub width : ℕ
  pub pairs : ℕ → Pair

abbrev pub key_at : Pivot → ℕ → ℕ
key_at p i = (p.pairs i).key

abbrev pub cpid_at : Pivot → ℕ → ℕ
cpid_at p i = (p.pairs i).cpid

abbrev pub null_pair : Pair
null_pair = record { key = page_id_null; cpid = page_id_null }

abbrev pub Pairs : Type 0
Pairs = ℕ → Pair

abbrev pub set_key : Pairs → ℕ → ℕ → Pairs
set_key a i k j = if j == i then record { key = k; cpid = (a j).cpid } else a j

abbrev pub set_cpid : Pairs → ℕ → ℕ → Pairs
set_cpid a i c j = if j == i then record { key = (a j).key; cpid = c } else a j

abbrev pub set_pair : Pairs → ℕ → Pair → Pairs
set_pair a i x j = if j == i then x else a j

unfoldable pub blink_is_pivot_full : Pivot → Bool
blink_is_pivot_full p = p.records + 1 == pair_entrys

-- The pivot's half of `blink_is_node_safe`.
unfoldable pub is_pivot_safe : Pivot → Bool
is_pivot_safe p = not (leb pair_entrys (p.records + 1))

unfoldable pub blink_pivot_init : ℕ → ℕ → ℕ → ℕ → Pivot
blink_pivot_init pid ppid npid type = record {
  pid = pid;
  ppid = ppid;
  bpid = page_id_null;
  npid = npid;
  page_type = type;
  records = 0;
  width = 8;
  pairs = λ _. null_pair;
}

-- The loop of `blink_pivot_scan`: the index of the child.
unfoldable pub route : (ℕ → ℕ) → ℕ → ℕ → ℕ → ℕ → Option ℕ
route keys key zero lower upper = none
route keys key (suc f) lower upper =
    let index = (upper + lower) / 2 in
    let left = leb key (keys index) in
    let rest = route keys key f (if left then lower else index) (if left then index else upper) in
    if leb key (keys (index + 1)) && ltb (keys index) key then some (index + 1) else rest

unfoldable pub child_index : Pivot → ℕ → Option ℕ
child_index p key =
    if leb key (key_at p 0)
    then some 0
    else if p.records == 0
    then none
    else if ltb (key_at p (p.records - 1)) key
    then some p.records
    else if key == key_at p (p.records - 1)
    then some (p.records - 1)
    else route (key_at p) key p.records 0 p.records

unfoldable pub blink_pivot_scan : Pivot → ℕ → Option ℕ
blink_pivot_scan p key = do index ← child_index p key; some (cpid_at p index)

-- The type of an insertion.
pub data Kind : Type 0 where
  sep move : Kind

abbrev pub blp_key_dup : ℕ
blp_key_dup = 0

abbrev pub blp_accept : ℕ
blp_accept = 1

abbrev pub blp_unexist : ℕ
blp_unexist = 0

abbrev pub blp_leftest : ℕ
blp_leftest = 2

-- for (i = index + n; i > index; i --) pairs[i] = pairs[i - 1]
unfoldable pub shift_up : Pairs → ℕ → ℕ → Pairs
shift_up a index zero = a
shift_up a index (suc n) = shift_up (set_pair a (index + n + 1) (a (index + n))) index n

-- The three `^=` on the page ids of the first two pairs.
unfoldable pub exchange : Pairs → Pairs
exchange a =
    let b = set_cpid a 0 (bit_xor (a 0).cpid (a 1).cpid) in
    let c = set_cpid b 1 (bit_xor (b 1).cpid (b 0).cpid) in
    set_cpid c 0 (bit_xor (c 0).cpid (c 1).cpid)

-- From the label SKIPBPIVOTSEARCH on.
unfoldable pub put_pair : Pivot → ℕ → ℕ → ℕ → Kind → Pivot
put_pair p index key pid kind =
    let n = p.records in
    let opened =
      if ltb index n
      then shift_up (set_cpid p.pairs (n + 1) (cpid_at p n)) index (n - index)
      else p.pairs in
    let filled = set_pair opened index (record { key = key; cpid = pid }) in
    record p {
      records = (n + 1) % 65536;
      pairs = elim kind [ sep ↦ exchange filled | move ↦ filled ];
    }

-- The branch for a key above all others; the kind is not read.
unfoldable pub append_pair : Pivot → ℕ → ℕ → Pivot
append_pair p key pid = record p {
  records = (p.records + 1) % 65536;
  pairs = set_cpid (set_key p.pairs p.records key) (p.records + 1) pid;
}

unfoldable pub put_at : Pivot → ℕ → ℕ → Kind → Probe → Option (ℕ × Pivot)
put_at p key pid kind (at i) = some (blp_key_dup, p)
put_at p key pid kind (between i) = some (blp_accept, put_pair p (i + 1) key pid kind)
put_at p key pid kind diverged = none

unfoldable pub blink_entry_insert_to_pivot : Pivot → ℕ → ℕ → Kind → Option (ℕ × Pivot)
blink_entry_insert_to_pivot p key pid kind =
    if p.records == 0
    then none
    else if ltb (key_at p (p.records - 1)) key
    then some (blp_accept, append_pair p key pid)
    else if ltb key (key_at p 0)
    then some (blp_accept, put_pair p 0 key pid kind)
    else put_at p key pid kind (probe (key_at p) key p.records 0 p.records)

unfoldable pub update_at : Pivot → ℕ → Probe → Option (Bool × Pivot)
update_at p key (at i) = some (true, record p { pairs = set_key p.pairs i key })
update_at p key (between i) = some (false, p)
update_at p key diverged = none

unfoldable pub blink_entry_update_pivot_key : Pivot → ℕ → ℕ → Option (Bool × Pivot)
blink_entry_update_pivot_key p replace replaced =
    if p.records == 0
    then none
    else if replaced == key_at p (p.records - 1)
    then some (true, record p { pairs = set_key p.pairs (p.records - 1) replace })
    else if replaced == key_at p 0
    then some (true, record p { pairs = set_key p.pairs 0 replace })
    else update_at p replace (probe (key_at p) replaced p.records 0 p.records)

unfoldable pub blink_pivot_set : Pivot → ℕ → ℕ → ℕ → Pivot
blink_pivot_set p key left right = record p {
  records = (p.records + 1) % 65536;
  pairs = set_cpid (set_pair p.pairs 0 (record { key = key; cpid = left })) 1 right;
}

-- for (i = k; i < k + n; i ++) pairs[i] = pairs[i + 1]
unfoldable pub shift_pairs : Pairs → ℕ → ℕ → Pairs
shift_pairs a i zero = a
shift_pairs a i (suc n) = shift_pairs (set_pair a i (a (i + 1))) (i + 1) n

-- for (i = k; i < k + n; i ++) { pairs[i].key = pairs[i + 1].key; pairs[i + 1].cpid = pairs[i + 2].cpid; }
unfoldable pub shift_keys : Pairs → ℕ → ℕ → Pairs
shift_keys a i zero = a
shift_keys a i (suc n) =
    let b = set_key a i (a (i + 1)).key in
    shift_keys (set_cpid b (i + 1) (b (i + 2)).cpid) (i + 1) n

-- The leftmost child goes, with the first key; `n` is the count of records.
unfoldable pub drop_leftest : Pairs → ℕ → Pairs
drop_leftest a n =
    let i = n - 1 in
    let b = shift_pairs a 0 i in
    let c = set_cpid b i (b (i + 1)).cpid in
    set_key (set_cpid c (i + 1) page_id_null) i page_id_null

-- The key at `index` goes, with the child on its right.
unfoldable pub drop_key : Pairs → ℕ → ℕ → Pairs
drop_key a n index =
    let i = n - 1 in
    let b = shift_keys a index (i - index) in
    set_key (set_cpid b (i + 1) page_id_null) i page_id_null

unfoldable pub pivot_state : Pivot → ℕ → ℕ
pivot_state p state =
    if blink_is_root p.page_type
    then 0
    else if ltb (pair_entrys / 2) (p.records - 1)
    then state
    else if state % 2 == 0
    then state + blink_del_merge_bit
    else state

unfoldable pub removed : Pivot → Pairs → ℕ → Option ℕ → ℕ × Pivot × Option ℕ
removed p pairs answer state = (
  answer,
  record p { records = p.records - 1; pairs = pairs },
  elim state [ none ↦ none | some s ↦ some (pivot_state p s) ],
)

unfoldable pub remove_at : Pivot → Option ℕ → Probe → Option (ℕ × Pivot × Option ℕ)
remove_at p state (at i) = some (removed p (drop_key p.pairs p.records i) blp_accept state)
remove_at p state (between i) = some (blp_unexist, p, state)
remove_at p state diverged = none

unfoldable pub blink_entry_remove_from_pivot : Pivot → ℕ → Option ℕ → Option (ℕ × Pivot × Option ℕ)
blink_entry_remove_from_pivot p key state =
    if p.records == 0
    then some (blp_unexist, p, state)
    else if ltb (key_at p (p.records - 1)) key
    then some (blp_unexist, p, state)
    else if ltb key (key_at p 0)
    then some (removed p (drop_leftest p.pairs p.records) blp_leftest state)
    else if key_at p (p.records - 1) == key
    then some (
        removed p (set_cpid (set_key p.pairs (p.records - 1) page_id_null) p.records page_id_null)
          blp_accept state)
    else if key_at p 0 == key
    then some (removed p (drop_key p.pairs p.records 0) blp_accept state)
    else remove_at p state (probe (key_at p) key p.records 0 p.records)
