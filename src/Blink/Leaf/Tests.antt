-- ===== src/Blink/Leaf/Tests.antt =====
-- A leaf page with three records: runs, and the theorems at inputs that meet their conditions.
use dsm_db.Shared.{ℕ, ◌+◌, ◌≡◌, refl, ltb, leb, ◌==◌, if◌then◌else◌, Option, some, none, arith}
use dsm_db.Blink.{probe}
use dsm_db.Page.{page_id_null}
use dsm_db.Blink.Leaf.{
  Entry, Leaf, cleared, blink_leaf_init, found_at, blink_leaf_scan, place_at, insert_place,
  shift_up, shift_down, put_entry, has_space, put_placed, blink_entry_insert_to_leaf,
  blink_entry_update_leaf, take_entry, removal_state, blink_entry_remove_from_leaf, move_entries,
  clear_entries, blink_leaf_split, blink_merge_leaf,
}
use dsm_db.Blink.Leaf.Scan.{
  IsSortedLeaf, Answered, Finds, lookup, blink_leaf_scan-Answered, lookup_absent,
}
use dsm_db.Blink.Leaf.Insert.{Inserts, blink_entry_insert_to_leaf-Inserts}
use dsm_db.Blink.Leaf.Split.{blink_leaf_split_lem}

-- All that a run of a leaf page computes with.
program : Unit {0}
unfolding probe blink_leaf_init found_at blink_leaf_scan place_at insert_place shift_up shift_down
    put_entry has_space put_placed blink_entry_insert_to_leaf blink_entry_update_leaf take_entry
    removal_state blink_entry_remove_from_leaf move_entries clear_entries blink_leaf_split
    blink_merge_leaf lookup
program = tt

abbrev entry_of : ℕ → Entry
entry_of k = record { key = k; rest = λ j. k + j }

-- The keys 10, 20 and 30.
abbrev three : Leaf
three = record {
  pid = 5;
  ppid = 2;
  bpid = page_id_null;
  npid = 6;
  page_type = 0;
  records = 3;
  width = 32;
  upbound = 30;
  entries =
      λ i. if leb 3 i then cleared else entry_of (if i == 0 then 10 else if i == 1 then 20 else 30);
}

abbrev vacant : Leaf
vacant = blink_leaf_init 6 2 7 32 0

three-IsSorted : IsSortedLeaf three
three-IsSorted i j lt h = ground arith

has_no_25 : Finds three 25 none
has_no_25 j h = ground arith

abbrev keys_after : Option (ℕ × Leaf) → ℕ → ℕ
keys_after none i = 0
keys_after (some (r, l)) i = (l.entries i).key

insert_25 : keys_after (blink_entry_insert_to_leaf three (entry_of 25)) 2 ≡ 25
unfolding program
insert_25 = refl

insert_25_above : keys_after (blink_entry_insert_to_leaf three (entry_of 25)) 3 ≡ 30
unfolding program
insert_25_above = refl

scan_20 : blink_leaf_scan three 20 ≡ some (some 1)
unfolding program
scan_20 = refl

abbrev bound_of : Option (ℕ × Leaf × Leaf) → ℕ
bound_of none = 0
bound_of (some (a, l, r)) = a

split_bound : bound_of (blink_leaf_split three vacant (entry_of 25) 25) ≡ 20
unfolding program
split_bound = refl

blink_leaf_scan-Answered_example : Answered three 20 (blink_leaf_scan three 20)
blink_leaf_scan-Answered_example = blink_leaf_scan-Answered three 20 three-IsSorted

blink_entry_insert_to_leaf-Inserts_example :
    Inserts three (entry_of 25) 30 (blink_entry_insert_to_leaf three (entry_of 25))
blink_entry_insert_to_leaf-Inserts_example =
    blink_entry_insert_to_leaf-Inserts three (entry_of 25) 30 three-IsSorted
      (λ new. record { key_fits = omega arith; inside = omega arith })

blink_leaf_split_lem_example :
    (a_max : ℕ) × (left : Leaf) × (right : Leaf) × (blink_leaf_split three vacant (entry_of 25) 25
      ≡ some (a_max, left, right))
    × IsSortedLeaf left
    × IsSortedLeaf right
    × (left.records + right.records ≡ three.records + 1)
    × (left.upbound ≡ a_max)
    × (right.upbound ≡ three.upbound)
    × ((if ltb a_max 30 then lookup right 30 else lookup left 30)
        ≡ (if 30 == 25 then some (some (entry_of 25)) else lookup three 30))
blink_leaf_split_lem_example =
    blink_leaf_split_lem three vacant (entry_of 25) 30 three-IsSorted (omega arith)
      (record { key_fits = omega arith; inside = omega arith })
      (record { key_fits = omega arith; inside = omega arith }) (unfold program in refl)
      (unfold program in refl) (lookup_absent three 25 three-IsSorted has_no_25)
