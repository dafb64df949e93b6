-- ===== src/Blink.antt =====
-- src/index/b_page.h and src/index/b_page.c: the pages of the B-link tree. What both kinds of page
-- share stands here: the page types, and the binary search that the functions of b_page.c write
-- out one by one.
use dsm_db.Shared.{
  ℕ, zero, suc, ◌+◌, ◌-◌, ◌*◌, ◌/◌, ◌%◌, ◌≤◌, ◌<◌, ◌≡◌, Bool, true, false, ltb, leb, ◌==◌, ◌&&◌,
  if◌then◌else◌,
}
pub mod Search
pub mod Leaf
pub mod Pivot

abbrev pub page_size : ℕ
page_size = 4096

-- sizeof(b_link_page_header_s), which is packed
abbrev pub blink_header_size : ℕ
blink_header_size = 22

-- BLINK_IS_PIVOT, BLINK_IS_ROOT
abbrev pub blink_is_pivot : ℕ → Bool
blink_is_pivot type = type / 2 % 2 == 1

abbrev pub blink_is_root : ℕ → Bool
blink_is_root type = type / 4 % 2 == 1

-- Bits of a deletion's state: the page wants merging, the last record went.
abbrev pub blink_del_merge_bit : ℕ
blink_del_merge_bit = 1

abbrev pub blink_del_last_bit : ℕ
blink_del_last_bit = 2

-- How a search ends: at a record with the key, or past a record below the key, before one above.
-- `diverged` stands for a `while (1)` that is still running when the fuel is out.
pub data Probe : Type 0 where
  at : ℕ → Probe
  between : ℕ → Probe
  diverged : Probe

-- The loop `while (1) { index = (upper + lower) / 2; ... }` over the keys of a page. Some of the
-- functions move a bound before the test for a gap: the bound is not read after it.
unfoldable pub probe : (ℕ → ℕ) → ℕ → ℕ → ℕ → ℕ → Probe
probe keys key zero lower upper = diverged
probe keys key (suc f) lower upper =
    let index = (upper + lower) / 2 in
    let above = ltb key (keys index) in
    let rest = probe keys key f (if above then lower else index) (if above then index else upper) in
    if keys index == key
    then at index
    else if ltb key (keys (index + 1)) && ltb (keys index) key
    then between index
    else rest
