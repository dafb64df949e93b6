-- ===== src/Page.antt =====
-- src/disk/page.c and include/page.h: the slotted page. Entries of `data_width` bytes grow from
-- the start of the data area, and a table of 16-bit slots grows down from its end. An unseated
-- slot holds the number of the next free one, so the slots are also a free list.
-- The functions are those of page.c, with the header as fields and the 4064 bytes behind it as
-- `bytes`; an offset counts from `get_page_data_table_addr`. `none` is an access outside of that
-- area, which page.c makes without a check. `|` and `&` with a mask of one bit, and with
-- 0x1fff, are written as arithmetic.
use dsm_db.Shared.{
  ℕ, zero, suc, ◌+◌, ◌-◌, ◌*◌, ◌/◌, ◌%◌, ◌<◌, bit_xor, Bool, true, false, not, Option, none, some,
  ltb, leb, ◌==◌, if◌then◌else◌, ◌>>=◌,
}
use dsm_db.Shared.Memory.{Bytes, load16, store16, memcpy}
pub mod Bits
pub mod Valid
pub mod Init
pub mod Insert
pub mod Delete
pub mod Access
pub mod Checksum
pub mod Store
mod Tests

-- PAGEIDNULL
abbrev pub page_id_null : ℕ
page_id_null = 0xffff_ffff

-- PAGESIZE - PAGEHEADERSIZE
abbrev pub data_size : ℕ
data_size = 4064

abbrev pub entry_limit : ℕ
entry_limit = 4062

-- PAGEISFULL, a value of `free_slot_offset`
abbrev pub pageisfull : ℕ
pageisfull = 0xffff

abbrev pub slot_null : ℕ
slot_null = 0x1fff

abbrev pub p_entry_pagefull : ℕ
p_entry_pagefull = 0xffff

abbrev pub p_entry_checksumerror : ℕ
p_entry_checksumerror = 0xefff

abbrev pub p_entry_itemnotfound : ℕ
p_entry_itemnotfound = 0xdfff

abbrev pub p_entry_accept : ℕ
p_entry_accept = 0xcfff

-- `struct page`
pub record Page : Type 0 where
  pub checksum : ℕ
  pub next_page_id : ℕ
  pub page_id : ℕ
  pub record_num : ℕ
  pub data_width : ℕ
  pub flags : ℕ
  pub free_slot_offset : ℕ
  pub page_type : ℕ
  pub padding : Bytes
  pub bytes : Bytes

unfoldable pub get_max_entries : ℕ → ℕ
get_max_entries width = data_size / (width + 2)

abbrev pub get_page_data_entry_addr : Page → ℕ → ℕ
get_page_data_entry_addr p index = index * p.data_width

unfoldable pub is_page_full : Page → Bool
is_page_full p = ltb data_size ((p.data_width + 2) * (p.record_num + 1))

-- The slots lie at 4062, 4060, ...
abbrev pub slot_offset : ℕ → ℕ
slot_offset index = 4062 - 2 * index

unfoldable pub get_slot_addr : ℕ → Option ℕ
get_slot_addr index = if ltb 2031 index then none else some (slot_offset index)

-- `|= 0x8000`
unfoldable pub set_slot_null : ℕ → ℕ
set_slot_null slot = if slot / 0x8000 % 2 == 0 then slot + 0x8000 else slot

-- `|= 0x4000`
unfoldable pub set_slot_seat : ℕ → ℕ
set_slot_seat slot = if slot / 0x4000 % 2 == 0 then slot + 0x4000 else slot

-- `&= 0xbfff`
unfoldable pub set_slot_unseat : ℕ → ℕ
set_slot_unseat slot = if slot / 0x4000 % 2 == 0 then slot else slot - 0x4000

-- `& 0x1fff`
unfoldable pub get_slot_value : ℕ → ℕ
get_slot_value slot = slot % 0x2000

-- ISSLOTEMPTY
unfoldable pub is_slot_empty : ℕ → Bool
is_slot_empty slot = slot / 0x4000 % 2 == 0

-- The words i = 0 .. n - 1 of a memory, joined to `v` by `^=`.
unfoldable pub xor_words : ℕ → Bytes → ℕ → ℕ
xor_words zero m v = v
xor_words (suc n) m v = bit_xor (xor_words n m v) (load16 m (2 * n))

-- The words 1 to 9 of the page, those of the header fields behind the checksum.
unfoldable pub xor_header : Page → ℕ
xor_header p =
    bit_xor
      (bit_xor
        (bit_xor
          (bit_xor
            (bit_xor
              (bit_xor
                (bit_xor (bit_xor (bit_xor 0 (p.next_page_id % 65536)) (p.next_page_id / 65536))
                  (p.page_id % 65536))
                (p.page_id / 65536))
              p.record_num)
            p.data_width)
          p.flags)
        p.free_slot_offset)
      p.page_type

unfoldable pub calculate_checksum : Page → ℕ
unfolding xor_header
calculate_checksum p = xor_words 2032 p.bytes (xor_words 6 p.padding (xor_header p))

abbrev pub update_checksum : Page → Page
update_checksum p = record p { checksum = calculate_checksum p }

unfoldable pub examine_checksum : Page → Bool
examine_checksum p = p.checksum == calculate_checksum p

-- True where the slot is not seated: the function is named for the opposite.
unfoldable pub p_entry_check_exist_by_index : Page → ℕ → Option Bool
p_entry_check_exist_by_index p index = do
  slot ← get_slot_addr index
  some (is_slot_empty (load16 p.bytes slot))

-- What an insertion writes before it seats the slot: the item, or the null bit for a NULL item.
unfoldable pub put_item : Page → ℕ → Option Bytes → ℕ → Option Bytes
put_item p slot (some item) len =
    let at = get_page_data_entry_addr p p.free_slot_offset in
    if ltb data_size (at + len) then none else some (memcpy p.bytes at item len)
put_item p slot none len = some (store16 p.bytes slot (set_slot_null (load16 p.bytes slot)))

-- The rest of an insertion, with `slot` the address of the free slot.
unfoldable pub seat_entry : Page → ℕ → Bytes → ℕ × Page
seat_entry p slot filled =
    let seated = store16 filled slot (set_slot_seat (load16 filled slot)) in
    let counted = record p { record_num = (p.record_num + 1) % 65536; bytes = seated } in
    let next = if is_page_full counted then pageisfull else get_slot_value (load16 seated slot) in
    (p.free_slot_offset, update_checksum (record counted { free_slot_offset = next }))

unfoldable pub p_entry_insert : Page → Option Bytes → ℕ → Option (ℕ × Page)
p_entry_insert p item len =
    if p.free_slot_offset == pageisfull
    then some (p_entry_pagefull, p)
    else if not (examine_checksum p)
    then some (p_entry_checksumerror, p)
    else do
      slot ← get_slot_addr p.free_slot_offset
      filled ← put_item p slot item len
      some (seat_entry p slot filled)

-- The rest of a deletion, with `slot` the address of the slot. The first store is
-- `set_slot_unseat`, and the second overwrites it.
unfoldable pub free_entry : Page → ℕ → ℕ → ℕ × Page
free_entry p index slot =
    let unseated = store16 p.bytes slot (set_slot_unseat (load16 p.bytes slot)) in
    let link = if p.free_slot_offset == pageisfull then slot_null else p.free_slot_offset in
    let freed = record p {
      record_num = (p.record_num + 65535) % 65536;
      free_slot_offset = index;
      bytes = store16 unseated slot link;
    } in
    (p_entry_accept, update_checksum freed)

unfoldable pub p_entry_delete_by_index : Page → ℕ → Option (ℕ × Page)
p_entry_delete_by_index p index =
    if not (examine_checksum p) then some (p_entry_checksumerror, p) else do
      missing ← p_entry_check_exist_by_index p index
      slot ← get_slot_addr index
      some (if missing then (p_entry_itemnotfound, p) else free_entry p index slot)

unfoldable pub p_entry_update_by_index : Page → Bytes → ℕ → Option (ℕ × Page)
p_entry_update_by_index p item index =
    if not (examine_checksum p) then some (p_entry_checksumerror, p) else do
      missing ← p_entry_check_exist_by_index p index
      let at = get_page_data_entry_addr p index
      let written = record p { bytes = memcpy p.bytes at item p.data_width }
      if missing
          then some (p_entry_itemnotfound, p)
          else if ltb data_size (at + p.data_width)
          then none
          else some (p_entry_accept, update_checksum written)

unfoldable pub p_entry_set_nextpid : Page → ℕ → ℕ × Page
p_entry_set_nextpid p next_id =
    if not (examine_checksum p)
    then (p_entry_checksumerror, p)
    else (p_entry_accept, update_checksum (record p { next_page_id = next_id }))

unfoldable pub p_entry_set_width : Page → ℕ → ℕ × Page
p_entry_set_width p width =
    if not (examine_checksum p)
    then (p_entry_checksumerror, p)
    else if ltb entry_limit width
    then (p_entry_accept, p)
    else (p_entry_accept, update_checksum (record p { data_width = width }))

-- The offset of the entry, or NULL.
unfoldable pub p_entry_read_by_index : Page → ℕ → Option (Option ℕ)
p_entry_read_by_index p index = do
  slot ← get_slot_addr index
  some (
      if is_slot_empty (load16 p.bytes slot) then none else some (get_page_data_entry_addr p index))

-- `slot_value & 0x8000`
unfoldable pub p_is_entry_nullable : Page → ℕ → Option Bool
p_is_entry_nullable p index = do
  slot ← get_slot_addr index
  some (get_slot_value (load16 p.bytes slot) / 0x8000 % 2 == 1)

unfoldable pub p_entry_set_pagetype : Page → ℕ → Page
p_entry_set_pagetype p type = update_checksum (record p { page_type = type })

-- The slots 0 .. k - 1, each linked to the next.
unfoldable pub link_slots : ℕ → Bytes → Bytes
link_slots zero m = m
link_slots (suc k) m = store16 (link_slots k m) (slot_offset k) (k + 1)

unfoldable pub page_init : ℕ → ℕ → ℕ → Page
page_init width id next_id = update_checksum (record {
  checksum = 0;
  next_page_id = next_id;
  page_id = id;
  record_num = 0;
  data_width = width;
  flags = 0;
  free_slot_offset = 0;
  page_type = 0;
  padding = λ _. 0;
  bytes = link_slots (get_max_entries width - 1) (λ _. 0);
})
