-- ===== src/Page/Access.antt =====
-- src/disk/page.c: reading, updating and the header setters of a valid page.
use dsm_db.Shared.{
  ℕ, ◌+◌, ◌*◌, ◌≤◌, ◌<◌, ◌≡◌, refl, ap, ◌∙◌, false, Option, some, none, List, ◌∷◌, ==_refl, has,
  ◌==◌, if◌then◌else◌, arith, le→ltb, has-AllBelow,
}
use dsm_db.Shared.Memory.{Bytes, memcpy, memcpy_at, memcpy_ne}
use dsm_db.Page.{
  Page, data_size, p_entry_accept, p_entry_itemnotfound, get_max_entries, get_slot_value,
  update_checksum, p_entry_insert, p_entry_delete_by_index, p_entry_update_by_index,
  p_entry_read_by_index, p_is_entry_nullable,
}
use dsm_db.Page.Bits.{entries_apart, entry-le-slot, get_max_entries-le}
use dsm_db.Page.Valid.{
  IsValid, slot_at, Linked-frame, slot_at-memcpy, get_slot_addr_lem, examine_checksum_lem,
  update_checksum_lem,
}
use dsm_db.Page.Insert.{inserted, inserted-IsValid, p_entry_insert_free, width-inserted}
use dsm_db.Page.Delete.{
  deleted, deleted-IsValid, p_entry_delete_seated, empty_of_has, check_exist_lem, width-deleted,
}

-- The page that an update of entry `i` leaves.
unfoldable pub updated : Page → Bytes → ℕ → Page
updated p item i =
    update_checksum (record p { bytes = memcpy p.bytes (i * p.data_width) item p.data_width })

pub width-updated : (p : Page) (item : Bytes) (i : ℕ) → (updated p item i).data_width ≡ p.data_width
unfolding updated
width-updated p item i = refl

module _ (p : Page) (free : List ℕ) (i : ℕ) (v : IsValid p free)
    (inside : i < get_max_entries p.data_width) where
  -- An entry is read at its place; a free slot gives NULL.
  pub p_entry_read_lem :
      p_entry_read_by_index p i ≡ some (if has i free then none else some (i * p.data_width))
  unfolding p_entry_read_by_index
  p_entry_read_lem =
      rw (get_slot_addr_lem i (omega (arith, get_max_entries-le p.data_width)))
        (ground (arith, v.seated i inside, empty_of_has p free i v inside))

  -- The null bit is masked off before it is tested: no entry is reported as NULL.
  pub p_is_entry_nullable_lem : p_is_entry_nullable p i ≡ some false
  unfolding p_is_entry_nullable get_slot_value
  p_is_entry_nullable_lem =
      rw (get_slot_addr_lem i (omega (arith, get_max_entries-le p.data_width))) (ground arith)

  slots-updated :
      (item : Bytes) (j : ℕ)
      → j < get_max_entries p.data_width
      → slot_at (updated p item i).bytes j ≡ slot_at p.bytes j
  unfolding updated
  slots-updated item j h =
      slot_at-memcpy p.bytes p.data_width i j item p.data_width inside h (omega arith)

  -- An update keeps the page valid, with the same free slots.
  pub updated-IsValid : (item : Bytes) → IsValid (updated p item i) free
  unfolding updated
  updated-IsValid item = record {
    checked = update_checksum_lem _;
    narrow = v.narrow;
    count = v.count;
    head = v.head;
    distinct = v.distinct;
    below = v.below;
    linked =
        Linked-frame p.bytes _ free v.linked
          (λ j m. slots-updated item j (has-AllBelow _ j free v.below m));
    seated = λ j h out. rw (slots-updated item j h) (v.seated j h out);
  }

  pub p_entry_update_lem :
      (item : Bytes)
      → p_entry_update_by_index p item i
        ≡ some
            (if has i free then (p_entry_itemnotfound, p) else (p_entry_accept, updated p item i))
  unfolding p_entry_update_by_index updated
  p_entry_update_lem item =
      let room : i * p.data_width + p.data_width ≤ data_size =
        omega (arith, entry-le-slot p.data_width i i inside inside) in
      rw
        (
          examine_checksum_lem p v.checked,
          check_exist_lem p free i v inside,
          le→ltb data_size (i * p.data_width + p.data_width) room,
        )
        (ground (arith, v.seated i inside, empty_of_has p free i v inside))

  -- After an update the entry holds the new bytes, and the others theirs.
  pub bytes-updated :
      (item : Bytes) (j k : ℕ)
      → k < p.data_width
      → (updated p item i).bytes (j * p.data_width + k)
        ≡ (if j == i then item k else p.bytes (j * p.data_width + k))
  unfolding updated
  bytes-updated item j k h = ground (
    arith,
    memcpy_at p.bytes (i * p.data_width) item p.data_width k,
    memcpy_ne p.bytes (i * p.data_width) item p.data_width (j * p.data_width + k),
    entries_apart p.data_width j i k p.data_width,
  )

-- On a valid page whose first free slot is `f`, a NULL item is inserted there, and
-- `p_is_entry_nullable` then says of it that it is not NULL.
pub nullable_after_null_insert :
    (p : Page) (f : ℕ) (rest : List ℕ)
    → IsValid p (f ∷ rest)
    → (p' : Page) × (p_entry_insert p none 0 ≡ some (f, p'))
      × (p_is_entry_nullable p' f ≡ some false)
nullable_after_null_insert p f rest v = (
  inserted p f none 0,
  p_entry_insert_free p f rest none 0 v (omega arith),
  p_is_entry_nullable_lem (inserted p f none 0) rest f
      (inserted-IsValid p f rest none 0 v (omega arith)) (rw (width-inserted p f none 0) v.below.0),
)

-- On a valid page, an entry that is deleted is gone, and the next insertion takes its slot.
pub insert-delete :
    (p : Page) (free : List ℕ) (i : ℕ) (item : Option Bytes) (len : ℕ)
    → IsValid p free
    → i < get_max_entries p.data_width
    → has i free ≡ false
    → len ≤ p.data_width
    → (p' p'' : Page) × (p_entry_delete_by_index p i ≡ some (p_entry_accept, p'))
      × (p_entry_read_by_index p' i ≡ some none)
      × (p_entry_insert p' item len ≡ some (i, p''))
      × IsValid p'' free
      × (p''.record_num ≡ p.record_num)
insert-delete p free i item len v inside found fits =
    let v' = deleted-IsValid p free i v inside found in
    let fits' : len ≤ (deleted p i).data_width = rw (width-deleted p i) fits in
    let v'' = inserted-IsValid (deleted p i) i free item len v' fits' in
    (
      deleted p i,
      inserted (deleted p i) i item len,
      p_entry_delete_seated p free i v inside found,
      p_entry_read_lem (deleted p i) (i ∷ free) i v' (rw (width-deleted p i) inside)
          ∙ rw (==_refl i),
      p_entry_insert_free (deleted p i) i free item len v' fits',
      v'',
      omega (
        arith,
        v''.count,
        v.count,
        ap get_max_entries (width-inserted (deleted p i) i item len),
        ap get_max_entries (width-deleted p i),
      ),
    )
