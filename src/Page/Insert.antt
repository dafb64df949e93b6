-- ===== src/Page/Insert.antt =====
-- src/disk/page.c: `p_entry_insert` on a valid page, on each of its branches.
use dsm_db.Shared.{
  ℕ, suc, ◌+◌, ◌*◌, ◌%◌, ◌≤◌, ◌<◌, ◌≡◌, ◌≢◌, inl, inr, refl, ◌∙◌, ap, true, false, Option, some,
  none, List, [], ◌∷◌, ltb, ◌==◌, if◌then◌else◌, length, has, has-AllBelow, arith, Bool-cases,
  le→ltb, ==_iff,
}
use dsm_db.Shared.Memory.{
  Bytes, store16, memcpy, load16-store16, load16-lt, memcpy_at, memcpy_ne, store16_ne,
}
use dsm_db.Page.{
  Page, data_size, pageisfull, p_entry_pagefull, get_max_entries, slot_offset, is_slot_empty,
  set_slot_seat, set_slot_null, get_slot_value, get_slot_addr, put_item, seat_entry, p_entry_insert,
}
use dsm_db.Page.Bits.{
  set_slot_seat_lem, set_slot_null_lem, slot_of_small, entries_apart, entry-le-slot,
  get_max_entries-le,
}
use dsm_db.Page.Valid.{
  IsValid, slot_at, head_of, Linked, LinksTo, Linked-frame, Linked-small, slot_at-store16,
  slot_at-memcpy, is_page_full_lem, get_slot_addr_lem, examine_checksum_lem, update_checksum_lem,
}

-- Where the free list goes on from slot `f`, once `f` is taken.
next_free :
    (m : Bytes) (f : ℕ) (rest : List ℕ) (r n : ℕ)
    → r + suc (length rest) ≡ n
    → LinksTo m f rest
    → (if ltb n (r + 1 + 1) then pageisfull else slot_at m f) ≡ head_of rest
next_free m f [] r n e l = ground arith
next_free m f (y ∷ ys) r n e l = ground arith

-- The data area once the item, or the null bit, is written for slot `f`.
unfoldable pub filled : Page → ℕ → Option Bytes → ℕ → Bytes
filled p f (some item) len = memcpy p.bytes (f * p.data_width) item len
filled p f none len = store16 p.bytes (slot_offset f) (set_slot_null (slot_at p.bytes f))

-- The page that an insertion into slot `f` leaves.
unfoldable pub inserted : Page → ℕ → Option Bytes → ℕ → Page
inserted p f item len = (seat_entry p (slot_offset f) (filled p f item len)).1

pub width-inserted :
    (p : Page) (f : ℕ) (item : Option Bytes) (len : ℕ)
    → (inserted p f item len).data_width ≡ p.data_width
unfolding inserted seat_entry
width-inserted p f item len = refl

pub page_id-inserted :
    (p : Page) (f : ℕ) (item : Option Bytes) (len : ℕ) → (inserted p f item len).page_id ≡ p.page_id
unfolding inserted seat_entry
page_id-inserted p f item len = refl

module _ (p : Page) (f : ℕ) (rest : List ℕ) (item : Option Bytes) (len : ℕ)
    (v : IsValid p (f ∷ rest)) (fits : len ≤ p.data_width) where
  f-lt-max : f < get_max_entries p.data_width
  f-lt-max = v.below.0

  f-lt-slots : f < 2032
  f-lt-slots = omega (arith, f-lt-max, get_max_entries-le p.data_width)

  f_small : slot_at p.bytes f < 0x2000
  f_small =
      Linked-small p.bytes (get_max_entries p.data_width) f (f ∷ rest)
        (get_max_entries-le p.data_width) v.below v.linked (ground arith)

  slot_at-filled_ne :
      (j : ℕ)
      → j < get_max_entries p.data_width
      → f ≢ j
      → slot_at (filled p f item len) j ≡ slot_at p.bytes j
  unfolding filled
  slot_at-filled_ne j h ne = (elim item as (λ o. slot_at (filled p f o len) j ≡ slot_at p.bytes j) [
    | some b ↦ slot_at-memcpy p.bytes p.data_width f j b len f-lt-max h fits
    | none ↦
        slot_at-store16 p.bytes f j (set_slot_null (slot_at p.bytes f)) f-lt-slots
          (omega (arith, get_max_entries-le p.data_width)) ne
  ])

  get_slot_value-filled : get_slot_value (slot_at (filled p f item len) f) ≡ slot_at p.bytes f
  unfolding filled
  get_slot_value-filled =
      (elim item as (λ o. get_slot_value (slot_at (filled p f o len) f) ≡ slot_at p.bytes f) [
        | some b ↦
            rw (slot_at-memcpy p.bytes p.data_width f f b len f-lt-max f-lt-max fits)
              (slot_of_small _ f_small).1
        | none ↦
            rw
              (load16-store16 p.bytes (slot_offset f) _
                (set_slot_null_lem (slot_at p.bytes f) (load16-lt p.bytes _)).1)
              ((set_slot_null_lem (slot_at p.bytes f) (load16-lt p.bytes _)).0
                ∙ (slot_of_small _ f_small).1)
      ])

  slot_at-inserted :
      slot_at (inserted p f item len).bytes f ≡ set_slot_seat (slot_at (filled p f item len) f)
  unfolding inserted seat_entry
  slot_at-inserted =
      load16-store16 (filled p f item len) (slot_offset f) _
        (set_slot_seat_lem _ (load16-lt (filled p f item len) _)).2

  -- Every other slot is as it was.
  pub slot_at-inserted_ne :
      (j : ℕ)
      → j < get_max_entries p.data_width
      → f ≢ j
      → slot_at (inserted p f item len).bytes j ≡ slot_at p.bytes j
  unfolding inserted seat_entry
  slot_at-inserted_ne j h ne =
      slot_at-store16 (filled p f item len) f j _ f-lt-slots
        (omega (arith, get_max_entries-le p.data_width)) ne
      ∙ slot_at-filled_ne j h ne

  -- The new slot is seated, and keeps the number of the next free one.
  slot_inserted :
      (is_slot_empty (slot_at (inserted p f item len).bytes f) ≡ false)
      × (get_slot_value (slot_at (inserted p f item len).bytes f) ≡ slot_at p.bytes f)
  slot_inserted =
      let s =
        set_slot_seat_lem (slot_at (filled p f item len) f) (load16-lt (filled p f item len) _) in
      rw slot_at-inserted (s.0, s.1 ∙ get_slot_value-filled)

  record_num-inserted : (inserted p f item len).record_num ≡ p.record_num + 1
  unfolding inserted seat_entry
  record_num-inserted = omega (arith, v.count, get_max_entries-le p.data_width)

  free_slot-inserted : (inserted p f item len).free_slot_offset ≡ head_of rest
  unfolding inserted seat_entry
  free_slot-inserted =
      rw (is_page_full_lem, slot_inserted.1, no_wrap)
        (next_free p.bytes f rest p.record_num (get_max_entries p.data_width) v.count v.linked.0)
    where
      no_wrap : (p.record_num + 1) % 65536 ≡ p.record_num + 1
      no_wrap = omega (arith, v.count, get_max_entries-le p.data_width)

  seated-inserted :
      (i : ℕ)
      → i < get_max_entries p.data_width
      → has i rest ≡ false
      → is_slot_empty (slot_at (inserted p f item len).bytes i) ≡ false
  seated-inserted i h out = elim (Bool-cases (i == f)) [
    | inl same ↦ let e : i ≡ f = ground arith in rw e slot_inserted.0
    | inr other ↦ rw (slot_at-inserted_ne i h (ground arith)) (v.seated i h (ground arith))
  ]

  Linked-inserted : Linked (inserted p f item len).bytes rest
  Linked-inserted = Linked-frame p.bytes _ rest v.linked.1 (λ j m.
      slot_at-inserted_ne j (has-AllBelow _ j rest v.below.1 m)
        (λ e. cc (v.distinct.0, ap (λ k. has k rest) e, m)))

  -- A valid page with a free slot stays valid when that slot is taken.
  pub inserted-IsValid : IsValid (inserted p f item len) rest
  unfolding inserted seat_entry
  inserted-IsValid = record {
    checked = update_checksum_lem _;
    narrow = v.narrow;
    count = omega (arith, record_num-inserted, v.count);
    head = free_slot-inserted;
    distinct = v.distinct.1;
    below = v.below.1;
    linked = Linked-inserted;
    seated = seated-inserted;
  }

  put_item_lem : put_item p (slot_offset f) item len ≡ some (filled p f item len)
  unfolding put_item filled
  put_item_lem = (elim item as (λ o. put_item p (slot_offset f) o len ≡ some (filled p f o len)) [
    | some b ↦
        let at : f * p.data_width + len ≤ data_size =
          omega (arith, entry-le-slot p.data_width f f f-lt-max f-lt-max, fits) in
        rw (v.head, le→ltb data_size (f * p.data_width + len) at)
    | none ↦ refl
  ])

  not_full : (p.free_slot_offset == pageisfull) ≡ false
  not_full = ground (arith, v.head, f-lt-slots)

  head_addr : get_slot_addr p.free_slot_offset ≡ some (slot_offset f)
  head_addr = rw v.head (get_slot_addr_lem f f-lt-slots)

  bytes-filled :
      (j k : ℕ)
      → j < get_max_entries p.data_width
      → j ≢ f
      → k < p.data_width
      → filled p f item len (j * p.data_width + k) ≡ p.bytes (j * p.data_width + k)
  unfolding filled
  bytes-filled j k hj ne hk =
      (elim item
        as (λ o. filled p f o len (j * p.data_width + k) ≡ p.bytes (j * p.data_width + k)) [
          | some b ↦
              memcpy_ne p.bytes (f * p.data_width) b len _
                (entries_apart p.data_width j f k len ne hk fits)
          | none ↦
              store16_ne p.bytes (slot_offset f) _ _
                (omega (arith, entry-le-slot p.data_width j f hj f-lt-max))
        ])

  -- An insertion takes the first free slot.
  pub p_entry_insert_free : p_entry_insert p item len ≡ some (f, inserted p f item len)
  unfolding p_entry_insert inserted seat_entry
  p_entry_insert_free =
      rw (not_full, examine_checksum_lem p v.checked, head_addr, put_item_lem)
        (ap (λ k. some (k, inserted p f item len)) v.head)

  -- The entries of the other slots keep their bytes.
  pub bytes-inserted_ne :
      (j k : ℕ)
      → j < get_max_entries p.data_width
      → j ≢ f
      → k < p.data_width
      → (inserted p f item len).bytes (j * p.data_width + k) ≡ p.bytes (j * p.data_width + k)
  unfolding inserted seat_entry
  bytes-inserted_ne j k hj ne hk =
      store16_ne (filled p f item len) (slot_offset f) _ _
        (omega (arith, entry-le-slot p.data_width j f hj f-lt-max))
      ∙ bytes-filled j k hj ne hk

-- The item that was given is what the new entry holds.
pub bytes-inserted :
    (p : Page) (f : ℕ) (rest : List ℕ) (item : Bytes) (len k : ℕ)
    → IsValid p (f ∷ rest)
    → len ≤ p.data_width
    → k < len
    → (inserted p f (some item) len).bytes (f * p.data_width + k) ≡ item k
unfolding inserted seat_entry filled
bytes-inserted p f rest item len k v fits h =
    store16_ne (memcpy p.bytes (f * p.data_width) item len) (slot_offset f) _ _
      (omega (arith, entry-le-slot p.data_width f f v.below.0 v.below.0))
    ∙ memcpy_at p.bytes (f * p.data_width) item len k h

-- On a page with no free slot an insertion changes nothing.
pub p_entry_insert_full :
    (p : Page) (item : Option Bytes) (len : ℕ)
    → IsValid p []
    → p_entry_insert p item len ≡ some (p_entry_pagefull, p)
unfolding p_entry_insert
p_entry_insert_full p item len v = rw (full)
  where
    full : (p.free_slot_offset == pageisfull) ≡ true
    full = (==_iff p.free_slot_offset pageisfull).1 v.head
