-- ===== src/Page/Delete.antt =====
-- src/disk/page.c: `p_entry_delete_by_index` on a valid page, on each of its branches.
use dsm_db.Shared.{
  ℕ, ◌+◌, ◌*◌, ◌≤◌, ◌<◌, ◌≡◌, ◌≢◌, refl, ap, ◌∙◌, true, false, some, List, [], ◌∷◌, ◌==◌,
  if◌then◌else◌, has, AllBelow, has-AllBelow, length-lt, arith,
}
use dsm_db.Shared.Memory.{Bytes, load16-store16, store16_ne}
use dsm_db.Page.{
  Page, pageisfull, slot_null, p_entry_accept, p_entry_itemnotfound, get_max_entries, slot_offset,
  is_slot_empty, p_entry_check_exist_by_index, free_entry, p_entry_delete_by_index,
}
use dsm_db.Page.Bits.{slot_of_small, entry-le-slot, get_max_entries-le}
use dsm_db.Page.Valid.{
  IsValid, slot_at, head_of, Linked, LinksTo, Linked-frame, Linked-small, slot_at-store16,
  get_slot_addr_lem, examine_checksum_lem, update_checksum_lem,
}

-- What a freed slot is linked to.
unfoldable pub link_of : Page → ℕ
link_of p = if p.free_slot_offset == pageisfull then slot_null else p.free_slot_offset

-- The page that a deletion of entry `i` leaves.
unfoldable pub deleted : Page → ℕ → Page
deleted p i = (free_entry p i (slot_offset i)).1

pub width-deleted : (p : Page) (i : ℕ) → (deleted p i).data_width ≡ p.data_width
unfolding deleted free_entry
width-deleted p i = refl

pub page_id-deleted : (p : Page) (i : ℕ) → (deleted p i).page_id ≡ p.page_id
unfolding deleted free_entry
page_id-deleted p i = refl

link_of_lem :
    (p : Page) (m : Bytes) (i n : ℕ) (free : List ℕ)
    → n ≤ 2032
    → AllBelow n free
    → p.free_slot_offset ≡ head_of free
    → slot_at m i ≡ link_of p
    → LinksTo m i free
unfolding link_of
link_of_lem p m i n [] le b h e = ground arith
link_of_lem p m i n (x ∷ xs) le b h e = ground arith

module _ (p : Page) (free : List ℕ) (i : ℕ) (v : IsValid p free)
    (inside : i < get_max_entries p.data_width) where
  i-lt-slots : i < 2032
  i-lt-slots = omega (arith, get_max_entries-le p.data_width)

  head-le : head_of free < 65536
  head-le = head_lt free v.below
    where
      head_lt : (xs : List ℕ) → AllBelow (get_max_entries p.data_width) xs → head_of xs < 65536
      head_lt [] b = omega arith
      head_lt (x ∷ xs) b = omega (arith, get_max_entries-le p.data_width)

  link_of-lt : link_of p < 65536
  unfolding link_of
  link_of-lt = ground (arith, head-le, v.head)

  slot_at-deleted : slot_at (deleted p i).bytes i ≡ link_of p
  unfolding deleted free_entry link_of
  slot_at-deleted = load16-store16 _ (slot_offset i) (link_of p) link_of-lt

  -- Every other slot is as it was.
  pub slot_at-deleted_ne :
      (j : ℕ)
      → j < get_max_entries p.data_width
      → i ≢ j
      → slot_at (deleted p i).bytes j ≡ slot_at p.bytes j
  unfolding deleted free_entry
  slot_at-deleted_ne j h ne =
      let j-lt : j < 2032 = omega (arith, get_max_entries-le p.data_width) in
      slot_at-store16 _ i j _ i-lt-slots j-lt ne ∙ slot_at-store16 p.bytes i j _ i-lt-slots j-lt ne

  -- No entry's bytes are touched.
  pub bytes-deleted :
      (j k : ℕ)
      → j < get_max_entries p.data_width
      → k < p.data_width
      → (deleted p i).bytes (j * p.data_width + k) ≡ p.bytes (j * p.data_width + k)
  unfolding deleted free_entry
  bytes-deleted j k h hk =
      store16_ne _ (slot_offset i) _ _ (omega (arith, entry-le-slot p.data_width j i h inside))
      ∙ store16_ne p.bytes (slot_offset i) _ _
          (omega (arith, entry-le-slot p.data_width j i h inside))

  -- A slot of the free list holds no entry.
  pub empty_of_has : has i free ≡ true → is_slot_empty (slot_at p.bytes i) ≡ true
  empty_of_has h =
      (slot_of_small _
        (Linked-small p.bytes _ i free (get_max_entries-le p.data_width) v.below v.linked h)).0

  pub check_exist_lem : p_entry_check_exist_by_index p i ≡ some (is_slot_empty (slot_at p.bytes i))
  unfolding p_entry_check_exist_by_index
  check_exist_lem = rw (get_slot_addr_lem i i-lt-slots)

  -- The deletion of a free slot changes nothing.
  pub p_entry_delete_missing :
      has i free ≡ true → p_entry_delete_by_index p i ≡ some (p_entry_itemnotfound, p)
  unfolding p_entry_delete_by_index
  p_entry_delete_missing h = rw (
    examine_checksum_lem p v.checked,
    check_exist_lem,
    get_slot_addr_lem i i-lt-slots,
    empty_of_has h,
  )

  module _ (out : has i free ≡ false) where
    record_num-deleted : (deleted p i).record_num + 1 ≡ p.record_num
    unfolding deleted free_entry
    record_num-deleted = omega (
      arith,
      v.count,
      length-lt _ i free v.below v.distinct inside out,
      get_max_entries-le p.data_width,
    )

    Linked-deleted : Linked (deleted p i).bytes (i ∷ free)
    Linked-deleted = (
      link_of_lem p (deleted p i).bytes i _ free (get_max_entries-le p.data_width) v.below v.head
          slot_at-deleted,
      Linked-frame p.bytes _ free v.linked (λ j m.
          slot_at-deleted_ne j (has-AllBelow _ j free v.below m)
            (λ e. cc (out, ap (λ k. has k free) e, m))),
    )

    seated-deleted :
        (j : ℕ)
        → j < get_max_entries p.data_width
        → has j (i ∷ free) ≡ false
        → is_slot_empty (slot_at (deleted p i).bytes j) ≡ false
    seated-deleted j h apart =
        rw (slot_at-deleted_ne j h (λ e. ground arith)) (v.seated j h (ground arith))

    -- A valid page stays valid when an entry is deleted; its slot is the first free one.
    pub deleted-IsValid : IsValid (deleted p i) (i ∷ free)
    unfolding deleted free_entry
    deleted-IsValid = record {
      checked = update_checksum_lem _;
      narrow = v.narrow;
      count = omega (arith, record_num-deleted, v.count);
      head = refl;
      distinct = (out, v.distinct);
      below = (inside, v.below);
      linked = Linked-deleted;
      seated = seated-deleted;
    }

    -- The deletion of an entry is accepted.
    pub p_entry_delete_seated : p_entry_delete_by_index p i ≡ some (p_entry_accept, deleted p i)
    unfolding p_entry_delete_by_index deleted free_entry
    p_entry_delete_seated = rw (
      examine_checksum_lem p v.checked,
      check_exist_lem,
      get_slot_addr_lem i i-lt-slots,
      v.seated i inside out,
    )
