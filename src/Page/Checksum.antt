-- ===== src/Page/Checksum.antt =====
-- src/disk/page.c: what the checksum detects, and that every operation refuses a page on which it
-- does not match.
use dsm_db.Shared.{
  ℕ, zero, suc, ◌*◌, ◌≤◌, ◌<◌, ◌≡◌, ◌≢◌, inl, inr, refl, sym, ◌∙◌, true, false, Option, some, ◌==◌,
  arith, Bool-cases, ==_iff,
}
use dsm_db.Shared.Memory.{Bytes, load16, store16, load16-store16, load16-store16_ne}
use dsm_db.Shared.Xor.{bit_xor_cancel_left, bit_xor_cancel_right}
use dsm_db.Page.{
  Page, pageisfull, p_entry_checksumerror, xor_words, calculate_checksum, examine_checksum,
  p_entry_insert, p_entry_delete_by_index, p_entry_update_by_index, p_entry_set_nextpid,
  p_entry_set_width,
}

xor_words-store16_above :
    (n k v w : ℕ) (m : Bytes) → n ≤ k → xor_words n (store16 m (2 * k) w) v ≡ xor_words n m v
unfolding xor_words
xor_words-store16_above zero k v w m h = refl
xor_words-store16_above (suc n) k v w m h =
    rw
      (
        xor_words-store16_above n k v w m (omega arith),
        load16-store16_ne m (2 * k) (2 * n) w (omega arith),
      )
      refl

xor_words-store16_last :
    (n v w : ℕ) (m : Bytes)
    → w < 65536
    → xor_words (suc n) (store16 m (2 * n) w) v ≡ xor_words (suc n) m v
    → w ≡ load16 m (2 * n)
unfolding xor_words
xor_words-store16_last n v w m lt e =
    sym (load16-store16 m (2 * n) w lt)
    ∙ bit_xor_cancel_left (xor_words n m v) _ _
        (rw (xor_words-store16_above n n v w m (omega arith)) at e)

-- Two memories that differ in one word have different sums.
xor_words-store16 :
    (n k v w : ℕ) (m : Bytes)
    → k < n
    → w < 65536
    → xor_words n (store16 m (2 * k) w) v ≡ xor_words n m v
    → w ≡ load16 m (2 * k)
unfolding xor_words
xor_words-store16 zero k v w m h lt e = absurd (omega arith)
xor_words-store16 (suc n) k v w m h lt e = elim (Bool-cases (k == n)) [
  | inl same ↦
      let at_n : k ≡ n = ground arith in rw at_n (xor_words-store16_last n v w m lt (rw at_n at e))
  | inr other ↦ xor_words-store16 n k v w m (ground arith) lt (
      bit_xor_cancel_right _ _ (load16 m (2 * n))
        (rw (load16-store16_ne m (2 * k) (2 * n) w (ground arith)) at e))
]

calculate_checksum-store16 :
    (p : Page) (k w : ℕ)
    → k < 2032
    → w < 65536
    → calculate_checksum (record p { bytes = store16 p.bytes (2 * k) w }) ≡ calculate_checksum p
    → w ≡ load16 p.bytes (2 * k)
unfolding calculate_checksum
calculate_checksum-store16 p k w h lt e = xor_words-store16 2032 k _ w p.bytes h lt e

-- One wrong word in the data area is detected.
pub examine_checksum_detects :
    (p : Page) (k w : ℕ)
    → p.checksum ≡ calculate_checksum p
    → k < 2032
    → w < 65536
    → w ≢ load16 p.bytes (2 * k)
    → examine_checksum (record p { bytes = store16 p.bytes (2 * k) w }) ≡ false
unfolding examine_checksum
examine_checksum_detects p k w checked h lt ne = elim (Bool-cases (examine_checksum changed)) [
  | inr e ↦ e
  | inl e ↦ absurd (ne (calculate_checksum-store16 p k w h lt (sym (same e) ∙ checked)))
]
  where
    changed : Page
    changed = record p { bytes = store16 p.bytes (2 * k) w }

    same : examine_checksum changed ≡ true → p.checksum ≡ calculate_checksum changed
    same e = (==_iff _ _).0 e

module _ (p : Page) (bad : examine_checksum p ≡ false) where
  -- No entry is written, freed or changed on a page whose checksum does not match.
  pub p_entry_insert_refused :
      (item : Option Bytes) (len : ℕ)
      → p.free_slot_offset ≢ pageisfull
      → p_entry_insert p item len ≡ some (p_entry_checksumerror, p)
  unfolding p_entry_insert
  p_entry_insert_refused item len room = rw (not_full, bad)
    where
      not_full : (p.free_slot_offset == pageisfull) ≡ false
      not_full = ground arith

  pub p_entry_change_refused :
      (item : Bytes) (index id width : ℕ)
      → (p_entry_delete_by_index p index ≡ some (p_entry_checksumerror, p))
        × (p_entry_update_by_index p item index ≡ some (p_entry_checksumerror, p))
        × (p_entry_set_nextpid p id ≡ (p_entry_checksumerror, p))
        × (p_entry_set_width p width ≡ (p_entry_checksumerror, p))
  unfolding p_entry_delete_by_index p_entry_update_by_index p_entry_set_nextpid p_entry_set_width
  p_entry_change_refused item index id width = (rw bad, rw bad, rw bad, rw bad)

-- If one 16-bit word of the data area of a page with a right checksum is changed, then deletion,
-- update and the two checked setters answer with the checksum error and leave the page alone, and
-- so does an insertion, unless the page is marked full.
pub corrupted_refused :
    (p : Page) (k w : ℕ) (item : Bytes) (index len id width : ℕ)
    → p.checksum ≡ calculate_checksum p
    → k < 2032
    → w < 65536
    → w ≢ load16 p.bytes (2 * k)
    → p.free_slot_offset ≢ pageisfull
    → let q : Page = record p { bytes = store16 p.bytes (2 * k) w } in
      (p_entry_insert q (some item) len ≡ some (p_entry_checksumerror, q))
      × (p_entry_delete_by_index q index ≡ some (p_entry_checksumerror, q))
      × (p_entry_update_by_index q item index ≡ some (p_entry_checksumerror, q))
      × (p_entry_set_nextpid q id ≡ (p_entry_checksumerror, q))
      × (p_entry_set_width q width ≡ (p_entry_checksumerror, q))
corrupted_refused p k w item index len id width checked h lt ne room =
    let q : Page = record p { bytes = store16 p.bytes (2 * k) w } in
    let bad = examine_checksum_detects p k w checked h lt ne in
    let (a, b, c, d) = p_entry_change_refused q bad item index id width in
    (p_entry_insert_refused q bad (some item) len room, a, b, c, d)
