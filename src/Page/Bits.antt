-- ===== src/Page/Bits.antt =====
-- src/disk/page.c: the bits of a slot, and the geometry of the data area.
use dsm_db.Shared.{ℕ, ◌+◌, ◌-◌, ◌*◌, ◌≤◌, ◌<◌, ◌≡◌, ◌≢◌, ◌⊎◌, inl, inr, true, false, arith}
use native.Mathlib.Decide.{dec_lt}
use dsm_db.Page.{
  get_max_entries, set_slot_null, set_slot_seat, get_slot_value, is_slot_empty, data_size,
}

-- Seating a slot sets the bit, and keeps the value.
pub set_slot_seat_lem :
    (s : ℕ)
    → s < 65536
    → (is_slot_empty (set_slot_seat s) ≡ false)
      × (get_slot_value (set_slot_seat s) ≡ get_slot_value s)
      × (set_slot_seat s < 65536)
unfolding set_slot_seat is_slot_empty get_slot_value
set_slot_seat_lem s h = ground arith

pub set_slot_null_lem :
    (s : ℕ)
    → s < 65536
    → (get_slot_value (set_slot_null s) ≡ get_slot_value s) × (set_slot_null s < 65536)
unfolding set_slot_null get_slot_value
set_slot_null_lem s h = ground arith

-- A slot below 0x2000 is not seated, and is its own value.
pub slot_of_small : (s : ℕ) → s < 0x2000 → (is_slot_empty s ≡ true) × (get_slot_value s ≡ s)
unfolding is_slot_empty get_slot_value
slot_of_small s h = ground arith

-- Entries and slots that are below the maximum fit in the data area, side by side.
pub entries_fit : (w n : ℕ) → n ≤ get_max_entries w → n * (w + 2) ≤ data_size
unfolding get_max_entries
entries_fit w n h = grind arith

pub entry-le-slot :
    (w i j : ℕ) → i < get_max_entries w → j < get_max_entries w → i * w + w ≤ 4062 - 2 * j
entry-le-slot w i j h k = grind (arith, entries_fit w (i + 1), entries_fit w (j + 1))

pub get_max_entries-le : (w : ℕ) → get_max_entries w ≤ 2032
unfolding get_max_entries
get_max_entries-le w = grind arith

-- Two entries do not overlap.
pub entries_apart :
    (w j f k len : ℕ) → j ≢ f → k < w → len ≤ w → (f * w + len ≤ j * w + k) ⊎ (j * w + k < f * w)
entries_apart w j f k len ne hk le = elim (dec_lt f j) [
  | yes h ↦ inl (grind arith)
  | no h ↦ let h' : j + 1 ≤ f = omega arith in inr (grind arith)
]
