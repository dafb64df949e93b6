-- ===== src/Page/Init.antt =====
-- src/disk/page.c: `page_init`.
use dsm_db.Shared.{
  ℕ, zero, suc, ◌+◌, ◌-◌, ◌≤◌, ◌<◌, ◌≡◌, ◌≢◌, inl, inr, refl, sym, subst, ◌∙◌, ◌==◌, arith,
  Bool-cases, range_from, length-range_from, AllBelow-range_from, IsDistinct-range_from,
  has-range_from,
}
use dsm_db.Shared.Memory.{Bytes, load16, load16-store16}
use dsm_db.Page.{entry_limit, get_max_entries, slot_offset, link_slots, page_init}
use dsm_db.Page.Bits.{get_max_entries-le}
use dsm_db.Page.Valid.{IsValid, slot_at, head_of, Linked, slot_at-store16, update_checksum_lem}

abbrev zeros : Bytes
zeros _ = 0

slot_at-link_slots_above : (n i : ℕ) → n ≤ i → i < 2032 → slot_at (link_slots n zeros) i ≡ 0
unfolding link_slots load16
slot_at-link_slots_above zero i h le = refl
slot_at-link_slots_above (suc n) i h le =
    slot_at-store16 (link_slots n zeros) n i (n + 1) (omega arith) le (omega arith)
    ∙ slot_at-link_slots_above n i (omega arith) le

slot_at-link_slots : (n i : ℕ) → i < n → n ≤ 2032 → slot_at (link_slots n zeros) i ≡ i + 1
unfolding link_slots
slot_at-link_slots zero i h le = absurd (omega arith)
slot_at-link_slots (suc n) i h le = elim (Bool-cases (i == n)) [
  | inl e ↦
      let e' : i ≡ n = ground arith in
      rw e' (load16-store16 (link_slots n zeros) (slot_offset n) (n + 1) (omega arith))
  | inr e ↦
      let ne : n ≢ i = ground arith in
      slot_at-store16 (link_slots n zeros) n i (n + 1) (omega arith) (omega arith) ne
      ∙ slot_at-link_slots n i (ground arith) (omega arith)
]

-- All slots but the last are linked to the next one.
Linked-range_from :
    (n k r : ℕ)
    → k + suc r ≡ suc n
    → suc n ≤ 2032
    → Linked (link_slots n zeros) (range_from k (suc r))
Linked-range_from n k zero e le = (
  let e' : k ≡ n = omega arith in
      rw (e', slot_at-link_slots_above n n (omega arith) (omega arith)) (omega arith),
  tt,
)
Linked-range_from n k (suc r) e le = (
  slot_at-link_slots n k (omega arith) (omega arith) ∙ omega arith,
  Linked-range_from n (suc k) r (omega arith) le,
)

first_slots :
    (n : ℕ)
    → 0 < n
    → n ≤ 2032
    → (0 ≡ head_of (range_from 0 n)) × Linked (link_slots (n - 1) zeros) (range_from 0 n)
first_slots zero h le = absurd (omega arith)
first_slots (suc r) h le =
    let e : suc r - 1 ≡ r = omega arith in
    (
      refl,
      subst (λ k. Linked (link_slots k zeros) (range_from 0 (suc r))) (sym e)
          (Linked-range_from r 0 r (omega arith) le),
    )

get_max_entries-pos : (w : ℕ) → w ≤ entry_limit → 0 < get_max_entries w
unfolding get_max_entries
get_max_entries-pos w h = grind arith

-- A new page is valid, and all of its slots are free, in order.
pub page_init-IsValid :
    (width id next_id : ℕ)
    → width ≤ entry_limit
    → IsValid (page_init width id next_id) (range_from 0 (get_max_entries width))
unfolding page_init
page_init-IsValid width id next_id h = record {
  checked = update_checksum_lem _;
  narrow = h;
  count = omega (arith, length-range_from 0 (get_max_entries width));
  head = (first_slots _ (get_max_entries-pos width h) (get_max_entries-le width)).0;
  distinct = IsDistinct-range_from 0 (get_max_entries width);
  below = AllBelow-range_from 0 (get_max_entries width) _ (omega arith);
  linked = (first_slots _ (get_max_entries-pos width h) (get_max_entries-le width)).1;
  seated = λ i lt out. absurd (ground (arith, has-range_from i 0 (get_max_entries width)));
}
