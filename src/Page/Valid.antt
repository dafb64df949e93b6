-- ===== src/Page/Valid.antt =====
-- src/disk/page.c: what holds of a page between two operations, with its free list as a list of
-- slot numbers, and what a change of the data area leaves alone.
use dsm_db.Shared.{
  ℕ, ◌+◌, ◌*◌, ◌≤◌, ◌<◌, ◌≡◌, ◌≢◌, refl, true, false, some, List, [], ◌∷◌, ltb, length, has,
  IsDistinct, AllBelow, arith,
}
use dsm_db.Shared.Memory.{Bytes, load16, store16, memcpy, load16-store16_ne, load16-memcpy}
use dsm_db.Page.{
  Page, entry_limit, pageisfull, get_max_entries, slot_offset, is_slot_empty, get_slot_addr,
  calculate_checksum, examine_checksum, update_checksum, is_page_full,
}
use dsm_db.Page.Bits.{entry-le-slot}

abbrev pub slot_at : Bytes → ℕ → ℕ
slot_at m i = load16 m (slot_offset i)

-- The value of `free_slot_offset` for a free list.
abbrev pub head_of : List ℕ → ℕ
head_of [] = pageisfull
head_of (x ∷ xs) = x

-- Each free slot holds the number of the next; the last may hold any small value.
abbrev pub LinksTo : Bytes → ℕ → List ℕ → Type 0
LinksTo m x [] = slot_at m x < 0x2000
LinksTo m x (y ∷ ys) = slot_at m x ≡ y

abbrev pub Linked : Bytes → List ℕ → Type 0
Linked m [] = Unit
Linked m (x ∷ xs) = LinksTo m x xs × Linked m xs

pub record IsValid (p : Page) (free : List ℕ) : Type 0 where
  pub checked : p.checksum ≡ calculate_checksum p
  pub narrow : p.data_width ≤ entry_limit
  pub count : p.record_num + length free ≡ get_max_entries p.data_width
  pub head : p.free_slot_offset ≡ head_of free
  pub distinct : IsDistinct free
  pub below : AllBelow (get_max_entries p.data_width) free
  pub linked : Linked p.bytes free
  pub seated :
      (i : ℕ)
      → i < get_max_entries p.data_width
      → has i free ≡ false
      → is_slot_empty (slot_at p.bytes i) ≡ false

-- The free list survives a change that leaves its slots alone.
pub Linked-frame :
    (m m' : Bytes) (xs : List ℕ)
    → Linked m xs
    → ((i : ℕ) → has i xs ≡ true → slot_at m' i ≡ slot_at m i)
    → Linked m' xs
Linked-frame m m' [] l same = tt
Linked-frame m m' (x ∷ []) l same = ground (arith, same x)
Linked-frame m m' (x ∷ y ∷ ys) l same =
    (ground (arith, same x), Linked-frame m m' (y ∷ ys) l.1 (λ i h. same i (ground arith)))

-- Every free slot holds a small value, so it is not seated.
pub Linked-small :
    (m : Bytes) (n i : ℕ) (xs : List ℕ)
    → n ≤ 2032
    → AllBelow n xs
    → Linked m xs
    → has i xs ≡ true
    → slot_at m i < 0x2000
Linked-small m n i [] le b l h = absurd (ground arith)
Linked-small m n i (x ∷ []) le b l h = ground arith
Linked-small m n i (x ∷ y ∷ ys) le b l h = ground (arith, Linked-small m n i (y ∷ ys) le b.1 l.1)

-- Other slots are not changed by a store to a slot, nor by a copy into an entry.
pub slot_at-store16 :
    (m : Bytes) (i j v : ℕ)
    → i < 2032
    → j < 2032
    → i ≢ j
    → slot_at (store16 m (slot_offset i) v) j ≡ slot_at m j
slot_at-store16 m i j v hi hj ne =
    load16-store16_ne m (slot_offset i) (slot_offset j) v (omega arith)

pub slot_at-memcpy :
    (m : Bytes) (w i j : ℕ) (item : Bytes) (len : ℕ)
    → i < get_max_entries w
    → j < get_max_entries w
    → len ≤ w
    → slot_at (memcpy m (i * w) item len) j ≡ slot_at m j
slot_at-memcpy m w i j item len hi hj le =
    load16-memcpy m (i * w) item len (slot_offset j) (omega (arith, entry-le-slot w i j hi hj))

-- Whether a page is full is told by its count of records.
pub is_page_full_lem :
    (p : Page) → is_page_full p ≡ ltb (get_max_entries p.data_width) (p.record_num + 1)
unfolding is_page_full get_max_entries
is_page_full_lem p = grind arith

pub get_slot_addr_lem : (i : ℕ) → i < 2032 → get_slot_addr i ≡ some (slot_offset i)
unfolding get_slot_addr
get_slot_addr_lem i h = ground arith

pub examine_checksum_lem :
    (p : Page) → p.checksum ≡ calculate_checksum p → examine_checksum p ≡ true
unfolding examine_checksum
examine_checksum_lem p h = ground arith

-- The checksum does not read the field that holds it.
pub update_checksum_lem :
    (p : Page) → (update_checksum p).checksum ≡ calculate_checksum (update_checksum p)
unfolding calculate_checksum
update_checksum_lem p = refl
