-- ===== src/Table/Entered.antt =====
-- src/interface/interface.c: a table that `insert_table_in_pdir` enters in the first page of the
-- directory is found by `search_table_from_pdir`.
use dsm_db.Shared.{
  ℕ, suc, ◌+◌, ◌-◌, ◌*◌, ◌^◌, ◌≤◌, ◌<◌, ◌≡◌, refl, sym, ap, subst, ◌∙◌, true, false, ltb, ◌==◌,
  Option, some, [], ◌∷◌, length, append_nil, has, range_from, has-range_from_below,
  length-range_from, inr, arith,
}
use dsm_db.Shared.Memory.{Bytes, load32, load32_lem, word_bytes, memcpy, memcpy_at, memcpy_ne}
use dsm_db.Disk.{Storage}
use dsm_db.Page.{Page, p_entry_pagefull, get_max_entries, p_entry_insert, p_entry_read_by_index}
use dsm_db.Page.Valid.{IsValid}
use dsm_db.Page.Insert.{
  inserted, inserted-IsValid, p_entry_insert_free, bytes-inserted, bytes-inserted_ne,
  width-inserted,
}
use dsm_db.Page.Access.{p_entry_read_lem}
use dsm_db.Pool.Table.{node_of, reference_add}
use dsm_db.Pool.Pages.{PoolMg, set_flags, page_gtype_bit}
use dsm_db.Pool.Calls.{mp_page_open}
use dsm_db.Pool.Cache.{node}
use dsm_db.Pool.Loading.{open_in_pool}
use dsm_db.Pool.Info.{bdirty, pagedirentrysize}
use dsm_db.Table.{
  attrsize, tableattrslimit, text_bytes, strcmp, entry_buf, put_page, opens, insert_table_in_pdir,
  at_entry, search_slots, search_pages, search_table_from_pdir,
}
use dsm_db.Table.Create.{Name}
use dsm_db.Table.Prefix.{HoldsText, strcmp-prefix, Passed, search_slots_lem}

-- The slots of a page of the directory.
abbrev pub slots : ℕ
slots = 119

strcmp-same :
    (name : Name) (m m' : Bytes) (at : ℕ)
    → ((k : ℕ) → k < length name → m' (at + k) ≡ m (at + k))
    → strcmp name m' at ≡ strcmp name m at
unfolding strcmp
strcmp-same [] m m' at same = refl
strcmp-same (c ∷ cs) m m' at same =
    let zeroth : at + 0 ≡ at = omega arith in
    let first : m' at ≡ m at = ap m' (sym zeroth) ∙ same 0 (omega arith) ∙ ap m zeroth in
    let rest : strcmp cs m' (at + 1) ≡ strcmp cs m (at + 1) = strcmp-same cs m m' (at + 1) (λ k h.
      let next : at + 1 + k ≡ at + suc k = omega arith in
      ap m' next ∙ same (suc k) (omega arith) ∙ ap m (sym next)) in
    rw (first, rest) refl

-- The name is where it was copied.
HoldsText-copied :
    (name : Name) (m : Bytes) (at : ℕ)
    → ((k : ℕ) → k < length name → m (at + k) ≡ text_bytes name k)
    → HoldsText m at name
HoldsText-copied [] m at same = tt
HoldsText-copied (c ∷ cs) m at same =
    let zeroth : at ≡ at + 0 = omega arith in
    (
      ap m zeroth ∙ same 0 (omega arith),
      HoldsText-copied cs m (at + 1) (λ k h.
          let next : at + 1 + k ≡ at + suc k = omega arith in
          ap m next ∙ same (suc k) (omega arith)),
    )

-- The buffer of an entry.
abbrev buffer : Name → ℕ → Bytes
buffer name id = memcpy (text_bytes name) attrsize (word_bytes id) 4

entry_buf_lem :
    (name : Name) (id : ℕ) → length name ≤ attrsize → entry_buf name id ≡ some (buffer name id)
unfolding entry_buf
entry_buf_lem name id short =
    let e : ltb pagedirentrysize (length name) ≡ false = ground arith in rw e refl

module _ (p : Page) (n id : ℕ) (name : Name) (v : IsValid p (range_from n (suc (118 - n))))
    (wide : p.data_width ≡ pagedirentrysize) (left : n < 118) (short : length name ≤ attrsize)
    (small : id < 2 ^ 32) where
  item : Option Bytes
  item = some (buffer name id)

  entered : Page
  unfolding item
  entered = inserted p n item pagedirentrysize

  fits : pagedirentrysize ≤ p.data_width
  fits = omega (arith, wide)

  max_slots : get_max_entries p.data_width ≡ slots
  unfolding get_max_entries
  max_slots = rw wide refl

  bytes-entered : (k : ℕ) → k < pagedirentrysize → entered.bytes (n * 32 + k) ≡ buffer name id k
  unfolding entered item
  bytes-entered k h =
      ap (λ d. entered.bytes (n * d + k)) (sym wide)
      ∙ bytes-inserted p n (range_from (suc n) (118 - n)) (buffer name id) pagedirentrysize k v fits
          h

  bytes-before : (j k : ℕ) → j < n → k < 32 → entered.bytes (j * 32 + k) ≡ p.bytes (j * 32 + k)
  unfolding entered item
  bytes-before j k hj hk =
      subst (λ d. entered.bytes (j * d + k) ≡ p.bytes (j * d + k)) wide
        (bytes-inserted_ne p n (range_from (suc n) (118 - n)) (some (buffer name id))
          pagedirentrysize v fits j k (omega (arith, max_slots)) (omega arith)
          (omega (arith, wide)))

  entered-IsValid : IsValid entered (range_from (suc n) (118 - n))
  unfolding entered item
  entered-IsValid =
      inserted-IsValid p n (range_from (suc n) (118 - n)) (some (buffer name id)) pagedirentrysize v
        fits

  wide-entered : entered.data_width ≡ pagedirentrysize
  unfolding entered
  wide-entered = width-inserted p n item pagedirentrysize ∙ wide

  max_entered : get_max_entries entered.data_width ≡ slots
  max_entered = ap get_max_entries (wide-entered ∙ sym wide) ∙ max_slots

  inside : n < entered.record_num
  inside = omega (arith, entered-IsValid.count, max_entered, length-range_from (suc n) (118 - n))

  reads : (j : ℕ) → j ≤ n → p_entry_read_by_index entered j ≡ some (some (j * pagedirentrysize))
  reads j h =
      let seated : has j (range_from (suc n) (118 - n)) ≡ false =
        has-range_from_below j (suc n) (118 - n) (omega arith) in
      p_entry_read_lem entered (range_from (suc n) (118 - n)) j entered-IsValid
        (omega (arith, max_entered))
      ∙ rw seated (ap (λ d. some (some (j * d))) wide-entered)

  buffer-name : (k : ℕ) → k < length name → buffer name id k ≡ text_bytes name k
  buffer-name k h = memcpy_ne (text_bytes name) attrsize (word_bytes id) 4 k (inr (omega arith))

  -- The entry holds the name and the id.
  holds : strcmp name entered.bytes (n * pagedirentrysize) ≡ true
  holds = strcmp-prefix name [] entered.bytes (n * pagedirentrysize) (
      subst (HoldsText entered.bytes (n * pagedirentrysize)) (sym (append_nil name)) (
        HoldsText-copied name entered.bytes (n * pagedirentrysize)
          (λ k h. bytes-entered k (omega arith) ∙ buffer-name k h)))

  holds_id : load32 entered.bytes (n * pagedirentrysize + attrsize) ≡ id
  holds_id = load32_lem entered.bytes (n * pagedirentrysize + attrsize) id small (λ k h.
      let at : n * pagedirentrysize + attrsize + k ≡ n * 32 + (attrsize + k) = omega arith in
      ap entered.bytes at
      ∙ bytes-entered (attrsize + k) (omega arith)
      ∙ memcpy_at (text_bytes name) attrsize (word_bytes id) 4 k h)

  module _ (new : (j : ℕ) → j < n → strcmp name p.bytes (j * pagedirentrysize) ≡ false) where
    passed : (j : ℕ) → j < n → Passed entered name j
    passed j h = (
      j * pagedirentrysize,
      reads j (omega arith),
      strcmp-same name p.bytes entered.bytes (j * pagedirentrysize)
            (λ k l. bytes-before j k h (omega arith))
          ∙ new j h,
    )

    finds : search_slots tableattrslimit 0 0 entered name ≡ some (at_entry n (n * pagedirentrysize))
    finds =
        search_slots_lem entered name n (n * pagedirentrysize) inside passed (reads n (omega arith))
          holds n tableattrslimit 0 (omega arith) left

-- The first page of the directory is in its block and the last of the directory, is valid, and has
-- `n` < 118 entries in its first slots, none of which begins with the name, which has at most 28
-- characters. Then the insertion of the name with an id of 32 bits returns, and a search for the
-- name gives that page and the id, and changes nothing.
pub search_table_from_pdir-insert_table_in_pdir :
    {File : Type 0} (s : Storage File Page) (fuel n id : ℕ) (pm : PoolMg File) (name : Name)
    → pm.page_dir_tail ≡ 1
    → node_of pm.gpt.glist 1 ≡ some (node (1, 1))
    → IsValid (pm.page 1) (range_from n (suc (118 - n)))
    → (pm.page 1).data_width ≡ pagedirentrysize
    → n < 118
    → length name ≤ attrsize
    → id < 2 ^ 32
    → ((j : ℕ) → j < n → strcmp name (pm.page 1).bytes (j * pagedirentrysize) ≡ false)
    → (pm' : PoolMg File) × (insert_table_in_pdir s fuel pm name id ≡ some pm')
      × (search_table_from_pdir s (suc fuel) pm' name ≡ some (some (1, id), pm'))
unfolding insert_table_in_pdir opens search_pages entered item
search_table_from_pdir-insert_table_in_pdir {File = File} s fuel n id pm name tail known v wide left
      short small new =
    let p : Page = entered (pm.page 1) n id name v wide left short small in
    let there : PoolMg File = record pm { gpt = reference_add pm.gpt 1 } in
    let takes : mp_page_open s fuel pm pm.page_dir_tail page_gtype_bit ≡ some (some 1, there) =
      ap (λ t. mp_page_open s fuel pm t page_gtype_bit) tail
      ∙ open_in_pool s fuel pm 1 page_gtype_bit 1 known in
    let inserts : p_entry_insert (pm.page 1) (some (buffer name id)) pagedirentrysize
        ≡ some (n, p) =
      p_entry_insert_free (pm.page 1) n (range_from (suc n) (118 - n)) (some (buffer name id))
        pagedirentrysize v (omega (arith, wide)) in
    let free : (n == p_entry_pagefull) ≡ false = ground arith in
    let found : search_slots tableattrslimit 0 0 p name ≡ some (at_entry n (n * pagedirentrysize)) =
      finds (pm.page 1) n id name v wide left short small new in
    let is : load32 p.bytes (n * pagedirentrysize + attrsize) ≡ id =
      holds_id (pm.page 1) n id name v wide left short small in
    (
      set_flags (put_page there 1 p) 1 bdirty,
      rw (entry_buf_lem name id short, takes, inserts, free) refl,
      rw (found, is) refl,
    )
