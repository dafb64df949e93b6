-- ===== src/Page/Tests.antt =====
-- Pages with two slots of 2030 bytes: runs, and the theorems at inputs that meet their conditions.
use dsm_db.Shared.{ℕ, ◌+◌, ◌*◌, ◌≡◌, ◌≢◌, refl, some, none, Option, List, [], ◌∷◌, arith}
use dsm_db.Shared.Memory.{Bytes, load16, store16, memcpy}
use dsm_db.Page.{
  Page, p_entry_pagefull, p_entry_accept, p_entry_itemnotfound, p_entry_checksumerror, page_init,
  get_max_entries, link_slots, calculate_checksum, examine_checksum, xor_words, is_page_full,
  get_slot_addr, set_slot_seat, set_slot_unseat, set_slot_null, get_slot_value, is_slot_empty,
  put_item, seat_entry, free_entry, p_entry_insert, p_entry_check_exist_by_index,
  p_entry_delete_by_index, p_entry_update_by_index, p_entry_read_by_index, p_is_entry_nullable,
  p_entry_set_nextpid, p_entry_set_width,
}
use dsm_db.Page.Valid.{IsValid}
use dsm_db.Page.Init.{page_init-IsValid}
use dsm_db.Page.Insert.{inserted, inserted-IsValid}
use dsm_db.Page.Checksum.{corrupted_refused}
use dsm_db.Page.Store.{
  Store, Request, insert, delete, serve_all, serve_page_all, serve, serve_page, Represents,
  serve_page_all_refines, page_init-Represents,
}

-- All that a run of a page computes with.
program : Unit {0}
unfolding page_init get_max_entries link_slots examine_checksum calculate_checksum xor_words
    is_page_full get_slot_addr set_slot_seat set_slot_unseat set_slot_null get_slot_value
    is_slot_empty put_item seat_entry free_entry p_entry_insert p_entry_check_exist_by_index
    p_entry_delete_by_index p_entry_update_by_index p_entry_read_by_index p_is_entry_nullable load16
    store16 memcpy serve serve_all serve_page serve_page_all
program = tt

abbrev fresh : Page
fresh = page_init 2030 7 9

abbrev fresh_store : Store
fresh_store = record { free = 0 ∷ 1 ∷ []; entry = λ _ _. 0 }

abbrev letters : Bytes
letters k = 65 + k

abbrev script : List Request
script =
    insert letters ∷ insert letters ∷ insert letters ∷ delete 0 ∷ delete 0 ∷ insert letters ∷ []

fresh_two : get_max_entries 2030 ≡ 2
unfolding get_max_entries
fresh_two = refl

-- The third insertion finds the page full, and the slot that is freed is taken again.
script_answers :
    (serve_all fresh_store script).0
    ≡ 0 ∷ 1 ∷ p_entry_pagefull ∷ p_entry_accept ∷ p_entry_itemnotfound ∷ 0 ∷ []
unfolding program
script_answers = refl

abbrev answers_of : Option (List ℕ × Page) → List ℕ
answers_of none = []
answers_of (some (as', p)) = as'

page_answers :
    answers_of (serve_page_all fresh script)
    ≡ 0 ∷ 1 ∷ p_entry_pagefull ∷ p_entry_accept ∷ p_entry_itemnotfound ∷ 0 ∷ []
unfolding program
page_answers = refl

fresh-IsValid : IsValid fresh (0 ∷ 1 ∷ [])
unfolding get_max_entries
fresh-IsValid = page_init-IsValid 2030 7 9 (omega arith)

fresh-Represents : Represents fresh fresh_store
unfolding get_max_entries
fresh-Represents = page_init-Represents 2030 7 9 (λ _ _. 0) (omega arith)

serve_page_all_refines_example :
    (p' : Page) × (serve_page_all fresh script ≡ some ((serve_all fresh_store script).0, p'))
    × Represents p' (serve_all fresh_store script).1
unfolding page_init get_max_entries
serve_page_all_refines_example =
    serve_page_all_refines fresh fresh_store script fresh-Represents (omega arith)

abbrev one_left : Page
one_left = inserted fresh 0 (some letters) 26

one_left-IsValid : IsValid one_left (1 ∷ [])
unfolding page_init
one_left-IsValid = inserted-IsValid fresh 0 (1 ∷ []) (some letters) 26 fresh-IsValid (omega arith)

abbrev corrupted : Page
corrupted = record fresh { bytes = store16 fresh.bytes (2 * 100) 0xbeef }

corrupted_refused_example :
    (p_entry_insert corrupted (some letters) 4 ≡ some (p_entry_checksumerror, corrupted))
    × (p_entry_delete_by_index corrupted 0 ≡ some (p_entry_checksumerror, corrupted))
    × (p_entry_update_by_index corrupted letters 0 ≡ some (p_entry_checksumerror, corrupted))
    × (p_entry_set_nextpid corrupted 3 ≡ (p_entry_checksumerror, corrupted))
    × (p_entry_set_width corrupted 16 ≡ (p_entry_checksumerror, corrupted))
corrupted_refused_example =
    corrupted_refused fresh 100 0xbeef letters 0 4 3 16 fresh-IsValid.checked (omega arith)
      (omega arith) ne room
  where
    ne : 0xbeef ≢ load16 fresh.bytes (2 * 100)
    ne = unfold program in omega arith

    room : fresh.free_slot_offset ≢ p_entry_pagefull
    room = unfold program in omega arith
