-- ===== src/Table/Tests.antt =====
-- The theorems on tables at inputs that meet their conditions: a pool over a file that is a function
-- from offsets to pages, with one table in its directory.
use dsm_db.Shared.{◌≡◌, refl, false, some, ◌==◌, if◌then◌else◌, [], ◌∷◌, ◌>>=◌, range_from, arith}
use dsm_db.Shared.Memory.{load32, load16}
use dsm_db.Disk.{Storage}
use dsm_db.Pool.Starting.{
  entries_at_start, free_at_start, hooked, push_info-IsPool, info_page_lem, store_page_lem,
}
use dsm_db.Page.{
  page_id_null, get_max_entries, page_init, p_entry_set_pagetype, Page, p_entry_read_by_index,
  get_slot_addr, is_slot_empty,
}
use dsm_db.Pool.Table.{node_of}
use dsm_db.Table.Drop.{delete_data, delete_attr}
use dsm_db.Table.Wiped.{delete_attr-wiped}
use dsm_db.Pool.Pages.{PoolMg, zero_page, general}
use dsm_db.Pool.Calls.{mp_page_ddelete}
use dsm_db.Pool.Info.{blank_pool, dir_page, push_info}
use dsm_db.Protocol.{codes}
use dsm_db.Table.{insert_table_in_pdir, search_table_from_pdir, text_bytes, opens}
use dsm_db.Table.Entered.{search_table_from_pdir-insert_table_in_pdir}
use dsm_db.Page.Init.{page_init-IsValid}
use dsm_db.Page.Valid.{IsValid, update_checksum_lem}
use dsm_db.Table.Create.{Db, db_1_tcreate}
use dsm_db.Table.Prefix.{search_table_from_pdir-prefix}

abbrev File : Type 0
File = Unit

-- A disk that is never used here.
abbrev idle : Storage File Page
idle = record {
  page_id_of = λ p. p.page_id;
  read_page = λ f o y. (4096, y);
  write_page = λ f o x. (4096, f);
}

-- The slot 0, at 4062, is seated, and its entry begins with "goods", which is longer than "go".
abbrev directory : Page
directory = record zero_page {
  record_num = 1;
  data_width = 32;
  bytes = λ j. if j == 4063 then 64 else if j == 28 then 9 else text_bytes (codes "goods") j;
}

abbrev one_table : Db File
one_table = record {
  pool = record (blank_pool (λ _. zero_page) 0 tt) { page = λ _. directory };
  hash_table = [];
}

search_table_from_pdir-prefix_example :
    (search_table_from_pdir idle 1 one_table.pool (codes "go")
      ≡ some (some (1, load32 directory.bytes 28), one_table.pool))
    × (db_1_tcreate idle 1 one_table (codes "go") [] ≡ some (false, one_table))
unfolding p_entry_read_by_index get_slot_addr is_slot_empty load16
search_table_from_pdir-prefix_example =
    search_table_from_pdir-prefix idle 0 one_table (codes "go") (codes "ods") [] 0 0 (omega arith)
      (omega arith) (λ j h. absurd (omega arith)) refl (refl, (refl, (refl, (refl, (refl, tt)))))

-- A pool over a new file, whose directory page is taken for an attribute page without entries.
abbrev begun : PoolMg File
begun = push_info idle (hooked idle (λ _. zero_page) 0 tt info_page_lem.0 store_page_lem.0)

delete_attr-wiped_example :
    (pm' : PoolMg File) × (mp_page_ddelete idle begun 1 general ≡ some pm')
    × (delete_attr idle 1 2 begun 1
        ≡ ◌>>=◌ (opens idle 1 pm' 0) (λ r. delete_attr idle 1 1 r.1 r.0))
unfolding push_info delete_data p_entry_set_pagetype page_init
delete_attr-wiped_example =
    delete_attr-wiped idle entries_at_start begun free_at_start
      (push_info-IsPool idle (λ _. zero_page) 0 tt info_page_lem.0 store_page_lem.0) 1 2
      (page_id_null ∷ []) refl (λ e. cc e) (omega arith) store_page_lem.2 (omega arith)
      (omega arith) begun 1 1 refl

-- The first page of the directory is valid at the start.
dir_page-IsValid : IsValid dir_page (range_from 0 119)
unfolding p_entry_set_pagetype page_init get_max_entries
dir_page-IsValid =
    let v : IsValid (page_init 32 1 page_id_null) (range_from 0 119) =
      page_init-IsValid 32 1 page_id_null (omega arith) in
    record {
      checked = update_checksum_lem _;
      narrow = v.narrow;
      count = v.count;
      head = v.head;
      distinct = v.distinct;
      below = v.below;
      linked = v.linked;
      seated = v.seated;
    }

search_table_from_pdir-insert_table_in_pdir_example :
    (pm' : PoolMg File) × (insert_table_in_pdir idle 1 begun (codes "goods") 9 ≡ some pm')
    × (search_table_from_pdir idle 2 pm' (codes "goods") ≡ some (some (1, 9), pm'))
unfolding push_info p_entry_set_pagetype page_init node_of
search_table_from_pdir-insert_table_in_pdir_example =
    search_table_from_pdir-insert_table_in_pdir idle 1 0 9 begun (codes "goods") refl refl
      dir_page-IsValid refl (omega arith) (omega arith) (omega arith) (λ j h. absurd (omega arith))
