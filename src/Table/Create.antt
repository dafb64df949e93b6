-- ===== src/Table/Create.antt =====
-- src/interface/interface.c: `db_create_table`, `table_record_update`, `db_1_topen` for
-- general tables, and `db_1_tcreate`.
use dsm_db.Shared.{
  ℕ, ◌+◌, ◌%◌, ◌^◌, Bool, true, false, ◌==◌, ◌&&◌, Option, some, none, List, [], ◌∷◌, length,
  if◌then◌else◌, ◌>>=◌,
}
use dsm_db.Shared.Memory.{load32, word_bytes, memcpy}
use dsm_db.Disk.{Storage}
use dsm_db.Page.{Page, p_entry_insert, p_entry_read_by_index, p_entry_update_by_index}
use dsm_db.Pool.Pages.{PoolMg, set_flags, page_gtype_bit}
use dsm_db.Pool.Calls.{mp_page_open}
use dsm_db.Pool.Info.{bdirty, pagedirentrysize, word_at}
use dsm_db.Protocol.{codes}
use dsm_db.Table.{
  attrsize, entry_buf, put_page, creates, insert_table_in_pdir, search_table_from_pdir,
}

-- TABLEPAGE, TABLEINFOPAGE, ATTRTPAGE and DATAPAGE
abbrev pub tablepage : ℕ
tablepage = 3

abbrev pub tableinfopage : ℕ
tableinfopage = 4

abbrev pub attrtpage : ℕ
attrtpage = 5

abbrev pub datapage : ℕ
datapage = 6

-- ATTRTABLEENTRYSIZE
abbrev pub attrtableentrysize : ℕ
attrtableentrysize = 6

-- RECORDNUM
abbrev pub recordnum : ℕ
recordnum = 1

-- TABLEINFOATTR
abbrev pub tableinfoattr : List ℕ
tableinfoattr = codes "table_info"

abbrev pub Name : Type 0
Name = List ℕ

-- The pool, and the names of the open tables with the blocks of their pages.
pub record Db (File : Type 0) : Type 0 where
  pub pool : PoolMg File
  pub hash_table : List (Name × ℕ)

abbrev pub same_name : Name → Name → Bool
same_name [] [] = true
same_name (a ∷ as') (b ∷ bs) = (a == b) && same_name as' bs
same_name [] (b ∷ bs) = false
same_name (a ∷ as') [] = false

-- `djb2_search`
unfoldable pub open_table : List (Name × ℕ) → Name → Option ℕ
open_table [] name = none
open_table ((n, b) ∷ ts) name = if same_name n name then some b else open_table ts name

-- An insertion into the page of a block, with the answer dropped.
unfoldable pub insert_in :
    {File : Type 0} → PoolMg File → ℕ → Option (ℕ → ℕ) → ℕ → Option (PoolMg File)
insert_in pm b item len = do (_, p) ← p_entry_insert (pm.page b) item len; some (put_page pm b p)

unfoldable pub insert_words : {File : Type 0} → PoolMg File → ℕ → List ℕ → Option (PoolMg File)
insert_words pm b [] = some pm
insert_words pm b (w ∷ ws) = do pm' ← insert_in pm b (some (word_bytes w)) 4; insert_words pm' b ws

module _ {File : Type 0} (s : Storage File Page) (fuel : ℕ) where
  -- One attribute: its table, an entry for it in the table's page, and its first data page.
  unfoldable pub create_attr : PoolMg File → ℕ → Name → ℕ → Option (PoolMg File)
  create_attr pm table attr type = do
    (attr_block, pm1) ← creates s fuel pm attrtpage attrtableentrysize
    let pm2 = set_flags pm1 attr_block bdirty
    buf ← entry_buf attr (pm2.page attr_block).page_id
    pm3 ← insert_in pm2 table (some buf) pagedirentrysize
    (data_block, pm4) ← creates s fuel pm3 datapage type
    let buf6 = memcpy (λ _. 0) 0 (word_bytes (pm4.page data_block).page_id) 4
    pm5 ← insert_in pm4 attr_block (some buf6) attrtableentrysize
    some (set_flags pm5 data_block bdirty)

  unfoldable pub create_attrs : PoolMg File → ℕ → List (Name × ℕ) → Option (PoolMg File)
  create_attrs pm table [] = some pm
  create_attrs pm table ((attr, type) ∷ rest) = do
    pm' ← create_attr pm table attr type
    create_attrs pm' table rest

  abbrev types_of : List (Name × ℕ) → List ℕ
  types_of [] = []
  types_of ((attr, type) ∷ rest) = type ∷ types_of rest

  unfoldable pub db_create_table : Db File → Name → List (Name × ℕ) → Option (Bool × Db File)
  db_create_table db name attrs = do
    (table, pm1) ← creates s fuel db.pool tablepage pagedirentrysize
    pm2 ← insert_table_in_pdir s fuel pm1 name (pm1.page table).page_id
    (info, pm3) ← creates s fuel pm2 tableinfopage 4
    buf ← entry_buf tableinfoattr (pm3.page info).page_id
    pm4 ← insert_in pm3 table (some buf) pagedirentrysize
    pm5 ← insert_words pm4 info (length attrs ∷ 0 ∷ 0 ∷ types_of attrs)
    pm6 ← create_attrs (set_flags pm5 info bdirty) table attrs
    some (
      true,
      record { pool = set_flags pm6 table bdirty; hash_table = (name, table) ∷ db.hash_table },
    )

  -- The record count of a table, with `var` added to it as a number of 32 bits.
  unfoldable pub table_record_update : PoolMg File → ℕ → ℕ → Option (Bool × PoolMg File)
  table_record_update pm root_table var = do
    found ← p_entry_read_by_index (pm.page root_table) 0
    tmp ← found
    let info_id = load32 (pm.page root_table).bytes (tmp + attrsize)
    (r, pm1) ← mp_page_open s fuel pm info_id page_gtype_bit
    let counted = λ (info : ℕ). do
      count ← word_at (pm1.page info) recordnum
      (_, p) ←
          p_entry_update_by_index (pm1.page info) (word_bytes ((count + var) % 2 ^ 32)) recordnum
      some (true, set_flags (put_page pm1 info p) info bdirty)
    elim r [ none ↦ some (false, pm1) | some info ↦ counted info ]

  -- A table that is not open is looked for in the directory.
  unfoldable pub db_1_topen : Db File → Name → Option (Option ℕ × Db File)
  db_1_topen db tname = do
    let searched = search_table_from_pdir s fuel db.pool tname
    let opened = (do
      (r, pm1) ← searched
      elim r [
        | none ↦ some (none, record db { pool = pm1 })
        | some (_, table_pid) ↦ (do
          (r', pm2) ← mp_page_open s fuel pm1 table_pid page_gtype_bit
          elim r' [
            | none ↦ some (none, record db { pool = pm2 })
            | some tblock ↦
                some
                  (some tblock, record { pool = pm2; hash_table = (tname, tblock) ∷ db.hash_table })
          ])
      ])
    elim (open_table db.hash_table tname) [ some b ↦ some (some b, db) | none ↦ opened ]

  unfoldable pub db_1_tcreate : Db File → Name → List (Name × ℕ) → Option (Bool × Db File)
  db_1_tcreate db tname attrs = do
    (pdir, pm) ← search_table_from_pdir s fuel db.pool tname
    let create = (do
      (created, db') ← db_create_table (record db { pool = pm }) tname attrs
      some (if created then false else true, db'))
    elim pdir [ some _ ↦ some (false, record db { pool = pm }) | none ↦ create ]
