-- ===== src/Table/Drop.antt =====
-- src/interface/interface.c: `db_1_tdelete`. Each loop gets as many rounds as there is fuel.
use dsm_db.Shared.{
  ℕ, zero, suc, ◌+◌, Bool, true, false, ltb, ◌==◌, Option, some, none, List, [], ◌∷◌, if◌then◌else◌,
  ◌>>=◌,
}
use dsm_db.Shared.Memory.{load32}
use dsm_db.Disk.{Storage}
use dsm_db.Page.{Page, p_entry_read_by_index, page_id_null}
use dsm_db.Pool.Pages.{PoolMg, general, page_gtype_bit}
use dsm_db.Pool.Calls.{mp_page_open, mp_page_ddelete}
use dsm_db.Table.{attrsize, opens, remove_table_from_pdir}
use dsm_db.Table.Create.{Db, Name, same_name, open_table}

-- `djb2_pop`
unfoldable pub close_table : List (Name × ℕ) → Name → List (Name × ℕ)
close_table [] name = []
close_table ((n, b) ∷ ts) name = if same_name n name then ts else (n, b) ∷ close_table ts name

module _ {File : Type 0} (s : Storage File Page) (fuel : ℕ) where
  -- The data pages that the attribute page of the block `b` lists, from the slot `h` on.
  unfoldable pub delete_data : ℕ → ℕ → ℕ → PoolMg File → ℕ → Option (PoolMg File)
  delete_data zero h entry pm b = none
  delete_data (suc f) h entry pm b = do
    let skip = delete_data f (h + 1) entry pm b
    let rest = λ (pm' : PoolMg File). delete_data f (h + 1) (entry + 1) pm' b
    let delete = (do
      tmp ← p_entry_read_by_index (pm.page b) h
      elim tmp [
        | none ↦ skip
        | some at ↦ (do pm' ← mp_page_ddelete s pm (load32 (pm.page b).bytes at) general; rest pm')
      ])
    if ltb entry (pm.page b).record_num then delete else some pm

  -- The attribute pages, from that of the block `b` on. The link to the next one is read from the
  -- block once its page is deleted.
  unfoldable pub delete_attr : ℕ → PoolMg File → ℕ → Option (PoolMg File)
  delete_attr zero pm b = none
  delete_attr (suc f) pm b = do
    pm1 ← delete_data fuel 0 0 pm b
    pm2 ← mp_page_ddelete s pm1 (pm1.page b).page_id general
    let next = (pm2.page b).next_page_id
    let onward = (do (b', pm3) ← opens s fuel pm2 next; delete_attr f pm3 b')
    if next == page_id_null then some pm2 else onward

  -- The entries of the table's page: the first is for the info page, the others for attributes.
  unfoldable pub delete_entries : ℕ → ℕ → ℕ → PoolMg File → ℕ → Option (PoolMg File)
  delete_entries zero i entry pm root = none
  delete_entries (suc f) i entry pm root = do
    let skip = delete_entries f (i + 1) entry pm root
    let rest = λ (pm' : PoolMg File). delete_entries f (i + 1) (entry + 1) pm' root
    let delete = (do
      tmp ← p_entry_read_by_index (pm.page root) i
      elim tmp [
        | none ↦ skip
        | some at ↦ (do
          let attr_pid = load32 (pm.page root).bytes (at + attrsize)
          let info = mp_page_ddelete s pm attr_pid general
          let attr = (do (b, pm1) ← opens s fuel pm attr_pid; delete_attr fuel pm1 b)
          pm' ← (if i == 0 then info else attr)
          rest pm')
      ])
    if ltb entry (pm.page root).record_num then delete else some pm

  unfoldable pub db_1_tdelete : Db File → Name → Option (Bool × Db File)
  db_1_tdelete db tname = do
    (r, pm) ← remove_table_from_pdir s fuel db.pool tname
    let drop = λ (root : ℕ) (pm1 : PoolMg File). do
      pm2 ← delete_entries fuel 0 0 pm1 root
      pm3 ← mp_page_ddelete s pm2 (pm2.page root).page_id general
      some (true, record { pool = pm3; hash_table = close_table db.hash_table tname })
    let loaded = λ (tid : ℕ). do
      (opened, pm1) ← mp_page_open s fuel pm tid page_gtype_bit
      elim opened [ none ↦ some (false, record db { pool = pm1 }) | some root ↦ drop root pm1 ]
    elim r [
      | none ↦ some (false, record db { pool = pm })
      | some tid ↦ (elim (open_table db.hash_table tname) [
        | some root ↦ drop root pm
        | none ↦ loaded tid
      ])
    ]
