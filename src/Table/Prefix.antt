-- ===== src/Table/Prefix.antt =====
-- src/interface/interface.c: which table `search_table_from_pdir` finds in the first page of the
-- directory.
use dsm_db.Shared.{
  ℕ, zero, suc, ◌+◌, ◌<◌, ◌≡◌, refl, ap, ◌∙◌, true, false, leb, ◌==◌, some, List, [], ◌∷◌, ◌++◌,
  arith,
}
use dsm_db.Shared.Memory.{Bytes, load32}
use dsm_db.Disk.{Storage}
use dsm_db.Page.{Page, p_entry_read_by_index}
use dsm_db.Table.{
  tableattrslimit, strcmp, at_entry, search_slots, search_pages, search_table_from_pdir,
}
use dsm_db.Table.Create.{Db, Name, db_1_tcreate}

-- An entry holds a text at an offset.
abbrev pub HoldsText : Bytes → ℕ → List ℕ → Type 0
HoldsText m at [] = Unit
HoldsText m at (c ∷ cs) = (m at ≡ c) × HoldsText m (at + 1) cs

-- A text is equal to every text that begins with it.
pub strcmp-prefix :
    (name more : List ℕ) (m : Bytes) (at : ℕ)
    → HoldsText m at (name ++ more)
    → strcmp name m at ≡ true
unfolding strcmp
strcmp-prefix [] more m at h = refl
strcmp-prefix (c ∷ cs) more m at h =
    let same : (c == m at) ≡ true = ground (arith, h.0) in
    rw same (strcmp-prefix cs more m (at + 1) h.1)

-- A slot holds an entry that the search passes by.
abbrev pub Passed : Page → Name → ℕ → Type 0
Passed p name j =
    (at : ℕ) × (p_entry_read_by_index p j ≡ some (some at)) × (strcmp name p.bytes at ≡ false)

module _ (p : Page) (name : Name) (i at : ℕ) (inside : i < p.record_num)
    (passed : (j : ℕ) → j < i → Passed p name j)
    (reads : p_entry_read_by_index p i ≡ some (some at)) (hit : strcmp name p.bytes at ≡ true) where
  pub search_slots_lem :
      (d k j : ℕ) → j + d ≡ i → d < k → search_slots k j j p name ≡ some (at_entry i at)
  unfolding search_slots
  search_slots_lem d zero j e h = absurd (omega arith)
  search_slots_lem zero (suc k) j e h =
      let here : j ≡ i = omega arith in
      let going : leb p.record_num j ≡ false = ground (arith, inside, here) in
      rw (ap (p_entry_read_by_index p) here ∙ reads, going, hit)
        (ap (λ n. some (at_entry n at)) here)
  search_slots_lem (suc d) (suc k) j e h =
      let (a, reads', miss) = passed j (omega arith) in
      let going : leb p.record_num j ≡ false = ground (arith, inside, e) in
      rw (reads', going, miss) (search_slots_lem d k (j + 1) (omega arith) (omega arith))

-- In the first page of the directory the slots below `i` hold tables that the name does not match,
-- and the slot `i`, one of the first 118 and as many as there are tables, a table whose name begins
-- with the name. Then this table is found, also if its name is longer, and no table of the name can
-- be made.
pub search_table_from_pdir-prefix :
    {File : Type 0} (s : Storage File Page) (fuel : ℕ) (db : Db File) (name more : Name)
    (attrs : List (Name × ℕ)) (i at : ℕ)
    → i < (db.pool.page 1).record_num
    → i < 118
    → ((j : ℕ) → j < i → Passed (db.pool.page 1) name j)
    → p_entry_read_by_index (db.pool.page 1) i ≡ some (some at)
    → HoldsText (db.pool.page 1).bytes at (name ++ more)
    → (search_table_from_pdir s (suc fuel) db.pool name
        ≡ some (some (1, load32 (db.pool.page 1).bytes (at + 28)), db.pool))
      × (db_1_tcreate s (suc fuel) db name attrs ≡ some (false, db))
unfolding search_pages db_1_tcreate
search_table_from_pdir-prefix s fuel db name more attrs i at inside below passed reads text =
    let finds : search_slots tableattrslimit 0 0 (db.pool.page 1) name ≡ some (at_entry i at) =
      search_slots_lem (db.pool.page 1) name i at inside passed reads
        (strcmp-prefix name more (db.pool.page 1).bytes at text) i tableattrslimit 0 (omega arith)
        below in
    (rw finds refl, rw finds refl)
