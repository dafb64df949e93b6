-- ===== src/Pool/Transfer.antt =====
-- src/pool/pool.c: a page is read into a block, and written from it. The file is a `Storage` of
-- pages, as in `Disk`; `none` is a read that is still going on when the fuel is out.
use dsm_db.Shared.{ℕ, ◌-◌, ◌/◌, ◌%◌, ◌^◌, Bool, ◌==◌, Option, some, if◌then◌else◌, ◌>>=◌}
use dsm_db.Disk.{Storage, dkreadincomp, dkwriteincomp, dk_read_page_by_pid, dk_write_page_by_pid}

abbrev pub pageloadaccp : ℕ
pageloadaccp = 2 ^ 32 - 1

abbrev pub pageloadfail : ℕ
pageloadfail = 2 ^ 32 - 2

abbrev pub pageswapaccp : ℕ
pageswapaccp = 2 ^ 32 - 3

abbrev pub pageswapfail : ℕ
pageswapfail = 2 ^ 32 - 4

-- DIRTYCHECK
abbrev pub dirtycheck : ℕ → Bool
dirtycheck flags = flags / 2 % 2 == 1

module _ {File Page : Type 0} (s : Storage File Page) where
  unfoldable pub page_bring_in : ℕ → File → ℕ → Page → Option (ℕ × Page)
  page_bring_in fuel file page_id page = do
    (r, page') ← dk_read_page_by_pid s fuel (λ _. file) page_id page
    some (if r == dkreadincomp then pageloadfail else pageloadaccp, page')

  unfoldable pub page_swap_out : File → ℕ → Page → ℕ × File
  page_swap_out file flags page =
      let (r, file') = dk_write_page_by_pid s file (s.page_id_of page) page in
      if dirtycheck flags
      then (if r == dkwriteincomp then pageswapfail else pageswapaccp, file')
      else (pageswapaccp, file)
