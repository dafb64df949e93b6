-- ===== src/Disk.antt =====
-- include/disk.h and src/disk/disk.c: pages in a file. The system's lseek and read, and lseek and
-- write, under the lock of the disk, are two operations of a `Storage`. A page buffer is of any type
-- with a page id, which the read checks. An lseek that fails ends the process and is left out.
use dsm_db.Shared.{
  ℕ, zero, suc, ◌+◌, ◌*◌, ◌%◌, ◌^◌, ◌≡◌, ◌≢◌, true, false, ◌==◌, Option, some, none, if◌then◌else◌,
}
pub mod Pages
mod Tests

abbrev pub page_size : ℕ
page_size = 4096

abbrev pub dkreadincomp : ℕ
dkreadincomp = 2

abbrev pub dkreadaccept : ℕ
dkreadaccept = 0

abbrev pub dkwriteincomp : ℕ
dkwriteincomp = 3

abbrev pub dkwriteaccept : ℕ
dkwriteaccept = 1

-- A page at an offset: the count of bytes that were moved, and the buffer, or the file, after it.
pub record Storage (File Buffer : Type 0) : Type 0 where
  pub page_id_of : Buffer → ℕ
  pub read_page : File → ℕ → Buffer → ℕ × Buffer
  pub write_page : File → ℕ → Buffer → ℕ × File

-- What is relied on: a page that was written whole is read whole, and pages at other multiples of
-- the page size that were read whole stay as they were. (A read at the end of the file or behind it,
-- of fewer bytes, may give more after a write.)
pub record IsStorage {File Buffer : Type 0} (s : Storage File Buffer) : Type 0 where
  pub read_back :
      (f f' : File) (o : ℕ) (x y : Buffer)
      → s.write_page f o x ≡ (page_size, f')
      → s.read_page f' o y ≡ (page_size, x)
  pub read_other :
      (f f' : File) (i j n : ℕ) (x y z : Buffer)
      → i ≢ j
      → s.write_page f (page_size * i) x ≡ (n, f')
      → s.read_page f (page_size * j) y ≡ (page_size, z)
      → s.read_page f' (page_size * j) y ≡ (page_size, z)

-- PAGESIZE * page_id, which is computed in 32 bits
unfoldable pub page_offset : ℕ → ℕ
page_offset page_id = page_size * page_id % 2 ^ 32

-- The read, again and again until the buffer has the page's id, in the file as it is at each round.
-- `none` stands for a read that is still going on when the fuel is out.
unfoldable pub dk_read_page_by_pid :
    {File Buffer : Type 0} → Storage File Buffer → ℕ → (ℕ → File) → ℕ → Buffer → Option (ℕ × Buffer)
dk_read_page_by_pid s zero file page_id to = none
dk_read_page_by_pid s (suc f) file page_id to =
    let (readn, buffer) = s.read_page (file 0) (page_offset page_id) to in
    let again = dk_read_page_by_pid s f (λ k. file (k + 1)) page_id buffer in
    if s.page_id_of buffer == page_id
    then some (if readn == page_size then dkreadaccept else dkreadincomp, buffer)
    else again

unfoldable pub dk_write_page_by_pid :
    {File Buffer : Type 0} → Storage File Buffer → File → ℕ → Buffer → ℕ × File
dk_write_page_by_pid s file page_id from =
    let (writen, file') = s.write_page file (page_offset page_id) from in
    (if writen == page_size then dkwriteaccept else dkwriteincomp, file')
