-- ===== src/Disk/Tests.antt =====
-- A file as a function from offsets to pages: runs, and the theorems at inputs that meet their
-- conditions.
use dsm_db.Shared.{
  ℕ, ◌*◌, ◌≡◌, refl, ◌∙◌, sym, ap, false, ◌==◌, none, if◌then◌else◌, arith, ==_refl,
}
use dsm_db.Disk.{page_size, Storage, IsStorage, dk_read_page_by_pid, dk_write_page_by_pid}
use dsm_db.Disk.Pages.{read-write_alias}

-- A page is its id.
abbrev Buffer : Type 0
Buffer = ℕ

abbrev File : Type 0
File = ℕ → Buffer

-- Every read and every write moves a whole page.
abbrev storage : Storage File Buffer
storage = record {
  page_id_of = λ b. b;
  read_page = λ f o y. (4096, f o);
  write_page = λ f o x. (4096, λ p. if p == o then x else f p);
}

storage-IsStorage : IsStorage storage
storage-IsStorage = record {
  read_back = λ f f' o x y h. ap (λ r. (4096, r.1 o)) (sym h) ∙ rw (==_refl o) refl;
  read_other = λ f f' i j n x y z ne h before.
      ap (λ r. (4096, r.1 (page_size * j))) (sym h)
      ∙ (let apart : (page_size * j == page_size * i) ≡ false = ground (arith, ne) in
          rw apart before);
}

abbrev page_of : ℕ → Buffer
page_of i = i

abbrev blank : File
blank _ = page_of 0

abbrev after : ℕ → File
after i = (dk_write_page_by_pid storage blank i (page_of i)).1

read-write_alias_example : dk_read_page_by_pid storage 3 (λ _. after 1048583) 7 (page_of 9) ≡ none
unfolding dk_write_page_by_pid
read-write_alias_example =
    read-write_alias storage storage-IsStorage blank (after 1048583) 7 3 (page_of 1048583)
      (page_of 9) refl refl
